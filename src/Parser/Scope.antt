-- ===== src/Parser/Scope.antt =====
-- The locals and the compile-time type stack of src/compiler.c: what `add_local` declares,
-- `resolve_local` finds, and what `type_push` pushes, `type_pop` gives back.
use opo.Base.{
  subst, ◌∷◌, ap₂, ℕ, zero, suc, ◌+◌, ◌-◌, ◌≤◌, ◌<◌, ◌≡◌, refl, sym, ap, ◌∙◌, Option, none, some,
  List, if◌then◌else◌, get_or, bytes_eq, arith, [],
}
use opo.Parser.Names.{
  put_at, blank_local, last_local, resolve_local, add_local, blank_operand, type_push, type_pop,
}
use opo.Parser.{Lexeme, text, Local, State, Outcome, ok, stop, Operand, bind, ◌>>=◌, ◌>>◌}
use opo.Vm.{stack_max}

get_or-put_at {ℓ} :
    {A : Type ℓ} (blank v : A) (xs : List A) (i : ℕ) → get_or (put_at blank xs i v) i blank ≡ v
unfolding put_at
get_or-put_at blank v [] zero = refl
get_or-put_at blank v [] (suc i) = get_or-put_at blank v [] i
get_or-put_at blank v (x ∷ xs) zero = refl
get_or-put_at blank v (x ∷ xs) (suc i) = get_or-put_at blank v xs i

get_or-put_at_below {ℓ} :
    {A : Type ℓ} (blank v : A) (xs : List A) (i j : ℕ)
    → j < i
    → get_or (put_at blank xs i v) j blank ≡ get_or xs j blank
unfolding put_at
get_or-put_at_below blank v xs zero j l = absurd (omega arith)
get_or-put_at_below blank v [] (suc i) zero l = refl
get_or-put_at_below blank v [] (suc i) (suc j) l = get_or-put_at_below blank v [] i j (omega arith)
get_or-put_at_below blank v (x ∷ xs) (suc i) zero l = refl
get_or-put_at_below blank v (x ∷ xs) (suc i) (suc j) l =
    get_or-put_at_below blank v xs i j (omega arith)

-- The search below an entry does not see what is written there.
last_local-put_at :
    (v : Local) (locals : List Local) (name : List ℕ) (i j : ℕ)
    → j ≤ i
    → last_local j (put_at blank_local locals i v) name ≡ last_local j locals name
unfolding last_local
last_local-put_at v locals name i zero l = refl
last_local-put_at v locals name i (suc j) l =
    ap₂ (λ (x : Local) (r : Option ℕ). if bytes_eq name x.name then some j else r)
      (get_or-put_at_below blank_local v locals i j (omega arith))
      (last_local-put_at v locals name i j (omega arith))

last_local-put_at_last :
    (v : Local) (locals : List Local) (name : List ℕ) (n : ℕ)
    → last_local (n + 1) (put_at blank_local locals n v) name
      ≡ (if bytes_eq name v.name then some n else last_local n locals name)
unfolding last_local
last_local-put_at_last v locals name n =
    let next : n + 1 ≡ suc n = omega arith in
    ap (λ (m : ℕ). last_local m (put_at blank_local locals n v) name) next
    ∙ ap₂ (λ (x : Local) (r : Option ℕ). if bytes_eq name x.name then some n else r)
        (get_or-put_at blank_local v locals n) (last_local-put_at v locals name n n (omega arith))

-- The function returns, with a value and a state of which `Q` holds.
unfoldable pub Gives : {A : Type 0} → Outcome A → (A → State → Type 0) → Type 0
Gives (ok a t) Q = Q a t
Gives (stop e) Q = ⊥

pub Gives_ok :
    {A : Type 0} {a : A} {t : State} (r : Outcome A) (Q : A → State → Type 0)
    → r ≡ ok a t
    → Q a t
    → Gives r Q
unfolding Gives
Gives_ok r Q e q = subst (λ r. Gives r Q) (sym e) q

unfoldable pub drop_locals : ℕ → State → State
drop_locals count t = record t { compiler = record t.compiler { local_count = count } }

-- What `resolve_local` finds.
abbrev pub local_of : List ℕ → State → Option ℕ
local_of name s = last_local s.compiler.local_count s.compiler.locals name

resolve_local_lem :
    (name : List ℕ) (s : State)
    → s.compiler.local_count ≤ 256
    → resolve_local name s ≡ ok (local_of name s) s
unfolding resolve_local
resolve_local_lem name s l = ground (arith, l)

abbrev with_local : Lexeme → ℕ → State → State
with_local name type s = record s {
  compiler = record s.compiler {
    locals = put_at blank_local s.compiler.locals s.compiler.local_count (record {
      name = text name;
      type = type;
      depth = s.compiler.scope_depth;
      guarded_depth = 0;
      guarded_variant = none;
    });
    local_count = s.compiler.local_count + 1;
  };
}

add_local_lem :
    (name : Lexeme) (type : ℕ) (s : State)
    → s.compiler.local_count < 256
    → add_local name type s ≡ ok tt (with_local name type s)
unfolding add_local
add_local_lem name type s l = ground (arith, l)

local_of-with_local :
    (name : Lexeme) (type : ℕ) (other : List ℕ) (s : State)
    → local_of other (with_local name type s)
      ≡ (if bytes_eq other (text name) then some s.compiler.local_count else local_of other s)
local_of-with_local name type other s =
    last_local-put_at_last _ s.compiler.locals other s.compiler.local_count

dropped :
    (name : Lexeme) (type : ℕ) (other : List ℕ) (s : State)
    → s.compiler.local_count < 256
    → resolve_local other (drop_locals s.compiler.local_count (with_local name type s))
      ≡ ok (local_of other s) (drop_locals s.compiler.local_count (with_local name type s))
unfolding drop_locals
dropped name type other s l =
    let t = drop_locals s.compiler.local_count (with_local name type s) in
    resolve_local_lem other t (omega arith)
    ∙ ap (λ i. ok i t)
        (last_local-put_at _ s.compiler.locals other s.compiler.local_count s.compiler.local_count
          (omega arith))

-- `add_local` with room for another local declares the name: where `resolve_local` looks for that
-- name it finds the new local, whatever locals of that name there are besides, and for any other
-- name what it found before. Once the count is back, as at the end of a scope, it finds what it
-- found before for every name.
pub resolve_local-add_local :
    (name : Lexeme) (type : ℕ) (other : List ℕ) (s : State)
    → s.compiler.local_count < 256
    → Gives (add_local name type s) (λ _ t.
      (resolve_local other t
        ≡ ok
            (if bytes_eq other (text name) then some s.compiler.local_count else local_of other s)
            t)
      × (resolve_local other (drop_locals s.compiler.local_count t)
          ≡ ok (local_of other s) (drop_locals s.compiler.local_count t)))
resolve_local-add_local name type other s l = Gives_ok _ _ (add_local_lem name type s l) (
  resolve_local_lem other (with_local name type s) (omega arith)
      ∙ ap (λ i. ok i (with_local name type s)) (local_of-with_local name type other s),
  dropped name type other s l,
)

abbrev pub operand : ℕ → State → Operand
operand type s = record { type = type; local_index = s.next_push_local }

abbrev pub with_operand : ℕ → State → State
with_operand type s = record s {
  compiler = record s.compiler {
    type_stack =
        put_at blank_operand s.compiler.type_stack s.compiler.type_stack_ptr (operand type s);
    type_stack_ptr = s.compiler.type_stack_ptr + 1;
  };
  next_push_local = none;
}

pub type_push_lem :
    (type : ℕ) (s : State)
    → s.compiler.type_stack_ptr < stack_max
    → type_push type s ≡ ok tt (with_operand type s)
unfolding type_push
type_push_lem type s l = ground (arith, l)

abbrev pub top : State → Operand
top t = get_or t.compiler.type_stack (t.compiler.type_stack_ptr - 1) blank_operand

type_pop_lem :
    (t : State)
    → 0 < t.compiler.type_stack_ptr
    → type_pop t
      ≡ ok (top t).type (record t {
        compiler = record t.compiler { type_stack_ptr = t.compiler.type_stack_ptr - 1 };
        popped_local = (top t).local_index;
      })
unfolding type_pop
type_pop_lem t l = ground (arith, l)

pub top-with_operand : (type : ℕ) (s : State) → top (with_operand type s) ≡ operand type s
top-with_operand type s =
    let n = s.compiler.type_stack_ptr in
    let stack = put_at blank_operand s.compiler.type_stack n (operand type s) in
    let back : n + 1 - 1 ≡ n = omega arith in
    ap (λ (i : ℕ). get_or stack i blank_operand) back
    ∙ get_or-put_at blank_operand (operand type s) s.compiler.type_stack n

-- With room on the compile-time type stack, what `type_push` pushes is what the next `type_pop`
-- gives back, with the local that `next_push_local` named, if any, in `popped_local`; that mark is
-- cleared, and the stack has the height that it had.
pub type_pop-type_push :
    (type : ℕ) (s : State)
    → s.compiler.type_stack_ptr < stack_max
    → Gives ((type_push type >> type_pop) s) (λ r t.
      (r ≡ type)
      × (t.popped_local ≡ s.next_push_local)
      × (t.next_push_local ≡ none)
      × (t.compiler.type_stack_ptr ≡ s.compiler.type_stack_ptr))
unfolding ◌>>=◌
type_pop-type_push type s l =
    Gives_ok _ _
      (ap (λ r. bind r (λ _. type_pop)) (type_push_lem type s l)
        ∙ type_pop_lem (with_operand type s) (omega arith))
      (
        ap (λ (o : Operand). o.type) (top-with_operand type s),
        ap (λ (o : Operand). o.local_index) (top-with_operand type s),
        refl,
        omega arith,
      )
