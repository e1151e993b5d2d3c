-- ===== src/Compiler/Assign.antt =====
-- The compile-time types of src/compiler.c: which type may stand where another is expected.
use opo.Base.{
  ℕ, Bool, true, false, ◌&&◌, ◌||◌, ◌==◌, if◌then◌else◌, ◌≡◌, ◌≢◌, arith, ℕ_discrete, Bool-cases,
  inl, inr, sym, subst, ◌∙◌,
}
use opo.Kind
use mathlib.Core.Bool.{false≢true}
use opo.Types.{type_kind, type_sub, type_key, is_func_kind}

-- The rules behind the early returns: for functions, objects, maps and enums, in this order.
abbrev pub is_open : ℕ → Bool
is_open sub = sub == 0 || sub == Kind.any

pub objects_agree : ℕ → ℕ → Bool
objects_agree expected actual =
    if is_open (type_sub expected) || type_sub actual == Kind.any
    then true
    else type_sub expected == type_sub actual

pub maps_agree : ℕ → ℕ → Bool
maps_agree expected actual =
    if is_open (type_sub expected)
    then true
    else if is_open (type_sub actual) || type_sub actual == Kind.void
    then true
    else type_sub expected == type_sub actual
      && (type_key expected == type_key actual || type_key actual == Kind.any)

abbrev pub keys_agree : ℕ → ℕ → Bool
keys_agree expected actual =
    if type_key expected == Kind.any || type_key actual == Kind.any
    then true
    else type_key expected == type_key actual

abbrev pub both_sub : ℕ → ℕ → ℕ → Bool
both_sub id expected actual = type_sub expected == id && type_sub actual == id

pub enums_agree : ℕ → ℕ → Bool
enums_agree expected actual =
    if both_sub Kind.option_enum_id expected actual
    then keys_agree expected actual
    else if both_sub Kind.result_enum_id expected actual
    then keys_agree expected actual
    else type_sub expected == type_sub actual

unfoldable pub kinds_agree : ℕ → ℕ → Bool
unfolding objects_agree maps_agree enums_agree
kinds_agree expected actual =
    let e = type_kind expected in
    let a = type_kind actual in
    if e == Kind.func && is_func_kind a || a == Kind.func && is_func_kind e
    then true
    else if e == Kind.obj && (a == Kind.str || a == Kind.map || a == Kind.obj)
    then objects_agree expected actual
    else if e == Kind.map && a == Kind.obj && type_sub expected == 0
    then true
    else if e == Kind.map && a == Kind.map
    then maps_agree expected actual
    else if e == Kind.enum && a == Kind.enum
    then enums_agree expected actual
    else false

unfoldable pub is_assignable : ℕ → ℕ → Bool
unfolding kinds_agree
is_assignable expected actual =
    if type_kind expected == Kind.any
    then true
    else if type_kind actual == Kind.any
    then false
    else if expected == actual
    then true
    else kinds_agree expected actual

unfoldable pub function_type_from_return : ℕ → ℕ
function_type_from_return return_type =
    let k = type_kind return_type in
    if k == Kind.int
    then Kind.func_int
    else if k == Kind.flt
    then Kind.func_flt
    else if k == Kind.bool
    then Kind.func_bool
    else if k == Kind.str
    then Kind.func_str
    else if k == Kind.void
    then Kind.func_void
    else Kind.func

-- `VAL_NONE` is both no type yet and no common type.
unfoldable pub unify_inferred_types : ℕ → ℕ → ℕ
unfolding is_assignable
unify_inferred_types current next =
    if current == Kind.none
    then next
    else if next == Kind.none
    then current
    else if current == next
    then current
    else if is_assignable current next
    then current
    else if is_assignable next current
    then next
    else Kind.none

-- A type may stand for itself.
is_assignable_refl : (t : ℕ) → is_assignable t t ≡ true
unfolding is_assignable
is_assignable_refl t = ground arith

not_zero : (n : ℕ) → n ≢ 0 → (n == Kind.none) ≡ false
not_zero n h = ground arith

unify_first : (c n : ℕ) → c ≢ 0 → n ≢ 0 → is_assignable c n ≡ true → unify_inferred_types c n ≡ c
unfolding unify_inferred_types
unify_first c n h k e = rw (e, not_zero c h, not_zero n k) (ground arith)

unify_second :
    (c n : ℕ)
    → c ≢ 0
    → n ≢ 0
    → is_assignable c n ≡ false
    → is_assignable n c ≡ true
    → unify_inferred_types c n ≡ n
unfolding unify_inferred_types
unify_second c n h k e f = rw (e, f, not_zero c h, not_zero n k) (ground arith)

unify_neither :
    (c n : ℕ)
    → c ≢ 0
    → n ≢ 0
    → is_assignable c n ≡ false
    → is_assignable n c ≡ false
    → unify_inferred_types c n ≢ 0
    → c ≡ n
unfolding unify_inferred_types
unify_neither c n h k e f u = elim (ℕ_discrete c n) [
  | yes same ↦ same
  | no differ ↦ absurd (u (none_left differ))
]
  where
    none_left : c ≢ n → unify_inferred_types c n ≡ 0
    none_left differ = rw (e, f, not_zero c h, not_zero n k) (ground arith)

-- Of two types that are known: where a common type is inferred, both of them may stand where that
-- type is expected.
pub unify_inferred_types-is_assignable :
    (current next : ℕ)
    → current ≢ 0
    → next ≢ 0
    → unify_inferred_types current next ≢ 0
    → (is_assignable (unify_inferred_types current next) current ≡ true)
      × (is_assignable (unify_inferred_types current next) next ≡ true)
unify_inferred_types-is_assignable current next h k u =
    elim (Bool-cases (is_assignable current next)) [
      | inl e ↦ rw (unify_first current next h k e) (is_assignable_refl current, e)
      | inr e ↦ elim (Bool-cases (is_assignable next current)) [
        | inl f ↦ rw (unify_second current next h k e f) (f, is_assignable_refl next)
        | inr f ↦ absurd (
            false≢true (
              sym e
              ∙ subst (λ (t : ℕ). is_assignable current t ≡ true)
                  (unify_neither current next h k e f u) (is_assignable_refl current)))
      ]
    ]
