-- ===== src/Table/Moving.antt =====
-- The resize of `map_set` (src/vm.c): the entries of a table are entered into another one.
use mathlib.Core.Bool.{false≢true}
use mathlib.Core.List.{append-nil, append_assoc}
use opo.Base.{
  ℕ, zero, suc, ◌+◌, ◌*◌, ◌<◌, ◌≡◌, ◌⊎◌, inl, inr, refl, sym, ap, ◌∙◌, Bool, true, false, List, [],
  ◌∷◌, ◌++◌, Option, none, some, if◌then◌else◌, length, replicate, get_or-replicate, arith,
  Bool-cases,
}
use opo.Heap.{MapEntry, ObjMap, empty_entry}
use opo.Table.Placing.{placed_by, grown, Places, place-Places}
use opo.Table.View.{Keys, used_count, hits, view, view-none, used_at, IsProbed}
use opo.Table.{
  RcEvent, retains, releases, entry, Change, place, is_loaded, with_entries, doubled, rehash,
  set_on,
}
use opo.Value.{Value}

-- The first of two views, else the second.
abbrev pub either : Option Value → Option Value → Option Value
either none b = b
either (some a) b = some a

-- The events of a resize: each entry is taken on by the new table and dropped by the old one.
pub moved_by : List MapEntry → List RcEvent
moved_by [] = []
moved_by (e ∷ es) =
    if e.is_used
    then retains e.key ∷ retains e.value ∷ releases e.key ∷ releases e.value ∷ moved_by es
    else moved_by es

module _ (hash : Value → ℕ) (equal : Value → Value → Bool) (IsKey : Value → Type 0)
    (keys : Keys hash equal IsKey) where
  -- The used keys of a list of entries are keys, no two of them equal.
  abbrev pub Distinct : List MapEntry → Type 0
  Distinct [] = Unit {0}
  Distinct (e ∷ es) =
      (e.is_used ≡ true
        → IsKey e.key × ((q : Value) → IsKey q → equal e.key q ≡ true → view equal es q ≡ none))
      × Distinct es

  pub Distinct-of_unique :
      (es : List MapEntry)
      → ((i : ℕ) → used_at es i ≡ true → IsKey (entry es i).key)
      → ((i j : ℕ)
          → used_at es i ≡ true
          → used_at es j ≡ true
          → equal (entry es i).key (entry es j).key ≡ true
          → i ≡ j)
      → Distinct es
  Distinct-of_unique [] is_key unique = tt
  Distinct-of_unique (e ∷ es) is_key unique = (
    λ u. (
      is_key 0 u,
      λ q is_q same. view-none equal es q (λ j. elim (Bool-cases (hits equal q (entry es j))) [
        | inr no_hit ↦ no_hit
        | inl hit ↦
            let v : used_at es j ≡ true = ground arith in
            let is_j = is_key (suc j) v in
            absurd (
              omega (
                arith,
                unique 0 (suc j) u v (
                    keys.equal_trans e.key q _ (is_key 0 u) is_q is_j same
                      (keys.equal_symm _ q is_j is_q (ground arith))),
              ))
      ]),
    ),
    Distinct-of_unique es (λ i u. is_key (suc i) u)
        (λ i j u v e. omega (arith, unique (suc i) (suc j) u v e)),
  )

  -- In a table that is not loaded `map_set` does not resize.
  pub set_on_unloaded :
      (fuel : ℕ) (m : ObjMap) (key value : Value)
      → 0 < length m.entries
      → 10 * m.count < 7 * length m.entries
      → set_on hash equal (suc fuel) m key value ≡ place hash equal m key value
  unfolding set_on
  set_on_unloaded fuel m key value pos room = ground arith

  with_entries_none : (m : ObjMap) → 0 < length m.entries → with_entries m ≡ m
  with_entries_none m pos = ground arith

  pub set_on_loaded :
      (fuel : ℕ) (m m₁ m' : ObjMap) (key value : Value) (events more : List RcEvent)
      → 0 < length m.entries
      → is_loaded m ≡ true
      → rehash (set_on hash equal fuel) m.entries (doubled m) [] ≡ some (m₁, events)
      → place hash equal m₁ key value ≡ some (m', more)
      → set_on hash equal (suc fuel) m key value ≡ some (m', events ++ more)
  set_on_loaded fuel m m₁ m' key value events more pos loaded run put =
      unfold set_on in rw (with_entries_none m pos, loaded, run, put)

  -- What moving entries into a table promises.
  pub record Moves (m : ObjMap) (es : List MapEntry) (m' : ObjMap) : Type 0 where
    pub width : length m'.entries ≡ length m.entries
    pub counted : m'.count ≡ used_count m'.entries
    pub total : m'.count ≡ m.count + used_count es
    pub probed : IsProbed hash equal IsKey m'.entries
    pub reads :
        (q : Value)
        → IsKey q
        → view equal m'.entries q ≡ either (view equal m.entries q) (view equal es q)

  either-none : (o : Option Value) → either o none ≡ o
  either-none none = refl
  either-none (some v) = refl

  view_skip :
      (e : MapEntry) (es : List MapEntry) (q : Value)
      → e.is_used ≡ false
      → view equal (e ∷ es) q ≡ view equal es q
  unfolding view
  view_skip e es q h = ground arith

  view_used :
      (e : MapEntry) (es : List MapEntry) (q : Value)
      → e.is_used ≡ true
      → view equal (e ∷ es) q ≡ (if equal e.key q then some e.value else view equal es q)
  unfolding view
  view_used e es q h = ground arith

  module _ (set_one : ObjMap → Value → Value → Change) (e : MapEntry) (es : List MapEntry)
      (m : ObjMap) (events : List RcEvent) where
    rehash_skip : e.is_used ≡ false → rehash set_one (e ∷ es) m events ≡ rehash set_one es m events
    unfolding rehash
    rehash_skip h = rw (h, rehash)

    rehash_move :
        (m' : ObjMap) (new : List RcEvent)
        → e.is_used ≡ true
        → set_one m e.key e.value ≡ some (m', new)
        → rehash set_one (e ∷ es) m events
          ≡ rehash set_one es m' (events ++ (new ++ releases e.key ∷ releases e.value ∷ []))
    unfolding rehash
    rehash_move m' new h k = rw (h, k, rehash)

  -- One entry that is new to the table.
  move_one :
      (fuel : ℕ) (e : MapEntry) (m : ObjMap)
      → IsKey e.key
      → view equal m.entries e.key ≡ none
      → 10 * m.count < 7 * length m.entries
      → m.count ≡ used_count m.entries
      → IsProbed hash equal IsKey m.entries
      → (m' : ObjMap) × (set_on hash equal (suc fuel) m e.key e.value
          ≡ some (m', retains e.key ∷ retains e.value ∷ []))
        × Places hash equal IsKey keys m e.key e.value m'
  move_one fuel e m is_key absent room counted probed =
      let (m', run, places) =
        place-Places hash equal IsKey keys m e.key e.value counted (omega arith) probed is_key in
      (
        m',
        set_on_unloaded fuel m e.key e.value (omega arith) room
            ∙ run
            ∙ ap (λ o. some (m', placed_by e.key e.value o)) absent,
        places,
      )

  moved_skip :
      (e : MapEntry) (es : List MapEntry) → e.is_used ≡ false → moved_by (e ∷ es) ≡ moved_by es
  unfolding moved_by
  moved_skip e es h = rw h

  moved_used :
      (e : MapEntry) (es : List MapEntry)
      → e.is_used ≡ true
      → moved_by (e ∷ es)
        ≡ retains e.key ∷ retains e.value ∷ releases e.key ∷ releases e.value ∷ moved_by es
  unfolding moved_by
  moved_used e es h = rw h

  rehash-nil :
      (set_one : ObjMap → Value → Value → Change) (m : ObjMap) (events : List RcEvent)
      → rehash set_one [] m events ≡ some (m, events ++ moved_by [])
  unfolding rehash moved_by
  rehash-nil set_one m events = rw append-nil

  pub rehash-Moves :
      (fuel : ℕ) (es : List MapEntry) (m : ObjMap) (events : List RcEvent)
      → Distinct es
      → ((q : Value) → IsKey q → (view equal es q ≡ none) ⊎ (view equal m.entries q ≡ none))
      → 10 * (m.count + used_count es) < 7 * length m.entries
      → m.count ≡ used_count m.entries
      → IsProbed hash equal IsKey m.entries
      → (m' : ObjMap) × (rehash (set_on hash equal (suc fuel)) es m events
          ≡ some (m', events ++ moved_by es))
        × Moves m es m'
  unfolding used_count
  rehash-Moves fuel [] m events distinct apart room counted probed = (
    m,
    rehash-nil _ m events,
    record {
      width = refl;
      counted = counted;
      total = omega arith;
      probed = probed;
      reads = λ q is_q. unfold view in sym (either-none (view equal m.entries q));
    },
  )
  rehash-Moves fuel (e ∷ es) m events distinct apart room counted probed =
      elim (Bool-cases e.is_used) [
        | inr no_use ↦
            let (m', run, moves) =
              rehash-Moves fuel es m events distinct.1
                (λ q is_q. rw (view_skip e es q no_use) at (apart q is_q)) (ground arith) counted
                probed in
            (
              m',
              rehash_skip _ e es m events no_use
                  ∙ run
                  ∙ ap (λ t. some (m', events ++ t)) (sym (moved_skip e es no_use)),
              record {
                width = moves.width;
                counted = moves.counted;
                total = ground (arith, moves.total);
                probed = moves.probed;
                reads = λ q is_q. rw (view_skip e es q no_use) (moves.reads q is_q);
              },
            )
        | inl in_use ↦
            let (is_key, later) = distinct.0 in_use in
            let absent : view equal m.entries e.key ≡ none = ground (
              arith,
              apart e.key is_key,
              view_used e es e.key in_use,
              keys.equal_refl e.key is_key,
            ) in
            let (m₁, set, places) = move_one fuel e m is_key absent (ground arith) counted probed in
            let grew : m₁.count ≡ m.count + 1 = places.grows ∙ ap (grown m.count) absent in
            let (m', run, moves) =
              rehash-Moves fuel es m₁ _ distinct.1
                (λ q is_q.
                  ground (
                    arith,
                    apart q is_q,
                    later q is_q,
                    places.reads q is_q,
                    view_used e es q in_use,
                  ))
                (ground (arith, places.width)) places.counted places.probed in
            (
              m',
              rehash_move _ e es m events m₁ _ in_use set
                  ∙ run
                  ∙ ap (λ t. some (m', t))
                      (append_assoc events _ (moved_by es)
                        ∙ ap (◌++◌ events) (sym (moved_used e es in_use))),
              record {
                width = moves.width ∙ places.width;
                counted = moves.counted;
                total = ground (arith, moves.total);
                probed = moves.probed;
                reads = λ q is_q. ground (
                  arith,
                  apart q is_q,
                  later q is_q,
                  moves.reads q is_q,
                  places.reads q is_q,
                  view_used e es q in_use,
                );
              },
            )
      ]

  pub used_count-replicate : (n : ℕ) → used_count (replicate n empty_entry) ≡ 0
  unfolding used_count
  used_count-replicate zero = refl
  used_count-replicate (suc n) = omega (arith, used_count-replicate n)

  replicate_unused : (n i : ℕ) → used_at (replicate n empty_entry) i ≡ false
  replicate_unused n i = ap (λ (e : MapEntry). e.is_used) (get_or-replicate n empty_entry i)

  pub replicate-IsProbed : (n : ℕ) → IsProbed hash equal IsKey (replicate n empty_entry)
  replicate-IsProbed n = record {
    is_key = λ i u. absurd (false≢true (sym (replicate_unused n i) ∙ u));
    reached = λ i u. absurd (false≢true (sym (replicate_unused n i) ∙ u));
    unique = λ i j u v e. absurd (false≢true (sym (replicate_unused n i) ∙ u));
  }

  pub view-replicate : (n : ℕ) (q : Value) → view equal (replicate n empty_entry) q ≡ none
  view-replicate n q =
      view-none equal (replicate n empty_entry) q (λ j. ground (arith, replicate_unused n j))
