-- ===== src/Table/Resizing.antt =====
-- The whole of `map_set` (src/vm.c), with its resize.
use opo.Base.{
  ℕ, ◌+◌, ◌*◌, ◌≤◌, ◌<◌, ◌≡◌, inl, inr, sym, ap, ap₂, ◌∙◌, Bool, true, false, List, [], ◌++◌,
  Option, none, some, if◌then◌else◌, length, length-replicate, arith, Bool-cases,
}
use opo.Heap.{ObjMap, empty_entry}
use opo.Table.Placing.{placed_by, grown, place-Places}
use opo.Table.View.{Keys, view, IsValid}
use opo.Table.{RcEvent, is_loaded, doubled, rehash, set_on, map_set}
use opo.Value.{Value}
use opo.Table.Moving.{
  either, moved_by, Moves, rehash-Moves, Distinct-of_unique, view-replicate, used_count-replicate,
  replicate-IsProbed, set_on_loaded, set_on_unloaded,
}

module _ (hash : Value → ℕ) (equal : Value → Value → Bool) (IsKey : Value → Type 0)
    (keys : Keys hash equal IsKey) where
  module _ (m : ObjMap) (valid : IsValid hash equal IsKey m) where
    -- A resize keeps every entry, in a table of twice the size.
    resize-Moves :
        (m' : ObjMap) × (rehash (set_on hash equal 1) m.entries (doubled m) []
          ≡ some (m', moved_by m.entries))
        × Moves hash equal IsKey keys (doubled m) m.entries m'
    resize-Moves =
        rehash-Moves hash equal IsKey keys 0 m.entries (doubled m) []
          (Distinct-of_unique hash equal IsKey keys m.entries valid.probed.is_key
            valid.probed.unique)
          (λ q is_q. inr (view-replicate hash equal IsKey keys (length m.entries * 2) q))
          (rw length-replicate (omega (arith, valid.counted, valid.roomy, valid.large)))
          (sym (used_count-replicate hash equal IsKey keys (length m.entries * 2)))
          (replicate-IsProbed hash equal IsKey keys (length m.entries * 2))

    -- The events of the whole call.
    abbrev pub set_events : Value → Value → List RcEvent
    set_events key value =
        (if is_loaded m then moved_by m.entries else [])
        ++ placed_by key value (view equal m.entries key)

    -- What `map_set` promises: a valid map that shows the value at the key and all else as before,
    -- that has one entry more where the key was new, and that has doubled only where it was loaded.
    pub record Sets (key value : Value) (m' : ObjMap) : Type 0 where
      pub valid_after : IsValid hash equal IsKey m'
      pub width :
          length m'.entries ≡ (if is_loaded m then length m.entries * 2 else length m.entries)
      pub grows : m'.count ≡ grown m.count (view equal m.entries key)
      pub reads :
          (q : Value)
          → IsKey q
          → view equal m'.entries q ≡ (if equal key q then some value else view equal m.entries q)

    grown-le : (n : ℕ) (o : Option Value) → grown n o ≤ n + 1
    grown-le n none = omega arith
    grown-le n (some v) = omega arith

    module _ (key value : Value) (is_key : IsKey key) where
      set_loaded :
          is_loaded m ≡ true
          → (m' : ObjMap) × (set_on hash equal 2 m key value
              ≡ some (m', moved_by m.entries ++ placed_by key value (view equal m.entries key)))
            × Sets key value m'
      set_loaded loaded =
          let (m₁, run, moves) = resize-Moves in
          let n = length m.entries in
          let wide : length m₁.entries ≡ n * 2 =
            moves.width ∙ length-replicate (n * 2) empty_entry in
          let same : (q : Value) → IsKey q → view equal m₁.entries q ≡ view equal m.entries q =
            λ q is_q.
              moves.reads q is_q
              ∙ ap (λ o. either o (view equal m.entries q))
                  (view-replicate hash equal IsKey keys (n * 2) q) in
          let count₁ : m₁.count ≡ m.count = omega (arith, moves.total, valid.counted) in
          let (m', put, places) =
            place-Places hash equal IsKey keys m₁ key value moves.counted
              (omega (arith, moves.counted, valid.roomy, valid.large)) moves.probed is_key in
          let grew : m'.count ≡ grown m.count (view equal m.entries key) =
            places.grows ∙ ap₂ grown count₁ (same key is_key) in
          (
            m',
            set_on_loaded hash equal IsKey keys 1 m m₁ m' key value (moved_by m.entries) _
                  (omega (arith, valid.large)) loaded run put
                ∙ ap (λ o. some (m', moved_by m.entries ++ placed_by key value o))
                    (same key is_key),
            record {
              valid_after = record {
                counted = places.counted;
                roomy = omega (
                  arith,
                  grew,
                  grown-le m.count (view equal m.entries key),
                  places.width,
                  valid.roomy,
                  valid.large,
                );
                large = omega (arith, places.width, valid.large);
                probed = places.probed;
              };
              width = places.width ∙ wide ∙ rw loaded;
              grows = grew;
              reads = λ q is_q.
                  places.reads q is_q
                  ∙ ap (λ o. if equal key q then some value else o) (same q is_q);
            },
          )

      set_unloaded :
          is_loaded m ≡ false
          → (m' : ObjMap) × (set_on hash equal 2 m key value
              ≡ some (m', placed_by key value (view equal m.entries key)))
            × Sets key value m'
      set_unloaded light =
          let room : 10 * m.count < 7 * length m.entries = ground arith in
          let (m', put, places) =
            place-Places hash equal IsKey keys m key value valid.counted
              (omega (arith, valid.counted, valid.roomy, valid.large)) valid.probed is_key in
          (
            m',
            set_on_unloaded hash equal IsKey keys 1 m key value (omega (arith, valid.large)) room
                ∙ put,
            record {
              valid_after = record {
                counted = places.counted;
                roomy = omega (
                  arith,
                  places.grows,
                  grown-le m.count (view equal m.entries key),
                  places.width,
                  room,
                );
                large = omega (arith, places.width, valid.large);
                probed = places.probed;
              };
              width = places.width ∙ rw light;
              grows = places.grows;
              reads = places.reads;
            },
          )

      -- On a well-formed map, `map_set` ends; it nests in its own resize only once; and its result
      -- is well formed, shows the value under the key and every other key as before, counts a new
      -- key once, and doubles the table only where it was loaded. Its reference counting is that of
      -- the entries that the resize moves, then of the key and the value, or of the value that
      -- replaces the old one.
      pub map_set-Sets :
          (m' : ObjMap) × (map_set hash equal m key value ≡ some (m', set_events key value))
          × Sets key value m'
      unfolding map_set
      map_set-Sets = elim (Bool-cases (is_loaded m)) [
        | inl loaded ↦ rw loaded (set_loaded loaded)
        | inr light ↦ rw light (set_unloaded light)
      ]
