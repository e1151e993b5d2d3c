-- ===== src/Table/Placing.antt =====
-- `map_get`, and `map_set` behind its resize (src/vm.c), against the view of the entries.
use mathlib.Core.Bool.{false≢true}
use opo.Base.{
  ℕ, zero, suc, ◌+◌, ◌<◌, ◌≡◌, inl, inr, sym, ap, ◌∙◌, Bool, true, false, List, [], ◌∷◌, Option,
  none, some, if◌then◌else◌, set, length, length-set, arith, Bool-cases, Option-cases, ◌==◌,
  get_or-set,
}
use opo.Heap.{MapEntry, ObjMap, empty_entry}
use opo.Table.Probing.{hits_once, Vacancy, search_ends}
use opo.Table.View.{
  Keys, used_count, used_count-set, hits, view, view-found, view-none, view-eq-none, view-eq-some,
  used_at, Reached, IsProbed, IsValid,
}
use opo.Table.{RcEvent, retains, releases, entry, place, map_get}
use opo.Value.{Value, void_value}

-- What `map_get` makes of the view.
abbrev pub or_void : Option Value → Value
or_void none = void_value
or_void (some v) = v

-- The events of an insertion, by what the key showed before: the old value is dropped and the new
-- one taken on, or the key and the value are taken on.
abbrev pub placed_by : Value → Value → Option Value → List RcEvent
placed_by key value none = retains key ∷ retains value ∷ []
placed_by key value (some old) = releases old ∷ retains value ∷ []

-- The count of entries behind an insertion.
abbrev pub grown : ℕ → Option Value → ℕ
grown n none = n + 1
grown n (some old) = n

entry-set :
    (es : List MapEntry) (i : ℕ) (e : MapEntry) (j : ℕ)
    → i < length es
    → entry (set es i e) j ≡ (if j == i then e else entry es j)
entry-set es i e j h = get_or-set es i e empty_entry j h

used-within : (es : List MapEntry) (i : ℕ) → used_at es i ≡ true → i < length es
used-within [] i h = absurd (false≢true h)
used-within (e ∷ es) zero h = omega arith
used-within (e ∷ es) (suc i) h = omega (arith, used-within es i h)

module _ (hash : Value → ℕ) (equal : Value → Value → Bool) (IsKey : Value → Type 0)
    (keys : Keys hash equal IsKey) where
  -- `map_get` ends, and returns what the view of the map shows, or `VAL_VOID` where that is
  -- nothing.
  pub map_get-view :
      (m : ObjMap) (key : Value)
      → IsValid hash equal IsKey m
      → IsKey key
      → map_get hash equal m key ≡ some (or_void (view equal m.entries key))
  unfolding map_get
  map_get-view m key valid is_key =
      let some_room : used_count m.entries < length m.entries =
        omega (arith, valid.counted, valid.roomy, valid.large) in
      elim (search_ends hash equal IsKey keys m.entries valid.probed key is_key some_room) [
        | inl (i, at_slot, hit) ↦
            let once = hits_once hash equal IsKey keys m.entries valid.probed key is_key in
            rw (view-found equal m.entries key i hit (λ j k. once i j hit k), at_slot)
              (ground (arith, valid.large))
        | inr (i, vacancy) ↦
            rw (view-none equal m.entries key vacancy.no_hit, vacancy.search)
              (ground (arith, valid.large))
      ]

  Reached-mono :
      (es es' : List MapEntry) (key : Value) (i : ℕ)
      → length es' ≡ length es
      → ((j : ℕ) → used_at es j ≡ true → used_at es' j ≡ true)
      → Reached hash equal es key i
      → Reached hash equal es' key i
  Reached-mono es es' key i same more r = record {
    distance = r.distance;
    near = omega (arith, r.near);
    there = rw same r.there;
    no_gap = λ e l. rw same (more _ (r.no_gap e l));
  }

  -- Values may change, where keys and uses stay.
  IsProbed-same :
      (es es' : List MapEntry)
      → length es' ≡ length es
      → ((j : ℕ) → (used_at es' j ≡ used_at es j) × ((entry es' j).key ≡ (entry es j).key))
      → IsProbed hash equal IsKey es
      → IsProbed hash equal IsKey es'
  IsProbed-same es es' len same p = record {
    is_key = λ i u. rw (same i).1 (p.is_key i (sym (same i).0 ∙ u));
    reached = λ i u.
        rw (same i).1
          (Reached-mono es es' _ i len (λ j v. (same j).0 ∙ v) (p.reached i (sym (same i).0 ∙ u)));
    unique = λ i j u v e.
        p.unique i j (sym (same i).0 ∙ u) (sym (same j).0 ∙ v) (rw ((same i).1, (same j).1) at e);
  }

  -- Tables with the same hits, that show the same values at them.
  view_congr :
      (es es' : List MapEntry) (q : Value)
      → IsProbed hash equal IsKey es'
      → IsKey q
      → ((j : ℕ) → hits equal q (entry es' j) ≡ hits equal q (entry es j))
      → ((j : ℕ) → hits equal q (entry es j) ≡ true → (entry es' j).value ≡ (entry es j).value)
      → view equal es' q ≡ view equal es q
  view_congr es es' q probed is_key same value = elim (Option-cases (view equal es q)) [
    | inl nothing ↦
        view-none equal es' q (λ j. same j ∙ view-eq-none equal es q j nothing) ∙ sym nothing
    | inr (v, shown) ↦
        let (i, hit, at_i) = view-eq-some equal es q {v = v} shown in
        view-found equal es' q i (same i ∙ hit)
          (λ j k. hits_once hash equal IsKey keys es' probed q is_key i j (same i ∙ hit) k)
        ∙ ap some (value i hit ∙ at_i)
        ∙ sym shown
  ]

  abbrev pub update : (Value → Option Value) → Value → Value → Value → Option Value
  update f key v q = if equal key q then some v else f q

  -- What an insertion behind the resize promises.
  pub record Places (m : ObjMap) (key value : Value) (m' : ObjMap) : Type 0 where
    pub width : length m'.entries ≡ length m.entries
    pub counted : m'.count ≡ used_count m'.entries
    pub grows : m'.count ≡ grown m.count (view equal m.entries key)
    pub probed : IsProbed hash equal IsKey m'.entries
    pub reads :
        (q : Value) → IsKey q → view equal m'.entries q ≡ update (view equal m.entries) key value q

  module _ (m : ObjMap) (key value : Value) (counted : m.count ≡ used_count m.entries)
      (room : used_count m.entries < length m.entries)
      (probed : IsProbed hash equal IsKey m.entries) (is_key : IsKey key) where
    abbrev es : List MapEntry
    es = m.entries

    module _ (i : ℕ) (hit : hits equal key (entry es i) ≡ true) where
      abbrev rewritten : List MapEntry
      rewritten =
          set es i
            (record { key = (entry es i).key; value = value; is_used = (entry es i).is_used })

      hit_used : used_at es i ≡ true
      hit_used = ground arith

      same_keys :
          (j : ℕ)
          → (used_at rewritten j ≡ used_at es j) × ((entry rewritten j).key ≡ (entry es j).key)
      same_keys j = ground (
        arith,
        entry-set es i
            (record { key = (entry es i).key; value = value; is_used = (entry es i).is_used }) j
            (used-within es i hit_used),
      )

      rewritten-IsProbed : IsProbed hash equal IsKey rewritten
      rewritten-IsProbed = IsProbed-same es rewritten (length-set es i _) same_keys probed

      rewritten_value :
          (j : ℕ) → (entry rewritten j).value ≡ (if j == i then value else (entry es j).value)
      rewritten_value j = ground (
        arith,
        entry-set es i
            (record { key = (entry es i).key; value = value; is_used = (entry es i).is_used }) j
            (used-within es i hit_used),
      )

      same_hits : (q : Value) (j : ℕ) → hits equal q (entry rewritten j) ≡ hits equal q (entry es j)
      same_hits q j = ground (arith, same_keys j)

      rewritten_reads :
          (q : Value) → IsKey q → view equal rewritten q ≡ update (view equal es) key value q
      rewritten_reads q is_q = elim (Bool-cases (equal key q)) [
        | inl same ↦
            let at_q : hits equal q (entry rewritten i) ≡ true =
              same_hits q i
              ∙ ground (
                arith,
                keys.equal_trans (entry es i).key key q (probed.is_key i hit_used) is_key is_q,
              ) in
            rw same (
              view-found equal rewritten q i at_q (λ j k.
                hits_once hash equal IsKey keys rewritten rewritten-IsProbed q is_q i j at_q k)
              ∙ ap some (ground (arith, rewritten_value i)))
        | inr other ↦
            let not_i : hits equal q (entry es i) ≡ false = ground (
              arith,
              keys.equal_symm (entry es i).key key (probed.is_key i hit_used) is_key,
              keys.equal_trans key (entry es i).key q is_key (probed.is_key i hit_used) is_q,
            ) in
            rw other (
              view_congr es rewritten q rewritten-IsProbed is_q (same_hits q)
                (λ j k. ground (arith, rewritten_value j)))
      ]

    module _ (i : ℕ) (vacancy : Vacancy hash equal IsKey keys es probed key is_key i) where
      abbrev filled : List MapEntry
      filled = set es i (record { key = key; value = value; is_used = true })

      at :
          (j : ℕ)
          → entry filled j
            ≡ (if j == i then record { key = key; value = value; is_used = true } else entry es j)
      at j = entry-set es i _ j vacancy.within

      more_used : (j : ℕ) → used_at es j ≡ true → used_at filled j ≡ true
      more_used j u = ground (arith, at j)

      -- The new key is equal to no other key in use.
      new_key : (j : ℕ) → used_at es j ≡ true → equal key (entry es j).key ≡ false
      new_key j u =
          ground (
            arith,
            vacancy.no_hit j,
            keys.equal_symm key (entry es j).key is_key (probed.is_key j u),
          )

      filled-Reached :
          (j : ℕ) → used_at filled j ≡ true → Reached hash equal filled (entry filled j).key j
      filled-Reached j u = elim (Bool-cases (j == i)) [
        | inl here ↦
            let here' : j ≡ i = ground arith in
            rw (at j, here, here')
              (Reached-mono es filled key i (length-set es i _) more_used vacancy.reached)
        | inr there ↦
            rw (at j, there)
              (Reached-mono es filled _ j (length-set es i _) more_used
                (probed.reached j (ground (arith, at j))))
      ]

      filled_unique :
          (j k : ℕ)
          → used_at filled j ≡ true
          → used_at filled k ≡ true
          → equal (entry filled j).key (entry filled k).key ≡ true
          → j ≡ k
      filled_unique j k u v e = elim (Bool-cases (j == i)) [
        | inl j_here ↦ elim (Bool-cases (k == i)) [
          | inl k_here ↦ ground arith
          | inr k_old ↦
              absurd
                (false≢true (sym (new_key k (ground (arith, at k))) ∙ ground (arith, at j, at k)))
        ]
        | inr j_old ↦ elim (Bool-cases (k == i)) [
          | inl k_here ↦
              let uj : used_at es j ≡ true = ground (arith, at j) in
              absurd (
                false≢true (
                  sym (new_key j uj)
                  ∙ keys.equal_symm (entry es j).key key (probed.is_key j uj) is_key
                      (ground (arith, at j, at k))))
          | inr k_old ↦
              probed.unique j k (ground (arith, at j)) (ground (arith, at k))
                (ground (arith, at j, at k))
        ]
      ]

      filled-IsProbed : IsProbed hash equal IsKey filled
      filled-IsProbed = record {
        is_key = λ j u. elim (Bool-cases (j == i)) [
          | inl here ↦ rw (at j, here) is_key
          | inr there ↦ rw (at j, there) (probed.is_key j (ground (arith, at j)))
        ];
        reached = filled-Reached;
        unique = filled_unique;
      }

      filled_reads :
          (q : Value) → IsKey q → view equal filled q ≡ update (view equal es) key value q
      filled_reads q is_q = elim (Bool-cases (equal key q)) [
        | inl same ↦
            let at_q : hits equal q (entry filled i) ≡ true = ground (arith, at i) in
            rw same (
              view-found equal filled q i at_q
                (λ j k. hits_once hash equal IsKey keys filled filled-IsProbed q is_q i j at_q k)
              ∙ ap some (ground (arith, at i)))
        | inr other ↦ rw other (
            view_congr es filled q filled-IsProbed is_q (λ j. ground (arith, at j, vacancy.no_use))
              (λ j k. ground (arith, at j, vacancy.no_use)))
      ]

    -- An insertion into a table with room ends, and does what it promises.
    pub place-Places :
        (m' : ObjMap) × (place hash equal m key value
          ≡ some (m', placed_by key value (view equal es key)))
        × Places m key value m'
    unfolding place
    place-Places = elim (search_ends hash equal IsKey keys es probed key is_key room) [
      | inl (i, at_slot, hit) ↦
          let seen =
            view-found equal es key i hit
              (λ j k. hits_once hash equal IsKey keys es probed key is_key i j hit k) in
          (
            record m { entries = rewritten i hit },
            rw (at_slot, place, seen),
            record {
              width = length-set es i _;
              counted = ground (
                arith,
                used_count-set es i
                    (record {
                      key = (entry es i).key;
                      value = value;
                      is_used = (entry es i).is_used;
                    })
                    (used-within es i (hit_used i hit)),
              );
              grows = rw seen;
              probed = rewritten-IsProbed i hit;
              reads = rewritten_reads i hit;
            },
          )
      | inr (i, vacancy) ↦
          let unseen = view-none equal es key vacancy.no_hit in
          (
            record { entries = filled i vacancy; count = m.count + 1 },
            rw (vacancy.search, place, unseen),
            record {
              width = length-set es i _;
              counted = ground (
                arith,
                vacancy.no_use,
                used_count-set es i (record { key = key; value = value; is_used = true })
                    vacancy.within,
              );
              grows = rw unseen;
              probed = filled-IsProbed i vacancy;
              reads = filled_reads i vacancy;
            },
          )
    ]
