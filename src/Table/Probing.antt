-- ===== src/Table/Probing.antt =====
-- The search loop shared by `map_set`, `map_get` and `native_delete` of src/vm.c.
use native.Mathlib.Nat.{mod-lt, mod-add-mod, mod-eq_of_lt, add-mod_right}
use mathlib.Core.Bool.{false≢true}
use opo.Base.{
  ℕ, zero, suc, ◌+◌, ◌-◌, ◌%◌, ◌≤◌, ◌<◌, ◌≡◌, ◌≢◌, ◌⊎◌, inl, inr, refl, sym, ap, ◌∙◌, Bool, true,
  false, List, length, arith, Bool-cases, dec_lt, subst,
}
use opo.Heap.{MapEntry}
use opo.Table.View.{Keys, used_count, hits, some_unused, slot, used_at, Reached, IsProbed}
use opo.Table.{Probe, found, free, spins, entry, home, probe, search_for}
use opo.Value.{Value}

slot_next : (n s d : ℕ) → ((s + d) % n + 1) % n ≡ (s + suc d) % n
slot_next n s d = mod-add-mod (s + d) n 1 ∙ ap (λ (x : ℕ). x % n) (omega arith)

-- Every slot of a ring is at some distance from a given one.
slot_onto : (n s i : ℕ) → s < n → i < n → (d : ℕ) × (d < n) × ((s + d) % n ≡ i)
slot_onto n s i hs hi = elim (dec_lt i s) [
  | no after ↦ (i - s, omega arith, ap (λ (x : ℕ). x % n) (omega arith) ∙ mod-eq_of_lt hi)
  | yes before ↦ (
    i + n - s,
    omega arith,
    ap (λ (x : ℕ). x % n) (omega arith) ∙ add-mod_right i n ∙ mod-eq_of_lt hi,
  )
]

module _ (hash : Value → ℕ) (equal : Value → Value → Bool) (es : List MapEntry) (key : Value) where
  abbrev slot_of : ℕ → ℕ
  slot_of d = slot hash equal es key d

  -- The slots at these distances are in use, by other keys.
  abbrev Passed : ℕ → ℕ → Type 0
  Passed d e =
      (k : ℕ)
      → d ≤ k
      → k < e
      → ((entry es (slot_of k)).is_used ≡ true) × (equal (entry es (slot_of k)).key key ≡ false)

  -- Where a search from distance `d` ends, within `f` steps.
  abbrev Ends : ℕ → ℕ → Probe → Type 0
  Ends d f (found i) =
      (e : ℕ) × (d ≤ e)
      × (e < d + f)
      × (slot_of e ≡ i)
      × (hits equal key (entry es i) ≡ true)
      × Passed d e
  Ends d f (free i) =
      (e : ℕ) × (d ≤ e)
      × (e < d + f)
      × (slot_of e ≡ i)
      × ((entry es i).is_used ≡ false)
      × Passed d e
  Ends d f spins = Passed d (d + f)

  Passed-cons :
      (d e : ℕ)
      → (entry es (slot_of d)).is_used ≡ true
      → equal (entry es (slot_of d)).key key ≡ false
      → Passed (suc d) e
      → Passed d e
  Passed-cons d e u n p k h l = elim (dec_lt d k) [
    | yes later ↦ p k later l
    | no here ↦ let same : k ≡ d = omega arith in rw same (u, n)
  ]

  Ends-cons :
      (d f : ℕ) (r : Probe)
      → (entry es (slot_of d)).is_used ≡ true
      → equal (entry es (slot_of d)).key key ≡ false
      → Ends (suc d) f r
      → Ends d (suc f) r
  Ends-cons d f (found i) u n (e, h, l, at_i, hit, p) =
      (e, omega arith, omega arith, at_i, hit, Passed-cons d e u n p)
  Ends-cons d f (free i) u n (e, h, l, at_i, no_use, p) =
      (e, omega arith, omega arith, at_i, no_use, Passed-cons d e u n p)
  Ends-cons d f spins u n p = λ k h l. Passed-cons d (suc d + f) u n p k h (omega arith)

  probe-Ends : (f d : ℕ) → Ends d f (probe hash equal f es key (slot_of d))
  unfolding probe
  probe-Ends zero d = λ k h l. absurd (omega arith)
  probe-Ends (suc f) d = elim (Bool-cases (entry es (slot_of d)).is_used) [
    | inr no_use ↦
        rw no_use (d, omega arith, omega arith, refl, no_use, λ k h l. absurd (omega arith))
    | inl in_use ↦ rw in_use (elim (Bool-cases (equal (entry es (slot_of d)).key key)) [
      | inl same ↦
          rw same (d, omega arith, omega arith, refl, ground arith, λ k h l. absurd (omega arith))
      | inr other ↦ rw other (
          Ends-cons d f _ in_use other
            (rw (slot_next (length es) (home hash equal es key) d) (probe-Ends f (suc d))))
    ])
  ]

slot_zero : (n h : ℕ) → (h % n + 0) % n ≡ h % n
slot_zero n h = mod-add-mod h n 0 ∙ ap (λ (x : ℕ). x % n) (omega arith)

found≢free : (i j : ℕ) → found i ≢ free j
found≢free i j e = cc

module _ (hash : Value → ℕ) (equal : Value → Value → Bool) (IsKey : Value → Type 0)
    (keys : Keys hash equal IsKey) (es : List MapEntry) (probed : IsProbed hash equal IsKey es)
    (key : Value) (is_key : IsKey key) where
  search_from_home : Ends hash equal es key 0 (length es) (search_for hash equal es key)
  search_from_home =
      rw (slot_zero (length es) (hash key)) at (probe-Ends hash equal es key (length es) 0)

  -- The hit entry is the only one.
  pub hits_once :
      (i j : ℕ) → hits equal key (entry es i) ≡ true → hits equal key (entry es j) ≡ true → j ≡ i
  hits_once i j h k =
      let ui : used_at es i ≡ true = ground arith in
      let uj : used_at es j ≡ true = ground arith in
      let ki = probed.is_key i ui in
      let kj = probed.is_key j uj in
      probed.unique j i uj ui (
        keys.equal_trans _ key _ kj is_key ki (ground arith)
          (keys.equal_symm _ key ki is_key (ground arith)))

  -- A hit entry lies at some distance behind the home of the key.
  hit-Reached : (i : ℕ) → hits equal key (entry es i) ≡ true → Reached hash equal es key i
  hit-Reached i h =
      let r = probed.reached i (ground arith) in
      let same = keys.hash-equal _ key (probed.is_key i (ground arith)) is_key (ground arith) in
      record {
        distance = r.distance;
        near = r.near;
        there = rw (← same) r.there;
        no_gap = λ e l. rw (← same) (r.no_gap e l);
      }

  Ends-hit :
      (i : ℕ)
      → hits equal key (entry es i) ≡ true
      → (r : Probe) → Ends hash equal es key 0 (length es) r
      → r ≡ found i
  Ends-hit i h (found j) (e, _, _, _, hit, _) = ap found (hits_once i j h hit)
  Ends-hit i h (free j) (e, _, _, at_j, no_use, passed) =
      let r = hit-Reached i h in
      let d = r.distance in
      elim (dec_lt e d) [
        | yes before ↦ absurd (false≢true (sym no_use ∙ rw at_j at (r.no_gap e before)))
        | no after ↦ elim (dec_lt d e) [
          | yes passed_by ↦
              absurd (
                false≢true
                  (sym (rw r.there at (passed d (omega arith) passed_by)).1 ∙ ground arith))
          | no at_end ↦
              let same : d ≡ e = omega arith in
              let there : i ≡ j = sym r.there ∙ ap (slot hash equal es key) same ∙ at_j in
              absurd (
                false≢true
                  (sym (subst (λ x. used_at es x ≡ false) (sym there) no_use) ∙ ground arith))
        ]
      ]
  Ends-hit i h spins passed =
      let r = hit-Reached i h in
      absurd (
        false≢true (
          sym (rw r.there at (passed r.distance (omega arith) (omega (arith, r.near)))).1
          ∙ ground arith))

  -- An entry with the key is found.
  pub search_hit :
      (i : ℕ) → hits equal key (entry es i) ≡ true → search_for hash equal es key ≡ found i
  search_hit i h = Ends-hit i h (search_for hash equal es key) search_from_home

  -- Where a search stops without a hit: at an unused slot that the key reaches, and there is no
  -- entry with the key.
  pub record Vacancy (i : ℕ) : Type 0 where
    pub search : search_for hash equal es key ≡ free i
    pub within : i < length es
    pub no_use : used_at es i ≡ false
    pub reached : Reached hash equal es key i
    pub no_hit : (j : ℕ) → hits equal key (entry es j) ≡ false

  Ends-room :
      (r : Probe)
      → search_for hash equal es key ≡ r
      → (u : ℕ) × (u < length es) × (used_at es u ≡ false)
      → Ends hash equal es key 0 (length es) r
      → ((i : ℕ) × (search_for hash equal es key ≡ found i) × (hits equal key (entry es i) ≡ true))
        ⊎ ((i : ℕ) × Vacancy i)
  Ends-room (found i) s room (e, _, _, _, hit, _) = inl (i, s, hit)
  Ends-room (free i) s room (e, _, near, at_i, no_use, passed) = inr (
    i,
    record {
      search = s;
      within = rw (← at_i) (mod-lt _ (omega arith));
      no_use = no_use;
      reached = record {
        distance = e;
        near = omega arith;
        there = at_i;
        no_gap = λ k l. (passed k (omega arith) l).0;
      };
      no_hit = λ j. elim (Bool-cases (hits equal key (entry es j))) [
        | inr no_hit ↦ no_hit
        | inl hit ↦ absurd (found≢free j i (sym (search_hit j hit) ∙ s))
      ];
    },
  )
  Ends-room spins s (u, lt, no_use) passed =
      let pos : 0 < length es = omega arith in
      let (d, near, there) = slot_onto (length es) (home hash equal es key) u (mod-lt _ pos) lt in
      absurd (false≢true (sym no_use ∙ (rw there at (passed d (omega arith) (omega arith))).0))

  -- With an unused entry in the table every search ends.
  pub search_ends :
      used_count es < length es
      → ((i : ℕ) × (search_for hash equal es key ≡ found i) × (hits equal key (entry es i) ≡ true))
        ⊎ ((i : ℕ) × Vacancy i)
  search_ends room =
      Ends-room (search_for hash equal es key) refl (some_unused es room) search_from_home
