-- ===== src/Tests/Tables.antt =====
-- The theorems on the values, the heap and the maps of src/vm.c at concrete inputs.
use opo.Base.{
  ℕ, ◌≡◌, refl, true, false, Bool, [], ◌∷◌, some, codes, arith, get_or-replicate, length, ◌+◌, suc,
  sym, ap, ◌∙◌,
}
use mathlib.Core.Bool.{false≢true}
use opo.Base.Int.{pos}
use opo.Compare.{hash_value, values_equal}
use opo.Compare.Laws.{IsKey, number, values_equal-Keys}
use opo.Heap.{Heap, string, array, ObjMap, empty_map, empty_entry, retain, release, release_on}
use opo.Heap.Count.{release-retain}
use opo.Heap.Frame.{Shrinks, release_terminates, release-Shrinks}
use opo.Table.{map_set, map_get}
use opo.Table.Placing.{map_get-view, or_void}
use opo.Table.Resizing.{map_set-Sets, Sets, set_events}
use opo.Table.View.{Keys, IsValid, view, used_count, used_at}
use opo.Tests.{whole_numbers}
use opo.Value.{Value, int_value, obj_value}

-- The string "key" at the address 1, and an array that holds it at the address 2.
abbrev two_objects : Heap
two_objects = record {
  cells =
      some (record { object = string (codes "key"); ref_count = pos 1 })
      ∷ some (record {
        object = array (record { items = obj_value 1 ∷ []; capacity = 1 });
        ref_count = pos 1;
      })
      ∷ [];
}

release_terminates_example :
    release_on (5 + suc (length two_objects.cells)) two_objects (obj_value 2)
    ≡ release two_objects (obj_value 2)
release_terminates_example = release_terminates 5 two_objects (obj_value 2)

release-Shrinks_example : Shrinks two_objects (release two_objects (obj_value 2))
release-Shrinks_example = release-Shrinks two_objects (obj_value 2)

release-retain_example : release (retain two_objects (obj_value 1)) (obj_value 1) ≡ two_objects
release-retain_example =
    release-retain two_objects (obj_value 1) (λ c. (string (codes "key"), 0, refl))

-- The hash of a key and the equality of two, with these objects.
abbrev hash : Value → ℕ
hash = hash_value [] two_objects

abbrev equal : Value → Value → Bool
equal = values_equal ⦃p = whole_numbers⦄ [] two_objects

abbrev IsGood : Value → Type 0
IsGood = IsKey [] two_objects

values_equal-Keys_example : Keys hash equal IsGood
values_equal-Keys_example = values_equal-Keys [] two_objects ⦃p = whole_numbers⦄

is_unused : (i : ℕ) → used_at empty_map.entries i ≡ false
is_unused i = ap (λ e. e.is_used) (get_or-replicate 8 empty_entry i)

empty_map-IsValid : IsValid hash equal IsGood empty_map
unfolding used_count
empty_map-IsValid = record {
  counted = refl;
  roomy = omega arith;
  large = omega arith;
  probed = record {
    is_key = λ i used. absurd (contra i used);
    reached = λ i used. absurd (contra i used);
    unique = λ i j used k e. absurd (contra i used);
  };
}
  where
    contra : (i : ℕ) → used_at empty_map.entries i ≡ true → ⊥
    contra i used = false≢true (sym (is_unused i) ∙ used)

good_int : IsGood (int_value 3)
good_int = (number 3, (refl, refl))

map_get-view_example :
    map_get hash equal empty_map (int_value 3)
    ≡ some (or_void (view equal empty_map.entries (int_value 3)))
map_get-view_example =
    map_get-view hash equal IsGood (values_equal-Keys [] two_objects ⦃p = whole_numbers⦄) empty_map
      (int_value 3) empty_map-IsValid good_int

map_set-Sets_example :
    (m' : ObjMap) × (map_set hash equal empty_map (int_value 3) (obj_value 1)
      ≡ some (
        m',
        set_events hash equal IsGood
            (values_equal-Keys [] two_objects ⦃p = whole_numbers⦄)
            empty_map
            empty_map-IsValid
            (int_value 3)
            (obj_value 1),
      ))
    × Sets hash equal IsGood
        (values_equal-Keys [] two_objects ⦃p = whole_numbers⦄)
        empty_map
        empty_map-IsValid
        (int_value 3)
        (obj_value 1)
        m'
map_set-Sets_example =
    map_set-Sets hash equal IsGood (values_equal-Keys [] two_objects ⦃p = whole_numbers⦄) empty_map
      empty_map-IsValid (int_value 3) (obj_value 1) good_int
