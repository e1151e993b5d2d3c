-- ===== src/Table.antt =====
-- The hash map of src/vm.c: `map_set`, `map_get`, and the work of `native_delete` and
-- `native_keys` on one map. Hashing and equality of values are parameters here; the natives pass
-- `hash_value` and `values_equal`. The reference counts that an operation changes are a list of
-- events, in its order, which the caller performs on the heap.
pub mod View
pub mod Probing
pub mod Placing
pub mod Moving
pub mod Resizing
use opo.Base.{
  ℕ, zero, suc, ◌+◌, ◌-◌, ◌*◌, ◌%◌, Bool, true, false, not, ◌&&◌, ◌||◌, List, [], ◌∷◌, ◌++◌, Option,
  none, some, ◌==◌, ltb, leb, if◌then◌else◌, get_or, set, length, replicate,
}
use opo.Heap.{MapEntry, ObjMap, empty_entry, Heap, retain, release}
use opo.Value.{Value, void_value}

pub data RcEvent : Type 0 where
  retains : Value → RcEvent
  releases : Value → RcEvent

unfoldable pub perform : List RcEvent → Heap → Heap
perform [] h = h
perform (retains v ∷ es) h = perform es (retain h v)
perform (releases v ∷ es) h = perform es (release h v)

-- Where a search ends: at an entry with the key, at an unused entry, or never.
pub data Probe : Type 0 where
  found : ℕ → Probe
  free : ℕ → Probe
  spins : Probe

abbrev pub entry : List MapEntry → ℕ → MapEntry
entry es i = get_or es i empty_entry

-- A map with the events, or nothing where the code would search for ever.
abbrev pub Change : Type 0
Change = Option (ObjMap × List RcEvent)

-- `map->count >= map->capacity * 0.7`. Capacities are 8 times a power of 2, where the product is
-- no whole number, nor is 0.7 of the capacity; so the rounding of 0.7 decides nothing.
abbrev pub is_loaded : ObjMap → Bool
is_loaded m = leb (7 * length m.entries) (10 * m.count)

-- What `capacity == 0` gets before anything else.
abbrev pub with_entries : ObjMap → ObjMap
with_entries m = if length m.entries == 0 then record m { entries = replicate 8 empty_entry } else m

abbrev pub doubled : ObjMap → ObjMap
doubled m = record { entries = replicate (length m.entries * 2) empty_entry; count = 0 }

-- An entry that moves in a resize: entered into the new table, then released by the old one.
abbrev pub and_release :
    Change → MapEntry → List RcEvent → (ObjMap → List RcEvent → Change) → Change
and_release none e before next = none
and_release (some (m, events)) e before next =
    next m (before ++ (events ++ releases e.key ∷ releases e.value ∷ []))

-- The loop over the old entries, by some `map_set`.
unfoldable pub rehash :
    (ObjMap → Value → Value → Change) → List MapEntry → ObjMap → List RcEvent → Change
rehash set_one [] m events = some (m, events)
rehash set_one (e ∷ es) m events =
    let skip = rehash set_one es m events in
    let move = and_release (set_one m e.key e.value) e events (rehash set_one es) in
    if e.is_used then move else skip

-- Events in front of a change.
abbrev pub behind : List RcEvent → Change → Change
behind events none = none
behind events (some (m, more)) = some (m, events ++ more)

-- The insertion that follows a resize.
abbrev pub and_place : Change → Value → Value → (ObjMap → Value → Value → Change) → Change
and_place none key value put = none
and_place (some (m, events)) key value put = behind events (put m key value)

module _ (hash : Value → ℕ) (equal : Value → Value → Bool) where
  -- `while (map->entries[index].is_used) { …; index = (index + 1) % map->capacity; }`
  unfoldable pub probe : ℕ → List MapEntry → Value → ℕ → Probe
  probe zero es key i = spins
  probe (suc fuel) es key i =
      let rest = probe fuel es key ((i + 1) % length es) in
      if (entry es i).is_used then if equal (entry es i).key key then found i else rest else free i

  abbrev pub home : List MapEntry → Value → ℕ
  home es key = hash key % length es

  abbrev pub search_for : List MapEntry → Value → Probe
  search_for es key = probe (length es) es key (home es key)

  -- `map_set` behind the resize.
  unfoldable pub place : ObjMap → Value → Value → Change
  unfolding probe
  place m key value = elim (search_for m.entries key) [
    | found i ↦
        let e = entry m.entries i in
        some (
          record m { entries = set m.entries i (record e { value = value }) },
          releases e.value ∷ retains value ∷ [],
        )
    | free i ↦ some (
      record {
        entries = set m.entries i (record { key = key; value = value; is_used = true });
        count = m.count + 1;
      },
      retains key ∷ retains value ∷ [],
    )
    | spins ↦ none
  ]

  -- The fuel is for the nesting of `map_set` in its own resize; `Resizing` shows that 2 is enough.
  unfoldable pub set_on : ℕ → ObjMap → Value → Value → Change
  set_on zero m key value = none
  set_on (suc fuel) m₀ key value =
      let m = with_entries m₀ in
      let moved = rehash (set_on fuel) m.entries (doubled m) [] in
      if is_loaded m then and_place moved key value place else place m key value

  unfoldable pub map_set : ObjMap → Value → Value → Change
  unfolding set_on place rehash
  map_set m key value = set_on 2 m key value

  -- The value under the key, or `VAL_VOID`.
  unfoldable pub map_get : ObjMap → Value → Option Value
  unfolding probe
  map_get m key =
      if length m.entries == 0 then some void_value else elim (search_for m.entries key) [
        | found i ↦ some (entry m.entries i).value
        | free i ↦ some void_value
        | spins ↦ none
      ]

  -- Whether `k` is cyclically between `i` (exclusive) and `j` (inclusive).
  abbrev pub between : ℕ → ℕ → ℕ → Bool
  between i j k = if leb i j then ltb i k && leb k j else ltb i k || leb k j

  -- The shifting loop of `native_delete`: the entries behind the hole `i`, and the last hole.
  unfoldable pub shift : ℕ → List MapEntry → ℕ → ℕ → Option (List MapEntry × ℕ)
  shift zero es i j₀ = none
  shift (suc fuel) es i j₀ =
      let j = (j₀ + 1) % length es in
      let k = home es (entry es j).key in
      let stay = shift fuel es i j in
      let move = shift fuel (set es i (entry es j)) j j in
      if (entry es j).is_used then if between i j k then stay else move else some (es, i)

  abbrev pub vacant : MapEntry
  vacant = record { key = void_value; value = void_value; is_used = false }

  -- The part of `native_delete` that works on the map.
  unfoldable pub map_delete : ObjMap → Value → Change
  unfolding probe shift
  map_delete m key =
      if length m.entries == 0 then some (m, []) else elim (search_for m.entries key) [
        | found i ↦
            let e = entry m.entries i in
            elim (shift (length m.entries) m.entries i i) [
              | none ↦ none
              | some (es, hole) ↦ some (
                record { entries = set es hole vacant; count = m.count - 1 },
                releases e.key ∷ releases e.value ∷ [],
              )
            ]
        | free i ↦ some (m, [])
        | spins ↦ none
      ]

-- The keys in use, in the order of the table, as `native_keys` copies them.
unfoldable pub map_keys : List MapEntry → List Value
map_keys [] = []
map_keys (e ∷ es) = let rest = map_keys es in if e.is_used then e.key ∷ rest else rest
