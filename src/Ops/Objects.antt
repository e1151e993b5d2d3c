-- ===== src/Ops/Objects.antt =====
-- Arrays, structs and maps: the instructions of `vm_run` (src/vm.c) that build them, read them and
-- write to them, by an index, a key or a member.
use opo.Base.Decimal.{decimal, decimal_ℤ}
use opo.Base.Int.{ℤ, pos, negsuc, int32}
use opo.Base.{
  ℕ, zero, suc, ◌||◌, List, [], ◌∷◌, ◌++◌, Option, none, some, ◌==◌, if◌then◌else◌, codes,
  get_elem?, set, length,
}
use opo.Compare.{c_string, hash_value, values_equal}
use opo.Heap.{ObjArray, ObjMap, Object, string, array, struct, map, allocate, allocate_map}
use opo.Kind
use opo.Ops.Control.{pop_values}
use opo.Platform.{Platform}
use opo.Table.{Change, perform, map_set, map_get}
use opo.Value.{Value, kind, low_int, obj_value}
use opo.Vm.{
  M, pure, done, ◌>>=◌, ◌>>◌, halt_with, undefined, require, with_heap, new_string, new_object,
  object_of, write_object, retain_value, release_value, runtime_error, vm_push, vm_pop, read_byte,
  read_int32,
}

-- `(int)index.as.i_val`
abbrev pub index_of : Value → ℤ
index_of index = int32 (low_int index)

-- The element at an index that is in range: `idx < 0 || idx >= count` is `none`.
pub item_at {ℓ} : {A : Type ℓ} → List A → ℤ → Option A
item_at xs (pos i) = get_elem? xs i
item_at xs (negsuc n) = none

-- An array with another item; the index is in range.
pub with_item {ℓ} : {A : Type ℓ} → List A → ℤ → A → List A
with_item xs (pos i) x = set xs i x
with_item xs (negsuc n) x = xs

abbrev pub bounds_text : List ℕ → Value → List ℕ → ℕ → List ℕ
bounds_text what index middle len =
    what ++ (decimal_ℤ (index_of index) ++ (middle ++ (decimal len ++ codes ")")))

-- `obj.as.obj` where the kind says that there is one.
abbrev pub target : Value → M (Option Object)
target obj =
    if kind obj == Kind.obj || kind obj == Kind.map
    then (object_of obj >>= λ o. pure (some o))
    else pure none

-- The values are released, and the error is raised.
pub fail_all : List Value → List ℕ → M (Unit {0})
fail_all [] message = runtime_error message
fail_all (v ∷ vs) message = release_value v >> fail_all vs message

abbrev pub finish : List Value → M (Unit {0})
finish [] = done
finish (v ∷ vs) = release_value v >> finish vs

pub index_array : Value → Value → ℕ → Option Value → M (Unit {0})
unfolding fail_all
index_array obj index count (some v) = vm_push v >> finish (obj ∷ index ∷ [])
index_array obj index count none =
    fail_all (obj ∷ index ∷ [])
      (bounds_text (codes "Array index ") index (codes " out of bounds (length ") count)

-- `char buf[2] = {s[idx], '\0'}`, as a string of length 1
pub index_string : Value → Value → ℕ → Option ℕ → M (Unit {0})
unfolding fail_all
index_string obj index len (some c) = do
  address ← new_string (c ∷ [])
  vm_push (obj_value address)
  finish (obj ∷ index ∷ [])
index_string obj index len none =
    fail_all (obj ∷ index ∷ [])
      (bounds_text (codes "String index ") index (codes " out of bounds (length ") len)

-- A constant is indexed up to its NUL.
abbrev pub constant_text : Value → M (List ℕ)
constant_text v vm = (do s ← require (get_elem? vm.strings (low_int v)); pure (c_string s)) vm

unfoldable pub op_get_member : M (Unit {0})
unfolding fail_all
op_get_member = do
  field_idx ← read_byte
  obj ← vm_pop
  member ← (if kind obj == Kind.obj then (object_of obj >>= λ o. pure (some o)) else pure none)
  get_member field_idx obj member
  where
    get_member : ℕ → Value → Option Object → M (Unit {0})
    get_member i obj (some (struct values)) = do
      v ← require (get_elem? values i)
      vm_push v
      release_value obj
    get_member i obj _ = fail_all (obj ∷ []) (codes "Can only get member")

-- `release(old); retain(val); … = val`
abbrev pub replace : Value → Value → M (Unit {0})
replace old val = do release_value old; retain_value val

unfoldable pub op_set_member : M (Unit {0})
unfolding fail_all
op_set_member = do
  field_idx ← read_byte
  obj ← vm_pop
  val ← vm_pop
  member ← (if kind obj == Kind.obj then (object_of obj >>= λ o. pure (some o)) else pure none)
  set_member field_idx obj val member
  where
    set_member : ℕ → Value → Value → Option Object → M (Unit {0})
    set_member i obj val (some (struct values)) = do
      old ← require (get_elem? values i)
      replace old val
      write_object obj (struct (set values i val))
      finish (obj ∷ val ∷ [])
    set_member i obj val _ = fail_all (obj ∷ val ∷ []) (codes "Can only set member")

unfoldable pub op_array : M (Unit {0})
op_array = do
  type ← read_int32
  count ← read_byte
  items ← pop_values count []
  address ← new_object (λ h. allocate h (array (record { items = items; capacity = count })))
  vm_push (record { type = type; bits = address })

unfoldable pub op_struct : M (Unit {0})
op_struct = do
  field_count ← read_byte
  values ← pop_values field_count []
  address ← new_object (λ h. allocate h (struct values))
  vm_push (obj_value address)

-- What a map operation has made of a map: the counts first, then its fields.
unfoldable pub commit : Value → Change → M (Unit {0})
unfolding perform
commit obj none = halt_with undefined
commit obj (some (m, events)) = do with_heap (perform events); write_object obj (map m)

module _ ⦃p : Platform⦄ where
  -- `map_set` and `map_get` in the state at hand.
  abbrev pub set_in : Value → ObjMap → Value → Value → M (Unit {0})
  set_in obj m key val vm =
      commit obj
        (map_set (hash_value vm.strings vm.heap) (values_equal vm.strings vm.heap) m key val) vm

  abbrev pub get_in : ObjMap → Value → M Value
  get_in m key vm =
      require (map_get (hash_value vm.strings vm.heap) (values_equal vm.strings vm.heap) m key) vm

  -- A `VAL_VOID` is a key that is missing.
  pub index_map : Value → Value → Value → M (Unit {0})
  unfolding fail_all
  index_map obj index val =
      if kind val == Kind.void
      then fail_all (obj ∷ index ∷ []) (codes "Key not found in map")
      else vm_push val >> finish (obj ∷ index ∷ [])

  pub index_object : Value → Value → Option Object → M (Unit {0})
  unfolding index_map index_array index_string item_at fail_all
  index_object obj index (some (array a)) =
      if kind obj == Kind.obj
      then index_array obj index (length a.items) (item_at a.items (index_of index))
      else fail_all (obj ∷ index ∷ [])
          (codes "Can only index arrays, strings or maps. Got type kind " ++ decimal (kind obj))
  index_object obj index (some (string chars)) =
      if kind obj == Kind.obj
      then index_string obj index (length chars) (item_at chars (index_of index))
      else fail_all (obj ∷ index ∷ [])
          (codes "Can only index arrays, strings or maps. Got type kind " ++ decimal (kind obj))
  index_object obj index (some (map m)) = do val ← get_in m index; index_map obj index val
  index_object obj index _ =
      if kind obj == Kind.str
      then (constant_text obj >>= λ s.
          index_string obj index (length s) (item_at s (index_of index)))
      else fail_all (obj ∷ index ∷ [])
          (codes "Can only index arrays, strings or maps. Got type kind " ++ decimal (kind obj))

  unfoldable pub op_index : M (Unit {0})
  unfolding index_object
  op_index = do index ← vm_pop; obj ← vm_pop; o ← target obj; index_object obj index o

  pub set_array_item : Value → Value → Value → ObjArray → Option Value → M (Unit {0})
  unfolding fail_all with_item
  set_array_item obj index val a (some old) = do
    replace old val
    write_object obj (array (record a { items = with_item a.items (index_of index) val }))
    finish (obj ∷ index ∷ val ∷ [])
  set_array_item obj index val a none = fail_all (obj ∷ index ∷ val ∷ []) (
      bounds_text (codes "Array index ") index (codes " out of bounds in assignment (length ")
        (length a.items))

  pub set_index_object : Value → Value → Value → Option Object → M (Unit {0})
  unfolding set_array_item item_at fail_all commit
  set_index_object obj index val (some (array a)) =
      if kind obj == Kind.obj
      then set_array_item obj index val a (item_at a.items (index_of index))
      else fail_all (obj ∷ index ∷ val ∷ []) (codes "Can only set index on arrays or maps")
  set_index_object obj index val (some (map m)) = do
    set_in obj m index val
    finish (obj ∷ index ∷ val ∷ [])
  set_index_object obj index val _ =
      fail_all (obj ∷ index ∷ val ∷ []) (codes "Can only set index on arrays or maps")

  unfoldable pub op_set_index : M (Unit {0})
  unfolding set_index_object
  op_set_index = do
    index ← vm_pop
    obj ← vm_pop
    val ← vm_pop
    o ← target obj
    set_index_object obj index val o

  as_map : Object → Option ObjMap
  as_map (map m) = some m
  as_map _ = none

  -- `pair_count` keys and values from the stack, into the map at an address.
  pub fill_map : ℕ → ℕ → M (Unit {0})
  unfolding as_map commit
  fill_map zero address = done
  fill_map (suc n) address = do
    val ← vm_pop
    key ← vm_pop
    o ← object_of (obj_value address)
    m ← require (as_map o)
    set_in (obj_value address) m key val
    finish (key ∷ val ∷ [])
    fill_map n address

  unfoldable pub op_map : M (Unit {0})
  unfolding fill_map
  op_map = do
    type ← read_int32
    pair_count ← read_byte
    address ← new_object allocate_map
    fill_map pair_count address
    vm_push (record { type = type; bits = address })
