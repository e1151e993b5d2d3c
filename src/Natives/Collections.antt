-- ===== src/Natives/Collections.antt =====
-- The natives of src/vm.c on strings, arrays, maps and channels. The arguments are a list, and
-- `arg_count` is its length.
use opo.Base.{
  ℕ, ◌*◌, ◌%◌, ◌^◌, Bool, false, not, List, [], ◌∷◌, ◌++◌, Option, none, some, ◌==◌, leb, ltb,
  if◌then◌else◌, codes, get_elem?, length,
}
use opo.Chan.{close}
use opo.Compare.{c_string, is_string, get_string_ptr, hash_value, values_equal}
use opo.Heap.{ObjArray, Object, string, array, map, chan, allocate, retain_all}
use opo.Kind
use opo.Ops.Channels.{channel}
use opo.Ops.Objects.{target, commit, get_in}
use opo.Platform.{Platform}
use opo.Table.{map_delete, map_keys}
use opo.Value.{Value, kind, low_int, int_value, bool_value, obj_value, void_value}
use opo.Vm.{
  M, pure, ◌>>=◌, ◌>>◌, require, with_heap, new_string, new_object, object_of, write_object,
  retain_value, runtime_error,
}

-- `strlen(vm->strings[…])`
abbrev pub constant_length : Value → M Value
constant_length v vm =
    (do s ← require (get_elem? vm.strings (low_int v)); pure (int_value (length (c_string s)))) vm

pub object_length : Option Object → ℕ
object_length (some (string chars)) = length chars
object_length (some (array a)) = length a.items
object_length (some (map m)) = m.count
object_length _ = 0

unfoldable pub native_len : List Value → M Value
unfolding object_length
native_len (v ∷ []) =
    if kind v == Kind.str
    then constant_length v
    else (target v >>= λ o. pure (int_value (object_length o)))
native_len _ = pure void_value

-- Room for one item more.
abbrev pub grow : ObjArray → ℕ
grow a =
    if leb a.capacity (length a.items)
    then if ltb a.capacity 8 then 8 else a.capacity * 2
    else a.capacity

pub append_to : Value → Value → Option Object → M Value
append_to obj val (some (array a)) = do
  retain_value val
  write_object obj (array (record { items = a.items ++ val ∷ []; capacity = grow a }))
  pure obj
append_to obj val _ = pure obj

abbrev pub object_if : Bool → Value → M (Option Object)
object_if b v = if b then (object_of v >>= λ o. pure (some o)) else pure none

unfoldable pub native_append : List Value → M Value
unfolding append_to
native_append (obj ∷ val ∷ []) = do o ← object_if (kind obj == Kind.obj) obj; append_to obj val o
native_append _ = pure void_value

-- The keys are copied in the order of the table, each with a reference.
pub keys_of : Option Object → M Value
unfolding map_keys
keys_of (some (map m)) = do
  address ←
      new_object
        (λ h. allocate h (array (record { items = map_keys m.entries; capacity = m.count })))
  with_heap (λ h. retain_all h (map_keys m.entries))
  pure (obj_value address)
keys_of _ = pure void_value

unfoldable pub native_keys : List Value → M Value
unfolding keys_of
native_keys (v ∷ []) = do o ← target v; keys_of o
native_keys _ = pure void_value

module _ ⦃p : Platform⦄ where
  pub delete_in : Value → Value → Option Object → M Value
  unfolding commit
  delete_in obj key (some (map m)) vm =
      (do
        commit obj
            (map_delete (hash_value vm.strings vm.heap) (values_equal vm.strings vm.heap) m key)
        pure void_value)
        vm
  delete_in obj key _ vm = pure void_value vm

  unfoldable pub native_delete : List Value → M Value
  unfolding delete_in
  native_delete (obj ∷ key ∷ []) = do o ← target obj; delete_in obj key o
  native_delete _ = pure void_value

  pub has_key : Value → Option Object → M Value
  has_key key (some (map m)) = do
    val ← get_in m key
    pure (bool_value (not (kind val == Kind.void)))
  has_key key _ = pure (bool_value false)

  unfoldable pub native_has : List Value → M Value
  unfolding has_key
  native_has (obj ∷ key ∷ []) = do o ← target obj; has_key key o
  native_has _ = pure (bool_value false)

-- The first byte of the text, or 0.
pub first_byte : Option (List ℕ) → ℕ
first_byte (some (c ∷ cs)) = c
first_byte _ = 0

unfoldable pub native_ascii : List Value → M Value
unfolding first_byte is_string get_string_ptr
native_ascii (v ∷ []) vm =
    pure
      (int_value
        (if is_string vm.heap v then first_byte (get_string_ptr vm.strings vm.heap v) else 0))
      vm
native_ascii _ vm = pure (int_value 0) vm

-- `(char)args[0].as.i_val`
unfoldable pub native_char : List Value → M Value
native_char (v ∷ []) =
    if kind v == Kind.int
    then (new_string (v.bits % 2 ^ 8 ∷ []) >>= λ address. pure (obj_value address))
    else pure void_value
native_char _ = pure void_value

unfoldable pub native_error : List Value → M Value
native_error (err ∷ []) = do retain_value err; pure (record { type = Kind.err; bits = err.bits })
native_error _ = pure (record { type = Kind.err; bits = 0 })

abbrev pub close_failure : M Value
close_failure = do runtime_error (codes "close() expects 1 channel argument"); pure void_value

unfoldable pub native_close : List Value → M Value
native_close (v ∷ []) =
    if kind v == Kind.chan
    then (do c ← channel v; write_object v (chan (close c)); pure void_value)
    else close_failure
native_close _ = close_failure
