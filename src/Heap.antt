-- ===== src/Heap.antt =====
-- The heap of src/vm.c: the objects of src/common.h and src/vm.h behind their headers, reference
-- counting, and allocation. An address is one more than the index of a cell, so that 0 is NULL; a
-- freed cell is `none` and is never handed out again.
pub mod Frame
pub mod Inside
pub mod Count
use opo.Base.{
  ℕ, zero, suc, ◌+◌, ◌-◌, ◌%◌, Bool, true, false, List, [], ◌∷◌, ◌++◌, Option, none, some, ◌==◌,
  if◌then◌else◌, get_elem?, get_or, set, length, replicate,
}
use opo.Base.Int.{ℤ, pos, negsuc, succ_ℤ, pred_ℤ}
use opo.Value.{Value, void_value, is_counted}
use mathlib.Core.List.{foldl}

pub record MapEntry : Type 0 where
  pub key : Value
  pub value : Value
  pub is_used : Bool

-- `capacity` is the length of `entries`.
pub record ObjMap : Type 0 where
  pub entries : List MapEntry
  pub count : ℕ

-- `count` is the length of `items`.
pub record ObjArray : Type 0 where
  pub items : List Value
  pub capacity : ℕ

pub record ObjEnum : Type 0 where
  pub enum_name : List ℕ
  pub variant_name : List ℕ
  pub payload : Value
  pub has_payload : Bool
  pub variant_index : ℕ

-- `captures` has `capture_count` values.
pub record ObjClosure : Type 0 where
  pub addr : ℕ
  pub fn_type : ℕ
  pub captures : List Value

-- The mutex and the condition variables are not part of the data.
pub record ObjChan : Type 0 where
  pub buffer : List Value
  pub capacity : ℕ
  pub count : ℕ
  pub head : ℕ
  pub tail : ℕ
  pub waiting_receivers : ℕ
  pub has_unbuffered_value : Bool
  pub unbuffered_value : Value
  pub closed : Bool

-- A string holds its bytes without the NUL behind them; a native is known by its index.
pub data Object : Type 0 where
  string : List ℕ → Object
  array : ObjArray → Object
  struct : List Value → Object
  native : ℕ → Object
  map : ObjMap → Object
  enum : ObjEnum → Object
  chan : ObjChan → Object
  closure : ObjClosure → Object

pub record Cell : Type 0 where
  pub object : Object
  pub ref_count : ℤ

pub record Heap : Type 0 where
  pub cells : List (Option Cell)

abbrev pub cell_at : List (Option Cell) → ℕ → Option Cell
cell_at cells zero = none
cell_at cells (suc i) = get_or cells i none

-- `val.as.obj`, at an address
abbrev pub deref : Heap → ℕ → Option Cell
deref h address = cell_at h.cells address

abbrev pub set_cell : Heap → ℕ → Option Cell → Heap
set_cell h zero c = h
set_cell h (suc i) c = record { cells = set h.cells i c }

abbrev pub object_at : Heap → ℕ → Option Object
object_at h address = elim (deref h address) [ none ↦ none | some c ↦ some c.object ]

-- A write to the fields of an object, which keeps its header.
unfoldable pub set_object : Heap → ℕ → Object → Heap
set_object h address o = elim (deref h address) [
  | none ↦ h
  | some c ↦ set_cell h address (some (record c { object = o }))
]

-- `malloc` and the header that every `allocate_…` writes: a count of 0.
unfoldable pub allocate : Heap → Object → ℕ × Heap
allocate h o = (
  suc (length h.cells),
  record { cells = h.cells ++ some (record { object = o; ref_count = pos 0 }) ∷ [] },
)

unfoldable pub allocate_string : Heap → List ℕ → ℕ × Heap
allocate_string h chars = allocate h (string chars)

unfoldable pub allocate_array : Heap → ℕ × Heap
allocate_array h = allocate h (array (record { items = []; capacity = 0 }))

abbrev pub empty_entry : MapEntry
empty_entry = record {
  key = record { type = 0; bits = 0 };
  value = record { type = 0; bits = 0 };
  is_used = false;
}

abbrev pub empty_map : ObjMap
empty_map = record { entries = replicate 8 empty_entry; count = 0 }

unfoldable pub allocate_map : Heap → ℕ × Heap
allocate_map h = allocate h (map empty_map)

-- `capacity` is the C `int`, whose negative values give a channel without a buffer.
abbrev pub empty_chan : ℤ → ObjChan
empty_chan (pos capacity) = record {
  buffer = replicate capacity void_value;
  capacity = capacity;
  count = 0;
  head = 0;
  tail = 0;
  waiting_receivers = 0;
  has_unbuffered_value = false;
  unbuffered_value = void_value;
  closed = false;
}
empty_chan (negsuc _) = record {
  buffer = [];
  capacity = 0;
  count = 0;
  head = 0;
  tail = 0;
  waiting_receivers = 0;
  has_unbuffered_value = false;
  unbuffered_value = void_value;
  closed = false;
}

unfoldable pub allocate_chan : Heap → ℤ → ℕ × Heap
allocate_chan h capacity = allocate h (chan (empty_chan capacity))

unfoldable pub allocate_closure : Heap → ℕ → ℕ → List Value → ℕ × Heap
allocate_closure h addr fn_type captures =
    allocate h (closure (record { addr = addr; fn_type = fn_type; captures = captures }))

abbrev pub add_ref : Heap → ℕ → Heap
add_ref h address = elim (deref h address) [
  | none ↦ h
  | some c ↦ set_cell h address (some (record c { ref_count = succ_ℤ c.ref_count }))
]

-- On a cell that is gone the count is not there to change; C leaves this undefined.
unfoldable pub retain : Heap → Value → Heap
retain h v = if is_counted v then add_ref h v.bits else h

unfoldable pub retain_all : Heap → List Value → Heap
retain_all h [] = h
retain_all h (v ∷ vs) = retain_all (retain h v) vs

pub entry_values : List MapEntry → List Value
entry_values [] = []
entry_values (e ∷ es) =
    let rest = entry_values es in if e.is_used then e.key ∷ e.value ∷ rest else rest

-- The values of a ring of `count` slots that starts at `head`.
unfoldable pub ring_values : ℕ → ObjChan → ℕ → List Value
ring_values zero c i = []
ring_values (suc n) c i =
    get_or c.buffer ((c.head + i) % c.capacity) void_value ∷ ring_values n c (suc i)

-- What `free_object` releases, in its order.
unfoldable pub parts : Object → List Value
unfolding entry_values ring_values
parts (string chars) = []
parts (array a) = a.items
parts (struct values) = values
parts (native index) = []
parts (map m) = entry_values m.entries
parts (enum e) = if e.has_payload then e.payload ∷ [] else []
parts (chan c) =
    ring_values c.count c 0 ++ (if c.has_unbuffered_value then c.unbuffered_value ∷ [] else [])
parts (closure c) = c.captures

-- One reference less; the count before says whether the object is to be freed.
abbrev pub drop_ref : Heap → ℕ → Cell → Heap
drop_ref h address c = set_cell h address (some (record c { ref_count = pred_ℤ c.ref_count }))

-- `free_object`, given the release of one value: the parts in turn, then the cell.
abbrev pub free_object : (Heap → Value → Heap) → Heap → ℕ → Object → Heap
free_object rel h address o = set_cell (foldl rel h (parts o)) address none

abbrev pub is_one : ℤ → Bool
is_one (pos n) = n == 1
is_one (negsuc n) = false

-- `release` at an address: the count, and the object itself with its last reference.
abbrev pub release_at : (Heap → Value → Heap) → Heap → ℕ → Option Cell → Heap
release_at rel h address none = h
release_at rel h address (some c) =
    let lower = drop_ref h address c in
    let freed = free_object rel lower address c.object in
    if is_one c.ref_count then freed else lower

pub release_on : ℕ → Heap → Value → Heap
release_on zero h v = h
release_on (suc fuel) h v =
    let rest = release_at (release_on fuel) h v.bits (deref h v.bits) in
    if is_counted v then rest else h

-- Each nested `free_object` takes the last reference of another cell, so there are no more levels
-- than cells (`Frame`).
unfoldable pub release : Heap → Value → Heap
unfolding release_on parts
release h v = release_on (suc (length h.cells)) h v

unfoldable pub release_all : Heap → List Value → Heap
release_all h [] = h
release_all h (v ∷ vs) = release_all (release h v) vs
