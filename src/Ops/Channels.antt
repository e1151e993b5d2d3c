-- ===== src/Ops/Channels.antt =====
-- `OP_CHAN`, `OP_SEND` and `OP_RECV` of src/vm.c. An instruction that has to wait stops with the
-- operands that it has taken off the stack, and `resume` goes on with them in another turn.
use opo.Base.Int.{int32}
use opo.Base.{Option, none, some, if◌then◌else◌, codes}
use opo.Chan.{
  Sending, full, refused, sent, Receiving, empty, ended, received, send, receive, register,
  is_pending, is_unbuffered,
}
use opo.Heap.{ObjChan, Object, chan, allocate_chan}
use opo.Value.{Value, low_int, void_value}
use opo.Vm.{
  M, Exit, waits_to_send, waits_for_taker, waits_to_receive, ◌>>=◌, ◌>>◌, halt_with, require,
  new_object, object_of, write_object, retain_value, release_value, runtime_error, vm_push, vm_pop,
  read_int32,
}

pub chan_of : Object → Option ObjChan
chan_of (chan c) = some c
chan_of _ = none

-- `(ObjChan*)chan_val.as.obj`, whatever the kind of the value
abbrev pub channel : Value → M ObjChan
channel v = do o ← object_of v; require (chan_of o)

unfoldable pub op_chan : M (Unit {0})
op_chan = do
  type ← read_int32
  cap_val ← vm_pop
  release_value cap_val
  address ← new_object (λ h. allocate_chan h (int32 (low_int cap_val)))
  vm_push (record { type = type; bits = address })

-- The end of `OP_SEND`.
abbrev pub send_done : Value → Value → M (Unit {0})
send_done chan_val val = do release_value chan_val; release_value val

-- A value without a buffer is on offer now, and its sender waits for the taker.
pub send_end : Value → Value → ObjChan → Sending → M (Unit {0})
send_end chan_val val c full = halt_with (waits_to_send chan_val val)
send_end chan_val val c refused = do
  release_value chan_val
  release_value val
  runtime_error (codes "Send on closed channel")
send_end chan_val val c (sent c') = do
  retain_value val
  write_object chan_val (chan c')
  if is_unbuffered c then halt_with (waits_for_taker chan_val val) else send_done chan_val val

unfoldable pub send_turn : Value → Value → M (Unit {0})
unfolding send_end chan_of
send_turn chan_val val = do c ← channel chan_val; send_end chan_val val c (send val c)

unfoldable pub op_send : M (Unit {0})
unfolding send_turn
op_send = do val ← vm_pop; chan_val ← vm_pop; send_turn chan_val val

-- A sender behind its offer.
unfoldable pub taker_turn : Value → Value → M (Unit {0})
unfolding chan_of
taker_turn chan_val val = do
  c ← channel chan_val
  if is_pending c then halt_with (waits_for_taker chan_val val) else send_done chan_val val

pub receive_end : Value → Receiving → M (Unit {0})
receive_end chan_val empty = halt_with (waits_to_receive chan_val)
receive_end chan_val (ended c') = do
  write_object chan_val (chan c')
  vm_push void_value
  release_value chan_val
receive_end chan_val (received val c') = do
  write_object chan_val (chan c')
  vm_push val
  release_value val
  release_value chan_val

unfoldable pub receive_turn : Value → M (Unit {0})
unfolding receive_end chan_of
receive_turn chan_val = do c ← channel chan_val; receive_end chan_val (receive c)

unfoldable pub op_recv : M (Unit {0})
unfolding receive_turn chan_of
op_recv = do
  chan_val ← vm_pop
  c ← channel chan_val
  write_object chan_val (chan (register c))
  receive_turn chan_val

-- The next turn of a thread that waits.
unfoldable pub resume : Exit → M (Unit {0})
unfolding send_turn taker_turn receive_turn
resume (waits_to_send chan_val val) = send_turn chan_val val
resume (waits_for_taker chan_val val) = taker_turn chan_val val
resume (waits_to_receive chan_val) = receive_turn chan_val
resume e = halt_with e
