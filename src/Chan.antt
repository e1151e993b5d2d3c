-- ===== src/Chan.antt =====
-- Channels of src/vm.c: what `OP_SEND`, `OP_RECV` and `native_close` do to an `ObjChan` while they
-- hold its mutex. A turn is what a thread does between two waits on a condition variable.
pub mod Ring
pub mod Turns
pub mod Fifo
pub mod Rendezvous
use opo.Base.{
  ℕ, suc, ◌+◌, ◌-◌, ◌%◌, Bool, true, false, not, ◌&&◌, ◌||◌, List, ◌==◌, if◌then◌else◌, get_or, set,
}
use opo.Heap.{ObjChan}
use opo.Value.{Value, void_value}

-- How a turn of a sender ends: it has to wait, the channel is closed, or the value is in it.
pub data Sending : Type 0 where
  full : Sending
  refused : Sending
  sent : ObjChan → Sending

-- How a turn of a receiver ends: it has to wait, the channel is closed and empty, or it has a
-- value.
pub data Receiving : Type 0 where
  empty : Receiving
  ended : ObjChan → Receiving
  received : Value → ObjChan → Receiving

abbrev pub is_unbuffered : ObjChan → Bool
is_unbuffered c = c.capacity == 0

-- Without a buffer, a value is offered to a receiver that waits.
abbrev pub offer : Value → ObjChan → Sending
offer val c =
    if not c.closed && (c.waiting_receivers == 0 || c.has_unbuffered_value)
    then full
    else if c.closed
    then refused
    else sent (record c { unbuffered_value = val; has_unbuffered_value = true })

-- `chan->buffer[chan->tail] = val`, with the tail one further
abbrev pub put : Value → ObjChan → Sending
put val c =
    if c.count == c.capacity && not c.closed
    then full
    else if c.closed
    then refused
    else sent (record c {
      buffer = set c.buffer c.tail val;
      tail = (c.tail + 1) % c.capacity;
      count = c.count + 1;
    })

unfoldable pub send : Value → ObjChan → Sending
send val c = if is_unbuffered c then offer val c else put val c

-- Whether the sender of an offered value has to wait for a receiver to take it.
abbrev pub is_pending : ObjChan → Bool
is_pending c = not c.closed && c.has_unbuffered_value

-- What a receiver does to a channel without a buffer before it waits.
unfoldable pub register : ObjChan → ObjChan
register c = if is_unbuffered c then record c { waiting_receivers = c.waiting_receivers + 1 } else c

-- Without a buffer: the value on offer.
abbrev pub accept : ObjChan → Receiving
accept c =
    if not c.has_unbuffered_value && not c.closed
    then empty
    else if not c.has_unbuffered_value && c.closed
    then ended (record c { waiting_receivers = c.waiting_receivers - 1 })
    else received c.unbuffered_value (record c {
      unbuffered_value = void_value;
      has_unbuffered_value = false;
      waiting_receivers = c.waiting_receivers - 1;
    })

-- `chan->buffer[chan->head]`, with the head one further
abbrev pub get : ObjChan → Receiving
get c =
    if c.count == 0 && not c.closed
    then empty
    else if c.count == 0 && c.closed
    then ended c
    else received (get_or c.buffer c.head void_value)
        (record c { head = (c.head + 1) % c.capacity; count = c.count - 1 })

unfoldable pub receive : ObjChan → Receiving
receive c = if is_unbuffered c then accept c else get c

unfoldable pub close : ObjChan → ObjChan
close c = record c { closed = true }
