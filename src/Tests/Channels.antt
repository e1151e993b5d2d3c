-- ===== src/Tests/Channels.antt =====
-- The theorems on channels of src/vm.c at concrete sequences of turns.
use opo.Base.{◌≡◌, refl, false, List, [], ◌∷◌}
use opo.Base.Int.{pos}
use opo.Chan.{send, register}
use opo.Chan.Fifo.{
  Turn, sends, receives, closes, take_turn, queue_turn, Agrees, view, answers, queue_answers,
  take_turn-Agrees, chan_lem, empty_chan-IsRing,
}
use opo.Chan.Rendezvous.{
  Shared, Steps, fresh, Inv, start, next, arrives, offers, on_offer, Steps-Inv,
}
use opo.Heap.{empty_chan}
use opo.Value.{int_value}

abbrev turns : List Turn
turns =
    sends (int_value 1)
    ∷ sends (int_value 2)
    ∷ sends (int_value 3)
    ∷ receives
    ∷ closes
    ∷ receives
    ∷ receives
    ∷ []

chan_lem_example :
    answers turns (empty_chan (pos 2))
    ≡ queue_answers turns (record { items = []; room = 2; is_closed = false })
chan_lem_example = chan_lem 1 turns

take_turn-Agrees_example :
    Agrees
      (take_turn (sends (int_value 1)) (empty_chan (pos 2)))
      (queue_turn (sends (int_value 1)) (view (empty_chan (pos 2))))
take_turn-Agrees_example =
    take_turn-Agrees (sends (int_value 1)) (empty_chan (pos 2)) (empty_chan-IsRing 1)

-- A receiver has come, and a sender has offered it a value.
abbrev one_there : Shared
one_there = record {
  channel = register (empty_chan (pos 0));
  offered = [];
  taken = [];
  receivers = 1;
}

abbrev met : Shared
met = record one_there {
  channel = on_offer (int_value 7) one_there.channel;
  offered = int_value 7 ∷ [];
}

meeting : Steps fresh met
unfolding register send
meeting = next (next start arrives) (offers (int_value 7) met.channel refl)

Steps-Inv_example : Inv met
Steps-Inv_example = Steps-Inv meeting
