-- ===== src/Engine/Tests/Leases.antt =====
-- The theorems on the deque and on the life of a message, at a slot of two messages.
use ryuk_dpq.Base.{length, ◌<◌, ℕ, ◌+◌, ◌≡◌, refl, [], ◌∷◌, arith, true}
use ryuk_dpq.Base.Int.{pos}
use ryuk_dpq.Engine.Deque.{Deque, pop_front, all}
use ryuk_dpq.Engine.Deque.Laws.{Pops, pop_front-Pops}
use ryuk_dpq.Engine.Message.{Message, message_zero, Receipt, ok}
use ryuk_dpq.Engine.State.{new_slot}
use ryuk_dpq.Engine.Bands.{take_group}
use ryuk_dpq.Engine.Deliver.{enqueue, pop_live, take, settle, ack}
use ryuk_dpq.Engine.Timers.{retire, nack}
use ryuk_dpq.Engine.Accounts.{
  IsWellFormed, IsGauged, IsStable, held, has_id, ready_total, flight_total, delayed_total,
}
use ryuk_dpq.Engine.Accounts.Search.{Takes, take_group-Takes}
use ryuk_dpq.Engine.Accounts.Steps.Leases.{without_lease}
use ryuk_dpq.Engine.Lifecycle.Drops.{Lives, pop_live-Lives}
use ryuk_dpq.Engine.Lifecycle.Enqueue.{enqueue_correct, enqueue-InOrder}
use ryuk_dpq.Engine.Lifecycle.Take.{InOrder, Taken, take_correct, has_id-IsStable}
use ryuk_dpq.Engine.Lifecycle.End.{Acks, ack_correct, Nacks, nack_correct, Retires, retire-Retires}
use ryuk_dpq.Engine.Queue.Admission.{new_slot-InOrder}
use ryuk_dpq.Engine.Tests.{
  short_lived, lasting, stocked, leased, lease_of_lasting, lease_there, stocked-IsListed,
  stocked_two,
}

none_held : held (has_id "m1") (new_slot 3) ≡ 0
unfolding new_slot ready_total flight_total delayed_total
none_held = refl

stocked_first-InOrder : InOrder (enqueue (new_slot 3) short_lived 10)
stocked_first-InOrder = enqueue-InOrder (new_slot 3) short_lived 10 (new_slot-InOrder 3) none_held

enqueue_correct_example :
    IsWellFormed (enqueue (new_slot 3) short_lived 10)
    × IsGauged (enqueue (new_slot 3) short_lived 10)
    × ((w : Message → ℕ)
        → IsStable w
        → held w (enqueue (new_slot 3) short_lived 10) ≡ held w (new_slot 3) + w short_lived)
enqueue_correct_example =
    enqueue_correct (new_slot 3) short_lived 10 (new_slot-InOrder 3).well
      (new_slot-InOrder 3).gauged

enqueue-InOrder_example : InOrder (enqueue (new_slot 3) short_lived 10)
enqueue-InOrder_example = enqueue-InOrder (new_slot 3) short_lived 10 (new_slot-InOrder 3) none_held

second_new : held (has_id "m2") (enqueue (new_slot 3) short_lived 10) ≡ 0
unfolding new_slot ready_total flight_total delayed_total
second_new =
    let o = new_slot-InOrder 3 in
    (enqueue_correct (new_slot 3) short_lived 10 o.well o.gauged).2 (has_id "m2")
      (has_id-IsStable "m2")

stocked-InOrder : InOrder stocked
stocked-InOrder =
    enqueue-InOrder (enqueue (new_slot 3) short_lived 10) lasting 11 stocked_first-InOrder
      second_new

take_correct_example : InOrder leased × Taken stocked 60 (pos 30) (take stocked 50 60 (pos 30))
take_correct_example = take_correct stocked 50 60 (pos 30) stocked-InOrder

leased-IsWellFormed : IsWellFormed leased
leased-IsWellFormed = (take_correct stocked 50 60 (pos 30) stocked-InOrder).0.well

abbrev receipt : Receipt
receipt = record { slot = 3; message_id = "m2"; epoch = 1; incarnation = 77 }

ack_correct_example : Acks leased receipt (ack leased receipt)
ack_correct_example = ack_correct leased receipt leased-IsWellFormed

nack_correct_example :
    Nacks leased receipt 70 3 (pos 5) true (nack leased receipt (pos 5) 70 3 true)
nack_correct_example = nack_correct leased receipt (pos 5) 70 3 true leased-IsWellFormed

acks : ack leased receipt ≡ ok (settle leased receipt lease_of_lasting)
unfolding ack
acks = rw (lease_there, ack) refl

retire-Retires_example :
    Retires leased
      (lease_of_lasting.msg)
      70
      1
      (pos 0)
      true
      (retire (without_lease leased "m2") lease_of_lasting 70 1 (pos 0) true)
retire-Retires_example =
    retire-Retires leased "m2" lease_of_lasting 70 1 (pos 0) true leased-IsWellFormed lease_there

fuel_enough : length (all (stocked.store 0).msgs) < 3
fuel_enough = rw stocked_two (omega arith)

pop_live-Lives_example : Lives stocked 0 60 (pop_live 3 stocked 0 60).0 (pop_live 3 stocked 0 60).1
pop_live-Lives_example =
    pop_live-Lives 3 stocked 0 60 stocked-InOrder.well stocked-IsListed fuel_enough

take_group-Takes_example : Takes stocked (take_group stocked 50)
take_group-Takes_example = take_group-Takes stocked 50

abbrev two : Deque Message
two = record { buf = short_lived ∷ lasting ∷ []; head = 0 }

pop_front-Pops_example : Pops two (pop_front two)
pop_front-Pops_example = pop_front-Pops two (omega arith)
