-- ===== src/Engine/Tests/Slots.antt =====
-- The theorems on the slots of a queue, at a queue with no slot yet, and on the settings.
use ryuk_dpq.Base.{
  ℕ, List, ◌+◌, ◌<◌, ◌≤◌, ◌≡◌, refl, true, false, [], ◌∷◌, ◌==◌, ltb, if◌then◌else◌, ◌/◌,
}
use ryuk_dpq.Base.Int.{pos, negsuc, ◌+ℤ◌, ◌-ℤ◌}
use ryuk_dpq.Engine.Config.{Floats, Config, apply_defaults, IsUsable, apply_defaults-IsUsable}
use ryuk_dpq.Engine.Queue.{
  Queue, EnqueueOptions, fanout, slot_count, find_slot, slot_for, enqueue_to_slot,
}
use ryuk_dpq.Engine.Dispatch.{dequeue}
use ryuk_dpq.Engine.Dispatch.Depth.{dequeue-depth}
use ryuk_dpq.Engine.Message.{Receipt}
use ryuk_dpq.Engine.Queue.{ack}
use ryuk_dpq.Engine.Queue.Settlement.{Settles, ack-Settles}
use ryuk_dpq.Engine.Accounts.{one}
use ryuk_dpq.Engine.Queue.Holdings.{held_in}
use ryuk_dpq.Engine.Migrate.{freeze_slots, drop_slots, absorb}
use ryuk_dpq.Engine.Migrate.Dropping.{hit}
use ryuk_dpq.Engine.Migrate.Handover.{handover_conserves}
use ryuk_dpq.Engine.Queue.Slots.{IsEnough, fanout_correct, slot_for_in_range}
use ryuk_dpq.Engine.Queue.Admission.{
  AreSound, Enqueued, enqueue_to_slot_correct, enqueue_to_slot-AreSound,
}

-- A share as so many thousandths.
abbrev pub permille : Floats
permille = record {
  F = ℕ;
  not_positive = λ n. n == 0;
  above_one = λ n. ltb 1000 n;
  one_fifth = 200;
  recip = λ n. if n == 0 then 0 else 1000 / n;
  same = λ m n. m == n;
  fifth_positive = refl;
  fifth_at_most_one = refl;
}

abbrev settings : Config ℕ
settings = record {
  key = record { org = "acme"; name = "orders" };
  visibility_timeout = pos 0;
  max_retries = 0;
  max_retries_set = false;
  default_ttl = negsuc 4;
  starvation_threshold = pos 0;
  starvation_reserve = 1001;
  starvation_avoidance_enabled = true;
  max_depth = pos 2;
  distributed = false;
  has_dead_letter = true;
}

abbrev pub queue : Queue ℕ
queue = record {
  conf = settings;
  slots = [];
  incarnation = 77;
  seq = 5;
  dispatched = 0;
  rr = 30;
  cursor = 0;
  depth = pos 1;
  reserved = pos 0;
  escapes = 0;
  frozen = false;
  journal = [];
}

abbrev options : EnqueueOptions
options = record {
  payload = 1 ∷ 2 ∷ [];
  priority = 100;
  group_id = "g";
  ttl = pos 0;
  deliver_after = pos 0;
}

apply_defaults-IsUsable_example : IsUsable permille (apply_defaults permille settings)
apply_defaults-IsUsable_example = apply_defaults-IsUsable permille settings

fanout_correct_example :
    let w = fanout queue (slot_count queue) in
    (1 ≤ w) × (w ≤ slot_count queue) × IsEnough w (slot_count queue) (pos 1)
fanout_correct_example = fanout_correct queue

slot_for_in_range_example : (slot_for queue "g").0 < slot_count queue
slot_for_in_range_example = slot_for_in_range queue "g"

enqueue_to_slot_correct_example :
    Enqueued queue 3 options 10 (enqueue_to_slot queue 3 options 10 "m9" true)
enqueue_to_slot_correct_example = enqueue_to_slot_correct queue 3 options 10 "m9" true

pub no_slots-AreSound : AreSound []
unfolding find_slot
no_slots-AreSound i s e = cc

enqueue_to_slot-AreSound_example : AreSound (enqueue_to_slot queue 3 options 10 "m9" true).1.slots
enqueue_to_slot-AreSound_example =
    enqueue_to_slot-AreSound queue 3 options 10 "m9" true no_slots-AreSound

dequeue-depth_example : (dequeue permille queue 20).1.depth ≡ pos 1
dequeue-depth_example = dequeue-depth permille queue 20

abbrev early_receipt : Receipt
early_receipt = record { slot = 3; message_id = "m9"; epoch = 1; incarnation = 77 }

ack-Settles_example :
    Settles queue early_receipt (ack queue early_receipt)
    × AreSound (ack queue early_receipt).1.slots
ack-Settles_example = ack-Settles queue early_receipt no_slots-AreSound

-- A queue with one message, whose slot moves to a queue with none.
abbrev source : Queue ℕ
source = (enqueue_to_slot queue 3 options 10 "m9" true).1

abbrev moved_slots : List ℕ
moved_slots = 3 ∷ []

handover_conserves_example :
    let r = freeze_slots moved_slots source in
    let u = absorb r.0 30 queue in
    let d = drop_slots moved_slots r.1 in
    (held_in one 3 u.slots + held_in one 3 d.1.slots
      ≡ held_in one 3 queue.slots + held_in one 3 source.slots)
    × (held_in one 3 d.1.slots
        ≡ (if hit 3 (slot_count source) moved_slots then 0 else held_in one 3 source.slots))
    × AreSound u.slots
    × AreSound d.1.slots
    × (u.depth ≡ queue.depth +ℤ pos d.0)
    × (d.1.depth ≡ source.depth -ℤ pos d.0)
handover_conserves_example =
    handover_conserves moved_slots 30 source queue one 3 (tt, tt) enqueue_to_slot-AreSound_example
      no_slots-AreSound (λ m n t. refl)
