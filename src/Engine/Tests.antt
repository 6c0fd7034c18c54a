-- ===== src/Engine/Tests.antt =====
-- The engine on a small slot: two messages of one group, and the lease of the second.
mod Caps
pub mod Leases
pub mod Slots
use ryuk_dpq.Base.{ℕ, zero, ◌+◌, ◌≡◌, refl, ◌≤◌, Option, none, some, List, [], ◌∷◌, arith}
use ryuk_dpq.Base.Int.{ℤ, pos, negsuc}
use ryuk_dpq.Base.Dict.{lookup, put, delete}
use ryuk_dpq.Engine.Deque.{all}
use ryuk_dpq.Engine.Deque
use ryuk_dpq.Engine.Accounts.{IsListed}
use ryuk_dpq.Engine.Message.{Message, Receipt, ok, err, expired, group, bucket_of}
use ryuk_dpq.Engine.Heaps.{push_timer, push_delay}
use ryuk_dpq.Engine.State.{
  Slot, Lease, new_group, new_slot, set_band, clear_band, highest_bit, highest_band, scan_heads,
  head_message, refresh_hint, leave, arrive, move,
}
use ryuk_dpq.Engine.Bands.{
  set_group, list_group, push_group, drop_band, leave_band, keep_band, found_group, take_loop,
  take_group, drop_group_if_idle, group_for, append_message, admit, unlock,
}
use ryuk_dpq.Engine.Deliver.{drop_expired, enqueue, pop_live, lend, take_from, take}

-- A message of group "g" at priority 50 that expires at 40, and one of no group that does not expire.
abbrev pub short_lived : Message
short_lived = record {
  id = "m1";
  payload = 7 ∷ 8 ∷ [];
  priority = 50;
  group_id = "g";
  seq = 1;
  enqueued_at = 10;
  expires_at = 40;
  deliver_after = 0;
  attempts = 0;
}

abbrev pub lasting : Message
lasting = record {
  id = "m2";
  payload = 9 ∷ [];
  priority = 50;
  group_id = "g";
  seq = 2;
  enqueued_at = 11;
  expires_at = 0;
  deliver_after = 0;
  attempts = 0;
}

abbrev pub stocked : Slot
stocked = enqueue (enqueue (new_slot 3) short_lived 10) lasting 11

abbrev pub leased : Slot
leased = (take stocked 50 60 (pos 30)).1

abbrev pub lease_of_lasting : Lease
lease_of_lasting = record { msg = record lasting { attempts = 1 }; g = 0; epoch = 1; deadline = 90 }

pub lease_there : lookup "m2" leased.inflight ≡ some lease_of_lasting
unfolding lookup put delete Deque.empty_deque Deque.len Deque.empty Deque.push_back Deque.pop_front
    Deque.front Deque.at Deque.all new_group new_slot expired group push_timer set_band clear_band
    highest_bit highest_band scan_heads head_message refresh_hint leave arrive move set_group
    list_group push_group drop_band leave_band keep_band found_group take_loop take_group
    drop_group_if_idle group_for append_message admit enqueue pop_live drop_expired lend take_from
    take
lease_there = refl

pub stocked-IsListed : IsListed stocked 0
unfolding lookup put Deque.empty_deque Deque.len Deque.empty Deque.push_back Deque.front Deque.at
    Deque.all new_group new_slot group set_band clear_band highest_bit highest_band scan_heads
    head_message refresh_hint leave arrive move set_group list_group push_group group_for
    append_message admit enqueue
stocked-IsListed = refl

pub stocked_two : all (stocked.store 0).msgs ≡ short_lived ∷ lasting ∷ []
unfolding lookup put Deque.empty_deque Deque.len Deque.empty Deque.push_back Deque.front Deque.at
    Deque.all new_group new_slot group set_band clear_band highest_bit highest_band scan_heads
    head_message refresh_hint leave arrive move set_group list_group push_group group_for
    append_message admit enqueue
stocked_two = refl
