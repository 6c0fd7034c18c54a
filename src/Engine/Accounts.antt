-- ===== src/Engine/Accounts.antt =====
-- What a slot holds, by measure: for any measure of messages, the sum over the ready messages, over
-- the leased ones and over the delayed ones. The measure of one identifier, of one bucket or of the
-- payload turns these into statements on the messages, on the gauges and on the bytes.
pub mod Groups
pub mod Same
pub mod Search
pub mod Changes
pub mod Steps
pub mod Gauges
pub mod Operations
use ryuk_dpq.Base.{
  ℕ, suc, ◌+◌, ◌≤◌, ◌<◌, ◌≡◌, String, true, List, none, some, ◌⊎◌, length, total, All, ◌==◌,
  if◌then◌else◌, str_eq, [],
}
use ryuk_dpq.Base.Int.{pos}
use ryuk_dpq.Base.Dict.{lookup, IsKeyed}
use ryuk_dpq.Engine.Deque.{all}
use ryuk_dpq.Engine.Deque.Laws.{IsValid}
use ryuk_dpq.Engine.Message.{Message, bucket_of}
use ryuk_dpq.Engine.Heaps.{DelayEntry}
use ryuk_dpq.Engine.State.{Slot, Group, Lease, SlotStats}

-- A measure that does not read what the engine writes into a message that it holds.
abbrev pub IsStable : (Message → ℕ) → Type 0
IsStable w = (m : Message) (n t : ℕ) → w (record m { attempts = n; deliver_after = t }) ≡ w m

abbrev pub group_total : (Message → ℕ) → (ℕ → Group) → String × ℕ → ℕ
group_total w store (gid, a) = total w (all (store a).msgs)

abbrev pub lease_weight : (Message → ℕ) → String × Lease → ℕ
lease_weight w (k, l) = w l.msg

abbrev pub delay_weight : (Message → ℕ) → DelayEntry → ℕ
delay_weight w e = w e.msg

unfoldable pub ready_total : (Message → ℕ) → Slot → ℕ
ready_total w s = total (group_total w s.store) s.groups

unfoldable pub flight_total : (Message → ℕ) → Slot → ℕ
flight_total w s = total (lease_weight w) s.inflight

unfoldable pub delayed_total : (Message → ℕ) → Slot → ℕ
delayed_total w s = total (delay_weight w) s.delayed

abbrev pub held : (Message → ℕ) → Slot → ℕ
held w s = ready_total w s + flight_total w s + delayed_total w s

-- The measures that the gauges count by.
abbrev pub one : Message → ℕ
one m = 1

abbrev pub in_bucket : ℕ → Message → ℕ
in_bucket b m = if bucket_of m.priority == b then 1 else 0

abbrev pub size : Message → ℕ
size m = length m.payload

abbrev pub has_id : String → Message → ℕ
has_id k m = if str_eq m.id k then 1 else 0

abbrev pub IsNamed : (ℕ → Group) → String × ℕ → Type 0
IsNamed store (gid, a) = (store a).id ≡ gid

abbrev pub IsBelow : ℕ → String × ℕ → Type 0
IsBelow n (gid, a) = a < n

-- The group map lists the group under its own key.
abbrev pub IsListed : Slot → ℕ → Type 0
IsListed s a = lookup (s.store a).id s.groups ≡ some a

-- The structure of a slot. A group that the map does not list is empty, so nothing is out of reach;
-- a lease's group is locked and listed, and no two leases share one; a lease stands under its
-- message's identifier.
pub record IsWellFormed (s : Slot) : Type 0 where
  pub valid : (a : ℕ) → IsValid (s.store a).msgs
  pub keyed : IsKeyed s.groups
  pub named : All (IsNamed s.store) s.groups
  pub below : All (IsBelow s.fresh) s.groups
  pub listed : (a : ℕ) → (all (s.store a).msgs ≡ []) ⊎ IsListed s a
  pub leases_keyed : IsKeyed s.inflight
  pub locks : (k : String) (l : Lease) → lookup k s.inflight ≡ some l → (s.store l.g).locked ≡ true
  pub lists : (k : String) (l : Lease) → lookup k s.inflight ≡ some l → IsListed s l.g
  pub apart :
      (j k : String) (l n : Lease)
      → lookup j s.inflight ≡ some l
      → lookup k s.inflight ≡ some n
      → l.g ≡ n.g
      → j ≡ k
  pub ids : (k : String) (l : Lease) → lookup k s.inflight ≡ some l → l.msg.id ≡ k

-- The gauges are a partition of what the slot holds.
pub record IsGauged (s : Slot) : Type 0 where
  pub ready : (b : ℕ) → s.st.ready b ≡ pos (ready_total (in_bucket b) s)
  pub inflight : s.st.inflight ≡ pos (flight_total one s)
  pub delayed : s.st.delayed ≡ pos (delayed_total one s)
  pub bytes : s.st.bytes ≡ pos (held size s)

-- No identifier is held twice.
abbrev pub IsUnique : Slot → Type 0
IsUnique s = (k : String) → held (has_id k) s ≤ 1
