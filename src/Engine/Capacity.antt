-- ===== src/Engine/Capacity.antt =====
-- backend/queue/logic/engine/queue.go: the cap in EnqueueToSlot, a shared access at a time. The claim,
-- the test of the depth, the insertion into the slot, the count of it in the depth and the release of the
-- claim are five atomic operations, between which other producers and consumers run. A consumer takes
-- a message out of its slot, and counts that later. The depth is a signed counter, which may be below
-- zero in between: it is kept as what was added to it and what was subtracted.
pub mod Claims
pub mod Room
pub mod Going
pub mod Bound
use ryuk_dpq.Base.{ℕ, zero, suc, ◌+◌, ◌-◌, ◌<◌, ◌≤◌, ◌≡◌, List, [], ◌∷◌, ◌++◌}

-- Where a producer stands, from its claim to the release of it.
pub data Phase : Type 0 where
  claimed : Phase
  admitted : Phase
  inserted : Phase
  landed : Phase

-- `pending` is the local that the claim returned.
pub record Claim : Type 0 where
  pub pending : ℕ
  pub phase : Phase

-- The two counters of the queue, the depth being `added` less `removed`; the messages that the slots hold;
-- those that have left and are still in the depth; and the claims in flight, oldest first.
pub record Gate : Type 0 where
  pub added : ℕ
  pub removed : ℕ
  pub reserved : ℕ
  pub held : ℕ
  pub leaving : ℕ
  pub claims : List Claim

abbrev pub with_phase : Claim → Phase → Claim
with_phase c p = record c { phase = p }

-- The gate without a claim.
abbrev pub give_up : Gate → List Claim → Gate
give_up g cs = record g { reserved = g.reserved - 1; claims = cs }

-- One step of one producer, or of a consumer. `max` is the cap, which is set.
pub data Step (max : ℕ) (g : Gate) : Gate → Type 0 where
  claim : Step max g (record g {
    reserved = g.reserved + 1;
    claims = g.claims ++ record { pending = g.reserved + 1; phase = claimed } ∷ [];
  })
  admit :
      (xs : List Claim) (c : Claim) (ys : List Claim)
      → g.claims ≡ xs ++ c ∷ ys
      → c.phase ≡ claimed
      → g.added + c.pending ≤ max + g.removed
      → Step max g (record g { claims = xs ++ with_phase c admitted ∷ ys })
  refuse :
      (xs : List Claim) (c : Claim) (ys : List Claim)
      → g.claims ≡ xs ++ c ∷ ys
      → c.phase ≡ claimed
      → max + g.removed < g.added + c.pending
      → Step max g (give_up g (xs ++ ys))
  -- The slot is frozen, or the log refuses the message.
  fail :
      (xs : List Claim) (c : Claim) (ys : List Claim)
      → g.claims ≡ xs ++ c ∷ ys
      → c.phase ≡ admitted
      → Step max g (give_up g (xs ++ ys))
  -- The slot has the message, which consumers may take from now on.
  insert :
      (xs : List Claim) (c : Claim) (ys : List Claim)
      → g.claims ≡ xs ++ c ∷ ys
      → c.phase ≡ admitted
      → Step max g (record g { held = g.held + 1; claims = xs ++ with_phase c inserted ∷ ys })
  land :
      (xs : List Claim) (c : Claim) (ys : List Claim)
      → g.claims ≡ xs ++ c ∷ ys
      → c.phase ≡ inserted
      → Step max g (record g { added = g.added + 1; claims = xs ++ with_phase c landed ∷ ys })
  release :
      (xs : List Claim) (c : Claim) (ys : List Claim)
      → g.claims ≡ xs ++ c ∷ ys
      → c.phase ≡ landed
      → Step max g (give_up g (xs ++ ys))
  -- A message is acknowledged, dead-lettered or swept, and has still to be subtracted.
  leave : 0 < g.held → Step max g (record g { held = g.held - 1; leaving = g.leaving + 1 })
  subtract :
      0 < g.leaving → Step max g (record g { leaving = g.leaving - 1; removed = g.removed + 1 })
  -- An expired message is dropped by Dequeue, which leaves the depth.
  drop : 0 < g.held → Step max g (record g { held = g.held - 1 })

-- What is reached from a queue that nobody enqueues to, whose depth is within the cap and counts at least
-- what the slots hold.
pub data Reach (max : ℕ) : Gate → Type 0 where
  start :
      (d h : ℕ)
      → d ≤ max
      → h ≤ d
      → Reach max
          (record { added = d; removed = 0; reserved = 0; held = h; leaving = 0; claims = [] })
  later : {g h : Gate} → Reach max g → Step max g h → Reach max h
