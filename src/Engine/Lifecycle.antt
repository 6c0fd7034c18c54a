-- ===== src/Engine/Lifecycle.antt =====
-- The life of a message in a slot: it comes in, is leased, and its lease ends. Each operation is one
-- transition of one message, which keeps the structure and the gauges.
pub mod Leave
pub mod Lend
pub mod Enqueue
pub mod Drops
pub mod Take
pub mod End
use ryuk_dpq.Base.{ℕ, ◌+◌, ◌≡◌, refl, ◌∙◌, ap, arith}
use ryuk_dpq.Engine.Message.{Message}
use ryuk_dpq.Engine.State.{Slot, MsgState, move}
use ryuk_dpq.Engine.Accounts.{
  IsStable, held, IsWellFormed, IsGauged, ready_total, flight_total, delayed_total,
}
use ryuk_dpq.Engine.Accounts.Same.{
  Same, Same-ready, Same-flight, Same-delayed, Same-held, Same-IsGauged, Same-IsWellFormed,
}
use ryuk_dpq.Engine.Accounts.Gauges.{
  Moved, Moved-held, Moved-IsGauged, Differ, in_slot, SameGauges-trans, SameGauges_of_eq,
}

-- The message went from place `x` to place `y`, and the slot is in order.
pub record Transition (s t : Slot) (m : Message) (x y : MsgState) : Type 0 where
  pub well : IsWellFormed t
  pub moved : Moved s t m x y

pub Transition-Same :
    {s t u : Slot} {m : Message} {x y : MsgState}
    → Transition s t m x y
    → Same t u
    → Transition s u m x y
Transition-Same p e = record {
  well = Same-IsWellFormed e p.well;
  moved = record {
    ready = λ w i. omega (arith, Same-ready e w, p.moved.ready w i);
    leases = λ w i. omega (arith, Same-flight e w, p.moved.leases w i);
    delay = λ w i. omega (arith, Same-delayed e w, p.moved.delay w i);
    base = p.moved.base;
    before = p.moved.before;
    gauges = SameGauges-trans p.moved.gauges (SameGauges_of_eq e.st);
  };
}
