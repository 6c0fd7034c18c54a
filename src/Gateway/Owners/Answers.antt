-- ===== src/Gateway/Owners/Answers.antt =====
-- The owner that is looked up, and the placement after it.
use ryuk_dpq.Base.{ℕ, ◌≡◌, String, true, false, ◌⊎◌, ◌==◌, if◌then◌else◌, str_eq}
use ryuk_dpq.Placement.{Member}
use ryuk_dpq.Gateway.Routing.{Answer, answered, refused}
use ryuk_dpq.Gateway.Owners.{Placed}

-- An address that is answered is of a member: of the one that was read as the slot's owner, or of the one
-- that the tables name for the slot from then on, where none was read.
abbrev pub Agrees : Placed → ℕ → Answer String × (ℕ → String) → Type 0
Agrees p slot (refused code, rows) = Unit
Agrees p slot (answered addr, rows) =
    (m : Member) × (addr ≡ m.addr)
    × ((if str_eq (p.owner slot) "" then rows slot else p.owner slot) ≡ m.id)

-- The tables' row for slot `j` is as it was.
abbrev pub Spares : ℕ → (ℕ → String) → Answer String × (ℕ → String) → Type 0
Spares j rows r = r.1 j ≡ rows j

-- A row is written only where no owner was read for the slot, and it is the row of the slot.
abbrev pub IsOther : Placed → ℕ → ℕ → Type 0
IsOther p slot j =
    (str_eq (p.owner slot) "" ≡ false) ⊎ ((p.distributed ≡ true) × ((j == slot) ≡ false))
