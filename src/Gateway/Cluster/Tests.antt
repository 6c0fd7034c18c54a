-- ===== src/Gateway/Cluster/Tests.antt =====
-- A queue of three slots that are placed, one of them at a node that is gone, and a queue that is whole.
use ryuk_dpq.Base.{◌+◌, ◌≡◌, refl, String, true, false, List, [], ◌∷◌, total}
use ryuk_dpq.Gateway.Cluster.{Placement, is_live, places, shown, lost}
use ryuk_dpq.Gateway.Cluster.Slots.{owned_of, AreNamedApart, no_slot_hidden}

abbrev rows : List Placement
rows =
    record {
      key = "acme/jobs";
      distributed = true;
      owner_node = "";
      slot_owners = (0, "n1") ∷ (1, "n2") ∷ (2, "n1") ∷ [];
    }
    ∷ record { key = "acme/mail"; distributed = false; owner_node = "n1"; slot_owners = [] }
    ∷ []

abbrev members : List String
members = "n1" ∷ "n3" ∷ []

members_apart : AreNamedApart members
unfolding is_live
members_apart = (refl, (refl, tt))

no_slot_hidden_example :
    total (shown "acme/jobs" (places rows [])) members + lost "acme/jobs" members (places rows [])
    ≡ total (owned_of "acme/jobs") rows
no_slot_hidden_example =
    no_slot_hidden "acme/jobs" rows members ((refl, tt), (tt, tt)) members_apart
