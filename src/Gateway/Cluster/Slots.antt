-- ===== src/Gateway/Cluster/Slots.antt =====
-- Every slot with an owner is shown under a node or as lost.
use ryuk_dpq.Base.{
  ℕ, ◌+◌, ◌≡◌, refl, String, false, List, [], ◌∷◌, if◌then◌else◌, str_eq, eq_iff, total, All, arith,
  inl, inr, Bool-cases, if_cases,
}
use ryuk_dpq.Slotting.{count_for}
use ryuk_dpq.Gateway.Cluster.{
  Placement, Place, is_place, add_place, set_place, add_owners, add_queue, places, is_live, shown,
  lost,
}

abbrev weight : String → Place → ℕ
weight k p = if str_eq p.queue k then p.slots else 0

add_place-weight :
    (k n q : String) (ps : List Place)
    → total (weight k) (add_place n q ps) ≡ total (weight k) ps + (if str_eq q k then 1 else 0)
unfolding add_place is_place
add_place-weight k n q [] = omega arith
add_place-weight k n q (p ∷ ps) =
    ground (arith, eq_iff p.queue q, eq_iff p.node n, add_place-weight k n q ps)

-- One for a slot that has an owner.
abbrev pub owned : ℕ × String → ℕ
owned (slot, owner) = if str_eq owner "" then 0 else 1

add_owners-weight :
    (k q : String) (os : List (ℕ × String)) (ps : List Place)
    → total (weight k) (add_owners q os ps)
      ≡ total (weight k) ps + (if str_eq q k then total owned os else 0)
unfolding add_owners
add_owners-weight k q [] ps = ground arith
add_owners-weight k q ((slot, owner) ∷ os) ps = elim (Bool-cases (str_eq owner "")) [
  | inl e ↦ rw (add_owners, e) (ground (arith, add_owners-weight k q os ps))
  | inr e ↦
      rw (add_owners, e)
        (ground
          (arith, add_owners-weight k q os (add_place owner q ps), add_place-weight k owner q ps))
]

-- No place is of the queue.
abbrev IsNew : String → List Place → Type 0
IsNew q ps = All (λ (p : Place). str_eq p.queue q ≡ false) ps

set_place-weight :
    (k n q : String) (v : ℕ) (ps : List Place)
    → IsNew q ps
    → total (weight k) (set_place n q v (add_place n q ps))
      ≡ total (weight k) ps + (if str_eq q k then v else 0)
unfolding add_place set_place is_place
set_place-weight k n q v [] h = ground (arith, eq_iff n n, eq_iff q q)
set_place-weight k n q v (p ∷ ps) h = ground (arith, h.0, set_place-weight k n q v ps h.1)

IsNew-add_place :
    (n q k : String) (ps : List Place)
    → str_eq k q ≡ false
    → IsNew q ps
    → IsNew q (add_place n k ps)
unfolding add_place is_place
IsNew-add_place n q k [] e h = (e, tt)
IsNew-add_place n q k (p ∷ ps) e h = ground (arith, h.0, h.1, IsNew-add_place n q k ps e h.1)

IsNew-set_place :
    (n q k : String) (v : ℕ) (ps : List Place) → IsNew q ps → IsNew q (set_place n k v ps)
unfolding set_place is_place
IsNew-set_place n q k v [] h = tt
IsNew-set_place n q k v (p ∷ ps) h = ground (arith, h.0, h.1, IsNew-set_place n q k v ps h.1)

IsNew-add_owners :
    (q k : String) (os : List (ℕ × String)) (ps : List Place)
    → str_eq k q ≡ false
    → IsNew q ps
    → IsNew q (add_owners k os ps)
unfolding add_owners
IsNew-add_owners q k [] ps e h = h
IsNew-add_owners q k ((slot, owner) ∷ os) ps e h =
    IsNew-add_owners q k os (if str_eq owner "" then ps else add_place owner k ps) e
      (if_cases (IsNew q) (str_eq owner "") (λ _. h) (λ _. IsNew-add_place owner q k ps e h))

IsNew-add_queue :
    (q : String) (c : Placement) (ps : List Place)
    → str_eq c.key q ≡ false
    → IsNew q ps
    → IsNew q (add_queue c ps)
unfolding add_queue
IsNew-add_queue q c ps e h =
    if_cases (IsNew q) c.distributed (λ _. IsNew-add_owners q c.key c.slot_owners ps e h)
      (λ _.
        if_cases (IsNew q) (str_eq c.owner_node "") (λ _. h)
          (λ _.
            IsNew-set_place c.owner_node q c.key (count_for false) (add_place c.owner_node c.key ps)
              (IsNew-add_place c.owner_node q c.key ps e h)))

-- The slots of a queue that have an owner.
abbrev pub owned_slots : Placement → ℕ
owned_slots c =
    if c.distributed
    then total owned c.slot_owners
    else if str_eq c.owner_node ""
    then 0
    else count_for false

abbrev pub owned_of : String → Placement → ℕ
owned_of k c = if str_eq c.key k then owned_slots c else 0

add_queue-weight :
    (k : String) (c : Placement) (ps : List Place)
    → IsNew c.key ps
    → total (weight k) (add_queue c ps) ≡ total (weight k) ps + owned_of k c
unfolding add_queue
add_queue-weight k c ps h = ground (
  arith,
  add_owners-weight k c.key c.slot_owners ps,
  set_place-weight k c.owner_node c.key (count_for false) ps h,
)

-- No two rows are of one queue.
abbrev pub AreApart : List Placement → Type 0
AreApart [] = Unit
AreApart (c ∷ cs) = All (λ (d : Placement). str_eq c.key d.key ≡ false) cs × AreApart cs

AreNew : List Placement → List Place → Type 0
AreNew cs ps = All (λ (c : Placement). IsNew c.key ps) cs

AreNew-add_queue :
    (c : Placement) (cs : List Placement) (ps : List Place)
    → All (λ (d : Placement). str_eq c.key d.key ≡ false) cs
    → AreNew cs ps
    → AreNew cs (add_queue c ps)
unfolding AreNew
AreNew-add_queue c [] ps e h = tt
AreNew-add_queue c (d ∷ cs) ps e h =
    (IsNew-add_queue d.key c ps e.0 h.0, AreNew-add_queue c cs ps e.1 h.1)

places-weight :
    (k : String) (cs : List Placement) (ps : List Place)
    → AreApart cs
    → AreNew cs ps
    → total (weight k) (places cs ps) ≡ total (weight k) ps + total (owned_of k) cs
unfolding places AreNew
places-weight k [] ps a h = omega arith
places-weight k (c ∷ cs) ps a h = omega (
  arith,
  add_queue-weight k c ps h.0,
  places-weight k cs (add_queue c ps) a.1 (AreNew-add_queue c cs ps a.0 h.1),
)

-- No two members have one identifier.
abbrev pub AreNamedApart : List String → Type 0
AreNamedApart [] = Unit
AreNamedApart (m ∷ ms) = (is_live m ms ≡ false) × AreNamedApart ms

one_member :
    (n : String) (v : ℕ) (ms : List String)
    → AreNamedApart ms
    → total (λ m. if str_eq n m then v else 0) ms ≡ (if is_live n ms then v else 0)
unfolding is_live
one_member n v [] a = refl
one_member n v (m ∷ ms) a = ground (arith, eq_iff n m, eq_iff m n, a.0, one_member n v ms a.1)

shown_place :
    (k : String) (p : Place) (ps : List Place) (ms : List String)
    → total (shown k (p ∷ ps)) ms
      ≡ total (λ m. if str_eq p.node m then weight k p else 0) ms + total (shown k ps) ms
unfolding shown
shown_place k p ps [] = refl
shown_place k p ps (m ∷ ms) = ground (arith, shown_place k p ps ms)

nothing_shown : (k : String) (ms : List String) → total (shown k []) ms ≡ 0
unfolding shown
nothing_shown k [] = refl
nothing_shown k (m ∷ ms) = omega (arith, nothing_shown k ms)

shown-lost :
    (k : String) (ms : List String) (ps : List Place)
    → AreNamedApart ms
    → total (shown k ps) ms + lost k ms ps ≡ total (weight k) ps
unfolding lost
shown-lost k ms [] a = omega (arith, nothing_shown k ms)
shown-lost k ms (p ∷ ps) a =
    ground (arith, shown_place k p ps ms, one_member p.node (weight k p) ms a, shown-lost k ms ps a)

none-AreNew : (cs : List Placement) → AreNew cs []
unfolding AreNew
none-AreNew [] = tt
none-AreNew (c ∷ cs) = (tt, none-AreNew cs)

-- For rows of different queues and members of different names: the slots that the overview shows for a
-- queue under its members and those that it reports as unavailable are together the slots of the
-- queue that have an owner.
pub no_slot_hidden :
    (k : String) (cs : List Placement) (members : List String)
    → AreApart cs
    → AreNamedApart members
    → let ps = places cs [] in
      total (shown k ps) members + lost k members ps ≡ total (owned_of k) cs
no_slot_hidden k cs members apart named =
    omega (
      arith,
      shown-lost k members (places cs []) named,
      places-weight k cs [] apart (none-AreNew cs),
    )
