-- ===== src/Gateway/Moves/Safety.antt =====
-- Whatever goes wrong in a move, the node that the placement names has the messages.
use ryuk_dpq.Base.{
  ℕ, ◌<◌, ◌≡◌, refl, String, Bool, true, false, not, ◌&&◌, ◌||◌, List, [], ◌⊎◌, inl, inr,
  Bool-cases, str_eq, ap, arith, total, total-append,
}
use ryuk_dpq.Gateway.Moves.{
  Call, done, failed, unsure, heard, Slots, Node, World, call, freeze, copies, absorb, discard,
  thaw, at_node, set_owner, set_migrating, Outcomes, all_below, abort_move, set_owners,
  commit_whole, commit_slots, hand_over, in_migration, migrate, move_route,
}
use ryuk_dpq.Gateway.Moves.Holding.{
  Has, Keeps, call-preserves, at_node-other, at_node-same, apart_sym, all_below-at, implied,
  and_false, heard-done,
}

module _ {M : Type 0} (from to : String) (s : Slots) (move : String) (o : Outcomes) (i : ℕ)
    (ms : List M) (apart : str_eq to from ≡ false) (named : s i ≡ true) where
  apart-sym : str_eq from to ≡ false
  apart-sym = apart_sym from to apart

  -- The old owner, or both, has the messages; the placement names one of them.
  abbrev Before : World M → Type 0
  Before w = (w.owner i ≡ from) × Has (w.nodes from) i ms

  abbrev Both : World M → Type 0
  Both w = ((w.owner i ≡ from) ⊎ (w.owner i ≡ to)) × Has (w.nodes from) i ms × Has (w.nodes to) i ms

  abbrev After : World M → Type 0
  After w = (w.owner i ≡ to) × Has (w.nodes to) i ms

  at_from :
      (f : Node M → Node M) (w : World M)
      → Has (f (w.nodes from)) i ms
      → Has ((at_node from f w).nodes from) i ms
  at_from f w h = rw (at_node-same from f w) h

  Before-Keeps : (w : World M) → Before w → Keeps w i ms
  Before-Keeps w (e, h) = rw e h

  After-Keeps : (w : World M) → After w → Keeps w i ms
  After-Keeps w (e, h) = rw e h

  Both-Keeps : (w : World M) → Both w → Keeps w i ms
  Both-Keeps w (inl e, h, h') = rw e h
  Both-Keeps w (inr e, h, h') = rw e h'

  abort_move-Before : (w : World M) → Before w → Before (abort_move from to s move o w)
  unfolding abort_move thaw
  abort_move-Before w (e, h) =
      call-preserves Before o.abort (at_node from (thaw s)) w (e, h) (e, at_from (thaw s) w h)

  abort_move-Both : (w : World M) → Both w → Both (abort_move from to s move o w)
  unfolding abort_move thaw
  abort_move-Both w (e, h, h') =
      call-preserves Both o.abort (at_node from (thaw s)) w (e, h, h')
        (e, at_from (thaw s) w h, rw (at_node-other from to (thaw s) w apart) h')

  discard-After : (w : World M) → After w → After (call o.discard (at_node from (discard s)) w)
  discard-After w (e, h) =
      call-preserves After o.discard (at_node from (discard s)) w (e, h)
        (e, rw (at_node-other from to (discard s) w apart) h)

  -- What a commit promises.
  abbrev Commits : (World M → Bool × World M) → Type 0
  Commits commit =
      (w : World M)
      → w.owner i ≡ from
      → Has (w.nodes from) i ms
      → Has (w.nodes to) i ms
      → Keeps (commit w).1 i ms

  -- The old owner lets go, or not, of a slot whose new owner is recorded.
  let_go : World M → World M
  let_go w = call o.discard (at_node from (discard s)) w

  commit_whole-Commits : Commits (commit_whole from to s move o)
  unfolding commit_whole set_owner let_go
  commit_whole-Commits w e h h' = go (o.record_owner 0) refl
    where
      w1 : World M
      w1 = set_owner (λ _. true) to w

      go : (c : Call) → o.record_owner 0 ≡ c → Keeps (commit_whole from to s move o w).1 i ms
      go done r = rw (commit_whole, r) (After-Keeps (let_go w1) (discard-After w1 (refl, h')))
      go failed r =
          rw (commit_whole, r)
            (Both-Keeps (abort_move from to s move o w) (abort_move-Both w (inl e, h, h')))
      go unsure r =
          rw (commit_whole, r)
            (Both-Keeps (abort_move from to s move o w1) (abort_move-Both w1 (inr refl, h, h')))

  set_owners-owner :
      (c : Call) (w : World M)
      → o.record_owner i ≡ c
      → w.owner i ≡ from
      → ((set_owners from to s move o w).owner i ≡ from)
        ⊎ ((set_owners from to s move o w).owner i ≡ to)
  unfolding set_owners
  set_owners-owner done w r e = inr (rw (r, named) refl)
  set_owners-owner failed w r e = inl (rw r e)
  set_owners-owner unsure w r e = inr (rw (r, named) refl)

  commit_slots-Commits : (count : ℕ) → i < count → Commits (commit_slots from to s move o count)
  unfolding commit_slots let_go set_owners
  commit_slots-Commits count below w e h h' = elim (Bool-cases all_heard) [
    | inl y ↦
        let r : o.record_owner i ≡ done =
          heard-done _ (implied (s i) _ named (all_below-at i count _ y below)) in
        let w1 : World M = set_owners from to s move o w in
        rw (commit_slots, y) (After-Keeps (let_go w1) (discard-After w1 (rw (r, named) refl, h')))
    | inr n ↦
        rw (commit_slots, n)
          (Both-Keeps (set_owners from to s move o w)
            (set_owners-owner (o.record_owner i) w refl e, h, h'))
  ]
    where
      all_heard : Bool
      all_heard = all_below count (λ i. not (s i) || heard (o.record_owner i))

  freeze-Has : (w : World M) → Before w → Before (call o.prepare (at_node from (freeze s)) w)
  unfolding freeze
  freeze-Has w (e, h) =
      call-preserves Before o.prepare (at_node from (freeze s)) w (e, h) (e, at_from (freeze s) w h)

  -- What a move that is heard of puts on the new owner.
  absorb-Has :
      (n : Node M) (transfer : ℕ → List M)
      → n.applied move ≡ false
      → transfer i ≡ ms
      → Has (absorb move transfer n) i ms
  unfolding absorb
  absorb-Has n transfer fresh t =
      let go : not (str_eq move "") && n.applied move ≡ false = rw fresh (and_false _) in
      rw (absorb, go, t) (n.held i, λ w. total-append w ms (n.held i))

  hand_over-Keeps :
      (commit : World M → Bool × World M) (w : World M)
      → Commits commit
      → w.owner i ≡ from
      → (w.nodes from).held i ≡ ms
      → (w.nodes to).applied move ≡ false
      → Keeps (hand_over from to s move o commit w).1 i ms
  unfolding hand_over copies
  hand_over-Keeps commit w c e h fresh = go o.prepare o.absorb refl refl
    where
      transfer : ℕ → List M
      transfer = copies s (w.nodes from)

      carried : transfer i ≡ ms
      carried = rw named h

      w1 : World M
      w1 = call o.prepare (at_node from (freeze s)) w

      w2 : World M
      w2 = call o.absorb (at_node to (absorb move transfer)) w1

      before1 : Before w1
      before1 = freeze-Has w (e, ([], λ w. omega (arith, ap (total w) h)))

      before2 : Before w2
      before2 =
          call-preserves Before o.absorb (at_node to (absorb move transfer)) w1 before1
            (before1.0, rw (at_node-other to from (absorb move transfer) w1 apart-sym) before1.1)

      fresh1 : (w1.nodes to).applied move ≡ false
      fresh1 =
          call-preserves (λ u. (u.nodes to).applied move ≡ false) o.prepare
            (at_node from (freeze s)) w fresh (rw (at_node-other from to (freeze s) w apart) fresh)

      arrived : o.absorb ≡ done → Has (w2.nodes to) i ms
      arrived a =
          rw (a, at_node-same to (absorb move transfer) w1)
            (absorb-Has (w1.nodes to) transfer fresh1 carried)

      given_up : Keeps (abort_move from to s move o w2) i ms
      given_up = Before-Keeps (abort_move from to s move o w2) (abort_move-Before w2 before2)

      go :
          (p a : Call)
          → o.prepare ≡ p
          → o.absorb ≡ a
          → Keeps (hand_over from to s move o commit w).1 i ms
      go failed a ep ea = rw (hand_over, ep) (rw ep at (Before-Keeps w1 before1))
      go unsure a ep ea = rw (hand_over, ep) (rw ep at (Before-Keeps w1 before1))
      go done failed ep ea = rw (hand_over, ep, ea) (rw (ep, ea) at given_up)
      go done unsure ep ea = rw (hand_over, ep, ea) (rw (ep, ea) at given_up)
      go done done ep ea =
          rw (hand_over, ep, ea) (rw (ep, ea) at (c w2 before2.0 before2.1 (arrived ea)))

  in_migration-Keeps :
      (body : World M → Bool × World M) (w : World M)
      → ((u : World M)
          → u.owner i ≡ from
          → (u.nodes from).held i ≡ ms
          → (u.nodes to).applied move ≡ false
          → Keeps (body u).1 i ms)
      → w.owner i ≡ from
      → (w.nodes from).held i ≡ ms
      → (w.nodes to).applied move ≡ false
      → Keeps (in_migration from to s move o body w).1 i ms
  unfolding in_migration set_migrating
  in_migration-Keeps body w b e h fresh = go o.begin refl
    where
      finish : (u : World M) → Keeps u i ms → Keeps (call o.end (set_migrating false) u) i ms
      finish u k = call-preserves (λ v. Keeps v i ms) o.end (set_migrating false) u k k

      go : (c : Call) → o.begin ≡ c → Keeps (in_migration from to s move o body w).1 i ms
      go done eb =
          let w1 : World M = set_migrating true w in
          rw (in_migration, eb) (finish (body w1).1 (b w1 e h fresh))
      go failed eb =
          rw (in_migration, eb) (Before-Keeps w (e, ([], λ w. omega (arith, ap (total w) h))))
      go unsure eb =
          rw (in_migration, eb) (Before-Keeps w (e, ([], λ w. omega (arith, ap (total w) h))))

-- Moving a whole queue, whatever happens to each call (carried out, not carried out, or carried out
-- with its answer lost): for a slot of the queue that belongs to the node that it is moved from, and a
-- move that the other node has not applied yet, the node that the placement then names has all the
-- messages of the slot, each as often as the old node had it, and maybe others.
pub migrate-Keeps :
    {M : Type 0} (from to : String) (s : Slots) (move : String) (o : Outcomes) (w : World M) (i : ℕ)
    → str_eq to from ≡ false
    → s i ≡ true
    → w.owner i ≡ from
    → (w.nodes to).applied move ≡ false
    → Keeps (migrate from to s move o w).1 i ((w.nodes from).held i)
unfolding migrate
migrate-Keeps from to s move o w i apart named e fresh =
    let ms = (w.nodes from).held i in
    in_migration-Keeps from to s move o i ms apart named
      (hand_over from to s move o (commit_whole from to s move o)) w
      (λ u a h f.
        hand_over-Keeps from to s move o i ms apart named (commit_whole from to s move o) u
          (commit_whole-Commits from to s move o i ms apart named) a h f)
      e refl fresh

-- The same of the slots that go from one node to another in a distributed queue, where the owner of
-- each slot is recorded on its own.
pub move_route-Keeps :
    {M : Type 0} (from to : String) (s : Slots) (move : String) (o : Outcomes) (count : ℕ)
    (w : World M) (i : ℕ)
    → str_eq to from ≡ false
    → s i ≡ true
    → i < count
    → w.owner i ≡ from
    → (w.nodes to).applied move ≡ false
    → Keeps (move_route from to s move o count w).1 i ((w.nodes from).held i)
unfolding move_route
move_route-Keeps from to s move o count w i apart named below e fresh =
    let ms = (w.nodes from).held i in
    in_migration-Keeps from to s move o i ms apart named
      (hand_over from to s move o (commit_slots from to s move o count)) w
      (λ u a h f.
        hand_over-Keeps from to s move o i ms apart named (commit_slots from to s move o count) u
          (commit_slots-Commits from to s move o i ms apart named count below) a h f)
      e refl fresh
