-- ===== src/Gateway/Metrics.antt =====
-- backend/gateway/logic/metrics-collector-logic.go: the figures of a distributed queue, which are asked of
-- each node that holds slots of it. The nodes' answers are arguments; the owners are asked in the
-- order of their first slots, where the code takes them in the order of a Go map.
pub mod Unavailable
mod Tests
use ryuk_dpq.Base.{
  ℕ, suc, ◌+◌, ◌%◌, ◌^◌, String, Bool, true, false, not, Option, none, some, List, [], ◌∷◌,
  if◌then◌else◌, str_eq, ltb,
}
use ryuk_dpq.Base.Int.{ℤ, pos, negsuc, ◌+ℤ◌, ◌-ℤ◌, is_positive}
use ryuk_dpq.Base.Dict.{lookup, put}
use ryuk_dpq.Engine.Message.{add64}
use ryuk_dpq.Gateway.Routing.{Answer, answered, refused, Code, code_not_found}
use ryuk_dpq.Gateway.Cache.{is_not_found}

pub record NodeStats : Type 0 where
  pub org : String
  pub name : String
  pub ready : ℕ → ℤ
  pub in_flight : ℤ
  pub delayed : ℤ
  pub oldest_age : ℤ
  pub top_ready : ℤ
  pub enqueued : ℕ
  pub acked : ℕ
  pub expired : ℕ
  pub requeued : ℕ
  pub dead_lettered : ℕ
  pub escapes : ℕ

larger : ℤ → ℤ → ℤ
larger a b = if is_positive (b -ℤ a) then b else a

-- Sums, but for the age and the priority, which are the greatest.
unfoldable pub add_stats : NodeStats → NodeStats → NodeStats
unfolding larger
add_stats into s = record {
  org = if str_eq into.org "" then s.org else into.org;
  name = if str_eq into.org "" then s.name else into.name;
  ready = λ b. into.ready b +ℤ s.ready b;
  in_flight = into.in_flight +ℤ s.in_flight;
  delayed = into.delayed +ℤ s.delayed;
  oldest_age = larger into.oldest_age s.oldest_age;
  top_ready = larger into.top_ready s.top_ready;
  enqueued = add64 into.enqueued s.enqueued;
  acked = add64 into.acked s.acked;
  expired = add64 into.expired s.expired;
  requeued = add64 into.requeued s.requeued;
  dead_lettered = add64 into.dead_lettered s.dead_lettered;
  escapes = add64 into.escapes s.escapes;
}

unfoldable pub no_stats : String → String → NodeStats
no_stats org name = record {
  org = org;
  name = name;
  ready = λ b. pos 0;
  in_flight = pos 0;
  delayed = pos 0;
  oldest_age = pos 0;
  top_ready = pos 0;
  enqueued = 0;
  acked = 0;
  expired = 0;
  requeued = 0;
  dead_lettered = 0;
  escapes = 0;
}

unfoldable pub one_more : Option ℕ → ℕ
one_more none = 1
one_more (some n) = n + 1

-- How many slots each node holds; a slot without an owner counts for none.
unfoldable pub slots_by_owner : List (ℕ × String) → List (String × ℕ)
unfolding one_more
slots_by_owner [] = []
slots_by_owner ((slot, owner) ∷ os) =
    let out = slots_by_owner os in
    if str_eq owner "" then out else put owner (one_more (lookup owner out)) out

-- What a node says of the queue; none is for a node that is not a member.
unfoldable pub count_owner : Option (Answer NodeStats) → ℕ → NodeStats × ℕ → NodeStats × ℕ
count_owner none held (total, missing) = (total, missing + held)
count_owner (some (answered s)) held (total, missing) = (add_stats total s, missing)
count_owner (some (refused code)) held (total, missing) =
    (total, if is_not_found code then missing else missing + held)

unfoldable pub ask_owners :
    (String → Option (Answer NodeStats)) → List (String × ℕ) → NodeStats × ℕ → NodeStats × ℕ
unfolding count_owner
ask_owners says [] r = r
ask_owners says ((owner, held) ∷ os) r = ask_owners says os (count_owner (says owner) held r)

-- The figures, and the slots that no node answered for.
unfoldable pub distributed_stats :
    (String → Option (Answer NodeStats)) → String → String → List (ℕ × String) → NodeStats × ℕ
unfolding ask_owners slots_by_owner no_stats
distributed_stats says org name slot_owners =
    ask_owners says (slots_by_owner slot_owners) (no_stats org name, 0)

-- A queue that is whole: its owner's answer, or else what was collected last, or else nothing. The
-- Boolean says that the figures are exact.
unfoldable pub whole_stats :
    Option (Answer NodeStats) → Option NodeStats → String → String → NodeStats × Bool
unfolding no_stats
whole_stats (some (answered s)) cached org name = (s, true)
whole_stats _ (some s) org name = (s, false)
whole_stats _ none org name = (no_stats org name, false)

-- One round of the collector: the answers of the nodes, which leaves out those that do not answer.
unfoldable pub sum_node :
    List NodeStats → List (String × NodeStats) → (NodeStats → String) → List (String × NodeStats)
sum_node [] totals key = totals
sum_node (s ∷ ss) totals key =
    let before : NodeStats = elim (lookup (key s) totals) [ none ↦ no_stats "" "" | some t ↦ t ] in
    sum_node ss (put (key s) (add_stats before s) totals) key

unfoldable pub collect :
    List (Option (List NodeStats))
    → List (String × NodeStats)
    → (NodeStats → String)
    → List (String × NodeStats)
unfolding sum_node
collect [] totals key = totals
collect (none ∷ nodes) totals key = collect nodes totals key
collect (some ss ∷ nodes) totals key = collect nodes (sum_node ss totals key) key
