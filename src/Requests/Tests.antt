-- ===== src/Requests/Tests.antt =====
-- An acknowledgement of a message that is not in flight, with bytes that stand for themselves.
use ryuk_dpq.Base.{ℕ, ◌≡◌, refl, true, false, some, List, [], ◌∷◌}
use ryuk_dpq.Base.Dict.{lookup}
use ryuk_dpq.Base.Int.{pos}
use ryuk_dpq.Engine.Deliver
use ryuk_dpq.Engine.Config.{Config}
use ryuk_dpq.Engine.State.{new_slot}
use ryuk_dpq.Engine.Queue.{find_slot, put_slot, slot, ack}
use ryuk_dpq.Engine.Queue.Admission.{AreSound, new_slot-InOrder, put_slot-AreSound}
use ryuk_dpq.Wire.Fields.{split, parse_digits, parse_uint}
use ryuk_dpq.Wire.Receipts.{Base64, decode_receipt, decode_parts, name_parts}
use ryuk_dpq.Requests.{LiveQueue, done, no_letters, ack_reply, ack_decoded, ack_request}
use ryuk_dpq.Requests.Repeats.{ack_request_again}

abbrev plain : Base64
plain = record { encode_bytes = λ b. b; decode_bytes = λ b. some b; decode_back = λ b. refl }

abbrev settings : Config ℕ
settings = record {
  key = record { org = "acme"; name = "jobs" };
  visibility_timeout = pos 30;
  max_retries = 3;
  max_retries_set = true;
  default_ttl = pos 0;
  starvation_threshold = pos 60;
  starvation_reserve = 200;
  starvation_avoidance_enabled = true;
  max_depth = pos 10;
  distributed = false;
  has_dead_letter = true;
}

abbrev empty_queue : LiveQueue ℕ
empty_queue = record {
  q = record {
    conf = settings;
    slots = new_slot 3 ∷ [];
    incarnation = 77;
    seq = 5;
    dispatched = 0;
    rr = 0;
    cursor = 0;
    depth = pos 0;
    reserved = pos 0;
    escapes = 0;
    frozen = false;
    journal = [];
  };
  letters = no_letters;
}

-- "3:m:1:77"
abbrev token : List ℕ
token = 51 ∷ 58 ∷ 109 ∷ 58 ∷ 49 ∷ 58 ∷ 55 ∷ 55 ∷ []

none-AreSound : AreSound []
unfolding find_slot
none-AreSound i s e = cc

one_slot-AreSound : AreSound (new_slot 3 ∷ [])
unfolding put_slot
one_slot-AreSound =
    let o = new_slot-InOrder 3 in put_slot-AreSound [] (new_slot 3) none-AreSound (o.well, o.gauged)

ack_request_again_example :
    ack_request plain (λ b. "m") (some empty_queue) token ≡ (done tt, some empty_queue)
unfolding ack_request ack_decoded ack_reply decode_receipt decode_parts name_parts split parse_uint
    parse_digits ack slot find_slot Deliver.ack new_slot lookup
ack_request_again_example =
    ack_request_again plain (λ b. "m") empty_queue empty_queue token one_slot-AreSound refl
