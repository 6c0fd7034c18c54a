-- ===== src/Wire/Tests.antt =====
-- The token of a delivery, with bytes that stand for themselves.
use ryuk_dpq.Base.{◌≡◌, refl, some, arith}
use ryuk_dpq.Base.Int.{pos}
use ryuk_dpq.Slotting.{utf8}
use ryuk_dpq.Engine.Message.{Receipt}
use ryuk_dpq.Wire.Receipts.{
  Base64, Named, named, encode_receipt, decode_receipt, slot_from_receipt,
  decode_receipt-encode_receipt, slot_from_receipt-decode_receipt,
}

abbrev plain : Base64
plain = record { encode_bytes = λ b. b; decode_bytes = λ b. some b; decode_back = λ b. refl }

abbrev receipt : Receipt
receipt = record { slot = 3; message_id = "a1"; epoch = 7; incarnation = 1_700_000_000 }

abbrev read_back : Named
read_back = record { slot = 3; message_id = utf8 "a1"; epoch = 7; incarnation = 1_700_000_000 }

decode_receipt-encode_receipt_example :
    decode_receipt plain (encode_receipt plain receipt) ≡ named read_back
unfolding utf8
decode_receipt-encode_receipt_example =
    decode_receipt-encode_receipt plain receipt (omega arith) (omega arith) (omega arith)
      (refl, (refl, tt))

slot_from_receipt-decode_receipt_example :
    slot_from_receipt plain (encode_receipt plain receipt) ≡ some (pos 3)
slot_from_receipt-decode_receipt_example =
    slot_from_receipt-decode_receipt plain (encode_receipt plain receipt) read_back
      decode_receipt-encode_receipt_example
