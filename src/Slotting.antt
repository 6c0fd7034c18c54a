-- ===== src/Slotting.antt =====
-- backend/slotting/slotting.go and backend/queue/logic/engine/cluster.go: which slot a group hashes
-- to. hash/fnv is modelled as its definition, over the UTF-8 bytes of the strings.
use Prim.Native.Nat.{bit_xor}
use Prim.Native.Char.{code}
use Prim.Native.String.{String}
use ryuk_dpq.Base.{
  ℕ, ◌+◌, ◌*◌, ◌/◌, ◌%◌, ◌^◌, ◌<◌, Bool, true, false, List, [], ◌∷◌, ◌++◌, arith, ltb,
  if◌then◌else◌,
}

abbrev pub per_queue : ℕ
per_queue = 16

abbrev pub per_distributed_queue : ℕ
per_distributed_queue = 64

unfoldable pub count_for : Bool → ℕ
count_for distributed = if distributed then per_distributed_queue else per_queue

-- The UTF-8 encoding of a code point, and of a text.
unfoldable pub utf8_char : ℕ → List ℕ
utf8_char c =
    if ltb c 0x80
    then c ∷ []
    else if ltb c 0x800
    then (0xc0 + c / 0x40) ∷ (0x80 + c % 0x40) ∷ []
    else if ltb c 0x10000
    then (0xe0 + c / 0x1000) ∷ (0x80 + c / 0x40 % 0x40) ∷ (0x80 + c % 0x40) ∷ []
    else (0xf0 + c / 0x40000)
      ∷ (0x80 + c / 0x1000 % 0x40)
      ∷ (0x80 + c / 0x40 % 0x40)
      ∷ (0x80 + c % 0x40)
      ∷ []

unfoldable pub utf8 : String → List ℕ
unfolding utf8_char
utf8 String.[] = []
utf8 (String.◌∷◌ c s) = utf8_char (code c) ++ utf8 s

-- FNV-1a, 64 bits.
unfoldable pub fnv_write : ℕ → List ℕ → ℕ
fnv_write h [] = h
fnv_write h (b ∷ bs) = fnv_write (bit_xor h b * 1099511628211 % 2 ^ 64) bs

unfoldable pub sum64 : List ℕ → ℕ
unfolding fnv_write
sum64 bs = fnv_write 14695981039346656037 bs

unfoldable pub slot_for : String → String → String → ℕ → ℕ
unfolding sum64 utf8
slot_for org name group slots =
    sum64 (utf8 org ++ (0 ∷ (utf8 name ++ (0 ∷ utf8 group)))) % slots % 2 ^ 16

-- A group resolves to one of the queue's slots.
pub slot_for-lt :
    (org name group : String) (distributed : Bool)
    → slot_for org name group (count_for distributed) < count_for distributed
unfolding slot_for count_for
slot_for-lt org name group true = omega arith
slot_for-lt org name group false = omega arith

slot_for_runs : slot_for "acme" "orders" "g1" 16 < 16
unfolding slot_for
slot_for_runs = omega arith
