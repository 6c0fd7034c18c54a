-- ===== src/Wal/Names/Tests.antt =====
-- Names and directories, at some inputs.
use ryuk_dpq.Base.{ℕ, ◌≡◌, ◌≢◌, refl, some, List, [], ◌∷◌, arith}
use ryuk_dpq.Placement.Keys.{digits, strconv_itoa}
use ryuk_dpq.Wal.Names.{
  pad, sanitise, hex_digits, slot_file_name, slot_from_name, list_keys, queue_name,
}
use ryuk_dpq.Wal.Names.Apart.{dir_apart}
use ryuk_dpq.Wal.Names.Slots.{slot_from_name-slot_file_name, list_keys-tree, tree}

-- "a.b"
abbrev dotted : List ℕ
dotted = 97 ∷ 46 ∷ 98 ∷ []

-- "jobs"
abbrev jobs : List ℕ
jobs = 106 ∷ 111 ∷ 98 ∷ 115 ∷ []

abbrev root : List ℕ
root = 47 ∷ 100 ∷ []

-- The escape of "." is "~2e".
escape_dot : sanitise dotted ≡ 97 ∷ 126 ∷ 50 ∷ 101 ∷ 98 ∷ []
unfolding sanitise hex_digits
escape_dot = refl

-- The rune 256 and the rune 16 before a "0" have one escape: names with greater runes can share a
-- directory.
escapes_meet : sanitise (256 ∷ []) ≡ sanitise (16 ∷ 48 ∷ [])
unfolding sanitise hex_digits
escapes_meet = refl

some_rune : {c : ℕ} {cs : List ℕ} → c ∷ cs ≢ []
some_rune e = absurd_rune e
  where
    absurd_rune : {c : ℕ} {cs : List ℕ} → c ∷ cs ≡ [] → ⊥
    absurd_rune h = absurd cc

dir_apart_example : (dotted ≡ dotted) × (jobs ≡ jobs)
dir_apart_example =
    dir_apart root dotted jobs dotted jobs some_rune some_rune some_rune some_rune (omega arith)
      (omega arith) refl

slot_from_name-slot_file_name_example : slot_from_name (slot_file_name 63) ≡ some 63
slot_from_name-slot_file_name_example = slot_from_name-slot_file_name 63 (omega arith)

-- "slot-0063.log"
file_of_63 :
    slot_file_name 63 ≡ 115 ∷ 108 ∷ 111 ∷ 116 ∷ 45 ∷ 48 ∷ 48 ∷ 54 ∷ 51 ∷ 46 ∷ 108 ∷ 111 ∷ 103 ∷ []
unfolding slot_file_name pad strconv_itoa digits
file_of_63 = refl

abbrev one_queue : List (List ℕ × List (List ℕ))
one_queue = (jobs, jobs ∷ []) ∷ []

list_keys-tree_example : list_keys (tree one_queue) ≡ (jobs, jobs) ∷ []
unfolding queue_name
list_keys-tree_example = list_keys-tree one_queue ((refl, (refl, tt)), tt)

-- The directory of an organisation with a "." is listed under its escaped name.
listed_escaped : list_keys (tree ((dotted, jobs ∷ []) ∷ [])) ≡ (sanitise dotted, jobs) ∷ []
unfolding list_keys sanitise
listed_escaped = refl
