-- ===== src/Wal/Names.antt =====
-- backend/queue/repo/walfile/wal.go: the names of directories and files (sanitise, Factory.dir, path,
-- slotFromName), and queueName of backend/gateway/controller/validate.go. A text is its runes. The root
-- is a clean path; filepath.Join leaves empty elements out and puts a slash between the others, and
-- cleans nothing else where no element has a dot or a slash.
pub mod Apart
pub mod Slots
mod Tests
use ryuk_dpq.Base.{
  ℕ, zero, suc, ◌+◌, ◌-◌, ◌/◌, ◌%◌, ◌≡◌, Bool, true, false, not, ◌&&◌, ◌||◌, Option, none, some,
  List, [], ◌∷◌, ◌++◌, ◌==◌, ltb, leb, if◌then◌else◌, length,
}
use ryuk_dpq.Base.Int.{ℤ, pos, negsuc}
use ryuk_dpq.Placement.Keys.{strconv_itoa}
use ryuk_dpq.Wire.Fields.{atoi}

-- A letter, a digit, "-" or "_".
unfoldable pub plain_rune : ℕ → Bool
plain_rune r =
    leb 97 r && leb r 122 || leb 65 r && leb r 90 || leb 48 r && leb r 57 || r == 45 || r == 95

-- %x: the hexadecimal digits of a number, from the first; a rune has six at most.
abbrev pub hex_digit : ℕ → ℕ
hex_digit d = if ltb d 10 then 48 + d else 87 + d

unfoldable pub hex_digits : ℕ → ℕ → List ℕ
hex_digits zero n = []
hex_digits (suc f) n =
    let rest = hex_digits f (n / 16) in
    if ltb n 16 then hex_digit n ∷ [] else rest ++ hex_digit (n % 16) ∷ []

-- %02x
unfoldable pub hex_pair : ℕ → List ℕ
hex_pair n = if ltb n 16 then 48 ∷ hex_digits 6 n else hex_digits 6 n

-- "~" marks an escape.
unfoldable pub sanitise : List ℕ → List ℕ
unfolding plain_rune hex_pair
sanitise [] = []
sanitise (r ∷ rs) =
    let rest = sanitise rs in if plain_rune r then r ∷ rest else 126 ∷ (hex_pair r ++ rest)

-- An element at the end of a path.
unfoldable pub join : List ℕ → List ℕ → List ℕ
join path [] = path
join path (c ∷ cs) = path ++ (47 ∷ c ∷ cs)

-- "queues"
abbrev pub queues_name : List ℕ
queues_name = 113 ∷ 117 ∷ 101 ∷ 117 ∷ 101 ∷ 115 ∷ []

unfoldable pub dir : List ℕ → List ℕ → List ℕ → List ℕ
unfolding join sanitise
dir root org name = join (join (join root queues_name) (sanitise org)) (sanitise name)

-- What the gateway takes for the name of a queue.
pub data NameCheck : Type 0 where
  name_fits : NameCheck
  name_missing : NameCheck
  name_too_long : NameCheck
  name_bad_rune : NameCheck

unfoldable pub all_plain : List ℕ → Bool
unfolding plain_rune
all_plain [] = true
all_plain (r ∷ rs) = plain_rune r && all_plain rs

-- `bytes` is the length of the name in bytes.
unfoldable pub queue_name : ℕ → List ℕ → NameCheck
unfolding all_plain
queue_name bytes name =
    if length name == 0
    then name_missing
    else if ltb 128 bytes
    then name_too_long
    else if not (all_plain name)
    then name_bad_rune
    else name_fits

-- %04d
unfoldable pub pad : ℕ → List ℕ → List ℕ
pad zero s = s
pad (suc n) s = if ltb (length s) (suc n) then 48 ∷ pad n s else s

-- "slot-"
abbrev pub slot_prefix : List ℕ
slot_prefix = 115 ∷ 108 ∷ 111 ∷ 116 ∷ 45 ∷ []

-- ".log"
abbrev pub log_suffix : List ℕ
log_suffix = 46 ∷ 108 ∷ 111 ∷ 103 ∷ []

unfoldable pub slot_file_name : ℕ → List ℕ
slot_file_name id = slot_prefix ++ (pad 4 (strconv_itoa id) ++ log_suffix)

unfoldable pub same_bytes : List ℕ → List ℕ → Bool
same_bytes [] [] = true
same_bytes [] (y ∷ ys) = false
same_bytes (x ∷ xs) [] = false
same_bytes (x ∷ xs) (y ∷ ys) = x == y && same_bytes xs ys

-- What follows a prefix.
unfoldable pub trim_prefix : List ℕ → List ℕ → Option (List ℕ)
trim_prefix [] s = some s
trim_prefix (p ∷ ps) [] = none
trim_prefix (p ∷ ps) (c ∷ cs) = let rest = trim_prefix ps cs in if p == c then rest else none

-- What stands before a suffix.
unfoldable pub trim_suffix : List ℕ → List ℕ → Option (List ℕ)
unfolding same_bytes
trim_suffix p [] = if same_bytes p [] then some [] else none
trim_suffix p (c ∷ cs) =
    let rest = trim_suffix p cs in
    let kept : Option (List ℕ) = elim rest [ none ↦ none | some s ↦ some (c ∷ s) ] in
    if same_bytes p (c ∷ cs) then some [] else kept

abbrev pub in_uint16 : ℤ → Option ℕ
in_uint16 (negsuc n) = none
in_uint16 (pos n) = if ltb 65535 n then none else some n

abbrev pub number_of : Option ℤ → Option ℕ
number_of none = none
number_of (some n) = in_uint16 n

unfoldable pub slot_from_name : List ℕ → Option ℕ
unfolding trim_prefix trim_suffix
slot_from_name name = elim (trim_prefix slot_prefix name) as (λ _. Option ℕ) [
  | none ↦ none
  | some rest ↦ elim (trim_suffix log_suffix rest) as (λ _. Option ℕ) [
    | none ↦ none
    | some digits ↦ number_of (atoi digits)
  ]
]

-- The directories of the queues, as what the file system lists: a name, whether it is a directory, and
-- what stands in it. Entries that cannot be read are not in it.
pub record Listed : Type 0 where
  pub name : List ℕ
  pub is_dir : Bool

unfoldable pub names_in : List ℕ → List Listed → List (List ℕ × List ℕ)
names_in org [] = []
names_in org (e ∷ es) =
    let rest = names_in org es in if e.is_dir then (org, e.name) ∷ rest else rest

unfoldable pub list_keys : List (Listed × List Listed) → List (List ℕ × List ℕ)
unfolding names_in
list_keys [] = []
list_keys ((o, es) ∷ os) =
    let rest = list_keys os in if not o.is_dir then rest else names_in o.name es ++ rest
