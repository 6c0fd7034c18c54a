-- ===== src/Wal/Directory/Whole.antt =====
-- The replay of a directory whose logs are whole records and a last write that was cut short.
use ryuk_dpq.Base.{
  ℕ, ◌+◌, ◌^◌, ◌<◌, ◌≤◌, ◌≡◌, ◌≢◌, refl, ap, ◌∙◌, false, Option, some, List, [], ◌∷◌, ◌++◌, ◌==◌,
  if◌then◌else◌, arith, length, take, total, All, update,
}
use ryuk_dpq.Engine.Message.{Message}
use ryuk_dpq.Engine.Migrate.{BySlot}
use ryuk_dpq.Engine.Migrate.Absorbed.{sent_to, list_length}
use ryuk_dpq.Wal.Record.{encode, max_record_bytes}
use ryuk_dpq.Wal.Replay.{Json}
use ryuk_dpq.Wal.Changes.{left_by, NeverReturns}
use ryuk_dpq.Wal.Told.{Said, Tells, changes_of, replay_slot_recovers}
use ryuk_dpq.Wal.Recovery.{encode_all, Fits}
use ryuk_dpq.Wal.Names.{slot_file_name}
use ryuk_dpq.Wal.Names.Slots.{slot_from_name-slot_file_name}
use ryuk_dpq.Wal.Directory.{Files, has_slot, set_slot, with_slot, replay_file, replay_names}

-- A slot's log: its whole records, what they tell, and the write that was cut short after `cut` bytes.
pub record SlotLog : Type 0 where
  pub slot : ℕ
  pub records : List (ℕ × List ℕ)
  pub kind : ℕ
  pub body : List ℕ
  pub cut : ℕ
  pub said : List Said

abbrev pub file_of : SlotLog → List ℕ
file_of l = encode_all l.records ++ take l.cut (encode l.kind l.body)

-- The messages that the log leaves.
abbrev pub left_of : SlotLog → List Message
left_of l = left_by (changes_of l.said)

-- The records fit and decode, and no message is enqueued again after its end.
pub record IsCutShort (j : Json) (l : SlotLog) : Type 0 where
  pub numbered : l.slot < 2 ^ 16
  pub fits : All Fits l.records
  pub last_fits : length l.body ≤ max_record_bytes
  pub short : l.cut < length (encode l.kind l.body)
  pub tells : Tells j l.said l.records
  pub never : NeverReturns (changes_of l.said)

abbrev pub names_of : List SlotLog → List (List ℕ)
names_of [] = []
names_of (l ∷ ls) = slot_file_name l.slot ∷ names_of ls

-- The files are there, and no two logs are of one slot.
abbrev pub AreStored : List SlotLog → Files → Type 0
AreStored [] files = Unit
AreStored (l ∷ ls) files =
    (files l.slot ≡ some (file_of l))
    × All (λ (k : SlotLog). k.slot ≢ l.slot) ls
    × AreStored ls files

abbrev pub messages_at : (Message → ℕ) → ℕ → SlotLog → ℕ
messages_at w i l = if l.slot == i then total w (left_of l) else 0

abbrev pub message_count : SlotLog → ℕ
message_count l = length (left_of l)

other_file : (files : Files) (i k : ℕ) (x : Option (List ℕ)) → k ≢ i → update files i x k ≡ files k
other_file files i k x ne = ground (arith, ne)

-- The file of another slot is written.
AreStored-update :
    (ls : List SlotLog) (files : Files) (i : ℕ) (x : Option (List ℕ))
    → All (λ (k : SlotLog). k.slot ≢ i) ls
    → AreStored ls files
    → AreStored ls (update files i x)
AreStored-update [] files i x apart h = tt
AreStored-update (l ∷ ls) files i x apart h =
    (other_file files i l.slot x apart.0 ∙ h.0, h.1, AreStored-update ls files i x apart.1 h.2)

-- What a replay of logs finds.
pub record Finds (ls : List SlotLog) (files : Files) (r : Option BySlot × Files) : Type 0 where
  pub out : BySlot
  pub answer : r.0 ≡ some out
  pub at : (w : Message → ℕ) (i : ℕ) → total (sent_to w i) out ≡ total (messages_at w i) ls
  pub count : total list_length out ≡ total message_count ls
  pub within : (i : ℕ) → All (λ (k : SlotLog). k.slot ≢ i) ls → has_slot i out ≡ false

total-set_slot :
    (w : Message → ℕ) (i j : ℕ) (ms : List Message) (out : BySlot)
    → has_slot i out ≡ false
    → total (sent_to w j) (set_slot i ms out)
      ≡ (if i == j then total w ms else 0) + total (sent_to w j) out
unfolding set_slot
total-set_slot w i j [] out e = ground arith
total-set_slot w i j (m ∷ ms) out e = rw (e, set_slot) (omega arith)

count-set_slot :
    (i : ℕ) (ms : List Message) (out : BySlot)
    → has_slot i out ≡ false
    → total list_length (set_slot i ms out) ≡ length ms + total list_length out
unfolding set_slot
count-set_slot i [] out e = omega arith
count-set_slot i (m ∷ ms) out e = rw (e, set_slot) (omega arith)

has_slot-set_slot :
    (i j : ℕ) (ms : List Message) (out : BySlot)
    → i ≢ j
    → has_slot j out ≡ false
    → has_slot j (set_slot i ms out) ≡ false
unfolding set_slot has_slot
has_slot-set_slot i j [] out ne e = e
has_slot-set_slot i j (m ∷ ms) out ne e = ground (arith, ne, e)

total-one : (ms : List Message) → total (λ m. 1) ms ≡ length ms
total-one [] = refl
total-one (m ∷ ms) = omega (arith, total-one ms)

pub replay_names-Finds :
    (j : Json) (ls : List SlotLog) (files : Files)
    → All (IsCutShort j) ls
    → AreStored ls files
    → Finds ls files (replay_names j (names_of ls) files)
unfolding replay_names replay_file with_slot has_slot
replay_names-Finds j [] files good stored = record {
  out = [];
  answer = refl;
  at = λ w i. refl;
  count = refl;
  within = λ i h. refl;
}
replay_names-Finds j (l ∷ ls) files good stored =
    let g = good.0 in
    let name = slot_from_name-slot_file_name l.slot g.numbered in
    let one =
      replay_slot_recovers j l.said l.records l.kind l.body l.cut g.tells g.fits g.never g.last_fits
        g.short in
    let ms = one.messages in
    let many : length ms ≡ length (left_of l) =
      omega (arith, one.left (λ m. 1), total-one ms, total-one (left_of l)) in
    let here : replay_file j (files l.slot) ≡ some (ms, encode_all l.records) =
      ap (replay_file j) stored.0 ∙ one.answer in
    let rest =
      replay_names-Finds j ls (update files l.slot (some (encode_all l.records))) good.1
        (AreStored-update ls files l.slot _ stored.1 stored.2) in
    let new_slot = rest.within l.slot stored.1 in
    rw (name, replay_names, here, rest.answer)
      record {
        out = set_slot l.slot ms rest.out;
        answer = refl;
        at = λ w i.
            ground (arith, total-set_slot w l.slot i ms rest.out new_slot, rest.at w i, one.left w);
        count = omega (arith, count-set_slot l.slot ms rest.out new_slot, rest.count, many);
        within = λ i h. has_slot-set_slot l.slot i ms rest.out h.0 (rest.within i h.1);
      }
