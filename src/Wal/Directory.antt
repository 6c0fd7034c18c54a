-- ===== src/Wal/Directory.antt =====
-- backend/queue/repo/walfile/wal.go, Replay: all slots of a queue, from its directory. What is at the
-- path of a slot is kept under the slot's number; the names are those that the directory lists. The
-- failures of the file system are those of reading the directory and of a file that is not there.
pub mod Whole
use ryuk_dpq.Base.{
  ℕ, Bool, true, false, ◌||◌, Option, none, some, List, [], ◌∷◌, ◌==◌, if◌then◌else◌, update,
}
use ryuk_dpq.Engine.Message.{Message}
use ryuk_dpq.Engine.Migrate.{BySlot}
use ryuk_dpq.Wal.Replay.{Json, replay_slot}
use ryuk_dpq.Wal.Names.{slot_from_name}

abbrev pub Files : Type 0
Files = ℕ → Option (List ℕ)

unfoldable pub has_slot : ℕ → BySlot → Bool
has_slot i [] = false
has_slot i ((j, ms) ∷ out) = (j == i) || has_slot i out

-- A slot without messages gets no entry. `out` is of the names that follow, which overwrite.
unfoldable pub set_slot : ℕ → List Message → BySlot → BySlot
unfolding has_slot
set_slot i [] out = out
set_slot i (m ∷ ms) out = if has_slot i out then out else (i, m ∷ ms) ∷ out

-- Opens the file of a slot and replays it: the messages, and what the file is cut back to.
unfoldable pub replay_file : Json → Option (List ℕ) → Option (List Message × List ℕ)
replay_file j none = none
replay_file j (some file) = replay_slot j file

unfoldable pub with_slot : ℕ → List Message → Option BySlot → Option BySlot
with_slot i ms none = none
with_slot i ms (some out) = some (set_slot i ms out)

-- Files that were cut back stay so when a later one fails.
unfoldable pub replay_names : Json → List (List ℕ) → Files → Option BySlot × Files
unfolding replay_file set_slot with_slot
replay_names j [] files = (some [], files)
replay_names j (name ∷ names) files = elim (slot_from_name name) [
  | none ↦ replay_names j names files
  | some id ↦ elim (replay_file j (files id)) [
    | none ↦ (none, files)
    | some (ms, kept) ↦
        let (out, files1) = replay_names j names (update files id (some kept)) in
        (with_slot id ms out, files1)
  ]
]

unfoldable pub replay : Json → Option (List (List ℕ)) → Files → Option BySlot × Files
replay j none files = (none, files)
replay j (some names) files = replay_names j names files
