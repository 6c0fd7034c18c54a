-- ===== src/Wal/GroupCommit.antt =====
-- backend/queue/repo/walfile/wal.go: syncThrough and the end of append, the flushes that many appends
-- to the log of one slot share. Each access under the mutex of the slot file is one step; a flush runs
-- with the mutex let go. What Sync of the file promises is in the steps `land` and `fail`: a success
-- covers what was written before it began, a failure promises nothing. A log is not compacted
-- meanwhile.
pub mod Durable
mod Tests
use ryuk_dpq.Base.{
  ℕ, ◌+◌, ◌%◌, ◌^◌, ◌<◌, ◌≤◌, ◌≡◌, Bool, true, false, not, ◌&&◌, ◌||◌, Option, none, some, List, [],
  ◌∷◌, ◌++◌, ltb, leb, if◌then◌else◌,
}

pub data SyncMode : Type 0 where
  sync_always : SyncMode
  sync_interval : SyncMode
  sync_never : SyncMode

abbrev pub is_always : SyncMode → Bool
is_always sync_always = true
is_always _ = false

pub record SlotFile : Type 0 where
  pub written : ℕ
  pub synced : ℕ
  pub flushes : ℕ
  pub syncing : Bool
  pub sync_err : Bool

-- What a call of syncThrough does after a look under the mutex: it returns, with or without the error
-- of the last flush, it waits for the flush that runs, or it flushes what is written.
pub data Look : Type 0 where
  returns : Bool → Look
  waits : Look
  flushes_to : ℕ → Look

unfoldable pub look : SlotFile → ℕ → Look
look s seq =
    if leb seq s.synced
    then returns s.sync_err
    else if s.syncing
    then waits
    else flushes_to s.written

unfoldable pub begin_flush : SlotFile → SlotFile
begin_flush s = record s { syncing = true; flushes = (s.flushes + 1) % 2 ^ 64 }

unfoldable pub end_flush : SlotFile → ℕ → Bool → SlotFile
end_flush s target failed = record s {
  synced = if not failed && ltb s.synced target then target else s.synced;
  sync_err = failed;
  syncing = false;
}

pub data Appended : Type 0 where
  refused : Appended
  done : Appended
  syncs : ℕ → Appended

-- The write of a record and what follows it; `wrote` is whether the write went well.
unfoldable pub append_record : SyncMode → Bool → Bool → SlotFile → SlotFile × Appended
append_record mode durable wrote s =
    let s1 = record s { written = (s.written + 1) % 2 ^ 64 } in
    if not wrote
    then (s, refused)
    else if not durable || not (is_always mode)
    then (s1, done)
    else (s1, syncs s1.written)

-- A flush that runs, for the call that began it.
pub record Flight : Type 0 where
  pub seq : ℕ
  pub target : ℕ

-- The slot file with the calls of syncThrough that have not returned, the flush that runs, how many of
-- the records the disk holds, and the numbers that were answered without an error.
pub record Log : Type 0 where
  pub file : SlotFile
  pub calls : List ℕ
  pub flight : Option Flight
  pub durable : ℕ
  pub answered : List ℕ

abbrev pub after_append : Log → SlotFile × Appended → Log
after_append g (s, syncs seq) = record g { file = s; calls = g.calls ++ seq ∷ [] }
after_append g (s, _) = record g { file = s }

abbrev pub answer : Bool → ℕ → Log → Log
answer failed seq g = if failed then g else record g { answered = seq ∷ g.answered }

pub data Step (mode : SyncMode) (g : Log) : Log → Type 0 where
  write :
      (durable wrote : Bool)
      → g.file.written + 1 < 2 ^ 64
      → Step mode g (after_append g (append_record mode durable wrote g.file))
  -- The round of the ticker, for one file.
  sync_all : Step mode g (record g { calls = g.calls ++ g.file.written ∷ [] })
  return :
      (xs : List ℕ) (seq : ℕ) (ys : List ℕ) (failed : Bool)
      → g.calls ≡ xs ++ seq ∷ ys
      → look g.file seq ≡ returns failed
      → Step mode g (answer failed seq (record g { calls = xs ++ ys }))
  flush :
      (xs : List ℕ) (seq : ℕ) (ys : List ℕ) (target : ℕ)
      → g.calls ≡ xs ++ seq ∷ ys
      → look g.file seq ≡ flushes_to target
      → Step mode g (record g {
        file = begin_flush g.file;
        calls = xs ++ ys;
        flight = some (record { seq = seq; target = target });
      })
  land :
      (f : Flight) (d : ℕ)
      → g.flight ≡ some f
      → f.target ≤ d
      → g.durable ≤ d
      → d ≤ g.file.written
      → Step mode g (
          answer false f.seq
            (record g { file = end_flush g.file f.target false; flight = none; durable = d }))
  fail :
      (f : Flight)
      → g.flight ≡ some f
      → Step mode g
          (answer true f.seq (record g { file = end_flush g.file f.target true; flight = none }))
  -- The system writes pages back by itself.
  write_back : (d : ℕ) → g.durable ≤ d → d ≤ g.file.written → Step mode g (record g { durable = d })

abbrev pub opened : Log
opened = record {
  file = record { written = 0; synced = 0; flushes = 0; syncing = false; sync_err = false };
  calls = [];
  flight = none;
  durable = 0;
  answered = [];
}

pub data Reach (mode : SyncMode) : Log → Log → Type 0 where
  here : (g : Log) → Reach mode g g
  later : {g h k : Log} → Reach mode g h → Step mode h k → Reach mode g k
