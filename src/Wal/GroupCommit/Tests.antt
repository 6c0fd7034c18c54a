-- ===== src/Wal/GroupCommit/Tests.antt =====
-- Producers that share flushes of one log.
use ryuk_dpq.Base.{ℕ, ◌≤◌, ◌≡◌, refl, ◌⊎◌, Bool, true, false, none, some, [], ◌∷◌, arith, All}
use ryuk_dpq.Wal.GroupCommit.{
  SlotFile, sync_always, look, begin_flush, end_flush, append_record, returns, waits, flushes_to,
  Log, write, flush, land, opened, Reach, here, later,
}
use ryuk_dpq.Wal.GroupCommit.Durable.{answered_is_durable, two_flushes_suffice}

abbrev file : ℕ → ℕ → ℕ → Bool → SlotFile
file written synced flushes syncing = record {
  written = written;
  synced = synced;
  flushes = flushes;
  syncing = syncing;
  sync_err = false;
}

-- Two producers write, the first flushes for itself and the second arrives while the flush runs.
abbrev both_written : Log
both_written = record {
  file = file 2 0 1 true;
  calls = 2 ∷ [];
  flight = some (record { seq = 1; target = 1 });
  durable = 0;
  answered = [];
}

abbrev first_answered : Log
first_answered = record both_written {
  file = file 2 1 1 false;
  flight = none;
  durable = 1;
  answered = 1 ∷ [];
}

reach_both : Reach sync_always opened both_written
unfolding append_record look begin_flush
reach_both =
    later (later (later (here opened) (write true true (omega arith))) (flush [] 1 [] 1 refl refl))
      (write true true (omega arith))

reach_first : Reach sync_always opened first_answered
unfolding end_flush
reach_first =
    later reach_both
      (land (record { seq = 1; target = 1 }) 1 refl (omega arith) (omega arith) (omega arith))

answered_is_durable_example : All (λ q. q ≤ 1) (1 ∷ [])
answered_is_durable_example =
    answered_is_durable {g = first_answered} {h = first_answered} reach_first (here first_answered)

two_flushes_suffice_example :
    (look (file 2 0 1 true) 2 ≡ waits → true ≡ true)
    × (2 ≤ 1 → look (end_flush (file 2 0 1 true) 1 false) 2 ≡ returns false)
    × ((look (end_flush (file 2 0 1 true) 1 false) 2 ≡ returns false)
        ⊎ ((look (end_flush (file 2 0 1 true) 1 false) 2 ≡ flushes_to 2)
            × ((q : ℕ)
                → q ≤ 2
                → look (end_flush (begin_flush (end_flush (file 2 0 1 true) 1 false)) 2 false) q
                  ≡ returns false)))
two_flushes_suffice_example = two_flushes_suffice (file 2 0 1 true) 1 2 (omega arith)
