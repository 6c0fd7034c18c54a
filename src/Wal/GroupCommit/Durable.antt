-- ===== src/Wal/GroupCommit/Durable.antt =====
-- What a call of syncThrough that returned without an error may rely on, and when it returns.
use ryuk_dpq.Base.{
  subst, ℕ, ◌+◌, ◌<◌, ◌≤◌, ◌^◌, ◌%◌, ◌≡◌, refl, ◌⊎◌, inl, inr, Bool, true, false, Option, none,
  some, List, [], ◌∷◌, ◌++◌, arith, leb, All, All-append, All-without, Bool-cases,
}
use ryuk_dpq.Wal.GroupCommit.{
  SyncMode, sync_always, sync_interval, sync_never, SlotFile, returns, waits, flushes_to, look,
  begin_flush, end_flush, Appended, refused, done, syncs, append_record, Flight, Log, after_append,
  answer, Step, write, sync_all, return, flush, land, fail, write_back, opened, Reach, here, later,
}

-- The flush that runs covers its own call, and nothing that is not written.
abbrev Covers : Option Flight → SlotFile → Type 0
Covers none s = s.syncing ≡ false
Covers (some f) s = (s.syncing ≡ true) × (f.seq ≤ f.target) × (f.target ≤ s.written)

record Inv (g : Log) : Type 0 where
  flushed : g.file.synced ≤ g.durable
  stored : g.durable ≤ g.file.written
  waiting : All (λ q. q ≤ g.file.written) g.calls
  covers : Covers g.flight g.file
  kept : All (λ q. q ≤ g.durable) g.answered

All-le : (a b : ℕ) (xs : List ℕ) → a ≤ b → All (λ q. q ≤ a) xs → All (λ q. q ≤ b) xs
All-le a b [] h u = tt
All-le a b (x ∷ xs) h u = (omega (arith, u.0), All-le a b xs h u.1)

look-returns : (s : SlotFile) (q : ℕ) (e : Bool) → look s q ≡ returns e → q ≤ s.synced
unfolding look
look-returns s q e h = ground arith

look-flushes_to :
    (s : SlotFile) (q t : ℕ)
    → look s q ≡ flushes_to t
    → (t ≡ s.written) × (s.syncing ≡ false) × (s.synced < q)
unfolding look
look-flushes_to s q t h = ground arith

abbrev grown : Log → Log
grown g = record g { file = record g.file { written = (g.file.written + 1) % 2 ^ 64 } }

more_written :
    (o : Option Flight) (s : SlotFile) (n : ℕ)
    → s.written ≤ n
    → Covers o s
    → Covers o (record s { written = n })
more_written none s n h c = c
more_written (some f) s n h c = (c.0, c.1, omega (arith, c.2))

grown-Inv : (g : Log) → g.file.written + 1 < 2 ^ 64 → Inv g → Inv (grown g)
grown-Inv g h v =
    let next : (g.file.written + 1) % 2 ^ 64 ≡ g.file.written + 1 = omega arith in
    rw next record {
      flushed = v.flushed;
      stored = omega (arith, v.stored);
      waiting = All-le g.file.written (g.file.written + 1) g.calls (omega arith) v.waiting;
      covers = more_written g.flight g.file (g.file.written + 1) (omega arith) v.covers;
      kept = v.kept;
    }

after_append-Inv :
    (g : Log) (mode : SyncMode) (durable wrote : Bool)
    → g.file.written + 1 < 2 ^ 64
    → Inv g
    → Inv (after_append g (append_record mode durable wrote g.file))
unfolding append_record
after_append-Inv g mode durable false h v = v
after_append-Inv g mode false true h v = grown-Inv g h v
after_append-Inv g sync_interval true true h v = grown-Inv g h v
after_append-Inv g sync_never true true h v = grown-Inv g h v
after_append-Inv g sync_always true true h v =
    let w = grown-Inv g h v in
    record {
      flushed = w.flushed;
      stored = w.stored;
      waiting = All-append _ g.calls _ w.waiting (omega arith, tt);
      covers = w.covers;
      kept = w.kept;
    }

answer_kept :
    (g : Log) (failed : Bool) (seq : ℕ)
    → Inv g
    → (failed ≡ false → seq ≤ g.durable)
    → Inv (answer failed seq g)
answer_kept g true seq v h = v
answer_kept g false seq v h = record {
  flushed = v.flushed;
  stored = v.stored;
  waiting = v.waiting;
  covers = v.covers;
  kept = (h refl, v.kept);
}

end_flush-synced :
    (s : SlotFile) (t d : ℕ) → t ≤ d → s.synced ≤ d → (end_flush s t false).synced ≤ d
unfolding end_flush
end_flush-synced s t d h k = ground arith

Step-Inv : {mode : SyncMode} {g h : Log} → Step mode g h → Inv g → Inv h
unfolding begin_flush end_flush
Step-Inv {mode} {g} (write durable wrote fits) v = after_append-Inv g mode durable wrote fits v
Step-Inv {g} sync_all v = record {
  flushed = v.flushed;
  stored = v.stored;
  waiting = All-append _ g.calls _ v.waiting (omega arith, tt);
  covers = v.covers;
  kept = v.kept;
}
Step-Inv {g} (return xs seq ys failed at e) v =
    let (own, rest) = All-without (λ q. q ≤ g.file.written) xs seq ys (rw (← at) v.waiting) in
    answer_kept (record g { calls = xs ++ ys }) failed seq
      (record {
        flushed = v.flushed;
        stored = v.stored;
        waiting = rest;
        covers = v.covers;
        kept = v.kept;
      })
      (λ _. omega (arith, look-returns g.file seq failed e, v.flushed))
Step-Inv {g} (flush xs seq ys target at e) v =
    let (own, rest) = All-without (λ q. q ≤ g.file.written) xs seq ys (rw (← at) v.waiting) in
    let (all_of_it, idle, _) = look-flushes_to g.file seq target e in
    record {
      flushed = v.flushed;
      stored = v.stored;
      waiting = rest;
      covers = (refl, omega (arith, all_of_it, own), omega (arith, all_of_it));
      kept = v.kept;
    }
Step-Inv {g} (land f d at covered more there) v =
    let (busy, own, small) : Covers (some f) g.file = subst (λ o. Covers o g.file) at v.covers in
    record {
      flushed = end_flush-synced g.file f.target d covered (omega (arith, v.flushed));
      stored = there;
      waiting = v.waiting;
      covers = refl;
      kept = (omega arith, All-le g.durable d g.answered more v.kept);
    }
Step-Inv {g} (fail f at) v = record {
  flushed = v.flushed;
  stored = v.stored;
  waiting = v.waiting;
  covers = refl;
  kept = v.kept;
}
Step-Inv {g} (write_back d more there) v = record {
  flushed = omega (arith, v.flushed);
  stored = there;
  waiting = v.waiting;
  covers = v.covers;
  kept = All-le g.durable d g.answered more v.kept;
}

Reach-Inv : {mode : SyncMode} {g h : Log} → Reach mode g h → Inv g → Inv h
Reach-Inv (here _) v = v
Reach-Inv (later r st) v = Step-Inv st (Reach-Inv r v)

append-durable : (g : Log) (r : SlotFile × Appended) → (after_append g r).durable ≡ g.durable
append-durable g (s, refused) = refl
append-durable g (s, done) = refl
append-durable g (s, syncs seq) = refl

answer-durable : (b : Bool) (q : ℕ) (g : Log) → (answer b q g).durable ≡ g.durable
answer-durable true q g = refl
answer-durable false q g = refl

Step-durable : {mode : SyncMode} {g h : Log} → Step mode g h → Inv g → g.durable ≤ h.durable
Step-durable {mode} {g} (write durable wrote fits) v =
    omega (arith, append-durable g (append_record mode durable wrote g.file))
Step-durable sync_all v = omega arith
Step-durable {g} (return xs seq ys failed at e) v =
    omega (arith, answer-durable failed seq (record g { calls = xs ++ ys }))
Step-durable (flush xs seq ys target at e) v = omega arith
Step-durable (land f d at covered more there) v = more
Step-durable (fail f at) v = omega arith
Step-durable (write_back d more there) v = more

Reach-durable : {mode : SyncMode} {g h : Log} → Reach mode g h → Inv g → g.durable ≤ h.durable
Reach-durable (here _) v = omega arith
Reach-durable (later r st) v = omega (arith, Reach-durable r v, Step-durable st (Reach-Inv r v))

opened-Inv : Inv opened
opened-Inv = record {
  flushed = omega arith;
  stored = omega arith;
  waiting = tt;
  covers = refl;
  kept = tt;
}

-- For a log that is not compacted meanwhile, whatever appends, flushes, failures of flushes and
-- rounds of the ticker interleave: a number for which syncThrough returned without an error is among
-- the records that the disk holds, then and ever after.
pub answered_is_durable :
    {mode : SyncMode} {g h : Log}
    → Reach mode opened g
    → Reach mode g h
    → All (λ q. q ≤ h.durable) g.answered
answered_is_durable {g} {h} r more =
    let v = Reach-Inv r opened-Inv in
    All-le g.durable h.durable g.answered (Reach-durable more v) v.kept

-- A call waits only while a flush runs. When a flush ends well, a call for a record that was written
-- before it began returns without an error; a call for a later record does so at once or begins a
-- flush, after whose end, if that is good too, it does, with every call for what was written by then.
pub two_flushes_suffice :
    (s : SlotFile) (target seq : ℕ)
    → seq ≤ s.written
    → (look s seq ≡ waits → s.syncing ≡ true)
      × (seq ≤ target → look (end_flush s target false) seq ≡ returns false)
      × ((look (end_flush s target false) seq ≡ returns false)
          ⊎ ((look (end_flush s target false) seq ≡ flushes_to s.written)
              × ((q : ℕ)
                  → q ≤ s.written
                  → look (end_flush (begin_flush (end_flush s target false)) s.written false) q
                    ≡ returns false)))
unfolding look end_flush begin_flush
two_flushes_suffice s target seq h = (
  ground arith,
  λ k. ground arith,
  elim (Bool-cases (leb seq (end_flush s target false).synced)) [
    | inl e ↦ inl (rw e refl)
    | inr e ↦ inr (rw e refl, λ q k. ground arith)
  ],
)
