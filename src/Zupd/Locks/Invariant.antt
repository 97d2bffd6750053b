-- ===== src/Zupd/Locks/Invariant.antt =====
-- What the lock's state says about the handlers.
use ksdns.Prelude.{ℕ, ◌+◌, ◌<◌, ◌≤◌, ◌≡◌, arith}
use ksdns.Zupd.Locks.{
  Writer, pending, holding, RwMutex, Pc, locking, applying, persisting, persisted, merging_update,
  replying, merging, Move, announce, acquire, refuse, unlock, reread, give_up, persist,
  merge_update, merged_update, reply, merge, merged, System, move_to, Step, pick, Reach, here, next,
  idle, IsRequest, update, query,
}
use ksdns.Zupd.Locks.Threads.{sum_of, sum_of-move_to, sum_of-zero, weight-le-sum_of}

-- How often a handler holds the lock to read.
abbrev pub reads : Pc → ℕ
reads persisting = 1
reads persisted = 1
reads merging_update = 2
reads replying = 1
reads merging = 1
reads _ = 0

abbrev pub waits : Pc → ℕ
waits locking = 1
waits _ = 0

abbrev pub applies : Pc → ℕ
applies applying = 1
applies _ = 0

abbrev pending_count : Writer → ℕ
pending_count pending = 1
pending_count _ = 0

abbrev holding_count : Writer → ℕ
holding_count holding = 1
holding_count _ = 0

-- The lock counts the readers, and the handlers that wait for it or hold it to write, of whom
-- there is one at most, and no reader beside one that holds it.
pub record IsCounted (n : ℕ) (m : RwMutex) (pc : ℕ → Pc) : Type 0 where
  pub counted : m.readers ≡ sum_of reads n pc
  pub one_pending : sum_of waits n pc ≡ pending_count m.writer
  pub one_holding : sum_of applies n pc ≡ holding_count m.writer
  pub alone : holding_count m.writer ≡ 1 → m.readers ≡ 0

-- The changes of the three counts when handler `i` goes from `p` to `p'`.
record Counts (n : ℕ) (pc : ℕ → Pc) (i : ℕ) (p p' : Pc) : Type 0 where
  reading : sum_of reads n (move_to pc i p') + reads p ≡ sum_of reads n pc + reads p'
  waiting : sum_of waits n (move_to pc i p') + waits p ≡ sum_of waits n pc + waits p'
  writing : sum_of applies n (move_to pc i p') + applies p ≡ sum_of applies n pc + applies p'
  own_reads : reads p ≤ sum_of reads n pc
  own_waits : waits p ≤ sum_of waits n pc
  own_applies : applies p ≤ sum_of applies n pc

counts : (n : ℕ) (pc : ℕ → Pc) (i : ℕ) (p' : Pc) → i < n → Counts n pc i (pc i) p'
counts n pc i p' h = record {
  reading = sum_of-move_to reads n pc i p' h;
  waiting = sum_of-move_to waits n pc i p' h;
  writing = sum_of-move_to applies n pc i p' h;
  own_reads = weight-le-sum_of reads n pc i h;
  own_waits = weight-le-sum_of waits n pc i h;
  own_applies = weight-le-sum_of applies n pc i h;
}

Move-IsCounted :
    (n : ℕ) (pc : ℕ → Pc) (i : ℕ) {m m' : RwMutex} {p p' : Pc}
    → Move m p m' p'
    → Counts n pc i p p'
    → IsCounted n m pc
    → IsCounted n m' (move_to pc i p')
Move-IsCounted n pc i (announce g) k h = ground arith
Move-IsCounted n pc i (acquire g) k h = ground arith
Move-IsCounted n pc i refuse k h = ground arith
Move-IsCounted n pc i unlock k h = ground arith
Move-IsCounted n pc i (reread g) k h = ground arith
Move-IsCounted n pc i give_up k h = ground arith
Move-IsCounted n pc i persist k h = ground arith
Move-IsCounted n pc i (merge_update g) k h = ground arith
Move-IsCounted n pc i merged_update k h = ground arith
Move-IsCounted n pc i reply k h = ground arith
Move-IsCounted n pc i (merge g) k h = ground arith
Move-IsCounted n pc i merged k h = ground arith

pub Step-IsCounted :
    {n : ℕ} {s t : System} → Step n s t → IsCounted n s.mutex s.pc → IsCounted n t.mutex t.pc
Step-IsCounted {n} {s} (pick i {p = p} below move) h =
    Move-IsCounted n s.pc i move (counts n s.pc i p below) h

pub Reach-IsCounted :
    {n : ℕ} {s t : System} → Reach n s t → IsCounted n s.mutex s.pc → IsCounted n t.mutex t.pc
Reach-IsCounted here h = h
Reach-IsCounted (next r step) h = Step-IsCounted step (Reach-IsCounted r h)

request-weightless : (p : Pc) → IsRequest p → (reads p ≡ 0) × (waits p ≡ 0) × (applies p ≡ 0)
request-weightless p update = omega arith
request-weightless p query = omega arith

pub idle-IsCounted :
    (n : ℕ) (requests : ℕ → Pc)
    → ((i : ℕ) → i < n → IsRequest (requests i))
    → IsCounted n (idle requests).mutex requests
idle-IsCounted n requests h =
    let none_reads = sum_of-zero reads n requests (λ i b. (request-weightless _ (h i b)).0) in
    let none_waits = sum_of-zero waits n requests (λ i b. (request-weightless _ (h i b)).1) in
    let none_applies = sum_of-zero applies n requests (λ i b. (request-weightless _ (h i b)).2) in
    ground arith
