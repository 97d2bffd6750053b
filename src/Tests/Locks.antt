-- ===== src/Tests/Locks.antt =====
-- The theorems on the lock of a zone, for two updates, and for one update with queries.
use ksdns.Prelude.{ℕ, zero, suc, ◌≡◌, ◌<◌, ◌≢◌, ◌⊎◌, refl, arith}
use ksdns.Zupd.Locks.{
  Pc, update_start, locking, applying, query_start, persisted, finished, System, Step, Reach, here,
  next, pick, announce, acquire, idle, IsRequest, update, query, holding, move_to, pending,
}
use ksdns.Zupd.Locks.Threads.{sum_of}
use ksdns.Zupd.Locks.Invariant.{reads, waits, applies}
use ksdns.Zupd.Locks.Exclusion.{applying_excludes}
use ksdns.Zupd.Locks.Deadlock.{two_updates_deadlock}
use ksdns.Zupd.Locks.Progress.{left, one_update_finishes}

abbrev updates : ℕ → Pc
updates k = update_start

abbrev first_applies : System
first_applies = record {
  mutex = record { readers = 0; writer = holding };
  pc = move_to (move_to updates 0 locking) 0 applying;
}

first_applies-Reach : Reach 2 (idle updates) first_applies
first_applies-Reach =
    next (next here (pick 0 (omega arith) (announce refl))) (pick 0 (omega arith) (acquire refl))

applying_excludes_example :
    (reads (first_applies.pc 1) ≡ 0)
    × (waits (first_applies.pc 1) ≡ 0)
    × (applies (first_applies.pc 1) ≡ 0)
applying_excludes_example =
    applying_excludes 2 updates {s = first_applies} 0 1 (λ k h. update) first_applies-Reach
      (omega arith) (omega arith) (omega arith) refl

abbrev with_queries : ℕ → Pc
with_queries zero = update_start
with_queries (suc zero) = update_start
with_queries (suc (suc k)) = query_start

with_queries-IsRequest : (k : ℕ) → k < 3 → IsRequest (with_queries k)
with_queries-IsRequest zero h = update
with_queries-IsRequest (suc zero) h = update
with_queries-IsRequest (suc (suc k)) h = query

two_updates_deadlock_example :
    (s : System) × Reach 3 (idle with_queries) s
    × ((t : System)
        → Reach 3 s t
        → (t.pc 0 ≡ persisted)
          × (t.pc 1 ≡ locking)
          × ((k : ℕ) → k ≢ 0 → k ≢ 1 → with_queries k ≡ query_start → t.pc k ≡ query_start))
two_updates_deadlock_example =
    two_updates_deadlock 3 with_queries 0 1 (omega arith) (omega arith) (omega arith) refl refl
      with_queries-IsRequest

abbrev one_update : ℕ → Pc
one_update zero = update_start
one_update (suc k) = query_start

one_update-IsRequest : (k : ℕ) → k < 3 → IsRequest (one_update k)
one_update-IsRequest zero h = update
one_update-IsRequest (suc k) h = query

others_query : (k : ℕ) → k < 3 → k ≢ 0 → one_update k ≡ query_start
others_query zero h differ = absurd (differ refl)
others_query (suc k) h differ = refl

abbrev announced : System
announced = record {
  mutex = record { readers = 0; writer = pending };
  pc = move_to one_update 0 locking;
}

one_update_finishes_example :
    (((k : ℕ) → k < 3 → announced.pc k ≡ finished) ⊎ ((t : System) × Step 3 announced t))
    × ((t : System) → Step 3 announced t → sum_of left 3 t.pc < sum_of left 3 announced.pc)
one_update_finishes_example =
    one_update_finishes 3 0 one_update {s = announced} one_update-IsRequest others_query
      (next here (pick 0 (omega arith) (announce refl)))
