-- ===== src/Zupd/Locks/Exclusion.antt =====
-- While records are applied.
use ksdns.Prelude.{ℕ, ◌<◌, ◌≡◌, ◌≢◌, arith}
use ksdns.Zupd.Locks.{System, Pc, applying, Reach, idle, IsRequest}
use ksdns.Zupd.Locks.Threads.{weight-le-sum_of, two_weights-le-sum_of}
use ksdns.Zupd.Locks.Invariant.{reads, waits, applies, IsCounted, Reach-IsCounted, idle-IsCounted}

-- Of any number of requests for a zone, in any order of their steps: while one update applies its
-- records, no other handler applies records, has the dynamic zone locked to read, or waits for it
-- to write with the readers kept out.
pub applying_excludes :
    (n : ℕ) (requests : ℕ → Pc) {s : System} (i j : ℕ)
    → ((k : ℕ) → k < n → IsRequest (requests k))
    → Reach n (idle requests) s
    → i < n
    → j < n
    → i ≢ j
    → s.pc i ≡ applying
    → (reads (s.pc j) ≡ 0) × (waits (s.pc j) ≡ 0) × (applies (s.pc j) ≡ 0)
applying_excludes n requests {s} i j begun reach below_i below_j differ in_loop =
    let h : IsCounted n s.mutex s.pc = Reach-IsCounted reach (idle-IsCounted n requests begun) in
    ground (
      arith,
      h.alone,
      weight-le-sum_of reads n s.pc j below_j,
      weight-le-sum_of waits n s.pc j below_j,
      weight-le-sum_of applies n s.pc i below_i,
      two_weights-le-sum_of applies n s.pc i j below_i below_j differ,
    )
