-- ===== src/Zupd/Locks/Threads.antt =====
-- Sums over the first `n` handlers.
use ksdns.Prelude.{ℕ, zero, suc, ◌+◌, ◌<◌, ◌≤◌, ◌≡◌, ◌≢◌, refl, arith, inl, inr, Bool-cases, ltb}
use ksdns.Zupd.Locks.{Pc, move_to}

module _ (weight : Pc → ℕ) where
  pub sum_of : ℕ → (ℕ → Pc) → ℕ
  sum_of zero pc = 0
  sum_of (suc n) pc = weight (pc n) + sum_of n pc

  sum_of-move_beyond :
      (n : ℕ) (pc : ℕ → Pc) (i : ℕ) (p : Pc) → n ≤ i → sum_of n (move_to pc i p) ≡ sum_of n pc
  unfolding sum_of
  sum_of-move_beyond zero pc i p h = refl
  sum_of-move_beyond (suc n) pc i p h = ground (arith, sum_of-move_beyond n pc i p)

  pub sum_of-move_to :
      (n : ℕ) (pc : ℕ → Pc) (i : ℕ) (p : Pc)
      → i < n
      → sum_of n (move_to pc i p) + weight (pc i) ≡ sum_of n pc + weight p
  unfolding sum_of
  sum_of-move_to zero pc i p h = absurd (omega arith)
  sum_of-move_to (suc n) pc i p h =
      ground (arith, sum_of-move_to n pc i p, sum_of-move_beyond n pc i p)

  pub weight-le-sum_of : (n : ℕ) (pc : ℕ → Pc) (i : ℕ) → i < n → weight (pc i) ≤ sum_of n pc
  unfolding sum_of
  weight-le-sum_of zero pc i h = absurd (omega arith)
  weight-le-sum_of (suc n) pc i h = ground (arith, weight-le-sum_of n pc i)

  pub two_weights-le-sum_of :
      (n : ℕ) (pc : ℕ → Pc) (i j : ℕ)
      → i < n
      → j < n
      → i ≢ j
      → weight (pc i) + weight (pc j) ≤ sum_of n pc
  unfolding sum_of
  two_weights-le-sum_of zero pc i j h k d = absurd (omega arith)
  two_weights-le-sum_of (suc n) pc i j h k d =
      ground
        (arith, two_weights-le-sum_of n pc i j, weight-le-sum_of n pc i, weight-le-sum_of n pc j)

  pub sum_of-pos : (n : ℕ) (pc : ℕ → Pc) → 0 < sum_of n pc → (i : ℕ) × (i < n) × (0 < weight (pc i))
  unfolding sum_of
  sum_of-pos zero pc h = absurd (omega arith)
  sum_of-pos (suc n) pc h = elim (Bool-cases (ltb 0 (weight (pc n)))) [
    | inl own ↦ (n, omega arith, ground arith)
    | inr none_here ↦
        let (i, below, held) = sum_of-pos n pc (ground arith) in (i, omega arith, held)
  ]

  pub sum_of-zero : (n : ℕ) (pc : ℕ → Pc) → ((i : ℕ) → i < n → weight (pc i) ≡ 0) → sum_of n pc ≡ 0
  unfolding sum_of
  sum_of-zero zero pc h = refl
  sum_of-zero (suc n) pc h =
      omega (arith, h n (omega arith), sum_of-zero n pc (λ i below. h i (omega arith)))
