-- ===== src/Zupd/Locks/Progress.antt =====
-- One update of a zone at a time, with any number of queries.
use ksdns.Prelude.{
  ℕ, ◌<◌, ◌≤◌, ◌≡◌, ◌≢◌, refl, sym, ap, ◌∙◌, subst, Bool, true, false, arith, ◌==◌, Bool-cases, inl,
  inr, ◌⊎◌,
}
use ksdns.Zupd.Locks.{
  Writer, nobody, pending, holding, RwMutex, Pc, update_start, locking, applying, applied,
  persisting, persisted, merging_update, replying, query_start, merging, finished, Move, announce,
  acquire, refuse, unlock, reread, give_up, persist, merge_update, merged_update, reply, merge,
  merged, System, move_to, Step, pick, Reach, here, next, idle, IsRequest,
}
use ksdns.Zupd.Locks.Threads.{sum_of, sum_of-move_to, sum_of-pos, weight-le-sum_of}
use ksdns.Zupd.Locks.Invariant.{reads, waits, applies, IsCounted, Reach-IsCounted, idle-IsCounted}

-- How many steps a handler has before it, at most.
abbrev pub left : Pc → ℕ
left update_start = 9
left locking = 8
left applying = 7
left applied = 6
left persisting = 5
left persisted = 4
left merging_update = 3
left replying = 2
left query_start = 2
left merging = 1
left finished = 0

Move-left : {m m' : RwMutex} {p p' : Pc} → Move m p m' p' → left p' < left p
Move-left (announce g) = omega arith
Move-left (acquire g) = omega arith
Move-left refuse = omega arith
Move-left unlock = omega arith
Move-left (reread g) = omega arith
Move-left give_up = omega arith
Move-left persist = omega arith
Move-left (merge_update g) = omega arith
Move-left merged_update = omega arith
Move-left reply = omega arith
Move-left (merge g) = omega arith
Move-left merged = omega arith

Step-left : {n : ℕ} {s t : System} → Step n s t → sum_of left n t.pc < sum_of left n s.pc
Step-left {n} {s} (pick i {p = p} below move) =
    omega (arith, Move-left move, sum_of-move_to left n s.pc i p below)

-- Where a query stands.
abbrev is_query : Pc → Bool
is_query query_start = true
is_query merging = true
is_query finished = true
is_query _ = false

Move-is_query :
    {m m' : RwMutex} {p p' : Pc} → Move m p m' p' → is_query p ≡ true → is_query p' ≡ true
Move-is_query (merge g) h = refl
Move-is_query merged h = refl
Move-is_query (announce g) h = cc
Move-is_query (acquire g) h = cc
Move-is_query refuse h = cc
Move-is_query unlock h = cc
Move-is_query (reread g) h = cc
Move-is_query give_up h = cc
Move-is_query persist h = cc
Move-is_query (merge_update g) h = cc
Move-is_query merged_update h = cc
Move-is_query reply h = cc

-- All handlers but one are queries.
abbrev OneUpdate : ℕ → ℕ → (ℕ → Pc) → Type 0
OneUpdate n u pc = (k : ℕ) → k < n → k ≢ u → is_query (pc k) ≡ true

Step-OneUpdate : {n u : ℕ} {s t : System} → Step n s t → OneUpdate n u s.pc → OneUpdate n u t.pc
Step-OneUpdate {s = s} (pick i {p = p} below move) h k below_k differ = elim (Bool-cases (i == k)) [
  | inl e ↦
      let moved : i ≡ k = ground arith in
      let was : is_query (s.pc i) ≡ true = h i below (λ q. differ (sym moved ∙ q)) in
      rw e (Move-is_query move was)
  | inr e ↦ rw e (h k below_k differ)
]

Reach-OneUpdate : {n u : ℕ} {s t : System} → Reach n s t → OneUpdate n u s.pc → OneUpdate n u t.pc
Reach-OneUpdate here h = h
Reach-OneUpdate (next r step) h = Step-OneUpdate step (Reach-OneUpdate r h)

-- Some move of a handler that stands at `p`.
abbrev CanMove : RwMutex → Pc → Type 0
CanMove m p = (m' : RwMutex) × (p' : Pc) × Move m p m' p'

free-CanMove : (m : RwMutex) (p : Pc) → m.writer ≡ nobody → waits p ≡ 0 → 0 < left p → CanMove m p
free-CanMove m update_start g w l = (_, _, announce g)
free-CanMove m locking g w l = absurd (omega arith)
free-CanMove m applying g w l = (_, _, unlock)
free-CanMove m applied g w l = (_, _, reread g)
free-CanMove m persisting g w l = (_, _, persist)
free-CanMove m persisted g w l = (_, _, merge_update g)
free-CanMove m merging_update g w l = (_, _, merged_update)
free-CanMove m replying g w l = (_, _, reply)
free-CanMove m query_start g w l = (_, _, merge g)
free-CanMove m merging g w l = (_, _, merged)
free-CanMove m finished g w l = absurd (omega arith)

applying-CanMove : (m : RwMutex) (p : Pc) → 0 < applies p → CanMove m p
applying-CanMove m applying h = (_, _, unlock)
applying-CanMove m other h = absurd (omega arith)

waiting-CanMove : (m : RwMutex) (p : Pc) → 0 < waits p → m.readers ≡ 0 → CanMove m p
waiting-CanMove m locking h e = (_, _, acquire e)
waiting-CanMove m other h e = absurd (omega arith)

reading-CanMove : (m : RwMutex) (p : Pc) → is_query p ≡ true → 0 < reads p → CanMove m p
reading-CanMove m merging q h = (_, _, merged)
reading-CanMove m query_start q h = absurd (omega arith)
reading-CanMove m finished q h = absurd (omega arith)
reading-CanMove m other q h = cc

waiting-is_no_query : (p : Pc) → 0 < waits p → is_query p ≡ false
waiting-is_no_query locking h = refl
waiting-is_no_query other h = absurd (omega arith)

waiting-reads : (p : Pc) → 0 < waits p → 0 < reads p → ⊥
waiting-reads locking h r = omega arith
waiting-reads other h r = omega arith

Writer-cases : (w : Writer) → (w ≡ nobody) ⊎ ((w ≡ pending) ⊎ (w ≡ holding))
Writer-cases nobody = inl refl
Writer-cases pending = inr (inl refl)
Writer-cases holding = inr (inr refl)

none_left : (p : Pc) → left p ≤ 0 → p ≡ finished
none_left finished h = refl
none_left other h = absurd (omega arith)

module _ (n u : ℕ) (s : System) (h : IsCounted n s.mutex s.pc) (one : OneUpdate n u s.pc) where
  waiting-is_update : (j : ℕ) → j < n → 0 < waits (s.pc j) → j ≡ u
  waiting-is_update j below waiting = elim (Bool-cases (j == u)) [
    | inl e ↦ ground arith
    | inr e ↦
        let other : is_query (s.pc j) ≡ true = one j below (λ q. ground arith) in
        absurd (cc (waiting-is_no_query (s.pc j) waiting))
  ]

  reader-is_query :
      (j r : ℕ) → j ≡ u → 0 < waits (s.pc j) → r < n → 0 < reads (s.pc r) → is_query (s.pc r) ≡ true
  reader-is_query j r e waiting below reading = elim (Bool-cases (r == u)) [
    | inl q ↦
        let same : r ≡ j = ground arith in
        absurd (waiting-reads (s.pc j) waiting (subst (λ x. 0 < reads (s.pc x)) same reading))
    | inr q ↦ one r below (λ x. ground arith)
  ]

  -- A handler that can move.
  abbrev Movable : Type 0
  Movable = (i : ℕ) × (i < n) × CanMove s.mutex (s.pc i)

  -- A writer that waits is the only update, so whoever still reads is a query, and can leave.
  pending-Movable : s.mutex.writer ≡ pending → Movable
  pending-Movable w =
      let waiting : 0 < sum_of waits n s.pc = ground (arith, h.one_pending) in
      let (j, below_j, waits_j) = sum_of-pos waits n s.pc waiting in
      elim (Bool-cases (s.mutex.readers == 0)) [
        | inl none ↦ (j, below_j, waiting-CanMove s.mutex (s.pc j) waits_j (ground arith))
        | inr some_read ↦
            let reading : 0 < sum_of reads n s.pc = ground (arith, h.counted) in
            let (r, below_r, reads_r) = sum_of-pos reads n s.pc reading in
            (
              r,
              below_r,
              reading-CanMove s.mutex (s.pc r)
                  (reader-is_query j r (waiting-is_update j below_j waits_j) waits_j below_r
                    reads_r)
                  reads_r,
            )
      ]

  unfinished-Movable : (k : ℕ) → k < n → 0 < left (s.pc k) → Movable
  unfinished-Movable k below l = elim (Writer-cases s.mutex.writer) [
    | inl w ↦ (
      k,
      below,
      free-CanMove s.mutex (s.pc k) w
          (ground (arith, h.one_pending, weight-le-sum_of waits n s.pc k below)) l,
    )
    | inr (inl w) ↦ pending-Movable w
    | inr (inr w) ↦
        let writing : 0 < sum_of applies n s.pc = ground (arith, h.one_holding) in
        let (j, below_j, applies_j) = sum_of-pos applies n s.pc writing in
        (j, below_j, applying-CanMove s.mutex (s.pc j) applies_j)
  ]

  finished-all : sum_of left n s.pc ≡ 0 → (k : ℕ) → k < n → s.pc k ≡ finished
  finished-all e k below = none_left (s.pc k) (omega (arith, weight-le-sum_of left n s.pc k below))

  step_or_done : ((k : ℕ) → k < n → s.pc k ≡ finished) ⊎ ((t : System) × Step n s t)
  step_or_done = elim (Bool-cases (sum_of left n s.pc == 0)) [
    | inl e ↦ inl (finished-all (ground arith))
    | inr e ↦
        let some_left : 0 < sum_of left n s.pc = ground arith in
        let (k, below, unfinished) = sum_of-pos left n s.pc some_left in
        let (i, below_i, (m, p, move)) = unfinished-Movable k below unfinished in
        inr (record { mutex = m; pc = move_to s.pc i p }, pick i below_i move)
  ]

request-is_query : (p : Pc) → p ≡ query_start → is_query p ≡ true
request-is_query p e = ap is_query e

-- Of any number of requests for a zone with one update `u` at most among them: in every state that
-- some order of their steps leads to, all the handlers have finished or one of them can go on; and
-- each step lowers the sum of the steps that the handlers have before them, at most 9 each, so
-- every order of the steps comes to an end with all of them finished.
pub one_update_finishes :
    (n u : ℕ) (requests : ℕ → Pc) {s : System}
    → ((k : ℕ) → k < n → IsRequest (requests k))
    → ((k : ℕ) → k < n → k ≢ u → requests k ≡ query_start)
    → Reach n (idle requests) s
    → (((k : ℕ) → k < n → s.pc k ≡ finished) ⊎ ((t : System) × Step n s t))
      × ((t : System) → Step n s t → sum_of left n t.pc < sum_of left n s.pc)
one_update_finishes n u requests {s} begun others reach = (
  step_or_done n u s (Reach-IsCounted reach (idle-IsCounted n requests begun)) (
      Reach-OneUpdate reach
        (λ k below differ. request-is_query (requests k) (others k below differ))),
  λ t step. Step-left step,
)
