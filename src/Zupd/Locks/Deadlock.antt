-- ===== src/Zupd/Locks/Deadlock.antt =====
-- Two updates of one zone at once.
use ksdns.Prelude.{ℕ, ◌<◌, ◌≡◌, ◌≢◌, refl, sym, ap, ◌∙◌, subst, Bool, true, false, arith}
use ksdns.Zupd.Locks.{
  pending, RwMutex, Pc, update_start, locking, applying, applied, persisting, persisted,
  query_start, Move, announce, acquire, refuse, unlock, reread, give_up, persist, merge_update,
  merged_update, reply, merge, merged, System, move_to, Step, pick, Reach, here, next, idle,
  IsRequest,
}
use ksdns.Zupd.Locks.Threads.{weight-le-sum_of}
use ksdns.Zupd.Locks.Invariant.{
  reads, waits, IsCounted, Step-IsCounted, Reach-IsCounted, idle-IsCounted,
}

-- Where a handler waits while another has announced that it wants to write and some still read.
abbrev is_waiting : Pc → Bool
is_waiting locking = true
is_waiting persisted = true
is_waiting query_start = true
is_waiting _ = false

Move-waiting :
    {m m' : RwMutex} {p p' : Pc}
    → Move m p m' p'
    → m.writer ≡ pending
    → 0 < m.readers
    → is_waiting p ≡ false
Move-waiting (announce g) w r = refl
Move-waiting (acquire g) w r = absurd (omega arith)
Move-waiting refuse w r = refl
Move-waiting unlock w r = refl
Move-waiting (reread g) w r = refl
Move-waiting give_up w r = refl
Move-waiting persist w r = refl
Move-waiting (merge_update g) w r = cc
Move-waiting merged_update w r = refl
Move-waiting reply w r = refl
Move-waiting (merge g) w r = cc
Move-waiting merged w r = refl

-- An update that has its status written and still reads, and one that waits for it to leave.
record IsStuck (n : ℕ) (s : System) (i j : ℕ) : Type 0 where
  sound : IsCounted n s.mutex s.pc
  reader : s.pc i ≡ persisted
  waiter : s.pc j ≡ locking

module _ (n i j : ℕ) (below_i : i < n) (below_j : j < n) where
  IsStuck-lock : (s : System) → IsStuck n s i j → (s.mutex.writer ≡ pending) × (0 < s.mutex.readers)
  IsStuck-lock s h = ground (
    arith,
    h.sound.counted,
    h.sound.one_pending,
    weight-le-sum_of reads n s.pc i below_i,
    weight-le-sum_of waits n s.pc j below_j,
  )

  Step-waiting :
      {s t : System}
      → Step n s t
      → IsStuck n s i j
      → (k : ℕ) → is_waiting (s.pc k) ≡ true
      → t.pc k ≡ s.pc k
  Step-waiting {s} (pick l below move) h k w =
      let (writer, readers) = IsStuck-lock s h in
      let moving = Move-waiting move writer readers in ground arith

  Step-IsStuck : {s t : System} → Step n s t → IsStuck n s i j → IsStuck n t i j
  Step-IsStuck {s} step h = record {
    sound = Step-IsCounted step h.sound;
    reader = Step-waiting step h i (ap is_waiting h.reader) ∙ h.reader;
    waiter = Step-waiting step h j (ap is_waiting h.waiter) ∙ h.waiter;
  }

  Reach-waiting :
      {s t : System}
      → Reach n s t
      → IsStuck n s i j
      → IsStuck n t i j × ((k : ℕ) → is_waiting (s.pc k) ≡ true → t.pc k ≡ s.pc k)
  Reach-waiting here h = (h, λ k w. refl)
  Reach-waiting (next r step) h =
      let (stuck, same) = Reach-waiting r h in
      (
        Step-IsStuck step stuck,
        λ k w. Step-waiting step stuck k (ap is_waiting (same k w) ∙ w) ∙ same k w,
      )

  -- A handler that stands at `p` makes a move of `p`.
  go :
      {s t : System} (k : ℕ) {p p' : Pc} {m : RwMutex}
      → k < n
      → Reach n s t
      → t.pc k ≡ p
      → Move t.mutex p m p'
      → Reach n s (record { mutex = m; pc = move_to t.pc k p' })
  go {s} {t} k {p} {p'} {m} below r e move =
      next r (pick k below (subst (λ q. Move t.mutex q m p') (sym e) move))

-- The first update is past its loop and has written the object's status; the second has announced
-- itself.
abbrev alone_persisted : (ℕ → Pc) → ℕ → ℕ → Pc
alone_persisted requests i =
    move_to
      (move_to (move_to (move_to (move_to requests i locking) i applying) i applied) i persisting) i
      persisted

abbrev meeting : (ℕ → Pc) → ℕ → ℕ → System
meeting requests i j = record {
  mutex = record { readers = 1; writer = pending };
  pc = move_to (alone_persisted requests i) j locking;
}

module _ (n : ℕ) (requests : ℕ → Pc) (i j : ℕ) (below_i : i < n) (below_j : j < n) (differ : i ≢ j)
    (begins : requests i ≡ update_start) (joins : requests j ≡ update_start) where
  moved : (pc : ℕ → Pc) (p : Pc) → move_to pc i p i ≡ p
  moved pc p = ground arith

  Reach-meeting : Reach n (idle requests) (meeting requests i j)
  Reach-meeting =
      let there : alone_persisted requests i j ≡ update_start = ground arith in
      let r1 = go n i j below_i below_j i below_i here begins (announce refl) in
      let r2 = go n i j below_i below_j i below_i r1 (moved requests locking) (acquire refl) in
      let r3 =
        go n i j below_i below_j i below_i r2 (moved (move_to requests i locking) applying)
          unlock in
      let r4 =
        go n i j below_i below_j i below_i r3
          (moved (move_to (move_to requests i locking) i applying) applied) (reread refl) in
      let r5 =
        go n i j below_i below_j i below_i r4
          (moved (move_to (move_to (move_to requests i locking) i applying) i applied) persisting)
          persist in
      go n i j below_i below_j j below_j r5 there (announce refl)

  -- Of any number of requests for a zone with two updates among them, some order of their steps
  -- leads to a state from which, in whatever order the steps go on, neither of the two updates
  -- ever goes on, and no query that had not begun is ever answered: the first update waits in
  -- `Merge` behind the second, and the second waits for the first to give up its read lock.
  pub two_updates_deadlock :
      ((k : ℕ) → k < n → IsRequest (requests k))
      → (s : System) × Reach n (idle requests) s
        × ((t : System)
            → Reach n s t
            → (t.pc i ≡ persisted)
              × (t.pc j ≡ locking)
              × ((k : ℕ) → k ≢ i → k ≢ j → requests k ≡ query_start → t.pc k ≡ query_start))
  two_updates_deadlock begun =
      let s = meeting requests i j in
      let stuck : IsStuck n s i j = record {
        sound = Reach-IsCounted Reach-meeting (idle-IsCounted n requests begun);
        reader = ground arith;
        waiter = ground arith;
      } in
      (
        s,
        Reach-meeting,
        λ t r.
            let (after, same) = Reach-waiting n i j below_i below_j r stuck in
            (
              after.reader,
              after.waiter,
              λ k not_i not_j e.
                  let there : s.pc k ≡ query_start = ground arith in
                  same k (ap is_waiting there) ∙ there,
            ),
      )
