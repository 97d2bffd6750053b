-- ===== src/Zupd/Locks.antt =====
-- The read-write lock of one dynamic zone, and the handlers that take it, interleaved in any order:
-- the update's branch of `ServeDNS` (dynamicupdate.go) and `Merge` (merge.go). `Merge` also takes
-- the static zone's lock to read, which nothing takes to write, so that one never blocks.
pub mod Threads
pub mod Invariant
pub mod Exclusion
pub mod Deadlock
pub mod Progress
use ksdns.Prelude.{ℕ, ◌+◌, ◌-◌, ◌<◌, ◌≡◌, ◌==◌, if◌then◌else◌}

-- `Lock` of `sync.RWMutex` has two parts: it waits for other writers and keeps new readers out, and
-- then it waits until the readers have left.
pub data Writer : Type 0 where
  nobody pending holding : Writer

pub record RwMutex : Type 0 where
  pub readers : ℕ
  pub writer : Writer

-- Where a handler stands.
pub data Pc : Type 0 where
  update_start : Pc  -- before `dz.Lock()`
  locking : Pc  -- in `dz.Lock()`, new readers are kept out
  applying : Pc  -- the loop over the records
  applied : Pc  -- after `dz.Unlock()`, before `dz.RLock()`
  persisting : Pc  -- looks for the object, and updates its status
  persisted : Pc  -- before `d.Merge(zone)`
  merging_update : Pc  -- in `Merge`, called by the update
  replying : Pc  -- from the return of `Merge` on
  query_start : Pc  -- before `d.Merge(zone)` of a query or a transfer
  merging : Pc  -- in `Merge`, called by those
  finished : Pc

-- One step of one handler. How an update ends is left open: the loop may stop at a record, the
-- object may not be found, or its update may fail.
pub data Move (m : RwMutex) : Pc → RwMutex → Pc → Type 0 where
  announce : m.writer ≡ nobody → Move m update_start (record m { writer = pending }) locking
  acquire : m.readers ≡ 0 → Move m locking (record m { writer = holding }) applying
  refuse : Move m applying (record m { writer = nobody }) finished
  unlock : Move m applying (record m { writer = nobody }) applied
  reread : m.writer ≡ nobody → Move m applied (record m { readers = m.readers + 1 }) persisting
  give_up : Move m persisting (record m { readers = m.readers - 1 }) finished
  persist : Move m persisting m persisted
  merge_update :
      m.writer ≡ nobody → Move m persisted (record m { readers = m.readers + 1 }) merging_update
  merged_update : Move m merging_update (record m { readers = m.readers - 1 }) replying
  reply : Move m replying (record m { readers = m.readers - 1 }) finished
  merge : m.writer ≡ nobody → Move m query_start (record m { readers = m.readers + 1 }) merging
  merged : Move m merging (record m { readers = m.readers - 1 }) finished

-- A handler for each number below `n`.
pub record System : Type 0 where
  pub mutex : RwMutex
  pub pc : ℕ → Pc

abbrev pub move_to : (ℕ → Pc) → ℕ → Pc → ℕ → Pc
move_to pc i p j = if i == j then p else pc j

pub data Step (n : ℕ) (s : System) : System → Type 0 where
  pick :
      (i : ℕ) {m : RwMutex} {p : Pc}
      → i < n
      → Move s.mutex (s.pc i) m p
      → Step n s (record { mutex = m; pc = move_to s.pc i p })

pub data Reach (n : ℕ) (s : System) : System → Type 0 where
  here : Reach n s s
  next : {t u : System} → Reach n s t → Step n t u → Reach n s u

-- The handlers of some requests, none of which has begun.
abbrev pub idle : (ℕ → Pc) → System
idle requests = record { mutex = record { readers = 0; writer = nobody }; pc = requests }

pub data IsRequest : Pc → Type 0 where
  update : IsRequest update_start
  query : IsRequest query_start
