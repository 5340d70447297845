-- ===== src/Service/Locks.antt =====
-- The mutexes of internal/service/container_svc.go and file_svc.go, one for each container and each file:
-- containerLock and fileLock, and the calls that take them. sync.Map gives LoadOrStore in one step, and a
-- locked sync.Mutex lets nobody else lock it until it is unlocked.
pub mod Entries
pub mod Exclusion
use go_container_manager.Prelude.{
  ℕ, suc, String, Bool, true, false, ◌&&◌, ◌≡◌, Option, none, some, List, [], ◌∷◌, ◌++◌, ◌==◌, eqb,
  find, count,
}

-- A *sync.Mutex in the sync.Map, under its key.
pub record Entry : Type 0 where
  pub key : String
  pub mutex : ℕ

abbrev pub has_key : String → Entry → Bool
has_key id e = e.key == id

-- LoadOrStore with a new mutex.
abbrev pub loaded : Option Entry → ℕ → ℕ
loaded none new = new
loaded (some e) new = e.mutex

abbrev pub stored : Option Entry → String → ℕ → List Entry → List Entry
stored none id new es = record { key = id; mutex = new } ∷ es
stored (some _) id new es = es

-- containerLock, fileLock
unfoldable pub container_lock : String → ℕ → List Entry → ℕ × List Entry
container_lock id new es =
    let found = find (has_key id) es in (loaded found new, stored found id new es)

-- A call of Start, Stop or Delete: before containerLock, at `mu.Lock()`, and until the deferred
-- `mu.Unlock()`.
pub data Stage : Type 0 where
  called : Stage
  at_lock inside : ℕ → Stage

pub record Caller : Type 0 where
  pub id : String
  pub stage : Stage

abbrev pub is_at : ℕ → Stage → Bool
is_at m called = false
is_at m (at_lock _) = false
is_at m (inside k) = eqb k m

-- It has locked this mutex.
abbrev pub holds : ℕ → Caller → Bool
holds m c = is_at m c.stage

abbrev pub is_in : Stage → Bool
is_in called = false
is_in (at_lock _) = false
is_in (inside _) = true

-- It is at work on what has this id.
abbrev pub is_inside : String → Caller → Bool
is_inside id c = is_in c.stage && c.id == id

-- `allocated` mutexes have been made so far.
pub record Locks : Type 0 where
  pub entries : List Entry
  pub allocated : ℕ
  pub callers : List Caller

abbrev pub no_locks : Locks
no_locks = record { entries = []; allocated = 0; callers = [] }

pub data Move (l : Locks) : Locks → Type 0 where
  arrives :
      (id : String) → Move l (record l { callers = record { id = id; stage = called } ∷ l.callers })
  gets_lock :
      (before after : List Caller) (id : String)
      → l.callers ≡ before ++ record { id = id; stage = called } ∷ after
      → Move l (record {
        entries = (container_lock id l.allocated l.entries).1;
        allocated = suc l.allocated;
        callers =
            before
            ++ record { id = id; stage = at_lock (container_lock id l.allocated l.entries).0 }
              ∷ after;
      })
  enters :
      (before after : List Caller) (id : String) (m : ℕ)
      → l.callers ≡ before ++ record { id = id; stage = at_lock m } ∷ after
      → count (holds m) l.callers ≡ 0
      → Move l (record l { callers = before ++ record { id = id; stage = inside m } ∷ after })
  leaves :
      (before after : List Caller) (id : String) (m : ℕ)
      → l.callers ≡ before ++ record { id = id; stage = inside m } ∷ after
      → Move l (record l { callers = before ++ after })

pub data Moves (l : Locks) : Locks → Type 0 where
  still : Moves l l
  then : {k n : Locks} → Moves l k → Move k n → Moves l n
