-- ===== src/System/Statements/Locked.antt =====
-- What a transaction that has the lock has read.
use mathlib.Core.Path.{subst}
use go_container_manager.Prelude.{
  inl, inr, Bool-cases, ◌≤◌, String, true, false, ◌≡◌, some, List, [], ◌∷◌, eq_iff, eq_refl, arith,
  count, find, All,
}
use go_container_manager.Domain.{Container}
use go_container_manager.Db.{ContainerRow, Tables}
use go_container_manager.Repo.Containers
use go_container_manager.Repo.Containers.{scan_container}
use go_container_manager.Repo.Jobs.{active_on}
use go_container_manager.Service.Containers.Operations.{refuses}
use go_container_manager.System.Statements.{Stage, begun, locked, cleared, Transaction, locks}

-- The row that was read is there still, and it is the user's.
pub record HasRead (t : Tables) (x : Transaction) (c : Container) : Type 0 where
  pub row : ContainerRow
  pub found : find (Containers.has_id x.container_id) t.containers ≡ some row
  pub same : scan_container row ≡ c
  pub owned : c.user_id ≡ x.user_id

-- No job of the container has become active.
pub record HasCleared (t : Tables) (x : Transaction) (c : Container) : Type 0 where
  pub read : HasRead t x c
  pub idle : count (active_on x.container_id) t.jobs ≡ 0
  pub ready : refuses x.op c.status ≡ false

abbrev pub HoldsAt : Tables → Transaction → Stage → Type 0
HoldsAt t x begun = Unit {0}
HoldsAt t x (locked c) = HasRead t x c
HoldsAt t x (cleared c) = HasCleared t x c

abbrev pub IsHeld : Tables → Transaction → Type 0
IsHeld t x = HoldsAt t x x.stage

pub record IsLocked (t : Tables) (txs : List Transaction) : Type 0 where
  pub held : All (IsHeld t) txs
  pub alone : (id : String) → count (locks id) txs ≤ 1

-- A change of the tables that leaves alone what a transaction with this lock has read.
pub record Spares (t u : Tables) (id : String) : Type 0 where
  pub row : find (Containers.has_id id) u.containers ≡ find (Containers.has_id id) t.containers
  pub idle : count (active_on id) t.jobs ≡ 0 → count (active_on id) u.jobs ≡ 0

held-Spares :
    (t u : Tables) (x : Transaction) (stage : Stage)
    → (locks x.container_id (record x { stage = stage }) ≡ true → Spares t u x.container_id)
    → HoldsAt t x stage
    → HoldsAt u x stage
held-Spares t u x begun spares h = tt
held-Spares t u x (locked c) spares h =
    let s = spares (eq_refl x.container_id) in
    record { row = h.row; found = rw s.row h.found; same = h.same; owned = h.owned }
held-Spares t u x (cleared c) spares h =
    let s = spares (eq_refl x.container_id) in
    record {
      read = record {
        row = h.read.row;
        found = rw s.row h.read.found;
        same = h.read.same;
        owned = h.read.owned;
      };
      idle = s.idle h.idle;
      ready = h.ready;
    }

all-Spares :
    (t u : Tables) (txs : List Transaction)
    → ((id : String) → 1 ≤ count (locks id) txs → Spares t u id)
    → All (IsHeld t) txs
    → All (IsHeld u) txs
unfolding count
all-Spares t u [] spares h = tt
all-Spares t u (x ∷ txs) spares h = (
  held-Spares t u x x.stage (λ l. spares x.container_id (ground (arith, l))) h.0,
  all-Spares t u txs (λ id l. spares id (ground arith)) h.1,
)

pub IsLocked-Spares :
    (t u : Tables) (txs : List Transaction)
    → IsLocked t txs
    → ((id : String) → 1 ≤ count (locks id) txs → Spares t u id)
    → IsLocked u txs
IsLocked-Spares t u txs l spares = record {
  held = all-Spares t u txs spares l.held;
  alone = l.alone;
}

row_of :
    (t : Tables) (x : Transaction) (stage : Stage)
    → locks x.container_id (record x { stage = stage }) ≡ true
    → HoldsAt t x stage
    → (r : ContainerRow) × (find (Containers.has_id x.container_id) t.containers ≡ some r)
row_of t x begun h g = absurd (ground arith)
row_of t x (locked c) h g = (g.row, g.found)
row_of t x (cleared c) h g = (g.read.row, g.read.found)

-- A row that is locked is there.
pub locked_row :
    (t : Tables) (id : String) (txs : List Transaction)
    → All (IsHeld t) txs
    → 1 ≤ count (locks id) txs
    → (r : ContainerRow) × (find (Containers.has_id id) t.containers ≡ some r)
unfolding count
locked_row t id [] h n = absurd (omega arith)
locked_row t id (x ∷ txs) h n = elim (Bool-cases (locks id x)) [
  | inl mine ↦
      let e : x.container_id ≡ id = ground (arith, eq_iff x.container_id id) in
      subst (λ i. (r : ContainerRow) × (find (Containers.has_id i) t.containers ≡ some r)) e
        (row_of t x x.stage (ground (arith, eq_refl x.container_id)) h.0)
  | inr other ↦ locked_row t id txs h.1 (ground arith)
]
