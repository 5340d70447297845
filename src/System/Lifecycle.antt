-- ===== src/System/Lifecycle.antt =====
-- The life of containers as an abstract machine, which the running server refines: a shelf that holds
-- a status for each container, and events that touch one container at a time.
pub mod Refines
pub mod Dead
use go_container_manager.Prelude.{
  String, Bool, true, false, ◌&&◌, ◌||◌, ◌≡◌, ◌≢◌, refl, inl, inr, List, [], ◌∷◌, arith, ◌==◌,
  eq_iff, eq_refl, Option, ◌++◌, ◌∙◌, ◌⊎◌, none, some, Option-cases, find, update_where,
  delete_where, if◌then◌else◌,
}
use go_container_manager.Exec.{Result, ok, err}
use go_container_manager.Domain.{
  Container, ContainerStatus, Job, JobType, create_container, start_container, stop_container,
  delete_container, other_type,
}
use go_container_manager.Db.{ContainerRow, Db, statement}
use go_container_manager.Repo.Containers
use go_container_manager.Repo.Containers.{has_id, overwrite}
use go_container_manager.System.{Task, ready}
use go_container_manager.Worker.Touches.{settles, IsKeptAt, run_job-keeps_at}

abbrev pub status_if : Option ContainerRow → Option ContainerStatus
status_if none = none
status_if (some r) = some r.status

-- The shelf of a database.
unfoldable pub shelf : Db → String → Option ContainerStatus
shelf db id = status_if (find (has_id id) db.containers)

-- What a job of a type may make of the status of its container.
pub data Change : JobType → Option ContainerStatus → Option ContainerStatus → Type 0 where
  nothing : {type : JobType} {a : Option ContainerStatus} → Change type a a
  written :
      {type : JobType} {a b : ContainerStatus}
      → settles type b ≡ true
      → Change type (some a) (some b)
  removed : {a : Option ContainerStatus} → Change delete_container a none

abbrev pub with_status : ContainerStatus → Option ContainerStatus → Option ContainerStatus
with_status b none = none
with_status b (some _) = some b

-- The abstract machine: a step leaves every container as it is, lets one appear that was not there, or
-- is the work of a job that a worker has at hand on that job's own container.
pub data Move (tasks : List Task) (before after : String → Option ContainerStatus) : Type 0 where
  quiet : ((id : String) → after id ≡ before id) → Move tasks before after
  appears :
      (id : String)
      → before id ≡ none
      → after id ≡ some ContainerStatus.created
      → ((other : String) → other ≢ id → after other ≡ before other)
      → Move tasks before after
  works :
      (first last : List Task) (job : Job)
      → tasks ≡ first ++ record { job = job; stage = ready } ∷ last
      → Change job.type (before job.target_resource_id) (after job.target_resource_id)
      → ((other : String) → other ≢ job.target_resource_id → after other ≡ before other)
      → Move tasks before after

find-update :
    (c : Container) (id : String) (rows : List ContainerRow)
    → status_if (find (has_id id) (update_where (has_id c.id) (overwrite c) rows)) ≡ (
        if c.id == id
        then with_status c.status (status_if (find (has_id id) rows))
        else status_if (find (has_id id) rows))
unfolding find update_where overwrite
find-update c id [] = ground arith
find-update c id (r ∷ rows) =
    ground (arith, find-update c id rows, eq_iff r.id id, eq_iff r.id c.id, eq_iff c.id id)

find-delete :
    (gone id : String) (rows : List ContainerRow)
    → status_if (find (has_id id) (delete_where (has_id gone) rows))
      ≡ (if gone == id then none else status_if (find (has_id id) rows))
unfolding find delete_where
find-delete gone id [] = ground arith
find-delete gone id (r ∷ rows) =
    ground (arith, find-delete gone id rows, eq_iff r.id id, eq_iff r.id gone, eq_iff gone id)

shelf-find :
    (id other : String) (db : Db) → shelf (Containers.find_by_id id db).1 other ≡ shelf db other
unfolding shelf Containers.find_by_id statement
shelf-find id other db = ground arith

shelf-update :
    (c : Container) (id : String) (db : Db)
    → (shelf (Containers.update c db).1 id ≡ shelf db id)
      ⊎ (shelf (Containers.update c db).1 id
          ≡ (if c.id == id then with_status c.status (shelf db id) else shelf db id))
unfolding shelf Containers.update statement
shelf-update c id db = ground (arith, find-update c id db.containers)

shelf-delete :
    (gone id : String) (db : Db)
    → (shelf (Containers.delete gone db).1 id ≡ shelf db id)
      ⊎ (shelf (Containers.delete gone db).1 id ≡ (if gone == id then none else shelf db id))
unfolding shelf Containers.delete statement
shelf-delete gone id db = ground (arith, find-delete gone id db.containers)

-- A job keeps the status of every other container,
pub others-IsKeptAt :
    (type : JobType) (id other : String) (a : Option ContainerStatus)
    → other ≢ id
    → IsKeptAt type id (λ db. shelf db other ≡ a)
others-IsKeptAt type id other a ne = record {
  by_find = λ db h. shelf-find id other db ∙ h;
  by_update = λ c db e st h. ground (arith, shelf-update c other db, eq_iff c.id other);
  by_delete = λ db e h. ground (arith, shelf-delete id other db, eq_iff id other);
}

Change-with_status :
    (type : JobType) (b : ContainerStatus) (a c : Option ContainerStatus)
    → settles type b ≡ true
    → Change type a c
    → Change type a (with_status b c)
Change-with_status type b none _ st nothing = nothing
Change-with_status type b (some x) _ st nothing = written st
Change-with_status type b _ _ st (written h) = written st
Change-with_status _ b _ _ st removed = removed

-- and makes of its own container's what its type allows.
pub own-IsKeptAt :
    (type : JobType) (id : String) (a : Option ContainerStatus)
    → IsKeptAt type id (λ db. Change type a (shelf db id))
own-IsKeptAt type id a = record {
  by_find = λ db h. rw (shelf-find id id db) h;
  by_update = λ c db e st h. elim (shelf-update c id db) [
    | inl same ↦ rw same h
    | inr new ↦ rw (new, e, eq_refl id) (Change-with_status type c.status a (shelf db id) st h)
  ];
  by_delete = λ db e h. elim (shelf-delete id id db) [
    | inl same ↦ rw same h
    | inr new ↦ rw (new, eq_refl id, e) removed
  ];
}
