-- ===== src/Worker/Expected.antt =====
-- What the work on a job is meant to write, in terms of what Docker answers.
use go_container_manager.Prelude.{
  ℕ, ◌≤◌, String, Bool, true, false, ◌≡◌, refl, Option, none, some, List, [], ◌∷◌, arith, find,
  count, update_where, ◌==◌, if◌then◌else◌,
}
use go_container_manager.Exec.{Result, ok, err}
use go_container_manager.Domain.{ContainerStatus, Job, success, failed}
use go_container_manager.Db.{ContainerRow, Tables}
use go_container_manager.Errors.{error_text}
use go_container_manager.Repo.Containers.{has_id}
use go_container_manager.Repo.Jobs
use go_container_manager.Worker.{Runtime, sync_container_state, or_image, ended, marked}

-- The tables with this row in place of the one with its id.
abbrev pub with_row : ContainerRow → Tables → Tables
with_row r t = record t { containers = update_where (λ x. x.id == r.id) (λ _. r) t.containers }

-- An id as it is stored, NULL for "".
abbrev pub stored_id : String → Option String
stored_id id = if id == "" then none else some id

-- The status that is seen of a container: whether it has exited within half a second, and what Docker
-- then says its state is.
abbrev pub status_seen : Bool → Result String → ContainerStatus
status_seen true answer = ContainerStatus.exited
status_seen false (ok state) =
    if state == "running" then ContainerStatus.running else ContainerStatus.exited
status_seen false (err _) = ContainerStatus.running

abbrev pub seen_in : {S : Type 0} → Runtime S → String → Bool → S → S
seen_in rt docker true s = s
seen_in rt docker false s = (rt.inspect_state docker s).1

-- The wait of half a second, in nanoseconds, and the question after it.
abbrev pub status_of : {S : Type 0} → Runtime S → String → S → ContainerStatus
status_of rt docker s =
    let (exited, s') = rt.wait_exit docker 500000000 s in
    status_seen exited (rt.inspect_state docker s').0

abbrev pub after_status : {S : Type 0} → Runtime S → String → S → S
after_status rt docker s =
    let (exited, s') = rt.wait_exit docker 500000000 s in seen_in rt docker exited s'

pub sync_lem :
    {S : Type 0} (rt : Runtime S) (docker : String) (s : S)
    → sync_container_state rt docker s ≡ (status_of rt docker s, after_status rt docker s)
unfolding sync_container_state
sync_lem rt docker s = ground arith

-- The image of an environment, "" where there is none.
abbrev pub image_of : Option String → String
image_of none = ""
image_of (some image) = image

pub image_lem : (o : Option String) → or_image o ≡ image_of o
image_lem none = refl
image_lem (some image) = refl

update_absent :
    (f g : ContainerRow → ContainerRow) (id : String) (rows : List ContainerRow)
    → count (has_id id) rows ≡ 0
    → update_where (has_id id) f rows ≡ update_where (has_id id) g rows
unfolding update_where count
update_absent f g id [] n = refl
update_absent f g id (x ∷ rows) n = ground (arith, update_absent f g id rows)

-- The one row with an id, rewritten.
pub update_found :
    (f : ContainerRow → ContainerRow) (id : String) (r : ContainerRow) (rows : List ContainerRow)
    → count (has_id id) rows ≤ 1
    → find (has_id id) rows ≡ some r
    → update_where (has_id id) f rows ≡ update_where (has_id id) (λ _. f r) rows
unfolding update_where count find
update_found f id r [] n e = refl
update_found f id r (x ∷ rows) n e =
    ground (arith, update_found f id r rows, update_absent f (λ _. f r) id rows)

-- The row of a job that has ended: SUCCESS with the message that was there, or FAILED with the error's
-- text.
abbrev pub ended_row : ℕ → Result (Unit {0}) → Option String → Job → Job
ended_row now (ok _) message j = record j {
  status = success;
  error_message = message;
  completed_at = some now;
}
ended_row now (err e) message j = record j {
  status = failed;
  error_message = some (error_text e);
  completed_at = some now;
}

pub update-ended :
    (now : ℕ) (r : Result (Unit {0})) (job : Job) (rows : List Job)
    → update_where (Jobs.has_id job.id) (Jobs.overwrite (ended now r (marked job))) rows
      ≡ update_where (λ j. j.id == job.id) (ended_row now r job.error_message) rows
unfolding Jobs.overwrite
update-ended now (ok _) job rows = refl
update-ended now (err e) job rows = refl
