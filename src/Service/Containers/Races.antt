-- ===== src/Service/Containers/Races.antt =====
-- Create stores its two rows in no common transaction; a request may come in between.
use go_container_manager.Prelude.{
  String, Bool, true, ◌≡◌, ◌≢◌, refl, List, ◌∷◌, arith, count, eq_iff, eq_refl, find,
}
use go_container_manager.Exec.{ok}
use go_container_manager.Domain.{Container, Job, create_container, start_container, is_running}
use go_container_manager.Db.{Tables, healthy, statement}
use go_container_manager.Repo.Containers as Rows
use go_container_manager.Repo.Jobs
use go_container_manager.Service.Containers.{
  Inputs, new_container, create_job, run_guarded, start_guard, start_conflict,
}
use go_container_manager.Service.Containers.Guards.{guard-Admits}

save_new :
    (c : Container) (t : Tables)
    → count (Rows.has_id c.id) t.containers ≡ 0
    → count (Rows.has_name c.user_id c.name) t.containers ≡ 0
    → Rows.save c (healthy t)
      ≡ (ok tt, healthy (record t { containers = Rows.to_row c ∷ t.containers }))
unfolding Rows.save statement
save_new c t new unnamed = ground arith

save_job :
    (j : Job) (t : Tables)
    → count (Jobs.has_id j.id) t.jobs ≡ 0
    → Jobs.save j (healthy t) ≡ (ok tt, healthy (record t { jobs = j ∷ t.jobs }))
unfolding Jobs.save statement
save_job j t fresh = ground arith

active_twice :
    (target : String) (j k : Job) (jobs : List Job)
    → Jobs.active_on target j ≡ true
    → Jobs.active_on target k ≡ true
    → count (Jobs.active_on target) jobs ≡ 0
    → count (Jobs.active_on target) (j ∷ (k ∷ jobs)) ≡ 2
unfolding count
active_twice target j k jobs a b idle = ground arith

unused_twice :
    (id : String) (k : Job) (jobs : List Job)
    → id ≢ k.id
    → count (Jobs.has_id id) jobs ≡ 0
    → count (Jobs.has_id id) (k ∷ jobs) ≡ 0
unfolding count
unused_twice id k jobs differ fresh = ground (arith, eq_iff k.id id)

-- On a database in which no statement fails, a Start of a new container by its owner between the
-- two inserts of its Create is admitted, and both jobs are stored: the container has two active
-- jobs.
pub create_race :
    (tx : Bool) (x y : Inputs) (user_id name env : String) (command : List String) (t : Tables)
    → count (Rows.has_id x.container_id) t.containers ≡ 0
    → count (Rows.has_name user_id name) t.containers ≡ 0
    → count (Jobs.active_on x.container_id) t.jobs ≡ 0
    → count (Jobs.has_id x.job_id) t.jobs ≡ 0
    → count (Jobs.has_id y.job_id) t.jobs ≡ 0
    → x.job_id ≢ y.job_id
    → let first = create_job x user_id x.container_id create_container in
      let other = create_job y user_id x.container_id start_container in
      let (stored, d₁) = Rows.save (new_container x user_id name env command) (healthy t) in
      let (started, d₂) = run_guarded tx (start_guard tx user_id x.container_id other) d₁ in
      let (created, d₃) = Jobs.save first d₂ in
      (stored ≡ ok tt)
      × (started ≡ ok tt)
      × (created ≡ ok tt)
      × (count (Jobs.active_on x.container_id) d₃.jobs ≡ 2)
unfolding Rows.to_row start_guard create_job new_container find
create_race tx x y user_id name env command t new unnamed idle fresh unused differ =
    let c = new_container x user_id name env command in
    let t₁ : Tables = record t { containers = Rows.to_row c ∷ t.containers } in
    let first = create_job x user_id x.container_id create_container in
    let other = create_job y user_id x.container_id start_container in
    let t₂ : Tables = record t₁ { jobs = other ∷ t.jobs } in
    let active = eq_refl x.container_id in
    rw
      (
        save_new c t new unnamed,
        guard-Admits is_running start_conflict t₁ user_id x.container_id other tx (record {
          row = Rows.to_row c;
          found = rw active refl;
          owned = refl;
          idle = idle;
          ready = refl;
          fresh = unused;
        }),
        save_job first t₂ (unused_twice x.job_id other t.jobs differ fresh),
      )
      (
        refl,
        refl,
        refl,
        active_twice x.container_id first other t.jobs (rw active refl) (rw active refl) idle,
      )
