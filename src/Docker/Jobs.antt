-- ===== src/Docker/Jobs.antt =====
-- Each type of job, with the adapter, keeps every Docker container named by a row.
use go_container_manager.Prelude.{
  String, Bool, true, false, ◌||◌, ◌≡◌, ◌∙◌, refl, inl, inr, none, some, arith, ◌==◌, eq_iff,
  eq_refl, find,
}
use go_container_manager.Exec.{is_ok, Result-cases}
use go_container_manager.Domain.{Container, ContainerStatus, Job}
use go_container_manager.Db.{ContainerRow, Tables, healthy}
use go_container_manager.Repo.Containers.{has_id, scan_container}
use go_container_manager.Repo.Containers.Rows.{IsKeyed}
use go_container_manager.Worker
use go_container_manager.Worker.{
  Runtime, Clock, Host, run_job, process_create, process_start, process_stop, process_delete,
  sync_container_state,
}
use go_container_manager.Worker.Steps.{
  found_id, process_create_step, process_start_step, process_stop_step, process_delete_step,
}
use go_container_manager.FilePath.{join}
use go_container_manager.Service.Containers.{lookup}
use go_container_manager.Worker.{or_image}
use go_container_manager.Docker.{create_and_start, Client, Os, runtime}
use go_container_manager.Docker.Contract.{IsDocker}
use go_container_manager.Docker.Cleanup.{create_and_start_cases}
use go_container_manager.Docker.Kept.{IsTracked, sync-has, written, untouched, created, deleted}

module _ {S : Type 0} (cli : Client S) (os : Os S) (has : S → String → Bool)
    (k : IsDocker cli os has) where
  module _ (t : Tables) (keyed : IsKeyed t.containers) (r : ContainerRow) (id : String)
      (found : find (has_id id) t.containers ≡ some r) (s : S)
      (tracked : IsTracked has (record { db = healthy t; outside = s })) where
    module _ (cfg : Worker.Config) (clock : Clock) (job : Job)
        (target : job.target_resource_id ≡ id) where
      pub after_stop :
          IsTracked has
            (process_stop (runtime cli os) cfg clock job (record { db = healthy t; outside = s })).1
      unfolding runtime scan_container
      after_stop =
          let docker = (scan_container r).docker_container_id in
          let s' = (cli.container_stop docker 1 s).1 in
          let c : Container = record (scan_container r) {
            status = ContainerStatus.exited;
            updated_at = clock.updated;
          } in
          let step = process_stop_step t keyed r id found (runtime cli os) cfg clock job target s in
          let kept = k.stopped docker 1 s in
          ground (
            arith,
            step,
            written cli os has k t keyed r id found s tracked c s' (found_id t keyed r id found)
                refl kept,
            untouched cli os has k t keyed r id found s tracked s' kept,
          )

      pub after_start :
          IsTracked has
            (process_start
              (runtime cli os)
              cfg
              clock
              job
              (record { db = healthy t; outside = s })).1
      unfolding runtime scan_container
      after_start =
          let docker = (scan_container r).docker_container_id in
          let s' = (cli.container_start docker s).1 in
          let (status, s'') = sync_container_state (runtime cli os) docker s' in
          let c : Container = record (scan_container r) {
            status = status;
            updated_at = clock.updated;
          } in
          let step =
            process_start_step t keyed r id found (runtime cli os) cfg clock job target s in
          let kept = k.started docker s in
          let kept' : (d : String) → has s'' d ≡ has s d =
            λ d. sync-has cli os has k docker s' d ∙ kept d in
          ground (
            arith,
            step,
            written cli os has k t keyed r id found s tracked c s'' (found_id t keyed r id found)
                refl kept',
            untouched cli os has k t keyed r id found s tracked s' kept,
            untouched cli os has k t keyed r id found s tracked s (λ d. refl),
          )

      pub after_delete :
          IsTracked has
            (process_delete
              (runtime cli os)
              cfg
              clock
              job
              (record { db = healthy t; outside = s })).1
      unfolding runtime scan_container
      after_delete =
          let docker = (scan_container r).docker_container_id in
          let (answer, s') = cli.container_remove docker true s in
          let empty : docker == "" ≡ true → has s docker ≡ false =
            λ q. ground (arith, eq_iff docker "", k.named s) in
          let step =
            process_delete_step t keyed r id found (runtime cli os) cfg clock job target s in
          elim (Result-cases answer) [
            | inl (_, e) ↦ ground (
              arith,
              step,
              empty,
              deleted cli os has k t keyed r id found s tracked s (λ d h. h),
              deleted cli os has k t keyed r id found s tracked s'
                  (λ d h. ground (arith, k.removed docker s e d))
                  (ground (arith, k.removed docker s e docker, eq_refl docker)),
            )
            | inr (x, e) ↦
                let same = k.not_removed docker s (rw e refl) in
                ground (
                  arith,
                  step,
                  empty,
                  k.unknown docker s x e,
                  same docker,
                  deleted cli os has k t keyed r id found s tracked s (λ d h. h),
                  deleted cli os has k t keyed r id found s tracked s'
                      (λ d h. ground (arith, same d)),
                  untouched cli os has k t keyed r id found s tracked s' same,
                )
          ]

      -- A failed start is followed by a removal.
      pub after_create :
          r.docker_container_id ≡ none
          → ((d : String) (u : S) → has u d ≡ true → is_ok (cli.container_remove d true u).0 ≡ true)
          → IsTracked has
              (process_create
                (runtime cli os)
                cfg
                clock
                job
                (record { db = healthy t; outside = s })).1
      unfolding runtime scan_container
      after_create new reliable =
          let c₀ = scan_container r in
          let s₁ = (os.mkdir_all (join cfg.storage_root c₀.user_id) s).1 in
          let kept₁ = k.made (join cfg.storage_root c₀.user_id) s in
          let image = or_image (lookup c₀.environment cfg.env_map) in
          let path = join cfg.storage_host_path c₀.user_id in
          let (answer, s₂) = create_and_start cli os c₀ image path s₁ in
          let step =
            process_create_step t keyed r id found (runtime cli os) cfg clock job target s in
          elim (create_and_start_cases cli os has k c₀ image path s₁) [
            | inl (docker, e, grown) ↦
                let (status, s₃) = sync_container_state (runtime cli os) docker s₂ in
                let c : Container = record c₀ {
                  docker_container_id = docker;
                  status = status;
                  updated_at = clock.updated;
                } in
                let more : (d : String) → has s₃ d ≡ (d == docker || has s d) =
                  λ d. ground (arith, sync-has cli os has k docker s₂ d, grown.grown d, kept₁ d) in
                ground (
                  arith,
                  step,
                  e,
                  created cli os has k t keyed r id found s tracked c s₃
                      (found_id t keyed r id found) new more,
                  untouched cli os has k t keyed r id found s tracked s₁ kept₁,
                )
            | inr (e, inl same) ↦ ground (
              arith,
              step,
              e,
              untouched cli os has k t keyed r id found s tracked s₁ kept₁,
              untouched cli os has k t keyed r id found s tracked s₂ (λ d. same d ∙ kept₁ d),
            )
            | inr (e, inr left) ↦ absurd (
                ground (
                  arith,
                  left.not_removed,
                  left.new.grown left.id,
                  eq_refl left.id,
                  k.started left.id left.at left.id,
                  reliable left.id (cli.container_start left.id left.at).1,
                ))
          ]
