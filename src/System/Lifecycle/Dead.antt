-- ===== src/System/Lifecycle/Dead.antt =====
-- The status Dead, which the code never writes.
use go_container_manager.Prelude.{
  ℕ, String, false, ◌≡◌, ◌∙◌, refl, ap, sym, inl, inr, List, arith, ◌==◌, eq_iff, Option, some,
  Bool-cases,
}
use go_container_manager.Domain.{
  ContainerStatus, JobType, create_container, start_container, stop_container, delete_container,
  other_type,
}
use go_container_manager.Service.Containers
use go_container_manager.Worker
use go_container_manager.Worker.{Runtime}
use go_container_manager.Worker.Touches.{settles}
use go_container_manager.System.{System, Task, Reach, here, next}
use go_container_manager.System.Invariant.{Inv}
use go_container_manager.System.Exclusion.{Reach-Inv}
use go_container_manager.System.Lifecycle.{
  shelf, Change, nothing, written, removed, Move, quiet, appears, works,
}
use go_container_manager.System.Lifecycle.Refines.{refines}

settles-dead : (type : JobType) → settles type ContainerStatus.dead ≡ false
settles-dead create_container = refl
settles-dead start_container = refl
settles-dead stop_container = refl
settles-dead delete_container = refl
settles-dead (other_type _) = refl

Change-dead :
    (type : JobType) (a b : Option ContainerStatus)
    → Change type a b
    → b ≡ some ContainerStatus.dead
    → a ≡ some ContainerStatus.dead
Change-dead type a _ nothing e = e
Change-dead type _ (some b) (written h) e = absurd (ground (arith, settles-dead type))
Change-dead _ a _ removed e = cc

Move-dead :
    (tasks : List Task) (f g : String → Option ContainerStatus) (id : String)
    → Move tasks f g
    → g id ≡ some ContainerStatus.dead
    → f id ≡ some ContainerStatus.dead
Move-dead tasks f g id (quiet same) e = sym (same id) ∙ e
Move-dead tasks f g id (appears new absent born others) e = elim (Bool-cases (id == new)) [
  | inl same ↦ let q = (eq_iff id new).0 same in absurd (ground (arith, born, ap g q))
  | inr differ ↦ sym (others id (λ q. absurd (ground (arith, eq_iff id new)))) ∙ e
]
Move-dead tasks f g id (works first last job at change others) e =
    let own = job.target_resource_id in
    elim (Bool-cases (id == own)) [
      | inl same ↦
          let q = (eq_iff id own).0 same in
          ap f q ∙ Change-dead job.type (f own) (g own) change (sym (ap g q) ∙ e)
      | inr differ ↦ sym (others id (λ q. absurd (ground (arith, eq_iff id own)))) ∙ e
    ]

module _ {S : Type 0} (rt : Runtime S) (service : Containers.Config) (config : Worker.Config)
    (pool_size : ℕ) where
  -- A container that is Dead in a state that the server reaches, where no job of a new container
  -- is active yet when its Create stores its job, from one that satisfies the invariant was Dead
  -- in that one: no operation writes this status.
  pub always_dead :
      (s t : System S) (id : String)
      → Inv pool_size s
      → Reach rt service config pool_size s t
      → shelf t.db id ≡ some ContainerStatus.dead
      → shelf s.db id ≡ some ContainerStatus.dead
  always_dead s _ id v here e = e
  always_dead s t id v (next {t = m} r st) e = always_dead s m id v r (
      Move-dead m.workers (shelf m.db) (shelf t.db) id
        (refines rt service config pool_size m t (Reach-Inv rt service config pool_size r v) st) e)
