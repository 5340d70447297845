-- ===== src/System/Runs.antt =====
-- Runs of the server of System.antt, and runs that take only some kinds of steps.
use go_container_manager.Prelude.{ℕ}
use go_container_manager.Service.Containers
use go_container_manager.Worker
use go_container_manager.Worker.{Runtime}
use go_container_manager.System.{
  System, Step, Reach, request, submit, enlist, send, give_up, receive, mark, work, settle, tick,
  restart, here, next,
}

module _ {S : Type 0} (rt : Runtime S) (service : Containers.Config) (config : Worker.Config)
    (pool_size : ℕ) where
  abbrev pub Run : System S → System S → Type 0
  Run = Reach rt service config pool_size

  unfoldable pub joined : {s t u : System S} → Run s t → Run t u → Run s u
  joined r here = r
  joined r (next q st) = next (joined r q) st

  abbrev pub StepClass : Type 1
  StepClass = (s t : System S) → Step rt service config pool_size s t → Type 0

  -- A worker goes on with a job that it has.
  abbrev pub IsOwn : StepClass
  IsOwn s t (mark _ _ _ _) = Unit {0}
  IsOwn s t (work _ _ _ _ _) = Unit {0}
  IsOwn s t (settle _ _ _ _ _ _) = Unit {0}
  IsOwn s t (request _ _ _ _) = ⊥
  IsOwn s t (submit _ _ _ _ _ _) = ⊥
  IsOwn s t (enlist _ _ _ _ _) = ⊥
  IsOwn s t (send _ _ _ _ _) = ⊥
  IsOwn s t (give_up _ _ _ _) = ⊥
  IsOwn s t (receive _ _ _ _) = ⊥
  IsOwn s t (tick _) = ⊥
  IsOwn s t restart = ⊥

  -- A job that is there is sent, received or gone on with.
  abbrev pub IsInner : StepClass
  IsInner s t (mark _ _ _ _) = Unit {0}
  IsInner s t (work _ _ _ _ _) = Unit {0}
  IsInner s t (settle _ _ _ _ _ _) = Unit {0}
  IsInner s t (send _ _ _ _ _) = Unit {0}
  IsInner s t (receive _ _ _ _) = Unit {0}
  IsInner s t (request _ _ _ _) = ⊥
  IsInner s t (submit _ _ _ _ _ _) = ⊥
  IsInner s t (enlist _ _ _ _ _) = ⊥
  IsInner s t (give_up _ _ _ _) = ⊥
  IsInner s t (tick _) = ⊥
  IsInner s t restart = ⊥

  pub own-IsInner :
      (s t : System S) (st : Step rt service config pool_size s t) → IsOwn s t st → IsInner s t st
  own-IsInner s t (mark _ _ _ _) a = a
  own-IsInner s t (work _ _ _ _ _) a = a
  own-IsInner s t (settle _ _ _ _ _ _) a = a
  own-IsInner s t (request _ _ _ _) a = absurd a
  own-IsInner s t (submit _ _ _ _ _ _) a = absurd a
  own-IsInner s t (enlist _ _ _ _ _) a = absurd a
  own-IsInner s t (send _ _ _ _ _) a = absurd a
  own-IsInner s t (give_up _ _ _ _) a = absurd a
  own-IsInner s t (receive _ _ _ _) a = absurd a
  own-IsInner s t (tick _) a = absurd a
  own-IsInner s t restart a = absurd a

  unfoldable pub Only : StepClass → {s t : System S} → Run s t → Type 0
  Only P here = Unit {0}
  Only P (next {t} {u} r st) = Only P r × P t u st

  pub Only-joined :
      (P : StepClass) {s t u : System S} (r : Run s t) (q : Run t u)
      → Only P r
      → Only P q
      → Only P (joined r q)
  unfolding joined Only
  Only-joined P r here a b = a
  Only-joined P r (next q st) a b = (Only-joined P r q a b.0, b.1)

  pub Only-wider :
      (P Q : StepClass)
      → ((s t : System S) (st : Step rt service config pool_size s t) → P s t st → Q s t st)
      → {s t : System S} (r : Run s t) → Only P r
      → Only Q r
  unfolding Only
  Only-wider P Q f here a = a
  Only-wider P Q f (next r st) a = (Only-wider P Q f r a.0, f _ _ st a.1)
