-- ===== src/System/Progress/Drain.antt =====
-- A server that takes no new request can finish all that is on its way.
use go_container_manager.Prelude.{
  ℕ, ◌≤◌, ◌<◌, String, ◌≡◌, ◌∙◌, refl, ap, List, [], ◌∷◌, ◌++◌, arith, count, map, length, eq_iff,
}
use go_container_manager.Domain.{Job}
use go_container_manager.Repo.Jobs.{has_id}
use go_container_manager.Service.Containers
use go_container_manager.Service.Containers.{queue_capacity}
use go_container_manager.Worker
use go_container_manager.Worker.{Runtime}
use go_container_manager.Worker.Kept.{IsWorking}
use go_container_manager.System.{Task, System, Reach, played, received, send, receive}
use go_container_manager.System.Invariant.{Inv, count-on_way}
use go_container_manager.System.Runs.{IsOwn, IsInner, Only}
use go_container_manager.System.Progress.{
  active_id, Progress, finish, further, step, still, widened,
}

-- None of these jobs has an active row.
abbrev pub Cleared : List Job → List Job → Type 0
Cleared js rows = (id : String) → 1 ≤ count (has_id id) js → count (active_id id) rows ≡ 0

module _ {S : Type 0} (rt : Runtime S) (service : Containers.Config) (config : Worker.Config)
    (pool_size : ℕ) where
  abbrev Goes : System S → System S → Type 0
  Goes = Progress rt service config pool_size (IsOwn rt service config pool_size)

  abbrev Runs : System S → System S → Type 0
  Runs = Progress rt service config pool_size (IsInner rt service config pool_size)

  pub drain_workers :
      (tasks : List Task) (s : System S)
      → Inv pool_size s
      → IsWorking s.db
      → s.workers ≡ tasks
      → (u : System S) × Goes s u
        × (u.workers ≡ [])
        × (u.queue ≡ s.queue)
        × (u.senders ≡ s.senders)
        × Cleared (map (λ t. t.job) tasks) u.db.jobs
  unfolding count
  drain_workers [] s v w e =
      (s, still rt service config pool_size v w, e, refl, refl, λ id n. absurd (omega arith))
  drain_workers (t ∷ tasks) s v w e =
      let (m, p, a, b, c, d) = finish rt service config pool_size s t tasks v w e in
      let (u, q, a₂, b₂, c₂, d₂) = drain_workers tasks m p.inv p.working a in
      (
        u,
        further rt service config pool_size p q,
        a₂,
        b₂ ∙ b,
        c₂ ∙ c,
        λ id n. ground (arith, d₂ id, q.fewer id, d, eq_iff t.job.id id),
      )

  module _ (some_worker : 0 < pool_size) where
    drain_queue :
        (js : List Job) (s : System S)
        → Inv pool_size s
        → IsWorking s.db
        → s.workers ≡ []
        → s.queue ≡ js
        → (u : System S) × Runs s u
          × (u.workers ≡ [])
          × (u.queue ≡ [])
          × (u.senders ≡ s.senders)
          × Cleared js u.db.jobs
    unfolding count
    drain_queue [] s v w idle e =
        (s, still rt service config pool_size v w, idle, e, refl, λ id n. absurd (omega arith))
    drain_queue (j ∷ js) s v w idle e =
        let t : Task = record { job = j; stage = received } in
        let m : System S = record s { queue = js; workers = t ∷ s.workers } in
        let p : Runs s m =
          step rt service config pool_size (receive j js e (rw idle some_worker)) (record {}) v w
            (λ id. omega arith) in
        let (m₂, p₁, a, b, c, d) =
          finish rt service config pool_size m t [] p.inv w (ap (λ ts. t ∷ ts) idle) in
        let p₂ = widened rt service config pool_size p₁ in
        let (u, q, a₂, b₂, c₂, d₂) = drain_queue js m₂ p₂.inv p₂.working a b in
        (
          u,
          further rt service config pool_size p (further rt service config pool_size p₂ q),
          a₂,
          b₂,
          c₂ ∙ c,
          λ id n. ground (arith, d₂ id, q.fewer id, d, eq_iff j.id id),
        )

    drain_senders :
        (js : List Job) (s : System S)
        → Inv pool_size s
        → IsWorking s.db
        → s.workers ≡ []
        → s.queue ≡ []
        → s.senders ≡ js
        → (u : System S) × Runs s u
          × (u.workers ≡ [])
          × (u.queue ≡ [])
          × (u.senders ≡ [])
          × Cleared js u.db.jobs
    unfolding count
    drain_senders [] s v w idle empty e =
        (s, still rt service config pool_size v w, idle, empty, e, λ id n. absurd (omega arith))
    drain_senders (j ∷ js) s v w idle empty e =
        let m : System S = record s { senders = js; queue = s.queue ++ j ∷ [] } in
        let p : Runs s m =
          step rt service config pool_size (send [] js j e (omega (arith, ap length empty)))
            (record {}) v w (λ id. omega arith) in
        let (m₂, p₂, a, b, c, d) =
          drain_queue (j ∷ []) m p.inv w idle (ap (λ q. q ++ j ∷ []) empty) in
        let (u, q, a₂, b₂, c₂, d₂) = drain_senders js m₂ p₂.inv p₂.working a b c in
        (
          u,
          further rt service config pool_size p (further rt service config pool_size p₂ q),
          a₂,
          b₂,
          c₂,
          λ id n. ground (arith, d₂ id, q.fewer id, d id, eq_iff j.id id),
        )

    -- Where the invariant holds, no statement fails and there is a worker, the server can go on to
    -- a state in which nothing is on its way any more and no job that was on its way has an active
    -- row; all that it takes is to send, receive, mark, work and settle.
    pub drains :
        (s : System S)
        → Inv pool_size s
        → IsWorking s.db
        → (u : System S) × (run : Reach rt service config pool_size s u) × Only rt service config
            pool_size
            (IsInner rt service config pool_size)
            run
          × (played u ≡ [])
          × Cleared (played s) u.db.jobs
    drains s v w =
        let (a, p₀, a₁, a₂, a₃, a₄) = drain_workers s.workers s v w refl in
        let p = widened rt service config pool_size p₀ in
        let (b, q, b₁, b₂, b₃, b₄) = drain_queue s.queue a p.inv p.working a₁ a₂ in
        let (u, r, c₁, c₂, c₃, c₄) = drain_senders s.senders b q.inv q.working b₁ b₂ (b₃ ∙ a₃) in
        let all = further rt service config pool_size p (further rt service config pool_size q r) in
        (
          u,
          all.run,
          all.only,
          rw (c₁, c₂, c₃) refl,
          λ id n. ground (
            arith,
            a₄ id,
            b₄ id,
            c₄ id,
            q.fewer id,
            r.fewer id,
            count-on_way (has_id id) s.workers s.queue s.senders,
          ),
        )
