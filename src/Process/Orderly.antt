-- ===== src/Process/Orderly.antt =====
-- What the process has waited for at each stage of its stop.
use go_container_manager.Prelude.{
  ℕ, Option, ◌+◌, ◌≤◌, Bool, true, false, ◌≡◌, refl, ap, List, [], ◌∷◌, ◌++◌, length, arith,
}
use go_container_manager.Service.Containers
use go_container_manager.Worker
use go_container_manager.Worker.{Runtime}
use go_container_manager.System.{
  System, Task, worked, Step, Reach, here, next, request, submit, enlist, send, give_up, receive,
  mark, work, settle, tick, restart,
}
use go_container_manager.System.Invariant.{length-middle}
use go_container_manager.Process.{
  Process, Handler, Act, Acts, IsServed, running, has_requests, idle, act, serve, signal, shut_down,
  time_out, worker_returns, workers_stopped, cleaner_returns, stopped, closed, listen_fails,
  waiting, shutting_down, stopping_workers, stopping_cleaner, finished, ended,
}

-- The wait for the workers is over.
abbrev pub has_waited : Handler → Bool
has_waited waiting = false
has_waited shutting_down = false
has_waited stopping_workers = false
has_waited stopping_cleaner = true
has_waited finished = true

abbrev pub has_finished : Handler → Bool
has_finished waiting = false
has_finished shutting_down = false
has_finished stopping_workers = false
has_finished stopping_cleaner = false
has_finished finished = true

-- A list that has an element in the middle is not empty.
no_middle :
    {A : Type 0} {xs : List A} (before after : List A) (a : A)
    → xs ≡ []
    → xs ≡ before ++ a ∷ after
    → ⊥
no_middle before after a e f =
    absurd (omega (arith, length-middle before after a, ap length e, ap length f))

pub no_elements : {A : Type 0} (xs : List A) → length xs ≤ 0 → xs ≡ []
no_elements [] h = refl
no_elements (x ∷ xs) h = absurd (omega (arith, h))

-- An element replaced, and one taken out.
module _ {A : Type 0} {xs : List A} (before after : List A) (a b : A)
    (e : xs ≡ before ++ a ∷ after) where
  length-replaced : length (before ++ b ∷ after) ≡ length xs
  length-replaced =
      omega (arith, length-middle before after a, length-middle before after b, ap length e)

  length-removed : length (before ++ after) ≤ length xs
  length-removed = omega (arith, length-middle before after a, ap length e)

module _ {S : Type 0} (rt : Runtime S) (service : Containers.Config) (config : Worker.Config)
    (pool_size : ℕ) where
  -- How far the stop has come, and what it has waited for.
  pub record IsOrderly (start : System S) (p : Process S) : Type 0 where
    pub run : Reach rt service config pool_size start p.system
    pub pool : length p.system.workers + p.returned ≤ pool_size
    pub answered :
        has_requests p.handler ≡ false → (p.system.senders ≡ []) × (p.system.creating ≡ [])
    pub told : has_requests p.handler ≡ false → p.quit ≡ true
    pub waited : has_waited p.handler ≡ true → p.returned ≡ pool_size
    pub done : has_finished p.handler ≡ true → p.cleaner ≡ ended

  serve-pool :
      (p : Process S) (t : System S) (st : Step rt service config pool_size p.system t)
      → IsServed rt service config pool_size p st
      → length p.system.workers + p.returned ≤ pool_size
      → length t.workers + p.returned ≤ pool_size
  serve-pool p t (request op x user_id id) a b = b
  serve-pool p t (submit x user_id name env command unused) a b = b
  serve-pool p t (enlist before after c e unused) a b = b
  serve-pool p t (send before after job e room) a b = b
  serve-pool p t (give_up before after job e) a b = b
  serve-pool p t (receive job rest e room) a b = omega (arith, a, b)
  serve-pool p t (mark before after job e) a b = rw (length-replaced before after _ _ e) b
  serve-pool p t (work before after job clock e) a b = rw (length-replaced before after _ _ e) b
  serve-pool p t (settle before after job r now e) a b =
      let task : Task = record { job = job; stage = worked r } in
      omega (arith, b, length-removed before after task task e)
  serve-pool p t (tick now) a b = b
  serve-pool p t restart a b = absurd a

  serve-answered :
      (p : Process S) (t : System S) (st : Step rt service config pool_size p.system t)
      → IsServed rt service config pool_size p st
      → has_requests p.handler ≡ false
      → (p.system.senders ≡ []) × (p.system.creating ≡ [])
      → (t.senders ≡ []) × (t.creating ≡ [])
  serve-answered p t (request op x user_id id) a n b = absurd (ground (arith, a, n))
  serve-answered p t (submit x user_id name env command unused) a n b =
      absurd (ground (arith, a, n))
  serve-answered p t (enlist before after c e unused) a n b =
      absurd (no_middle before after c b.1 e)
  serve-answered p t (send before after job e room) a n b =
      absurd (no_middle before after job b.0 e)
  serve-answered p t (give_up before after job e) a n b = absurd (no_middle before after job b.0 e)
  serve-answered p t (receive job rest e room) a n b = b
  serve-answered p t (mark before after job e) a n b = b
  serve-answered p t (work before after job clock e) a n b = b
  serve-answered p t (settle before after job r now e) a n b = b
  serve-answered p t (tick now) a n b = b
  serve-answered p t restart a n b = absurd a

  exiting :
      {start : System S} {p : Process S} (x : Option ℕ)
      → IsOrderly start p
      → IsOrderly start (record p { exit = x })
  exiting x o = record {
    run = o.run;
    pool = o.pool;
    answered = o.answered;
    told = o.told;
    waited = o.waited;
    done = o.done;
  }

  Act-IsOrderly :
      {start : System S} {p q : Process S}
      → Act rt service config pool_size p q
      → IsOrderly start p
      → IsOrderly start q
  Act-IsOrderly {p = p} (serve t st a) o = record {
    run = next o.run st;
    pool = serve-pool p t st a o.pool;
    answered = λ n. serve-answered p t st a n (o.answered n);
    told = o.told;
    waited = o.waited;
    done = o.done;
  }
  Act-IsOrderly (signal e) o = record {
    run = o.run;
    pool = o.pool;
    answered = λ n. absurd (ground arith);
    told = λ n. absurd (ground arith);
    waited = λ n. absurd (ground arith);
    done = λ n. absurd (ground arith);
  }
  Act-IsOrderly (shut_down e senders creating) o = record {
    run = o.run;
    pool = o.pool;
    answered = λ n. (senders, creating);
    told = λ n. refl;
    waited = λ n. absurd (ground arith);
    done = λ n. absurd (ground arith);
  }
  Act-IsOrderly (time_out e) o = exiting _ o
  Act-IsOrderly (worker_returns e free) o = record {
    run = o.run;
    pool = omega (arith, free);
    answered = o.answered;
    told = o.told;
    waited = λ n. absurd (omega (arith, o.waited n, free));
    done = o.done;
  }
  Act-IsOrderly (workers_stopped e all) o = record {
    run = o.run;
    pool = o.pool;
    answered = λ n. o.answered (rw e refl);
    told = λ n. o.told (rw e refl);
    waited = λ n. all;
    done = λ n. absurd (ground arith);
  }
  Act-IsOrderly (cleaner_returns e) o = record {
    run = o.run;
    pool = o.pool;
    answered = o.answered;
    told = o.told;
    waited = o.waited;
    done = λ n. refl;
  }
  Act-IsOrderly (stopped e end) o = record {
    run = o.run;
    pool = o.pool;
    answered = λ n. o.answered (rw e refl);
    told = λ n. o.told (rw e refl);
    waited = λ n. o.waited (rw e refl);
    done = λ n. end;
  }
  Act-IsOrderly (closed begun) o = exiting _ o
  Act-IsOrderly listen_fails o = exiting _ o

  pub Acts-IsOrderly :
      {start : System S} {p q : Process S}
      → Acts rt service config pool_size p q
      → IsOrderly start p
      → IsOrderly start q
  Acts-IsOrderly idle o = o
  Acts-IsOrderly (act run e a) o = Act-IsOrderly a (Acts-IsOrderly run o)

  -- The process as it starts.
  pub running-IsOrderly : (s : System S) → s.workers ≡ [] → IsOrderly s (running s)
  running-IsOrderly s e = record {
    run = here;
    pool = rw e (omega arith);
    answered = λ n. absurd (ground arith);
    told = λ n. absurd (ground arith);
    waited = λ n. absurd (ground arith);
    done = λ n. absurd (ground arith);
  }
