-- ===== src/System/Statements/Kept.antt =====
-- The steps of the transactions themselves keep IsLocked.
use go_container_manager.Prelude.{
  All-apart, All-insert, count-apart, ◌≤◌, String, true, false, ◌≡◌, refl, inl, inr, some, List,
  ◌∷◌, ◌++◌, ◌==◌, eq_iff, arith, count, find, find-none_iff, Option-cases,
}
use go_container_manager.Exec.{ok, is_ok}
use go_container_manager.Domain.{Container, Job}
use go_container_manager.Db.{ContainerRow, Tables, Db, statement}
use go_container_manager.Repo.Containers
use go_container_manager.Repo.Containers.{scan_container}
use go_container_manager.Repo.Jobs
use go_container_manager.Repo.Jobs.{active_on, has_id}
use go_container_manager.Service.Containers.{create_job}
use go_container_manager.Service.Containers.Operations.{refuses}
use go_container_manager.Worker.Kept.{IsWorking}
use go_container_manager.System.Statements.{
  Stage, begun, locked, cleared, Transaction, locks, job_of,
}
use go_container_manager.System.Statements.Locked.{HasRead, IsHeld, IsLocked, IsLocked-Spares}

-- What the statements find.
found_row :
    (id : String) (db : Db) (c : Container)
    → IsWorking db
    → (Containers.find_by_id_for_update id db).0 ≡ ok c
    → (r : ContainerRow) × (find (Containers.has_id id) db.containers ≡ some r)
      × (scan_container r ≡ c)
unfolding Containers.find_by_id_for_update statement
found_row id db c w h = elim (Option-cases (find (Containers.has_id id) db.containers)) [
  | inl e ↦ absurd (ground arith)
  | inr (r, e) ↦ (r, e, ground arith)
]

none_active :
    (id : String) (db : Db)
    → IsWorking db
    → is_ok (Jobs.find_pending_or_running_by_target id db).0 ≡ false
    → count (active_on id) db.jobs ≡ 0
unfolding Jobs.find_pending_or_running_by_target statement
none_active id db w h = ground (arith, find-none_iff (active_on id) db.jobs)

pub stored_job :
    (j : Job) (db : Db)
    → IsWorking db
    → (Jobs.save j db).0 ≡ ok tt
    → (count (has_id j.id) db.jobs ≡ 0)
      × ((Jobs.save j db).1.tables ≡ record db.tables { jobs = j ∷ db.jobs })
      × IsWorking (Jobs.save j db).1
unfolding Jobs.save statement
stored_job j db w h = ground arith

module _ (t : Tables) (before after : List Transaction) (x : Transaction) where
  -- A transaction goes on.
  restaged :
      (stage next : Stage)
      → IsLocked t (before ++ record x { stage = stage } ∷ after)
      → IsHeld t (record x { stage = next })
      → ((id : String) → count (locks id) (before ++ record x { stage = next } ∷ after) ≤ 1)
      → IsLocked t (before ++ record x { stage = next } ∷ after)
  restaged stage next l h alone = record {
    held =
        All-insert (IsHeld t) before after (record x { stage = next }) h
          (All-apart (IsHeld t) before after (record x { stage = stage }) l.held).1;
    alone = alone;
  }

  pub begin-IsLocked :
      (txs : List Transaction) → IsLocked t txs → IsLocked t (record x { stage = begun } ∷ txs)
  unfolding count
  begin-IsLocked txs l = record { held = (tt, l.held); alone = λ id. ground (arith, l.alone id) }

  pub rollback-IsLocked : IsLocked t (before ++ x ∷ after) → IsLocked t (before ++ after)
  rollback-IsLocked l = record {
    held = (All-apart (IsHeld t) before after x l.held).1;
    alone = λ id. omega (arith, l.alone id, count-apart (locks id) before after x);
  }

module _ (db : Db) (w : IsWorking db) (before after : List Transaction) (x : Transaction)
    (c : Container) where
  pub lock-IsLocked :
      IsLocked db.tables (before ++ record x { stage = begun } ∷ after)
      → count (locks x.container_id) (before ++ record x { stage = begun } ∷ after) ≡ 0
      → (Containers.find_by_id_for_update x.container_id db).0 ≡ ok c
      → (c.user_id == x.user_id) ≡ true
      → IsLocked db.tables (before ++ record x { stage = locked c } ∷ after)
  unfolding count
  lock-IsLocked l free h owned =
      let (r, e, same) = found_row x.container_id db c w h in
      restaged db.tables before after x begun (locked c) l
        (record { row = r; found = e; same = same; owned = (eq_iff c.user_id x.user_id).0 owned })
        (λ id. ground (
          arith,
          free,
          l.alone id,
          eq_iff x.container_id id,
          count-apart (locks id) before after (record x { stage = begun }),
          count-apart (locks id) before after (record x { stage = locked c }),
        ))

  pub look-IsLocked :
      IsLocked db.tables (before ++ record x { stage = locked c } ∷ after)
      → is_ok (Jobs.find_pending_or_running_by_target x.container_id db).0 ≡ false
      → refuses x.op c.status ≡ false
      → IsLocked db.tables (before ++ record x { stage = cleared c } ∷ after)
  unfolding count
  look-IsLocked l h ready =
      let read : HasRead db.tables (record x { stage = locked c }) c =
        (All-apart (IsHeld db.tables) before after (record x { stage = locked c }) l.held).0 in
      restaged db.tables before after x (locked c) (cleared c) l
        (record {
          read = record {
            row = read.row;
            found = read.found;
            same = read.same;
            owned = read.owned;
          };
          idle = none_active x.container_id db w h;
          ready = ready;
        })
        (λ id. omega (
          arith,
          l.alone id,
          count-apart (locks id) before after (record x { stage = locked c }),
          count-apart (locks id) before after (record x { stage = cleared c }),
        ))

  pub commit-IsLocked :
      IsLocked db.tables (before ++ record x { stage = cleared c } ∷ after)
      → (Jobs.save (job_of x) db).0 ≡ ok tt
      → IsLocked (Jobs.save (job_of x) db).1.tables (before ++ after)
  unfolding count create_job
  commit-IsLocked l h =
      let y : Transaction = record x { stage = cleared c } in
      let stored = stored_job (job_of x) db w h in
      IsLocked-Spares db.tables _ (before ++ after) (rollback-IsLocked db.tables before after y l)
        (λ id held. rw stored.1 (record {
          row = refl;
          idle = λ i. ground (
            arith,
            held,
            l.alone id,
            eq_iff x.container_id id,
            count-apart (locks id) before after y,
          );
        }))
