-- ===== src/Tests/Locks.antt =====
-- Three callers: two for one container, of which one has its mutex, and one for another.
use go_container_manager.Prelude.{◌≤◌, refl, [], ◌∷◌, All, count, find}
use go_container_manager.Service.Locks.{
  Caller, Locks, Moves, container_lock, called, at_lock, inside, is_inside, no_locks, arrives,
  gets_lock, enters, still, then,
}
use go_container_manager.Service.Locks.Exclusion.{WaitsFor, locks_exclude}

abbrev crowd : Locks
crowd = record {
  entries = record { key = "c2"; mutex = 2 } ∷ record { key = "c1"; mutex = 0 } ∷ [];
  allocated = 3;
  callers =
      record { id = "c2"; stage = at_lock 2 }
      ∷ record { id = "c1"; stage = at_lock 0 }
      ∷ record { id = "c1"; stage = inside 0 }
      ∷ [];
}

abbrev second : Caller
second = record { id = "c1"; stage = called }

abbrev other : Caller
other = record { id = "c2"; stage = called }

gathered : Moves no_locks crowd
unfolding container_lock find count
gathered =
    then
      (then
        (then
          (then (then (then (then still (arrives "c1")) (arrives "c1")) (arrives "c2"))
            (gets_lock (other ∷ second ∷ []) [] "c1" refl))
          (gets_lock (other ∷ []) (record { id = "c1"; stage = at_lock 0 } ∷ []) "c1" refl))
        (gets_lock [] _ "c2" refl))
      (enters
        (record { id = "c2"; stage = at_lock 2 } ∷ record { id = "c1"; stage = at_lock 0 } ∷ []) []
        "c1" 0 refl refl)

locks_exclude_example :
    (count (is_inside "c1") crowd.callers ≤ 1)
    × All (λ c. WaitsFor crowd.callers c.id c.stage) crowd.callers
locks_exclude_example = locks_exclude crowd "c1" gathered
