-- ===== src/Worker/Retry.antt =====
-- The retry loop of retryUpdate and retryDelete.
use go_container_manager.Prelude.{
  ℕ, zero, suc, ◌<◌, String, true, ◌≡◌, ◌↔◌, inl, inr, Option, none, some, arith,
}
use go_container_manager.Errors.{Error}
use go_container_manager.Exec.{is_ok, Exec, Result-cases}
use go_container_manager.Domain.{Container}
use go_container_manager.Db.{Db}
use go_container_manager.Repo.Containers
use go_container_manager.Worker.{retry, retry_update, retry_delete}

module _ {S : Type 0} where
  -- What each try keeps, the loop keeps.
  pub retry-keeps :
      (P : S → Type 0) (m : Exec S (Unit {0}))
      → ((s : S) → P s → P (m s).1)
      → (n : ℕ) (last : Option Error) (s : S) → P s
      → P (retry n last m s).1
  unfolding retry
  retry-keeps P m keep zero last s h = h
  retry-keeps P m keep (suc n) last s h = elim (Result-cases (m s).0) [
    | inl (v, e) ↦ rw (e, retry) (keep s h)
    | inr (x, e) ↦ rw (e, retry) (retry-keeps P m keep n (some x) (m s).1 (keep s h))
  ]

-- A property of the database that the container repository's calls of a worker keep.
pub record IsKept (P : Db → Type 0) : Type 0 where
  pub by_find : (id : String) (db : Db) → P db → P (Containers.find_by_id id db).1
  pub by_update : (c : Container) (db : Db) → P db → P (Containers.update c db).1
  pub by_delete : (id : String) (db : Db) → P db → P (Containers.delete id db).1

module _ (P : Db → Type 0) (kept : IsKept P) where
  pub retry_update-keeps : (c : Container) (db : Db) → P db → P (retry_update c db).1
  unfolding retry_update
  retry_update-keeps c db h = retry-keeps P (Containers.update c) (kept.by_update c) 3 none db h

  pub retry_delete-keeps : (id : String) (db : Db) → P db → P (retry_delete id db).1
  unfolding retry_delete
  retry_delete-keeps id db h = retry-keeps P (Containers.delete id) (kept.by_delete id) 3 none db h

-- The state after that many tries.
unfoldable pub tried : {S : Type 0} → ℕ → Exec S (Unit {0}) → S → S
tried zero m s = s
tried (suc k) m s = tried k m (m s).1

module _ {S : Type 0} (m : Exec S (Unit {0})) where
  abbrev Succeeds : ℕ → S → Type 0
  Succeeds n s = (k : ℕ) × (k < n) × (is_ok (m (tried k m s)).0 ≡ true)

  some_try : (n : ℕ) (e : Error) (s : S) → is_ok (retry n (some e) m s).0 ≡ true → Succeeds n s
  unfolding retry tried
  some_try zero e s h = cc
  some_try (suc n) e s h = elim (Result-cases (m s).0) [
    | inl (v, p) ↦ (0, omega arith, ground arith)
    | inr (x, p) ↦
        let (k, lt, good) = some_try n x (m s).1 (ground arith) in (suc k, omega arith, good)
  ]

  try_wins :
      (n : ℕ) (last : Option Error) (k : ℕ) (s : S)
      → k < n
      → is_ok (m (tried k m s)).0 ≡ true
      → is_ok (retry n last m s).0 ≡ true
  unfolding retry tried
  try_wins zero last k s lt good = absurd (omega arith)
  try_wins (suc n) last zero s lt good = ground arith
  try_wins (suc n) last (suc k) s lt good = elim (Result-cases (m s).0) [
    | inl (v, p) ↦ ground arith
    | inr (x, p) ↦ rw (p, retry) (try_wins n (some x) k (m s).1 (omega arith) good)
  ]

  -- The loop of retryUpdate and retryDelete, with at least one try, succeeds exactly when one of
  -- its tries does, each made in the state that the tries before it left.
  retry-ok_iff :
      (n : ℕ) (last : Option Error) (s : S)
      → is_ok (retry (suc n) last m s).0 ≡ true
        ↔ (k : ℕ) × (k < suc n) × (is_ok (m (tried k m s)).0 ≡ true)
  unfolding retry tried
  retry-ok_iff n last s = (
    (λ h. elim (Result-cases (m s).0) [
      | inl (v, p) ↦ (0, omega arith, ground arith)
      | inr (x, p) ↦
          let (k, lt, good) = some_try n x (m s).1 (ground arith) in (suc k, omega arith, good)
    ]),
    (λ (k, lt, good). try_wins (suc n) last k s lt good),
  )
