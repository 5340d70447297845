-- ===== src/Docker/Contract.antt =====
-- What is relied on of Docker and the operating system, over a view of which containers Docker has.
use go_container_manager.Prelude.{ℕ, String, Bool, true, false, not, ◌&&◌, ◌||◌, ◌≡◌, ◌==◌, List}
use go_container_manager.Errors.{Error}
use go_container_manager.Exec.{ok, err, is_ok}
use go_container_manager.Docker.{Client, Os}

-- Docker has what it created until it removes it; a call that fails changes nothing of that, and the
-- other calls neither. What it reports as not found it does not have. No id is empty.
pub record IsDocker {S : Type 0} (cli : Client S) (os : Os S) (has : S → String → Bool)
    : Type 0 where
  pub named : (s : S) → has s "" ≡ false
  pub created :
      (image : String) (command binds : List String) (name id : String) (s : S)
      → (cli.container_create image command binds name s).0 ≡ ok id
      → (has s id ≡ false)
        × ((d : String)
            → has (cli.container_create image command binds name s).1 d ≡ (d == id || has s d))
  pub not_created :
      (image : String) (command binds : List String) (name : String) (s : S)
      → is_ok (cli.container_create image command binds name s).0 ≡ false
      → (d : String) → has (cli.container_create image command binds name s).1 d ≡ has s d
  pub removed :
      (id : String) (s : S)
      → (cli.container_remove id true s).0 ≡ ok tt
      → (d : String) → has (cli.container_remove id true s).1 d ≡ (not (d == id) && has s d)
  pub not_removed :
      (id : String) (s : S)
      → is_ok (cli.container_remove id true s).0 ≡ false
      → (d : String) → has (cli.container_remove id true s).1 d ≡ has s d
  pub unknown :
      (id : String) (s : S) (e : Error)
      → (cli.container_remove id true s).0 ≡ err e
      → os.is_not_found e ≡ true
      → has s id ≡ false
  pub started : (id : String) (s : S) (d : String) → has (cli.container_start id s).1 d ≡ has s d
  pub stopped :
      (id : String) (timeout : ℕ) (s : S) (d : String)
      → has (cli.container_stop id timeout s).1 d ≡ has s d
  pub inspected :
      (id : String) (s : S) (d : String) → has (cli.container_inspect id s).1 d ≡ has s d
  pub waited :
      (id : String) (timeout : ℕ) (s : S) (d : String)
      → has (cli.container_wait id timeout s).1 d ≡ has s d
  pub made : (path : String) (s : S) (d : String) → has (os.mkdir_all path s).1 d ≡ has s d
