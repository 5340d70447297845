-- ===== src/Docker/Cleanup.antt =====
-- What CreateAndStart leaves behind.
use go_container_manager.Prelude.{
  String, Bool, true, false, ◌||◌, ◌≡◌, ◌==◌, ◌⊎◌, ◌∙◌, inl, inr, refl, arith, eq_iff, List, [],
  ◌∷◌,
}
use Prim.Native.String.{◌++◌}
use go_container_manager.Exec.{Result, ok, is_ok, Result-cases, attempt, ◌>>=◌}
use go_container_manager.Domain.{Container}
use go_container_manager.Docker.{Client, Os, abs, create_and_start, or_removed}
use go_container_manager.Docker.Contract.{IsDocker}

-- A state in which Docker has one container more.
pub record HasNew {S : Type 0} (has : S → String → Bool) (before : S) (id : String) (after : S)
    : Type 0 where
  pub unused : has before id ≡ false
  pub grown : (d : String) → has after d ≡ (d == id || has before d)

-- A failure: the same containers, or one more that could be created and neither started nor removed.
pub record IsLeft {S : Type 0} (cli : Client S) (has : S → String → Bool) (before after : S)
    : Type 0 where
  pub id : String
  pub at : S
  pub new : HasNew has before id at
  pub not_started : is_ok (cli.container_start id at).0 ≡ false
  pub not_removed : is_ok (cli.container_remove id true (cli.container_start id at).1).0 ≡ false
  pub still : (d : String) → has after d ≡ has at d

-- One container more, or a failure after which Docker has the same containers, but for one that it
-- would not remove.
abbrev pub Outcome : {S : Type 0} → Client S → (S → String → Bool) → S → Result String → S → Type 0
Outcome cli has before r after =
    ((id : String) × (r ≡ ok id) × HasNew has before id after)
    ⊎ ((is_ok r ≡ false)
        × (((d : String) → has after d ≡ has before d) ⊎ IsLeft cli has before after))

module _ {S : Type 0} (cli : Client S) (os : Os S) (has : S → String → Bool)
    (k : IsDocker cli os has) where
  -- What comes after the mount path.
  made_cases :
      (image : String) (command binds : List String) (name : String) (s : S)
      → let (r, after) =
          (cli.container_create image command binds name >>= λ id.
          attempt (cli.container_start id) >>= λ started. or_removed cli id started)
            s in
        Outcome cli has s r after
  made_cases image command binds name s =
      let at = (cli.container_create image command binds name s).1 in
      elim (Result-cases (cli.container_create image command binds name s).0) [
        | inr (x, e) ↦ rw e (inr (refl, inl (k.not_created image command binds name s (rw e refl))))
        | inl (id, e) ↦
            let new : HasNew has s id at = record {
              unused = (k.created image command binds name id s e).0;
              grown = (k.created image command binds name id s e).1;
            } in
            elim (Result-cases (cli.container_start id at).0) [
              | inl (_, f) ↦
                  rw (e, f)
                    (inl (
                      id,
                      refl,
                      record { unused = new.unused; grown = λ d. k.started id at d ∙ new.grown d },
                    ))
              | inr (x, f) ↦
                  elim (Result-cases
                    (cli.container_remove id true (cli.container_start id at).1).0) [
                      | inl (_, h) ↦
                          rw (e, f)
                            (inr (
                              refl,
                              inl λ d. ground (
                                arith,
                                k.removed id (cli.container_start id at).1 h d,
                                k.started id at d,
                                new.grown d,
                                new.unused,
                                eq_iff d id,
                              ),
                            ))
                      | inr (y, h) ↦
                          rw (e, f)
                            (inr (
                              refl,
                              inr (record {
                                id = id;
                                at = at;
                                new = new;
                                not_started = rw f refl;
                                not_removed = rw h refl;
                                still = λ d.
                                    k.not_removed id (cli.container_start id at).1 (rw h refl) d
                                    ∙ k.started id at d;
                              }),
                            ))
                    ]
            ]
      ]

  -- CreateAndStart either answers the id of a container that Docker did not have and now has
  -- beside the others, or fails and leaves Docker with the containers it had, unless a container
  -- was created, did not start and could not be removed either.
  pub create_and_start_cases :
      (c : Container) (image path : String) (s : S)
      → let (r, after) = create_and_start cli os c image path s in Outcome cli has s r after
  unfolding create_and_start abs
  create_and_start_cases c image path s = elim (Result-cases (abs os path s).0) [
    | inl (mount, e) ↦
        rw e (made_cases image c.command ((mount ++ ":" ++ c.mount_path) ∷ []) ("aidms-" ++ c.id) s)
    | inr (x, e) ↦ rw e (inr (refl, inl λ d. refl))
  ]
