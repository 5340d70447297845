-- ===== src/Http/Access.antt =====
-- Who gets past the middleware, and what others learn and change.
use Prim.Native.String.{◌++◌}
use Prim.Native.Char.{code}
use text.Mathlib.TextEquality.{Char-path}
use text.Mathlib.TextLemmas.{append_assoc}
use Prim.Native.String.append
use mathlib.Core.Path.{sym}
use go_container_manager.Prelude.{
  ℕ, String, Bool, true, false, ◌≡◌, ◌⊎◌, refl, Option, some, inl, inr, Bool-cases, Option-cases,
  List, arith, find, ◌==◌, eq_iff, eqb, ap, ◌∙◌, if◌then◌else◌,
}
use go_container_manager.Errors.{err_forbidden, invalid_token}
use go_container_manager.Exec.{Result, ok, err, is_ok, Result-cases}
use go_container_manager.Domain.{Job}
use go_container_manager.Db.{ContainerRow, Tables, healthy, statement, with_tx}
use go_container_manager.Repo.Containers as Rows
use go_container_manager.Service.Containers
use go_container_manager.Service.Containers.{run_guarded, guard, find_container_for_guard}
use go_container_manager.Auth.Tokens.{split_space-bearer, bearer-not_empty}
use go_container_manager.Auth.{Jwt, Token, key, authenticate, split_space, validate_token}
use go_container_manager.Http.{
  Form, CreateRequest, Request, is_protected, failed_with, failure, respond_error,
}
use go_container_manager.Http.Handlers.{Site, Setup, Moment, handle, serve}

module _ {S : Type 0} (su : Setup S) (now : Moment) (header : String) where
  -- A request for a protected route whose Authorization header does not authenticate is answered
  -- 401 and changes nothing.
  pub serve_unauthorized :
      (r : Request) (s : Site S)
      → is_protected r ≡ true
      → is_ok (authenticate su.jwt now.seconds su.jwt_secret header) ≡ false
      → ((serve su now header r s).1 ≡ s) × ((serve su now header r s).0.status ≡ 401)
  unfolding serve authenticate respond_error
  serve_unauthorized r s p e = ground arith

-- The requests that only a user may make.
pub data NeedsUser : Request → Type 0 where
  uploads : (form : Result Form) → NeedsUser (Request.upload form)
  lists_files : (page limit : Option String) → NeedsUser (Request.list_files page limit)
  deletes_file : (id : String) → NeedsUser (Request.delete_file id)
  creates : (r : Option CreateRequest) → NeedsUser (Request.create_container r)
  lists : (page limit : Option String) → NeedsUser (Request.list_containers page limit)
  gets_one : (id : String) → NeedsUser (Request.get_container id)
  starts_one : (id : String) → NeedsUser (Request.start_container id)
  stops_one : (id : String) → NeedsUser (Request.stop_container id)
  deletes_one : (id : String) → NeedsUser (Request.delete_container id)
  gets_job : (id : String) → NeedsUser (Request.get_job id)

needed : (r : Request) → NeedsUser r → is_protected r ≡ true
needed _ (uploads form) = refl
needed _ (lists_files page limit) = refl
needed _ (deletes_file id) = refl
needed _ (creates r) = refl
needed _ (lists page limit) = refl
needed _ (gets_one id) = refl
needed _ (starts_one id) = refl
needed _ (stops_one id) = refl
needed _ (deletes_one id) = refl
needed _ (gets_job id) = refl

-- The header names a token that the jwt library accepts with the secret for HMAC and no key for any
-- other method, and that says who the user is.
pub record Bears (jwt : Jwt) (now : ℕ) (secret header user : String) : Type 0 where
  pub token : String
  pub named : header ≡ "Bearer " ++ token
  pub parsed : Token
  pub accepted :
      jwt.parse now token (λ is_hmac. if is_hmac then ok secret else err invalid_token) ≡ ok parsed
  pub claims : parsed.is_map_claims ≡ true
  pub valid : parsed.valid ≡ true
  pub subject : parsed.subject ≡ ok user

key_at : (secret : String) (b : Bool) → key secret b ≡ (if b then ok secret else err invalid_token)
key_at secret true = refl
key_at secret false = refl

parse-key :
    (jwt : Jwt) (now : ℕ) (secret token : String)
    → jwt.parse now token (key secret)
      ≡ jwt.parse now token (λ is_hmac. if is_hmac then ok secret else err invalid_token)
parse-key jwt now secret token i = jwt.parse now token (λ b. key_at secret b i)

space_cons : (s : String) → " " ++ s ≡ String.◌∷◌ " " s
space_cons s = append.cons " " "" s ∙ ap (String.◌∷◌ " ") (append.nil s)

bearer_space : (token : String) → "Bearer" ++ (" " ++ token) ≡ "Bearer " ++ token
bearer_space token = sym (append_assoc "Bearer" " " token)

split_space-joins : (s a b : String) → split_space s ≡ some (a, b) → s ≡ a ++ (" " ++ b)
unfolding split_space
split_space-joins String.[] a b h = absurd (ground arith)
split_space-joins (String.◌∷◌ c s) a b h = elim (Bool-cases (eqb (code c) b' ')) [
  | inl e ↦
      let k : (String.[] ≡ a) × (s ≡ b) = (ground arith, ground arith) in
      let space : c ≡ " " = Char-path c " " (ground arith) in
      rw (← k.0, ← k.1, append.nil (" " ++ s), space_cons s) (ap (λ d. String.◌∷◌ d s) space)
  | inr e ↦ elim (Option-cases (split_space s)) [
    | inl f ↦ absurd (ground arith)
    | inr ((a', b'), f) ↦
        let k : (String.◌∷◌ c a' ≡ a) × (b' ≡ b) = (ground arith, ground arith) in
        rw (← k.0, ← k.1)
          (ap (λ x. String.◌∷◌ c x) (split_space-joins s a' b' f)
            ∙ sym (append.cons c a' (" " ++ b')))
  ]
]

authenticate-Bears :
    (jwt : Jwt) (now : ℕ) (secret header user : String)
    → authenticate jwt now secret header ≡ ok user
    → Bears jwt now secret header user
unfolding authenticate validate_token
authenticate-Bears jwt now secret header user h = elim (Option-cases (split_space header)) [
  | inl e ↦ absurd (ground arith)
  | inr ((scheme, token), e) ↦ elim (Result-cases (jwt.parse now token (key secret))) [
    | inr (x, f) ↦ absurd (ground arith)
    | inl (parsed, f) ↦
        let is_bearer : scheme ≡ "Bearer" = ground (arith, eq_iff scheme "Bearer") in
        record {
          token = token;
          named =
              split_space-joins header scheme token e
              ∙ ap (λ x. x ++ (" " ++ token)) is_bearer
              ∙ bearer_space token;
          parsed = parsed;
          accepted = sym (parse-key jwt now secret token) ∙ f;
          claims = ground arith;
          valid = ground arith;
          subject = ground arith;
        }
  ]
]

Bears-authenticate :
    (jwt : Jwt) (now : ℕ) (secret header user : String)
    → Bears jwt now secret header user
    → authenticate jwt now secret header ≡ ok user
unfolding authenticate validate_token
Bears-authenticate jwt now secret header user b =
    rw
      (
        b.named,
        bearer-not_empty b.token,
        split_space-bearer b.token,
        parse-key jwt now secret b.token,
        b.accepted,
        b.claims,
        b.valid,
        b.subject,
      )
      refl

module _ {S : Type 0} (su : Setup S) (now : Moment) (header : String) where
  -- A request for the containers, the files or a job whose Authorization header is "Bearer " and a
  -- token that the jwt library accepts (for HMAC with the secret and for no other method, as a
  -- valid token with a subject) is answered as the handler answers the user whom the subject
  -- names; any other such request is answered 401 and changes nothing.
  pub serve_protected :
      (r : Request) (s : Site S)
      → NeedsUser r
      → (((serve su now header r s).1 ≡ s)
          × ((serve su now header r s).0.status ≡ 401)
          × ((user : String) → ¬ Bears su.jwt now.seconds su.jwt_secret header user))
        ⊎ ((user : String) × Bears su.jwt now.seconds su.jwt_secret header user
            × (serve su now header r s ≡ handle su now user r s))
  unfolding serve
  serve_protected r s n =
      elim (Result-cases (authenticate su.jwt now.seconds su.jwt_secret header)) [
        | inr (x, e) ↦
            let answer = serve_unauthorized su now header r s (needed r n) (rw e refl) in
            inl (
              answer.0,
              answer.1,
              λ user b.
                  let a = Bears-authenticate su.jwt now.seconds su.jwt_secret header user b in
                  ground (arith, a, e),
            )
        | inl (user, e) ↦ inr (
          user,
          authenticate-Bears su.jwt now.seconds su.jwt_secret header user e,
          rw (needed r n, e) refl,
        )
      ]

module _ {S : Type 0} (su : Setup S) (now : Moment) (user_id id : String) (t : Tables)
    (row : ContainerRow) (queue : List Job) (outside : S)
    (found : find (Rows.has_id id) t.containers ≡ some row)
    (foreign : row.user_id == user_id ≡ false) where
  abbrev site : Site S
  site = record { db = healthy t; queue = queue; outside = outside }

  get_foreign :
      handle su now user_id (Request.get_container id) site ≡ (failed_with err_forbidden, site)
  unfolding handle Containers.get Rows.find_by_id statement respond_error
  get_foreign = ground (arith, found)

  start_foreign :
      handle su now user_id (Request.start_container id) site ≡ (failed_with err_forbidden, site)
  unfolding handle Containers.start Containers.start_guard run_guarded guard with_tx statement
      find_container_for_guard Rows.find_by_id Rows.find_by_id_for_update respond_error
  start_foreign = elim (Bool-cases su.service.tx_manager) [
    | inl e ↦ ground (arith, found)
    | inr e ↦ ground (arith, found)
  ]

  stop_foreign :
      handle su now user_id (Request.stop_container id) site ≡ (failed_with err_forbidden, site)
  unfolding handle Containers.stop Containers.stop_guard run_guarded guard with_tx statement
      find_container_for_guard Rows.find_by_id Rows.find_by_id_for_update respond_error
  stop_foreign = elim (Bool-cases su.service.tx_manager) [
    | inl e ↦ ground (arith, found)
    | inr e ↦ ground (arith, found)
  ]

  delete_foreign :
      handle su now user_id (Request.delete_container id) site ≡ (failed_with err_forbidden, site)
  unfolding handle Containers.delete Containers.delete_guard run_guarded guard with_tx statement
      find_container_for_guard Rows.find_by_id Rows.find_by_id_for_update respond_error
  delete_foreign = elim (Bool-cases su.service.tx_manager) [
    | inl e ↦ ground (arith, found)
    | inr e ↦ ground (arith, found)
  ]

-- The four requests about one container.
pub data About (id : String) : Request → Type 0 where
  gets : About id (Request.get_container id)
  starts : About id (Request.start_container id)
  stops : About id (Request.stop_container id)
  deletes : About id (Request.delete_container id)

-- What they are all answered.
foreign_answer :
    {S : Type 0} (su : Setup S) (now : Moment) (header user_id id : String) (r : Request)
    (t : Tables) (row : ContainerRow) (queue : List Job) (outside : S)
    → authenticate su.jwt now.seconds su.jwt_secret header ≡ ok user_id
    → About id r
    → find (Rows.has_id id) t.containers ≡ some row
    → row.user_id == user_id ≡ false
    → let s : Site S = record { db = healthy t; queue = queue; outside = outside } in
      serve su now header r s ≡ (failed_with err_forbidden, s)
unfolding serve
foreign_answer su now header user_id id _ t row queue outside a gets found foreign =
    rw a (get_foreign su now user_id id t row queue outside found foreign)
foreign_answer su now header user_id id _ t row queue outside a starts found foreign =
    rw a (start_foreign su now user_id id t row queue outside found foreign)
foreign_answer su now header user_id id _ t row queue outside a stops found foreign =
    rw a (stop_foreign su now user_id id t row queue outside found foreign)
foreign_answer su now header user_id id _ t row queue outside a deletes found foreign =
    rw a (delete_foreign su now user_id id t row queue outside found foreign)

-- On a database in which no statement fails, an authenticated user who asks for, starts, stops or
-- deletes a container that is another user's gets an answer of status 403 whose error has the code
-- FORBIDDEN, and nothing changes.
pub serve_foreign :
    {S : Type 0} (su : Setup S) (now : Moment) (header user_id id : String) (r : Request)
    (t : Tables) (row : ContainerRow) (queue : List Job) (outside : S)
    → authenticate su.jwt now.seconds su.jwt_secret header ≡ ok user_id
    → About id r
    → find (λ c. c.id == id) t.containers ≡ some row
    → row.user_id == user_id ≡ false
    → let s : Site S = record { db = healthy t; queue = queue; outside = outside } in
      ((serve su now header r s).1 ≡ s)
      × ((serve su now header r s).0.status ≡ 403)
      × ((message : String) × ((serve su now header r s).0.body ≡ failure "FORBIDDEN" message))
serve_foreign su now header user_id id r t row queue outside a about found foreign =
    rw (foreign_answer su now header user_id id r t row queue outside a about found foreign)
      (refl, refl, (_, refl))
