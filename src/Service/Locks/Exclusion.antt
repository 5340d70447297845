-- ===== src/Service/Locks/Exclusion.antt =====
-- Who holds which mutex.
use mathlib.Core.Path.{subst}
use go_container_manager.Prelude.{
  ℕ, ◌≤◌, ◌<◌, String, false, ◌&&◌, ◌≡◌, refl, ap, inl, inr, none, List, [], ◌∷◌, ◌++◌, ◌==◌,
  eq_iff, arith, find, count, All, All-apart, All-insert, count-apart, Option-cases, Bool-cases,
}
use go_container_manager.Service.Locks.{
  has_key, container_lock, Stage, called, at_lock, inside, Caller, is_at, is_in, holds, is_inside,
  Locks, no_locks, Move, Moves, arrives, gets_lock, enters, leaves, still, then,
}
use go_container_manager.Service.Locks.Entries.{
  HasMutex, KnowsAt, Knows, lock-HasMutex, lock-adds, lock-Knows,
}

record IsOrdered (l : Locks) : Type 0 where
  known : All (Knows l.entries) l.callers
  made : (id : String) (m : ℕ) → HasMutex l.entries id m → m < l.allocated
  own : (a b : String) (m : ℕ) → HasMutex l.entries a m → HasMutex l.entries b m → a ≡ b
  alone : (m : ℕ) → count (holds m) l.callers ≤ 1

added_own :
    (l : Locks) (id : String)
    → IsOrdered l
    → (a b : String) (m : ℕ) → HasMutex (container_lock id l.allocated l.entries).1 a m
    → HasMutex (container_lock id l.allocated l.entries).1 b m
    → a ≡ b
added_own l id o a b m h k = elim (lock-adds id l.allocated l.entries a m h) [
  | inl p ↦ elim (lock-adds id l.allocated l.entries b m k) [
    | inl q ↦ o.own a b m p q
    | inr (q, new) ↦ absurd (omega (arith, o.made a m p, new))
  ]
  | inr (p, new) ↦ elim (lock-adds id l.allocated l.entries b m k) [
    | inl q ↦ absurd (omega (arith, o.made b m q, new))
    | inr (q, _) ↦ rw (p, q) refl
  ]
]

Move-IsOrdered : {l k : Locks} → Move l k → IsOrdered l → IsOrdered k
unfolding count
Move-IsOrdered (arrives id) o = record {
  known = (tt, o.known);
  made = o.made;
  own = o.own;
  alone = o.alone;
}
Move-IsOrdered {l} (gets_lock before after id e) o =
    let c : Caller = record { id = id; stage = called } in
    let (m, es) = container_lock id l.allocated l.entries in
    let d : Caller = record { id = id; stage = at_lock m } in
    let known : All (Knows l.entries) (before ++ c ∷ after) = rw⁻¹ e o.known in
    record {
      known = All-insert (Knows es) before after d (lock-HasMutex id l.allocated l.entries) (
          lock-Knows id l.allocated l.entries (before ++ after)
            (All-apart (Knows l.entries) before after c known).1);
      made = λ a k h. elim (lock-adds id l.allocated l.entries a k h) [
        | inl old ↦ omega (arith, o.made a k old)
        | inr (_, new) ↦ omega (arith, new)
      ];
      own = added_own l id o;
      alone = λ k. omega (
        arith,
        o.alone k,
        ap (count (holds k)) e,
        count-apart (holds k) before after c,
        count-apart (holds k) before after d,
      );
    }
Move-IsOrdered {l} (enters before after id m e free) o =
    let c : Caller = record { id = id; stage = at_lock m } in
    let d : Caller = record { id = id; stage = inside m } in
    let known : All (Knows l.entries) (before ++ c ∷ after) = rw⁻¹ e o.known in
    let (own, others) = All-apart (Knows l.entries) before after c known in
    record {
      known = All-insert (Knows l.entries) before after d own others;
      made = o.made;
      own = o.own;
      alone = λ k. ground (
        arith,
        o.alone k,
        ap (count (holds k)) e,
        count-apart (holds k) before after c,
        count-apart (holds k) before after d,
      );
    }
Move-IsOrdered {l} (leaves before after id m e) o =
    let c : Caller = record { id = id; stage = inside m } in
    let known : All (Knows l.entries) (before ++ c ∷ after) = rw⁻¹ e o.known in
    record {
      known = (All-apart (Knows l.entries) before after c known).1;
      made = o.made;
      own = o.own;
      alone = λ k.
          omega (arith, o.alone k, ap (count (holds k)) e, count-apart (holds k) before after c);
    }

Moves-IsOrdered : {l k : Locks} → Moves l k → IsOrdered l → IsOrdered k
Moves-IsOrdered still o = o
Moves-IsOrdered (then ms m) o = Move-IsOrdered m (Moves-IsOrdered ms o)

no_locks-IsOrdered : IsOrdered no_locks
unfolding find count
no_locks-IsOrdered = record {
  known = tt;
  made = λ id m h. absurd (ground arith);
  own = λ a b m h k. absurd (ground arith);
  alone = λ m. omega arith;
}

module _ (l : Locks) (o : IsOrdered l) where
  -- Who holds the mutex of an id is at work on it.
  same_caller :
      (id : String) (m : ℕ) (other : String) (stage : Stage)
      → HasMutex l.entries id m
      → KnowsAt l.entries other stage
      → is_at m stage ≡ (is_in stage && other == id)
  same_caller id m other called h k = refl
  same_caller id m other (at_lock n) h k = refl
  same_caller id m other (inside n) h k = elim (Bool-cases (other == id)) [
    | inl a ↦
        let there : HasMutex l.entries id n =
          subst (λ i. HasMutex l.entries i n) (ground (arith, eq_iff other id)) k in
        ground (arith, there, h)
    | inr b ↦
        let same : n ≡ m → other ≡ id =
          λ p. o.own other id m (subst (λ i. HasMutex l.entries other i) p k) h in
        ground (arith, same, eq_iff other id)
  ]

  count-same :
      (id : String) (m : ℕ) (cs : List Caller)
      → HasMutex l.entries id m
      → All (Knows l.entries) cs
      → count (holds m) cs ≡ count (is_inside id) cs
  unfolding count
  count-same id m [] h k = refl
  count-same id m (c ∷ cs) h k =
      ground (arith, same_caller id m c.id c.stage h k.0, count-same id m cs h k.1)

  unknown_caller :
      (id other : String) (stage : Stage)
      → find (has_key id) l.entries ≡ none
      → KnowsAt l.entries other stage
      → (is_in stage && other == id) ≡ false
  unknown_caller id other called e k = refl
  unknown_caller id other (at_lock n) e k = refl
  unknown_caller id other (inside n) e k = elim (Bool-cases (other == id)) [
    | inl a ↦
        let there : HasMutex l.entries id n =
          subst (λ i. HasMutex l.entries i n) (ground (arith, eq_iff other id)) k in
        absurd (ground (arith, there, e))
    | inr b ↦ b
  ]

  count-unknown :
      (id : String) (cs : List Caller)
      → find (has_key id) l.entries ≡ none
      → All (Knows l.entries) cs
      → count (is_inside id) cs ≡ 0
  unfolding count
  count-unknown id [] e k = refl
  count-unknown id (c ∷ cs) e k =
      ground (arith, unknown_caller id c.id c.stage e k.0, count-unknown id cs e k.1)

  one_inside : (id : String) → count (is_inside id) l.callers ≤ 1
  one_inside id = elim (Option-cases (find (has_key id) l.entries)) [
    | inl e ↦ omega (arith, count-unknown id l.callers e o.known)
    | inr (x, e) ↦
        omega (arith, o.alone x.mutex, count-same id x.mutex l.callers (rw e refl) o.known)
  ]

-- A caller waits for no one but a caller with its id.
abbrev pub WaitsFor : List Caller → String → Stage → Type 0
WaitsFor cs id called = Unit {0}
WaitsFor cs id (at_lock m) = count (holds m) cs ≡ count (is_inside id) cs
WaitsFor cs id (inside m) = Unit {0}

module _ (l : Locks) (o : IsOrdered l) where
  waits : (id : String) (stage : Stage) → KnowsAt l.entries id stage → WaitsFor l.callers id stage
  waits id called k = tt
  waits id (at_lock m) k = count-same l o id m l.callers k o.known
  waits id (inside m) k = tt

  all_wait :
      (cs : List Caller) → All (Knows l.entries) cs → All (λ c. WaitsFor l.callers c.id c.stage) cs
  all_wait [] k = tt
  all_wait (c ∷ cs) k = (waits c.id c.stage k.0, all_wait cs k.1)

-- However the calls that take the mutex of a container or a file are interleaved, from the start
-- on: at most one of those for an id is between Lock and Unlock, and a call at Lock finds its
-- mutex held exactly when such a call for its own id is there.
pub locks_exclude :
    (l : Locks) (id : String)
    → Moves no_locks l
    → (count (is_inside id) l.callers ≤ 1) × All (λ c. WaitsFor l.callers c.id c.stage) l.callers
locks_exclude l id ms =
    let o = Moves-IsOrdered ms no_locks-IsOrdered in
    (one_inside l o id, all_wait l o l.callers o.known)
