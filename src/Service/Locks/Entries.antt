-- ===== src/Service/Locks/Entries.antt =====
-- What the sync.Map has under a key.
use go_container_manager.Prelude.{
  ℕ, String, ◌≡◌, inl, inr, Option, none, some, List, [], ◌∷◌, ◌==◌, eq_iff, eq_refl, ◌⊎◌, arith,
  find, All, Option-cases, Bool-cases,
}
use go_container_manager.Service.Locks.{
  Entry, has_key, container_lock, Stage, called, at_lock, inside, Caller,
}

abbrev pub mutex_of : Option Entry → Option ℕ
mutex_of none = none
mutex_of (some e) = some e.mutex

-- The mutex under a key.
abbrev pub HasMutex : List Entry → String → ℕ → Type 0
HasMutex es id m = mutex_of (find (has_key id) es) ≡ some m

abbrev pub KnowsAt : List Entry → String → Stage → Type 0
KnowsAt es id called = Unit {0}
KnowsAt es id (at_lock m) = HasMutex es id m
KnowsAt es id (inside m) = HasMutex es id m

-- The mutex that a caller has is the one of its id.
abbrev pub Knows : List Entry → Caller → Type 0
Knows es c = KnowsAt es c.id c.stage

-- The mutex that LoadOrStore returns is then the one of the key, and the others keep theirs.
module _ (id : String) (new : ℕ) (es : List Entry) where
  pub lock-HasMutex : HasMutex (container_lock id new es).1 id (container_lock id new es).0
  unfolding container_lock find
  lock-HasMutex = elim (Option-cases (find (has_key id) es)) [
    | inl e ↦ ground (arith, eq_refl id)
    | inr (x, e) ↦ ground arith
  ]

  lock-keeps :
      (other : String) (m : ℕ) → HasMutex es other m → HasMutex (container_lock id new es).1 other m
  unfolding container_lock find
  lock-keeps other m h = elim (Option-cases (find (has_key id) es)) [
    | inl e ↦ ground (arith, eq_iff id other)
    | inr (x, e) ↦ ground arith
  ]

  pub lock-adds :
      (other : String) (m : ℕ)
      → HasMutex (container_lock id new es).1 other m
      → HasMutex es other m ⊎ (other ≡ id) × (m ≡ new)
  unfolding container_lock find
  lock-adds other m h = elim (Option-cases (find (has_key id) es)) [
    | inl e ↦ elim (Bool-cases (id == other)) [
      | inl a ↦ inr (ground (arith, eq_iff id other), ground arith)
      | inr b ↦ inl (ground arith)
    ]
    | inr (x, e) ↦ inl (ground arith)
  ]

  knows-kept :
      (other : String) (stage : Stage)
      → KnowsAt es other stage
      → KnowsAt (container_lock id new es).1 other stage
  knows-kept other called h = tt
  knows-kept other (at_lock m) h = lock-keeps other m h
  knows-kept other (inside m) h = lock-keeps other m h

  pub lock-Knows :
      (cs : List Caller) → All (Knows es) cs → All (Knows (container_lock id new es).1) cs
  lock-Knows [] h = tt
  lock-Knows (c ∷ cs) h = (knows-kept c.id c.stage h.0, lock-Knows cs h.1)
