-- ===== src/Ble/Central/Invariant.antt =====
-- What holds of the connection table of lib/ble/ble_central.c between two callbacks.
use pyrinas_zephyr.Common.{
  ℕ, suc, ◌≡◌, ◌≢◌, ◌⊎◌, inl, inr, refl, ap, ◌∙◌, subst, true, false, ◌||◌, Option, none, some,
  List, [], ◌∷◌, length, Msgq, arith, Option-cases, Bool-cases,
}
use pyrinas_zephyr.Ble.Central.{Connection, holds, occupy, make_ready, is_known, release}

module _ {Q : Type 0} where
  abbrev pub IsAbsent : Option ℕ → List (Connection Q) → Type 0
  IsAbsent none es = Unit {0}
  IsAbsent (some c) es = is_known c es ≡ false

  -- No two entries have one connection.
  abbrev pub Unique : List (Connection Q) → Type 0
  Unique [] = Unit {0}
  Unique (e ∷ es) = IsAbsent e.conn es × Unique es

  occupy-known :
      (conn d : ℕ) (es : List (Connection Q))
      → d ≢ conn
      → is_known d (occupy conn es).0 ≡ is_known d es
  unfolding occupy is_known
  occupy-known conn d [] h = refl
  occupy-known conn d (e ∷ es) h = ground (arith, occupy-known conn d es h)

  occupy-IsAbsent :
      (conn : ℕ) (o : Option ℕ) (es : List (Connection Q))
      → holds o conn ≡ false
      → IsAbsent o es
      → IsAbsent o (occupy conn es).0
  occupy-IsAbsent conn none es h a = tt
  occupy-IsAbsent conn (some d) es h a = rw (occupy-known conn d es (ground arith)) a

  occupy-Unique :
      (conn : ℕ) (es : List (Connection Q))
      → is_known conn es ≡ false
      → Unique es
      → Unique (occupy conn es).0
  unfolding occupy is_known
  occupy-Unique conn [] h u = tt
  occupy-Unique conn (e ∷ es) h u = elim (Option-cases e.conn) [
    | inl free ↦ rw free (ground arith, u.1)
    | inr (c, used) ↦ rw used (
      occupy-IsAbsent conn (some c) es (ground arith) (rw used at u.0),
      occupy-Unique conn es (ground arith) u.1,
    )
  ]

  length-occupy : (conn : ℕ) (es : List (Connection Q)) → length (occupy conn es).0 ≡ length es
  unfolding occupy
  length-occupy conn [] = refl
  length-occupy conn (e ∷ es) = ground (arith, length-occupy conn es)

  -- What `make_ready` does to the table.
  pub data Readied (conn : ℕ) : List (Connection Q) → List (Connection Q) → Type 0 where
    here :
        (e : Connection Q) (es : List (Connection Q))
        → holds e.conn conn ≡ true
        → Readied conn (e ∷ es) (record e { ready = true } ∷ es)
    there :
        (e : Connection Q) {es fs : List (Connection Q)}
        → holds e.conn conn ≡ false
        → Readied conn es fs
        → Readied conn (e ∷ es) (e ∷ fs)

  pub make_ready-Readied :
      (conn : ℕ) (es : List (Connection Q)) {fs : List (Connection Q)}
      → make_ready conn es ≡ some fs
      → Readied conn es fs
  unfolding make_ready
  make_ready-Readied conn [] eq = cc
  make_ready-Readied conn (e ∷ es) {fs} eq = elim (Bool-cases (holds e.conn conn)) [
    | inl hit ↦ subst (Readied conn (e ∷ es)) (ground arith) (here e es hit)
    | inr miss ↦ elim (Option-cases (make_ready conn es)) [
      | inl gone ↦ ground arith
      | inr (rest, found) ↦
          subst (Readied conn (e ∷ es)) (ground arith)
            (there e miss (make_ready-Readied conn es found))
    ]
  ]

  Readied-known :
      {conn : ℕ} (d : ℕ) {es fs : List (Connection Q)}
      → Readied conn es fs
      → is_known d fs ≡ is_known d es
  unfolding is_known
  Readied-known d (here e es h) = refl
  Readied-known d (there e h r) = ap (λ b. holds e.conn d || b) (Readied-known d r)

  Readied-IsAbsent :
      {conn : ℕ} (o : Option ℕ) {es fs : List (Connection Q)}
      → Readied conn es fs
      → IsAbsent o es
      → IsAbsent o fs
  Readied-IsAbsent none r a = tt
  Readied-IsAbsent (some d) r a = rw (Readied-known d r) a

  Readied-Unique :
      {conn : ℕ} {es fs : List (Connection Q)} → Readied conn es fs → Unique es → Unique fs
  Readied-Unique (here e es h) u = u
  Readied-Unique (there e h r) u = (Readied-IsAbsent e.conn r u.0, Readied-Unique r u.1)

  Readied-length :
      {conn : ℕ} {es fs : List (Connection Q)} → Readied conn es fs → length fs ≡ length es
  Readied-length (here e es h) = refl
  Readied-length (there e h r) = ap suc (Readied-length r)

module _ {Q : Type 0} (K : Msgq (List ℕ) Q) where
  -- An entry has a connection, or it is unused, not ready, and has nothing queued.
  abbrev pub IsEntry : Connection Q → Type 0
  IsEntry e =
      ((c : ℕ) × (e.conn ≡ some c)) ⊎ ((e.conn ≡ none) × (e.ready ≡ false) × (K.items e.q ≡ []))

  abbrev pub AllEntries : List (Connection Q) → Type 0
  AllEntries [] = Unit {0}
  AllEntries (e ∷ es) = IsEntry e × AllEntries es

  pub record Inv (max : ℕ) (es : List (Connection Q)) : Type 0 where
    pub entries : AllEntries es
    pub unique : Unique es
    pub table : length es ≡ max

  occupy-entries :
      (conn : ℕ) (es : List (Connection Q)) → AllEntries es → AllEntries (occupy conn es).0
  unfolding occupy
  occupy-entries conn [] h = tt
  occupy-entries conn (e ∷ es) h = ground (arith, occupy-entries conn es h.1)

  Readied-entries :
      {conn : ℕ} {es fs : List (Connection Q)} → Readied conn es fs → AllEntries es → AllEntries fs
  Readied-entries (here e es h) a = (ground arith, a.1)
  Readied-entries (there e h r) a = (a.0, Readied-entries r a.1)

  -- What `release` does to the table.
  pub data Released (conn : ℕ) : List (Connection Q) → List (Connection Q) → Type 0 where
    here :
        (e : Connection Q) (es : List (Connection Q))
        → holds e.conn conn ≡ true
        → Released conn (e ∷ es) (record { ready = false; conn = none; q = K.purge e.q } ∷ es)
    there :
        (e : Connection Q) {es fs : List (Connection Q)}
        → holds e.conn conn ≡ false
        → Released conn es fs
        → Released conn (e ∷ es) (e ∷ fs)

  pub release-Released :
      (conn : ℕ) (es : List (Connection Q)) {fs : List (Connection Q)}
      → release K conn es ≡ some fs
      → Released conn es fs
  unfolding release
  release-Released conn [] eq = cc
  release-Released conn (e ∷ es) {fs} eq = elim (Bool-cases (holds e.conn conn)) [
    | inl hit ↦ subst (Released conn (e ∷ es)) (ground arith) (Released.here e es hit)
    | inr miss ↦ elim (Option-cases (release K conn es)) [
      | inl gone ↦ ground arith
      | inr (rest, found) ↦
          subst (Released conn (e ∷ es)) (ground arith)
            (Released.there e miss (release-Released conn es found))
    ]
  ]

  Released-IsAbsent :
      {conn : ℕ} (o : Option ℕ) {es fs : List (Connection Q)}
      → Released conn es fs
      → IsAbsent o es
      → IsAbsent o fs
  unfolding is_known
  Released-IsAbsent none r a = tt
  Released-IsAbsent (some d) (here e es h) a = ground arith
  Released-IsAbsent (some d) (there e h r) a = ground (arith, Released-IsAbsent (some d) r)

  Released-Unique :
      {conn : ℕ} {es fs : List (Connection Q)} → Released conn es fs → Unique es → Unique fs
  Released-Unique (here e es h) u = (tt, u.1)
  Released-Unique (there e h r) u = (Released-IsAbsent e.conn r u.0, Released-Unique r u.1)

  Released-length :
      {conn : ℕ} {es fs : List (Connection Q)} → Released conn es fs → length fs ≡ length es
  Released-length (here e es h) = refl
  Released-length (there e h r) = ap suc (Released-length r)

  Released-entries :
      {conn : ℕ} {es fs : List (Connection Q)} → Released conn es fs → AllEntries es → AllEntries fs
  Released-entries (here e es h) a = (inr (refl, refl, K.items-purge e.q), a.1)
  Released-entries (there e h r) a = (a.0, Released-entries r a.1)

  module _ (max : ℕ) where
    pub occupy-Inv :
        (conn : ℕ) (es : List (Connection Q))
        → is_known conn es ≡ false
        → Inv max es
        → Inv max (occupy conn es).0
    occupy-Inv conn es h v = record {
      entries = occupy-entries conn es v.entries;
      unique = occupy-Unique conn es h v.unique;
      table = length-occupy conn es ∙ v.table;
    }

    pub Readied-Inv :
        {conn : ℕ} {es fs : List (Connection Q)} → Readied conn es fs → Inv max es → Inv max fs
    Readied-Inv r v = record {
      entries = Readied-entries r v.entries;
      unique = Readied-Unique r v.unique;
      table = Readied-length r ∙ v.table;
    }

    pub Released-Inv :
        {conn : ℕ} {es fs : List (Connection Q)} → Released conn es fs → Inv max es → Inv max fs
    Released-Inv r v = record {
      entries = Released-entries r v.entries;
      unique = Released-Unique r v.unique;
      table = Released-length r ∙ v.table;
    }
