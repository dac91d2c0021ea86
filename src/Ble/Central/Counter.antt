-- ===== src/Ble/Central/Counter.antt =====
-- `m_num_connected` of lib/ble/ble_central.c against the connections that are ready.
use pyrinas_zephyr.Common.{
  ℕ, ◌+◌, ◌^◌, ◌<◌, ◌≡◌, ◌↔◌, inl, inr, refl, Bool, true, false, none, some, List, [], ◌∷◌,
  if◌then◌else◌, Msgq, ℤ, arith, Bool-cases, is_error,
}
use pyrinas_zephyr.Ble.Central.{
  Connection, Central, holds, make_ready, is_known, release, disconnected, ble_central_scan_start,
  discovery_completed, found, atomic_lt, atomic_inc, atomic_dec,
}
use pyrinas_zephyr.Ble.Central.Invariant.{Readied, Released, make_ready-Readied, release-Released}
use pyrinas_zephyr.Ble.Central.Steps.{conns-scan_start, conns-found}

module _ {Q : Type 0} where
  unfoldable pub ready_count : List (Connection Q) → ℕ
  ready_count [] = 0
  ready_count (e ∷ es) = (if e.ready then 1 else 0) + ready_count es

  -- Is the first entry of the connection ready?
  unfoldable pub entry_ready : ℕ → List (Connection Q) → Bool
  entry_ready conn [] = false
  entry_ready conn (e ∷ es) = if holds e.conn conn then e.ready else entry_ready conn es

  num_connected-scan_start :
      (err : ℤ) (c : Central Q) → (ble_central_scan_start err c).0.num_connected ≡ c.num_connected
  unfolding ble_central_scan_start
  num_connected-scan_start err c = ground arith

  Readied-count :
      {conn : ℕ} {es fs : List (Connection Q)}
      → Readied conn es fs
      → ready_count fs ≡ ready_count es + (if entry_ready conn es then 0 else 1)
  unfolding ready_count entry_ready
  Readied-count (Readied.here e es h) = ground arith
  Readied-count {conn} (Readied.there e {es} {fs} h r) = ground (arith, Readied-count r)

module _ {Q : Type 0} (K : Msgq (List ℕ) Q) where
  Released-count :
      {conn : ℕ} {es fs : List (Connection Q)}
      → Released K conn es fs
      → ready_count es ≡ ready_count fs + (if entry_ready conn es then 1 else 0)
  unfolding ready_count entry_ready
  Released-count (Released.here e es h) = ground arith
  Released-count {conn} (Released.there e {es} {fs} h r) = ground (arith, Released-count r)

  release-known :
      (conn : ℕ) (es : List (Connection Q))
      → is_known conn es ≡ true
      → (fs : List (Connection Q)) × (release K conn es ≡ some fs)
  unfolding is_known release
  release-known conn [] h = absurd (ground arith)
  release-known conn (e ∷ es) h = elim (Bool-cases (holds e.conn conn)) [
    | inl hit ↦ (record { ready = false; conn = none; q = K.purge e.q } ∷ es, ground arith)
    | inr miss ↦ let (rest, r) = release-known conn es (ground arith) in (e ∷ rest, ground arith)
  ]

  disconnected-some :
      (conn : ℕ) (scan_err : ℤ) (c : Central Q) (es : List (Connection Q))
      → release K conn c.conns ≡ some es
      → ((disconnected K conn scan_err c).0.num_connected ≡ atomic_dec c.num_connected)
        × ((disconnected K conn scan_err c).0.conns ≡ es)
  unfolding disconnected
  disconnected-some conn scan_err c es e =
      rw (e, disconnected) (num_connected-scan_start scan_err _, conns-scan_start scan_err _)

  -- A connection that the table holds is lost: the counter, if it was right before, is right
  -- afterwards exactly if that connection was ready. One that is lost before its discovery has
  -- completed is counted down without ever having been counted up.
  pub num_connected-disconnected :
      (conn : ℕ) (scan_err : ℤ) (c : Central Q)
      → is_known conn c.conns ≡ true
      → c.num_connected ≡ ready_count c.conns
      → c.num_connected < 2 ^ 31
      → let c' = (disconnected K conn scan_err c).0 in
        (c'.num_connected ≡ ready_count c'.conns) ↔ (entry_ready conn c.conns ≡ true)
  num_connected-disconnected conn scan_err c known right small =
      let (es, e) = release-known conn c.conns known in
      let (num, table) = disconnected-some conn scan_err c es e in
      let counted = Released-count (release-Released K conn c.conns e) in
      rw (num, table) (λ same. ground (arith, counted), λ ready. ground (arith, counted))

module _ {Q : Type 0} where
  found_some :
      (max : ℕ) (scan_err : ℤ) (es : List (Connection Q)) (c : Central Q)
      → (found max scan_err es c).0.num_connected ≡ atomic_inc c.num_connected
  unfolding found
  found_some max scan_err es c = elim (Bool-cases (atomic_lt (atomic_inc c.num_connected) max)) [
    | inl more ↦ rw more (num_connected-scan_start scan_err _)
    | inr full ↦ rw full refl
  ]

  make_ready-known :
      (conn : ℕ) (es : List (Connection Q))
      → is_known conn es ≡ true
      → (fs : List (Connection Q)) × (make_ready conn es ≡ some fs)
  unfolding is_known make_ready
  make_ready-known conn [] h = absurd (ground arith)
  make_ready-known conn (e ∷ es) h = elim (Bool-cases (holds e.conn conn)) [
    | inl hit ↦ (record e { ready = true } ∷ es, ground arith)
    | inr miss ↦ let (rest, r) = make_ready-known conn es (ground arith) in (e ∷ rest, ground arith)
  ]

  discovery_completed-some :
      (max conn : ℕ) (assign_err notif_err scan_err : ℤ) (c : Central Q) (es : List (Connection Q))
      → is_error assign_err ≡ false
      → is_error notif_err ≡ false
      → make_ready conn c.conns ≡ some es
      → discovery_completed max conn assign_err notif_err scan_err c ≡ found max scan_err es c
  unfolding discovery_completed
  discovery_completed-some max conn assign_err notif_err scan_err c es a n e = rw (a, n, e) refl

  Readied-ready :
      {conn : ℕ} {es fs : List (Connection Q)} → Readied conn es fs → entry_ready conn fs ≡ true
  unfolding entry_ready
  Readied-ready (Readied.here e es h) = ground arith
  Readied-ready (Readied.there e h r) = ground (arith, Readied-ready r)

  -- Discovery completes for a connection that the table holds: the entry is ready afterwards, and the
  -- counter, if it was right before, is right exactly if the entry was not ready before.
  pub num_connected-discovery_completed :
      (max conn : ℕ) (assign_err notif_err scan_err : ℤ) (c : Central Q)
      → is_error assign_err ≡ false
      → is_error notif_err ≡ false
      → is_known conn c.conns ≡ true
      → c.num_connected ≡ ready_count c.conns
      → c.num_connected < 2 ^ 31
      → let c' = (discovery_completed max conn assign_err notif_err scan_err c).0 in
        (entry_ready conn c'.conns ≡ true)
        × ((c'.num_connected ≡ ready_count c'.conns) ↔ (entry_ready conn c.conns ≡ false))
  num_connected-discovery_completed max conn assign_err notif_err scan_err c a n known right small =
      let (es, e) = make_ready-known conn c.conns known in
      let r = make_ready-Readied conn c.conns e in
      let counted = Readied-count r in
      rw
        (
          discovery_completed-some max conn assign_err notif_err scan_err c es a n e,
          found_some max scan_err es c,
          conns-found max scan_err es c,
        )
        (Readied-ready r, (λ same. ground (arith, counted), λ new. ground (arith, counted)))
