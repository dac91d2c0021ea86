-- ===== src/Ble/Central/Steps.antt =====
-- Every callback of lib/ble/ble_central.c keeps the connection table well formed.
use pyrinas_zephyr.Common.{
  ℕ, suc, ◌≡◌, inl, inr, refl, sym, ap, ◌∙◌, subst, false, Option, none, some, List, [], ◌∷◌,
  length, map, Msgq, ℤ, arith, Option-cases, Bool-cases, is_error, not, ◌||◌, ltb,
}
use pyrinas_zephyr.Ble.Central.{
  Connection, Central, Event, on_connected, on_disconnected, on_discovery_completed, on_write,
  on_send_work, make_ready, is_known, release, disconnected, connected, accept, refuse,
  ble_central_scan_start, discovery_completed, send_one, bt_send_work_handler, put_one,
  ble_central_write, ble_central_is_connected, send_work, found, atomic_lt, atomic_inc, step, run,
}
use pyrinas_zephyr.Ble.Central.Invariant.{
  Unique, IsAbsent, IsEntry, AllEntries, Inv, make_ready-Readied, release-Released, occupy-Inv,
  Readied-Inv, Released-Inv,
}

module _ {Q : Type 0} where
  pub conns-scan_start :
      (err : ℤ) (c : Central Q) → (ble_central_scan_start err c).0.conns ≡ c.conns
  unfolding ble_central_scan_start
  conns-scan_start err c = ground arith

  pub conns-found :
      (max : ℕ) (scan_err : ℤ) (es : List (Connection Q)) (c : Central Q)
      → (found max scan_err es c).0.conns ≡ es
  unfolding found
  conns-found max scan_err es c = elim (Bool-cases (atomic_lt (atomic_inc c.num_connected) max)) [
    | inl more ↦ rw more (conns-scan_start scan_err _)
    | inr full ↦ rw full refl
  ]

-- Two tables with the same connections, entry by entry.
module _ {Q : Type 0} where
  abbrev SameConns : List (Connection Q) → List (Connection Q) → Type 0
  SameConns [] [] = Unit {0}
  SameConns (e ∷ es) (f ∷ fs) = (f.conn ≡ e.conn) × SameConns es fs
  SameConns _ _ = ⊥

  SameConns-known :
      (d : ℕ) (es fs : List (Connection Q)) → SameConns es fs → is_known d fs ≡ is_known d es
  unfolding is_known
  SameConns-known d [] [] h = refl
  SameConns-known d [] (f ∷ fs) h = absurd h
  SameConns-known d (e ∷ es) [] h = absurd h
  SameConns-known d (e ∷ es) (f ∷ fs) h = rw (h.0, SameConns-known d es fs h.1) refl

  SameConns-IsAbsent :
      (o : Option ℕ) (es fs : List (Connection Q)) → SameConns es fs → IsAbsent o es → IsAbsent o fs
  SameConns-IsAbsent none es fs h a = tt
  SameConns-IsAbsent (some d) es fs h a = rw (SameConns-known d es fs h) a

  SameConns-Unique : (es fs : List (Connection Q)) → SameConns es fs → Unique es → Unique fs
  SameConns-Unique [] [] h u = tt
  SameConns-Unique [] (f ∷ fs) h u = absurd h
  SameConns-Unique (e ∷ es) [] h u = absurd h
  SameConns-Unique (e ∷ es) (f ∷ fs) h u = (
    subst (λ o. IsAbsent o fs) (sym h.0) (SameConns-IsAbsent e.conn es fs h.1 u.0),
    SameConns-Unique es fs h.1 u.1,
  )

  SameConns-length : (es fs : List (Connection Q)) → SameConns es fs → length fs ≡ length es
  SameConns-length [] [] h = refl
  SameConns-length [] (f ∷ fs) h = absurd h
  SameConns-length (e ∷ es) [] h = absurd h
  SameConns-length (e ∷ es) (f ∷ fs) h = ap suc (SameConns-length es fs h.1)

module _ {Q : Type 0} (K : Msgq (List ℕ) Q) (max : ℕ) where
  disconnected-Inv :
      (conn : ℕ) (scan_err : ℤ) (c : Central Q)
      → Inv K max c.conns
      → Inv K max (disconnected K conn scan_err c).0.conns
  unfolding disconnected
  disconnected-Inv conn scan_err c v = elim (Option-cases (release K conn c.conns)) [
    | inl e ↦ rw (e, disconnected) v
    | inr (es, e) ↦
        let r = release-Released K conn c.conns e in
        rw (e, disconnected)
          (subst (Inv K max) (sym (conns-scan_start scan_err _)) (Released-Inv K max r v))
  ]

  refuse-Inv :
      (conn : ℕ) (scan_err scan_err' : ℤ) (c : Central Q)
      → Inv K max c.conns
      → Inv K max (refuse K conn scan_err scan_err' c).0.conns
  unfolding refuse
  refuse-Inv conn scan_err scan_err' c v =
      subst (Inv K max) (sym (conns-scan_start scan_err' _)) (disconnected-Inv conn scan_err c v)

  accept-Inv :
      (conn : ℕ) (security_err : ℤ) (c : Central Q)
      → is_known conn c.conns ≡ false
      → Inv K max c.conns
      → Inv K max (accept K conn security_err c).0.conns
  unfolding accept
  accept-Inv conn security_err c h v = occupy-Inv K max conn c.conns h v

  connected-Inv :
      (conn : ℕ) (err security_err scan_err scan_err' : ℤ) (c : Central Q)
      → (is_error err ≡ false → is_known conn c.conns ≡ false)
      → Inv K max c.conns
      → Inv K max (connected K conn err security_err scan_err scan_err' c).0.conns
  unfolding connected
  connected-Inv conn err security_err scan_err scan_err' c h v = elim (Bool-cases (is_error err)) [
    | inl failed ↦ rw failed (refuse-Inv conn scan_err scan_err' c v)
    | inr fine ↦ rw fine (accept-Inv conn security_err c (h fine) v)
  ]

  discovery_completed-Inv :
      (conn : ℕ) (assign_err notif_err scan_err : ℤ) (c : Central Q)
      → Inv K max c.conns
      → Inv K max (discovery_completed max conn assign_err notif_err scan_err c).0.conns
  unfolding discovery_completed
  discovery_completed-Inv conn assign_err notif_err scan_err c v =
      elim (Bool-cases (is_error assign_err || is_error notif_err)) [
        | inl failed ↦ rw failed v
        | inr fine ↦ elim (Option-cases (make_ready conn c.conns)) [
          | inl e ↦ rw (fine, e) v
          | inr (es, e) ↦
              rw (fine, e)
                (subst (Inv K max) (sym (conns-found max scan_err es c))
                  (Readied-Inv K max (make_ready-Readied conn c.conns e) v))
        ]
      ]

  put_one-IsEntry :
      (payload : List ℕ) (e : Connection Q)
      → IsEntry K e
      → IsEntry K (put_one K payload e) × ((put_one K payload e).conn ≡ e.conn)
  unfolding put_one
  put_one-IsEntry payload e v = ground arith

  map_put-entries :
      (payload : List ℕ) (es : List (Connection Q))
      → AllEntries K es
      → AllEntries K (map (put_one K payload) es) × SameConns es (map (put_one K payload) es)
  map_put-entries payload [] v = (tt, tt)
  map_put-entries payload (e ∷ es) v =
      let (entry, same) = put_one-IsEntry payload e v.0 in
      let (entries, sames) = map_put-entries payload es v.1 in ((entry, entries), (same, sames))

  send_one-IsEntry :
      (e : Connection Q) (i : ℕ)
      → IsEntry K e
      → IsEntry K (send_one K e i).0 × ((send_one K e i).0.conn ≡ e.conn)
  unfolding send_one
  send_one-IsEntry e i v = ground arith

  send-entries :
      (es : List (Connection Q)) (i : ℕ)
      → AllEntries K es
      → AllEntries K (bt_send_work_handler K es i).0 × SameConns es (bt_send_work_handler K es i).0
  unfolding bt_send_work_handler
  send-entries [] i v = (tt, tt)
  send-entries (e ∷ es) i v =
      let (entry, same) = send_one-IsEntry e i v.0 in
      let (entries, sames) = send-entries es (suc i) v.1 in ((entry, entries), (same, sames))

  SameConns-Inv :
      (es fs : List (Connection Q))
      → SameConns es fs
      → AllEntries K fs
      → Inv K max es
      → Inv K max fs
  SameConns-Inv es fs same entries v = record {
    entries = entries;
    unique = SameConns-Unique es fs same v.unique;
    table = SameConns-length es fs same ∙ v.table;
  }

  write-Inv :
      (item_size : ℕ) (payload : List ℕ) (c : Central Q)
      → Inv K max c.conns
      → Inv K max (ble_central_write K item_size payload c).0.conns
  unfolding ble_central_write
  write-Inv item_size payload c v =
      let (entries, same) = map_put-entries payload c.conns v.entries in
      elim (Bool-cases (not (ble_central_is_connected c.conns))) [
        | inl idle ↦ rw idle v
        | inr some_ready ↦ elim (Bool-cases (ltb item_size (length payload))) [
          | inl long ↦ rw (some_ready, long) v
          | inr fits ↦ rw (some_ready, fits) (SameConns-Inv c.conns _ same entries v)
        ]
      ]

  send-Inv :
      (item_size : ℕ) (c : Central Q)
      → Inv K max c.conns
      → Inv K max (send_work K max item_size c).0.conns
  unfolding send_work
  send-Inv item_size c v =
      let (entries, same) = send-entries c.conns 0 v.entries in
      SameConns-Inv c.conns _ same entries v

-- What the Bluetooth stack promises: a connection that it reports is not in the table.
module _ {Q : Type 0} where
  abbrev pub IsFresh : Central Q → Event → Type 0
  IsFresh c (on_connected conn err security_err scan_err scan_err') =
      is_error err ≡ false → is_known conn c.conns ≡ false
  IsFresh c _ = Unit {0}

module _ {Q : Type 0} (K : Msgq (List ℕ) Q) (max item_size : ℕ) where
  -- Every callback keeps the table: each entry has a connection or is unused, not ready and empty,
  -- no connection has two entries, and the size stays. The stack must report a new connection once.
  pub step-Inv :
      (c : Central Q) (ev : Event)
      → IsFresh c ev
      → Inv K max c.conns
      → Inv K max (step K max item_size c ev).0.conns
  unfolding step
  step-Inv c (on_connected conn err security_err scan_err scan_err') h v =
      connected-Inv K max conn err security_err scan_err scan_err' c h v
  step-Inv c (on_disconnected conn scan_err) h v = disconnected-Inv K max conn scan_err c v
  step-Inv c (on_discovery_completed conn assign_err notif_err scan_err) h v =
      discovery_completed-Inv K max conn assign_err notif_err scan_err c v
  step-Inv c (on_write payload) h v = write-Inv K max item_size payload c v
  step-Inv c on_send_work h v = send-Inv K max item_size c v

  abbrev pub AllFresh : Central Q → List Event → Type 0
  AllFresh c [] = Unit {0}
  AllFresh c (ev ∷ evs) = IsFresh c ev × AllFresh (step K max item_size c ev).0 evs

  -- After any history of connections, disconnections, completed discoveries, writes and send work
  -- each entry of the table has a connection, or is unused, not ready and empty; no connection has
  -- two entries, and the table has its size: if that held at the start, and the stack reports a
  -- new connection only while the table does not hold it.
  pub run-Inv :
      (c : Central Q) (evs : List Event)
      → AllFresh c evs
      → Inv K max c.conns
      → Inv K max (run K max item_size c evs).conns
  unfolding run
  run-Inv c [] fresh v = v
  run-Inv c (ev ∷ evs) fresh v =
      run-Inv (step K max item_size c ev).0 evs fresh.1 (step-Inv c ev fresh.0 v)
