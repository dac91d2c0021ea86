-- ===== src/Ble/Peripheral/Clean.antt =====
-- What a peripheral holds while it has no connection: nothing is queued, and it is not ready.
use pyrinas_zephyr.Common.{ℕ, ◌≡◌, true, false, none, List, [], ◌∷◌, Msgq, ℤ, arith, is_some}
use pyrinas_zephyr.Ble.Peripheral.{
  Peripheral, Event, ble_peripheral_advertising_start, connected, security_changed, exchange_func,
  disconnected, drop_connection, bt_send_work_handler, ble_peripheral_write, step, run,
  on_connected, on_disconnected, on_security_changed, on_exchange, on_write, on_send_work, on_sent,
  on_receive,
}

module _ {Q : Type 0} where
  abbrev pub IsSameLink : Peripheral Q → Peripheral Q → Type 0
  IsSameLink p p' =
      (p'.current_conn ≡ p.current_conn) × (p'.ready ≡ p.ready) × (p'.event_queue ≡ p.event_queue)

  pub advertising_start-IsSameLink :
      (create_err set_err : ℤ) (p : Peripheral Q)
      → IsSameLink p (ble_peripheral_advertising_start create_err set_err p).0
  unfolding ble_peripheral_advertising_start
  advertising_start-IsSameLink create_err set_err p = ground arith

module _ {Q : Type 0} (K : Msgq (List ℕ) Q) where
  abbrev pub IsClean : Peripheral Q → Type 0
  IsClean p = p.current_conn ≡ none → (K.items p.event_queue ≡ []) × (p.ready ≡ false)

  pub disconnected-IsClean :
      (create_err set_err : ℤ) (p : Peripheral Q)
      → let p' = (disconnected K create_err set_err p).0 in
        (p'.current_conn ≡ none) × (K.items p'.event_queue ≡ []) × (p'.ready ≡ false)
  unfolding disconnected drop_connection
  disconnected-IsClean create_err set_err p =
      let (conn, ready, queue) =
        advertising_start-IsSameLink create_err set_err (drop_connection K p) in
      (conn, rw queue (K.items-purge p.event_queue), ready)

-- What the Bluetooth stack promises: the security of a connection changes while there is one.
module _ {Q : Type 0} where
  abbrev pub IsLinked : Peripheral Q → Event → Type 0
  IsLinked p (on_security_changed conn err) = is_some p.current_conn ≡ true
  IsLinked p _ = Unit {0}

module _ {Q : Type 0} (K : Msgq (List ℕ) Q) (item_size : ℕ) where
  pub step-IsClean :
      (p : Peripheral Q) (e : Event)
      → IsLinked p e
      → IsClean K p
      → IsClean K (step K item_size p e).0
  unfolding step
  step-IsClean p (on_connected conn err) h clean = unfold connected in ground arith
  step-IsClean p (on_disconnected create_err set_err) h clean =
      let (_, empty, down) = disconnected-IsClean K create_err set_err p in λ e. (empty, down)
  step-IsClean p (on_security_changed conn err) h clean = unfold security_changed in ground arith
  step-IsClean p (on_exchange err max_send) h clean = unfold exchange_func in ground arith
  step-IsClean p (on_write payload) h clean = unfold ble_peripheral_write in ground arith
  step-IsClean p on_send_work h clean = unfold bt_send_work_handler in ground arith
  step-IsClean p on_sent h clean = clean
  step-IsClean p (on_receive bytes) h clean = clean

  abbrev pub AllLinked : Peripheral Q → List Event → Type 0
  AllLinked p [] = Unit {0}
  AllLinked p (e ∷ es) = IsLinked p e × AllLinked (step K item_size p e).0 es

  -- After any history of callbacks and calls, a peripheral without a connection has nothing queued
  -- and is not ready, if that held at the start and the stack reports a change of security only
  -- while there is a connection.
  pub run-IsClean :
      (p : Peripheral Q) (es : List Event)
      → AllLinked p es
      → IsClean K p
      → IsClean K (run K item_size p es).0
  unfolding run
  run-IsClean p [] h clean = clean
  run-IsClean p (e ∷ es) h clean =
      run-IsClean (step K item_size p e).0 es h.1 (step-IsClean p e h.0 clean)
