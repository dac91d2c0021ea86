-- ===== src/Cloud/Client/Connect.antt =====
-- The outcomes of `pyrinas_cloud_connect`.
use pyrinas_zephyr.Common.{
  some, refl, ℕ, ◌≡◌, ◌⊎◌, true, false, List, [], ◌∷◌, ◌++◌, if◌then◌else◌, ℤ, pos, is_error, arith,
  einprogress,
}
use pyrinas_zephyr.Cloud.Client.{
  Config, Action, mqtt_evt_handler, disconnect, Cloud, Address, cloud_state_connected,
  cloud_state_disconnected, state_callback, mqtt_connect, sem_give, set_cloud_state, first_address,
  broker_init, finish_connect, pyrinas_cloud_connect,
}

-- A client that is connected already is left alone, with -EINPROGRESS. Otherwise an error of the
-- resolver or of `mqtt_connect` is the result, with the state of the connection unchanged, or the
-- result is 0, the client is connected, its callback is called and its thread is woken.
pub pyrinas_cloud_connect-cases :
    (size : ℕ) (addr_err : ℤ) (addresses : List Address) (mqtt_err : ℤ) (c : Cloud)
    → let (c', err, actions) = pyrinas_cloud_connect size addr_err addresses mqtt_err c in
      let resolved : Cloud = record c { broker = first_address size addresses c.broker } in
      ((c.cloud_state ≡ cloud_state_connected) × (err ≡ einprogress) × (c' ≡ c) × (actions ≡ []))
      ⊎ (((c.cloud_state ≡ cloud_state_disconnected)
            × (is_error addr_err ≡ true)
            × (err ≡ addr_err)
            × (c' ≡ c)
            × (actions ≡ []))
          ⊎ (((c.cloud_state ≡ cloud_state_disconnected)
                × (is_error addr_err ≡ false)
                × (is_error mqtt_err ≡ true)
                × (err ≡ mqtt_err)
                × (c' ≡ resolved)
                × (actions ≡ mqtt_connect ∷ []))
              ⊎ ((c.cloud_state ≡ cloud_state_disconnected)
                  × (is_error addr_err ≡ false)
                  × (is_error mqtt_err ≡ false)
                  × (err ≡ pos 0)
                  × (c' ≡ record resolved { cloud_state = cloud_state_connected })
                  × (actions
                      ≡ mqtt_connect
                          ∷ (if c.has_state_callback
                              then state_callback cloud_state_connected ∷ []
                              else [])
                        ++ sem_give ∷ []))))
unfolding pyrinas_cloud_connect broker_init finish_connect set_cloud_state
pyrinas_cloud_connect-cases size addr_err addresses mqtt_err c = ground arith

-- A call that returns 0 leaves the client connected; any other result is an error.
pub connect_result :
    (size : ℕ) (addr_err : ℤ) (addresses : List Address) (mqtt_err : ℤ) (c : Cloud)
    → let (c', err, actions) = pyrinas_cloud_connect size addr_err addresses mqtt_err c in
      (((err ≡ pos 0) × (c'.cloud_state ≡ cloud_state_connected))
        ⊎ ((is_error err ≡ true) × ((err ≡ einprogress) ⊎ ((err ≡ addr_err) ⊎ (err ≡ mqtt_err)))))
      × (c'.has_state_callback ≡ c.has_state_callback)
unfolding pyrinas_cloud_connect broker_init finish_connect set_cloud_state
connect_result size addr_err addresses mqtt_err c = ground arith

pub connect_again :
    (size : ℕ) (addr_err : ℤ) (addresses : List Address) (mqtt_err : ℤ) (c : Cloud)
    → c.cloud_state ≡ cloud_state_connected
    → pyrinas_cloud_connect size addr_err addresses mqtt_err c ≡ (c, einprogress, [])
unfolding pyrinas_cloud_connect
connect_again size addr_err addresses mqtt_err c up = ground arith

pub mqtt_evt_handler_disconnect :
    (k : Config) (rand : ℕ) (result : ℤ) (c : Cloud)
    → (actions : List Action) × (mqtt_evt_handler k rand (disconnect result) c
        ≡ some (record c { cloud_state = cloud_state_disconnected }, actions))
unfolding mqtt_evt_handler set_cloud_state
mqtt_evt_handler_disconnect k rand result c = (_, refl)

-- A disconnected client whose callback is set: a call that gives no error connects it, and calls the
-- callback and then the thread.
pub connect_fresh :
    (size : ℕ) (addr_err : ℤ) (addresses : List Address) (mqtt_err : ℤ) (c : Cloud)
    → c.cloud_state ≡ cloud_state_disconnected
    → c.has_state_callback ≡ true
    → is_error (pyrinas_cloud_connect size addr_err addresses mqtt_err c).1 ≡ false
    → pyrinas_cloud_connect size addr_err addresses mqtt_err c ≡ (
      record c {
        cloud_state = cloud_state_connected;
        broker = first_address size addresses c.broker;
      },
      pos 0,
      mqtt_connect ∷ state_callback cloud_state_connected ∷ sem_give ∷ [],
    )
unfolding pyrinas_cloud_connect broker_init finish_connect set_cloud_state
connect_fresh size addr_err addresses mqtt_err c down told ok = ground arith
