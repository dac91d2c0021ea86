-- ===== src/Ble/Peripheral/Tests.antt =====
-- Histories of a peripheral.
use pyrinas_zephyr.Common.{
  ℕ, ◌≡◌, refl, true, false, some, none, List, [], ◌∷◌, ◌++◌, arith, Msgq, list_msgq, pos,
}
use pyrinas_zephyr.Ble.Peripheral.{
  Peripheral, Event, step, run, connected, disconnected, drop_connection, unref_current, adv_set_up,
  security_changed, ble_peripheral_write, bt_send_work_handler, bt_sent_cb,
  ble_peripheral_advertising_start, on_connected, on_disconnected, on_security_changed, on_write,
  on_send_work, on_sent, adv_create, adv_set_data, adv_start, conn_ref, conn_unref, exchange_mtu,
  submit_send_work, nus_send,
}
use pyrinas_zephyr.Ble.Peripheral.Clean.{IsClean, run-IsClean}
use pyrinas_zephyr.Ble.Peripheral.Fifo.{accepted, sent, run-fifo, pump, pump-drains}

abbrev queue : Msgq (List ℕ) (List (List ℕ))
queue = list_msgq 2

abbrev fresh : Peripheral (List (List ℕ))
fresh = record {
  current_conn = none;
  ready = false;
  has_adv = false;
  evt_cb = none;
  nus_max_send_len = 0;
  event_queue = [];
}

abbrev talk : List Event
talk =
    on_connected 7 (pos 0)
    ∷ on_security_changed 7 (pos 0)
    ∷ on_write (1 ∷ [])
    ∷ on_write (2 ∷ [])
    ∷ on_write (3 ∷ [])
    ∷ on_send_work
    ∷ on_sent
    ∷ []

-- The third payload finds the queue full.
talk_runs : run queue 20 fresh talk ≡ (
  record fresh { current_conn = some 7; ready = true; event_queue = (2 ∷ []) ∷ [] },
  conn_ref 7
      ∷ exchange_mtu 7
      ∷ submit_send_work
      ∷ submit_send_work
      ∷ nus_send 7 (1 ∷ [])
      ∷ submit_send_work
      ∷ [],
)
unfolding run step connected security_changed ble_peripheral_write bt_send_work_handler bt_sent_cb
talk_runs = refl

run-fifo_example :
    [] ++ accepted queue 20 fresh talk
    ≡ sent (run queue 20 fresh talk).1 ++ (run queue 20 fresh talk).0.event_queue
run-fifo_example = run-fifo queue 20 fresh talk (tt, (tt, (tt, (tt, (tt, (tt, (tt, tt)))))))

abbrev loaded : Peripheral (List (List ℕ))
loaded = record fresh {
  current_conn = some 7;
  ready = true;
  event_queue = (1 ∷ []) ∷ (2 ∷ []) ∷ [];
}

lost_runs :
    step queue 20 loaded (on_disconnected (pos 0) (pos 0))
    ≡ (record fresh { has_adv = true }, conn_unref 7 ∷ adv_create ∷ adv_set_data ∷ adv_start ∷ [])
unfolding step disconnected drop_connection unref_current ble_peripheral_advertising_start
    adv_set_up
lost_runs = refl

abbrev history : List Event
history = on_connected 7 (pos 0) ∷ on_write (1 ∷ []) ∷ on_disconnected (pos 0) (pos 0) ∷ []

run-IsClean_example : IsClean queue (run queue 20 fresh history).0
run-IsClean_example = run-IsClean queue 20 fresh history (tt, (tt, (tt, tt))) (λ e. (refl, refl))

pump-drains_example :
    ((pump queue 20 2 loaded).0.event_queue ≡ [])
    × (sent (pump queue 20 2 loaded).1 ≡ (1 ∷ []) ∷ (2 ∷ []) ∷ [])
pump-drains_example = pump-drains queue 20 2 loaded 7 refl (omega arith)
