-- ===== src/Ble/Central/Tests.antt =====
-- Histories of a hub with two entries in its table.
use pyrinas_zephyr.Common.{
  ℕ, ◌-◌, ◌^◌, ◌≡◌, ◌↔◌, refl, inr, true, false, some, none, List, [], ◌∷◌, arith, Msgq, list_msgq,
  pos,
}
use pyrinas_zephyr.Ble.Central.{
  Connection, Central, Event, on_connected, on_disconnected, on_discovery_completed, on_write,
  on_send_work, step, run, disconnected, discovery_completed, is_known, bt_send_work_handler,
  ble_central_write, connected, accept, occupy, ble_central_is_connected, nus_send, send_one, found,
  make_ready, release, ble_central_scan_start, gatt_discover, last_index, set_security, conn_ref,
  scan_stop, dm_start, send_work, put_one,
}
use pyrinas_zephyr.Ble.Central.Invariant.{Inv}
use pyrinas_zephyr.Ble.Central.Steps.{run-Inv, AllFresh}
use pyrinas_zephyr.Ble.Central.Counter.{ready_count, entry_ready, num_connected-disconnected}
use pyrinas_zephyr.Ble.Central.Queues.{AllSend, bt_send_work_handler-sends}

abbrev queue : Msgq (List ℕ) (List (List ℕ))
queue = list_msgq 10

abbrev unused : Connection (List (List ℕ))
unused = record { ready = false; conn = none; q = [] }

abbrev fresh : Central (List (List ℕ))
fresh = record {
  conns = unused ∷ unused ∷ [];
  num_connected = 0;
  scan_failure = false;
  evt_cb = none;
}

-- Connection 7 is in the table, and its discovery is not done.
abbrev pending : Central (List (List ℕ))
pending = record fresh { conns = record unused { conn = some 7 } ∷ unused ∷ [] }

abbrev history : List Event
history =
    on_connected 7 (pos 0) (pos 0) (pos 0) (pos 0)
    ∷ on_discovery_completed 7 (pos 0) (pos 0) (pos 0)
    ∷ on_write (1 ∷ 2 ∷ [])
    ∷ on_send_work
    ∷ on_disconnected 7 (pos 0)
    ∷ []

connect_runs :
    step queue 2 20 fresh (on_connected 7 (pos 0) (pos 5) (pos 0) (pos 0))
    ≡ (pending, conn_ref 7 ∷ set_security 7 ∷ dm_start 7 0 ∷ scan_stop ∷ [])
unfolding step connected accept occupy gatt_discover last_index
connect_runs = refl

-- The whole history leads back to the empty table, with the counter at 0.
history_runs : run queue 2 20 fresh history ≡ fresh
unfolding run step connected accept occupy discovery_completed found make_ready
    ble_central_scan_start ble_central_write put_one ble_central_is_connected send_work
    bt_send_work_handler send_one disconnected release
history_runs = refl

fresh-Inv : Inv queue 2 fresh.conns
fresh-Inv = record {
  entries = (inr (refl, refl, refl), (inr (refl, refl, refl), tt));
  unique = (tt, (tt, tt));
  table = refl;
}

history-AllFresh : AllFresh queue 2 20 fresh history
unfolding is_known
history-AllFresh = ((λ e. refl), (tt, (tt, (tt, (tt, tt)))))

run-Inv_example : Inv queue 2 (run queue 2 20 fresh history).conns
run-Inv_example = run-Inv queue 2 20 fresh history history-AllFresh fresh-Inv

num_connected-disconnected_example :
    let c' = (disconnected queue 7 (pos 0) pending).0 in
    (c'.num_connected ≡ ready_count c'.conns) ↔ (entry_ready 7 pending.conns ≡ true)
unfolding is_known ready_count
num_connected-disconnected_example =
    num_connected-disconnected queue 7 (pos 0) pending refl refl (omega arith)

-- -1
disconnected_early : (disconnected queue 7 (pos 0) pending).0.num_connected ≡ 2 ^ 32 - 1
unfolding disconnected release ble_central_scan_start
disconnected_early = refl

abbrev loaded : List (Connection (List (List ℕ)))
loaded =
    record { ready = true; conn = some 7; q = (1 ∷ []) ∷ (2 ∷ []) ∷ [] }
    ∷ record { ready = false; conn = some 8; q = (3 ∷ []) ∷ [] }
    ∷ []

send_runs : (bt_send_work_handler queue loaded 0).1 ≡ nus_send 0 (1 ∷ []) ∷ []
unfolding bt_send_work_handler send_one
send_runs = refl

bt_send_work_handler-sends_example :
    AllSend queue loaded
      (bt_send_work_handler queue loaded 0).0
      0
      (bt_send_work_handler queue loaded 0).1
bt_send_work_handler-sends_example = bt_send_work_handler-sends queue loaded 0

abbrev talking : Central (List (List ℕ))
talking = record fresh { conns = loaded; num_connected = 1 }
