-- ===== src/Ble/Role/Tests.antt =====
-- A device that starts, and a sensor that publishes to a hub.
use pyrinas_zephyr.Common.{
  ℕ, ◌≡◌, refl, true, false, some, none, List, [], ◌∷◌, ◌++◌, map, arith, replicate, Msgq,
  list_msgq, pos, mem_eq,
}
use pyrinas_zephyr.Ble.Subscriptions.{Subscriber, to_event_name, is_named}
use pyrinas_zephyr.Ble.Events.{Event, BleM, subscribed, ble_publish, bt_send_work_handler}
use pyrinas_zephyr.Ble.Events.Plain.{plain_encode, plain_decode, plain_codec}
use pyrinas_zephyr.Ble.Events.Calls.{calls_for, calls_for_all, handler_calls}
use pyrinas_zephyr.Ble.Subscriptions.Search.{handler_of}
use pyrinas_zephyr.Ble.Events.Delivery.{receive_all}
use pyrinas_zephyr.Ble.Peripheral.{Peripheral}
use pyrinas_zephyr.Ble.Peripheral.Fifo.{sent, pump}
use pyrinas_zephyr.Ble.Central as Central
use pyrinas_zephyr.Ble.Central.{
  Central, auth_cb_register, settings_load, send_work_init, scan_work_init, conn_cb_register,
  scan_init,
}
use pyrinas_zephyr.Ble.Role.{
  peripheral, central, Stack, ble_is_connected, ble_stack_init, attach_and_init, of_central,
  led_flash_handler, gpio_pin_toggle, timer_start,
}
use pyrinas_zephyr.Ble.Role.Link.{event_for, received, publish_all-delivers}
use pyrinas_zephyr.Ble.Role.Queueing.{Message, publish_all}

abbrev payloads : Msgq (List ℕ) (List (List ℕ))
payloads = list_msgq 4

abbrev events : Msgq Event (List Event)
events = list_msgq 20

abbrev sensor : Peripheral (List (List ℕ))
sensor = record {
  current_conn = some 7;
  ready = true;
  has_adv = true;
  evt_cb = none;
  nus_max_send_len = 20;
  event_queue = [];
}

abbrev hub_central : Central (List (List ℕ))
hub_central = record {
  conns = record { ready = true; conn = some 7; q = [] } ∷ [];
  num_connected = 1;
  scan_failure = false;
  evt_cb = some 3;
}

abbrev unused : Subscriber
unused = record { evt_handler = 0; name = record { size = 0; bytes = [] } }

abbrev ping : List ℕ
ping = b'p' ∷ b'i' ∷ b'n' ∷ b'g' ∷ []

abbrev hub : BleM (List Event)
hub = record {
  event_queue = [];
  subscribe_list = record {
    subscribers = record { evt_handler = 5; name = to_event_name ping } ∷ replicate 11 unused;
    count = 1;
  };
  raw_handler_ext = none;
}

abbrev pings : List Message
pings =
    record { name = ping; content = b'1' ∷ [] } ∷ record { name = ping; content = b'2' ∷ [] } ∷ []

pings_call :
    calls_for_all hub.subscribe_list none (map event_for pings)
    ≡ subscribed 5 (ping ++ 0 ∷ []) (b'1' ∷ 0 ∷ [])
      ∷ subscribed 5 (ping ++ 0 ∷ []) (b'2' ∷ 0 ∷ [])
      ∷ []
unfolding calls_for_all calls_for handler_calls handler_of is_named mem_eq
pings_call = refl

publish_all-delivers_example :
    (p' : Peripheral (List (List ℕ))) × (q : List Event) × (publish_all payloads plain_encode 30 30
        40 pings
        (peripheral sensor)
      ≡ peripheral p')
    × (bt_send_work_handler events 3 (
          receive_all events plain_decode hub
            (received hub_central (sent (pump payloads 40 2 p').1)))
        ≡ some (
          record hub { event_queue = q },
          calls_for_all hub.subscribe_list none (map event_for pings),
        ))
    × ((pump payloads 40 2 p').0.event_queue ≡ [])
    × (q ≡ [])
unfolding ble_publish
publish_all-delivers_example =
    publish_all-delivers payloads events plain_encode plain_decode 30 30 40 plain_codec pings sensor
      7 3 hub_central hub
      (
        (omega arith, omega arith, _, refl, omega arith),
        ((omega arith, omega arith, _, refl, omega arith), tt),
      )
      refl refl (omega arith) refl refl (omega arith)

abbrev booting : Stack (List (List ℕ))
booting = record {
  role = central (record {
    conns = record { ready = false; conn = none; q = [] } ∷ [];
    num_connected = 0;
    scan_failure = false;
    evt_cb = none;
  });
  init_complete = false;
}

booting_flashes : led_flash_handler booting.role ≡ gpio_pin_toggle ∷ timer_start ∷ []
unfolding led_flash_handler ble_is_connected Central.ble_central_is_connected
booting_flashes = refl

-- The callbacks of the connections and of the scan are registered once the rest is set up.
init_runs :
    (ble_stack_init payloads 3 (pos 0) true booting).1
    ≡ map of_central (
        auth_cb_register ∷ settings_load ∷ send_work_init ∷ scan_work_init ∷ conn_cb_register
        ∷ scan_init ∷ [])
unfolding ble_stack_init attach_and_init Central.ble_central_init
init_runs = refl
