-- ===== src/App/Ticker/Tests.antt =====
-- A client that publishes its counter to a hub.
use pyrinas_zephyr.Common.{
  ℕ, inl, ◌-◌, ◌^◌, ◌≡◌, refl, true, false, some, none, List, [], ◌∷◌, arith, replicate, Msgq,
  list_msgq, mem_eq,
}
use pyrinas_zephyr.Ble.Subscriptions.{Subscriber, to_event_name, is_named}
use pyrinas_zephyr.Ble.Subscriptions.Search.{handler_of}
use pyrinas_zephyr.Ble.Events.{Event, BleM, Call, ble_publish, bt_send_work_handler}
use pyrinas_zephyr.Ble.Events.Calls.{whole}
use pyrinas_zephyr.Ble.Events.Plain.{plain_encode, plain_decode, plain_codec}
use pyrinas_zephyr.Ble.Events.Delivery.{receive_all}
use pyrinas_zephyr.Ble.Peripheral.{Peripheral}
use pyrinas_zephyr.Ble.Peripheral.Fifo.{sent, pump}
use pyrinas_zephyr.Ble.Central.{Central}
use pyrinas_zephyr.Ble.Role.{peripheral}
use pyrinas_zephyr.Ble.Role.Link.{received}
use pyrinas_zephyr.App.Ticker.{digits, print_int, count_text, pong, expiries}
use pyrinas_zephyr.App.Ticker.Delivery.{ticks, AreTicks, expiries-delivers}

abbrev payloads : Msgq (List ℕ) (List (List ℕ))
payloads = list_msgq 4

abbrev events : Msgq Event (List Event)
events = list_msgq 20

abbrev client : Peripheral (List (List ℕ))
client = record {
  current_conn = some 7;
  ready = true;
  has_adv = true;
  evt_cb = none;
  nus_max_send_len = 20;
  event_queue = [];
}

abbrev hub_central : Central (List (List ℕ))
hub_central = record {
  conns = record { ready = true; conn = some 7; q = [] } ∷ [];
  num_connected = 1;
  scan_failure = false;
  evt_cb = some 3;
}

abbrev unused : Subscriber
unused = record { evt_handler = 0; name = record { size = 0; bytes = [] } }

abbrev hub : BleM (List Event)
hub = record {
  event_queue = [];
  subscribe_list = record {
    subscribers = record { evt_handler = 5; name = to_event_name pong } ∷ replicate 11 unused;
    count = 1;
  };
  raw_handler_ext = none;
}

-- The last text of nine digits, and one that has lost its last digit.
texts_run :
    (count_text 99 ≡ b'9' ∷ b'9' ∷ [])
    × (count_text 100 ≡ b'1' ∷ b'0' ∷ b'0' ∷ [])
    × (count_text 1234567890 ≡ b'1' ∷ b'2' ∷ b'3' ∷ b'4' ∷ b'5' ∷ b'6' ∷ b'7' ∷ b'8' ∷ b'9' ∷ [])
unfolding count_text print_int digits
texts_run = (refl, refl, refl)

-- A negative counter keeps its sign.
negative_runs : count_text (2 ^ 32 - 12) ≡ b'-' ∷ b'1' ∷ b'2' ∷ []
unfolding count_text print_int digits
negative_runs = refl

handler_of-pong : handler_of hub.subscribe_list (whole pong) ≡ some 5
unfolding handler_of is_named mem_eq
handler_of-pong = refl

expiries-delivers_example :
    (p' : Peripheral (List (List ℕ))) × (q : List Event) × (calls : List Call) × ((expiries payloads
        plain_encode 30 30 40 pong 2
        (9, peripheral client)).1
      ≡ peripheral p')
    × (bt_send_work_handler events 3 (
          receive_all events plain_decode hub
            (received hub_central (sent (pump payloads 40 2 p').1)))
        ≡ some (record hub { event_queue = q }, calls))
    × AreTicks pong 5 2 9 calls
unfolding ble_publish ticks count_text print_int digits
expiries-delivers_example =
    expiries-delivers payloads events plain_encode plain_decode 30 30 40 plain_codec pong 5 2 9
      client 7 3 hub_central hub refl refl refl (inl (omega arith), (inl (omega arith), tt))
      (
        (omega arith, omega arith, _, refl, omega arith),
        ((omega arith, omega arith, _, refl, omega arith), tt),
      )
      (omega arith) refl refl handler_of-pong refl (omega arith)
