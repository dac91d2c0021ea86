-- ===== src/Ble/Events/Tests.antt =====
-- Runs of the event path with a queue of twenty entries and a codec for one event.
use pyrinas_zephyr.Common.{
  ℕ, ◌≡◌, refl, true, Option, some, List, [], ◌∷◌, ◌++◌, arith, replicate, Msgq, list_msgq, mem_eq,
}
use pyrinas_zephyr.Ble.Subscriptions.{
  Subscriber, SubscriptionList, to_event_name, is_named, search_from, subscriber_search,
}
use pyrinas_zephyr.Ble.Subscriptions.Search.{handler_of}
use pyrinas_zephyr.Ble.Events.{
  Event, raw, subscribed, BleM, ble_publish, bt_send_work_handler, ble_evt_handler, forward,
}
use pyrinas_zephyr.Ble.Events.Plain.{plain_encode, plain_decode, plain_codec}
use pyrinas_zephyr.Ble.Events.Delivery.{decoded, receive_all, receive_all-delivers}
use pyrinas_zephyr.Ble.Events.Roundtrip.{event_of, ble_publish-delivers}
use pyrinas_zephyr.Ble.Events.Calls.{calls_for_all, whole}

abbrev unused : Subscriber
unused = record { evt_handler = 0; name = record { size = 0; bytes = [] } }

abbrev ping : List ℕ
ping = b'p' ∷ b'i' ∷ b'n' ∷ b'g' ∷ []

abbrev one : List ℕ
one = b'1' ∷ []

abbrev pinged : SubscriptionList
pinged = record {
  subscribers = record { evt_handler = 5; name = to_event_name ping } ∷ replicate 11 unused;
  count = 1;
}

abbrev queue : Msgq Event (List Event)
queue = list_msgq 20

abbrev device : BleM (List Event)
device = record { event_queue = []; subscribe_list = pinged; raw_handler_ext = some 9 }

abbrev busy : BleM (List Event)
busy = record device { event_queue = event_of ping one ∷ [] }

drain_runs :
    bt_send_work_handler queue 2 busy
    ≡ some (device, raw 9 (event_of ping one) ∷ subscribed 5 (ping ++ 0 ∷ []) (one ++ 0 ∷ []) ∷ [])
unfolding bt_send_work_handler forward subscriber_search search_from is_named mem_eq
drain_runs = refl

-- Reads every packet as the event "ping" "1".
abbrev decode : List ℕ → Option Event
decode packet = some (event_of ping one)

receive_all-delivers_example :
    (q : List Event) × (bt_send_work_handler queue 3
        (receive_all queue decode device ((1 ∷ []) ∷ (2 ∷ []) ∷ []))
      ≡ some (
        record device { event_queue = q },
        calls_for_all pinged (some 9) (event_of ping one ∷ event_of ping one ∷ []),
      ))
    × (q ≡ [])
unfolding decoded
receive_all-delivers_example =
    receive_all-delivers queue decode device ((1 ∷ []) ∷ (2 ∷ []) ∷ []) 3 refl
      ((λ e. cc), ((λ e. cc), tt)) (omega arith) (omega arith)

abbrev packet : List ℕ
packet = 5 ∷ 5 ∷ 2 ∷ (ping ++ 0 ∷ one ++ 0 ∷ [])

handler_of-pinged : handler_of pinged (whole ping) ≡ some 5
unfolding handler_of is_named mem_eq
handler_of-pinged = refl

ble_publish-delivers_example :
    ((ble_evt_handler queue plain_decode device (some packet)).1 ≡ true)
    × (q : List Event) × (bt_send_work_handler queue 2
          (ble_evt_handler queue plain_decode device (some packet)).0
        ≡ some (
          record device { event_queue = q },
          raw 9 (event_of ping one) ∷ subscribed 5 (ping ++ 0 ∷ []) (one ++ 0 ∷ []) ∷ [],
        ))
    × (q ≡ [])
unfolding ble_publish
ble_publish-delivers_example =
    ble_publish-delivers queue plain_encode plain_decode plain_codec device 30 30 5 ping one packet
      (omega arith) (omega arith) refl handler_of-pinged refl (omega arith)
