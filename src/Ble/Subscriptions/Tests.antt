-- ===== src/Ble/Subscriptions/Tests.antt =====
-- Runs of the subscription list on concrete names.
use pyrinas_zephyr.Common.{
  ℕ, ◌≡◌, refl, some, List, [], ◌∷◌, arith, replicate, mem_eq, if◌then◌else◌,
}
use pyrinas_zephyr.Ble.Subscriptions.{
  Subscriber, SubscriptionList, to_event_name, is_named, ble_subscribe, search_from,
  subscriber_search,
}
use pyrinas_zephyr.Ble.Subscriptions.Search.{handler_of}
use pyrinas_zephyr.Ble.Subscriptions.Handlers.{Inv, handler_of-ble_subscribe}

abbrev unused : Subscriber
unused = record { evt_handler = 0; name = record { size = 0; bytes = [] } }

abbrev fresh : SubscriptionList
fresh = record { subscribers = replicate 12 unused; count = 0 }

abbrev ping : List ℕ
ping = b'p' ∷ b'i' ∷ b'n' ∷ b'g' ∷ []

-- One entry, "ping" with handler 5.
abbrev pinged : SubscriptionList
pinged = record {
  subscribers = record { evt_handler = 5; name = to_event_name ping } ∷ replicate 11 unused;
  count = 1;
}

subscribe_ping : ble_subscribe 30 fresh ping 5 ≡ pinged
unfolding ble_subscribe subscriber_search search_from
subscribe_ping = refl

-- A name that is there already keeps its place.
subscribe_again : (ble_subscribe 30 pinged ping 6).count ≡ 1
unfolding ble_subscribe subscriber_search search_from is_named mem_eq
subscribe_again = refl

pinged-Inv : Inv pinged
unfolding search_from
pinged-Inv = record { array = refl; in_use = omega arith; distinct = (refl, tt) }

handler_of-ble_subscribe_example :
    handler_of (ble_subscribe 30 pinged ping 6) (to_event_name ping) ≡ (
      if is_named (to_event_name ping) (to_event_name ping)
      then some 6
      else handler_of pinged (to_event_name ping))
handler_of-ble_subscribe_example =
    handler_of-ble_subscribe 30 pinged ping 6 (to_event_name ping) pinged-Inv (omega arith)
      (omega arith)
