-- ===== src/Ble/Events.antt =====
-- The event path of lib/ble/ble_m.c: `ble_publish` and `ble_publish_raw` on the sender's side, and
-- `ble_evt_handler` and `bt_send_work_handler` on the receiver's. The queue is Zephyr's and the codec
-- nanopb's: both are parameters. A handler is called with the event, and is taken to leave the
-- module's own state alone.
pub mod Calls
pub mod Delivery
pub mod Plain
pub mod Roundtrip
mod Tests
use pyrinas_zephyr.Common.{
  ℕ, zero, suc, ◌+◌, ◌%◌, Bool, true, false, Option, none, some, List, [], ◌∷◌, ◌++◌, ltb, leb,
  ◌==◌, if◌then◌else◌, length, take, Msgq,
}
use pyrinas_zephyr.Ble.Subscriptions.{
  EventName, SubscriptionList, name_length, to_event_name, subscriber_search, Subscriber,
}
use pyrinas_zephyr.Common.{get_elem?}

-- `protobuf_event_t`
pub record Event : Type 0 where
  pub name : EventName
  pub content : EventName

-- A call of `m_raw_handler_ext`, or of the `evt_handler` of an entry of the subscription list.
pub data Call : Type 0 where
  raw : ℕ → Event → Call
  subscribed : ℕ → List ℕ → List ℕ → Call

-- The module's variables.
pub record BleM (Q : Type 0) : Type 0 where
  pub event_queue : Q
  pub subscribe_list : SubscriptionList
  pub raw_handler_ext : Option ℕ

-- `ble_publish`, up to `ble_publish_raw`: the event, if both lengths fit their arrays.
-- `name_bytes` and `data_bytes` are the sizes of those arrays.
pub to_event : ℕ → ℕ → List ℕ → List ℕ → Option Event
to_event name_bytes data_bytes name content =
    if leb name_bytes (name_length name)
    then none
    else if leb data_bytes (name_length content)
    then none
    else some (record { name = to_event_name name; content = to_event_name content })

-- `ble_publish_raw`: what is handed to `ble_peripheral_write` or `ble_central_write`.
pub ble_publish_raw : (Event → Option (List ℕ)) → Event → Option (List ℕ)
ble_publish_raw pb_encode event = pb_encode event

unfoldable pub ble_publish : (Event → Option (List ℕ)) → ℕ → ℕ → List ℕ → List ℕ → Option (List ℕ)
unfolding to_event ble_publish_raw
ble_publish pb_encode name_bytes data_bytes name content =
    elim (to_event name_bytes data_bytes name content) [
      | none ↦ none
      | some event ↦ ble_publish_raw pb_encode event
    ]

-- The calls for one event, in their order.
unfoldable pub raw_calls : Option ℕ → Event → List Call
raw_calls none evt = []
raw_calls (some handler) evt = raw handler evt ∷ []

pub entry_calls : Option Subscriber → Event → List Call
entry_calls none evt = []
entry_calls (some s) evt = subscribed s.evt_handler evt.name.bytes evt.content.bytes ∷ []

pub subscriber_calls : SubscriptionList → Option ℕ → Event → List Call
unfolding entry_calls
subscriber_calls l none evt = []
subscriber_calls l (some index) evt = entry_calls (get_elem? l.subscribers index) evt

unfoldable pub forward : SubscriptionList → Option ℕ → Event → List Call
unfolding raw_calls subscriber_calls
forward l raw_handler evt =
    raw_calls raw_handler evt ++ subscriber_calls l (subscriber_search l evt.name) evt

pub ble_subscribe_raw : {Q : Type 0} → ℕ → BleM Q → BleM Q
ble_subscribe_raw handler m = record m { raw_handler_ext = some handler }

module _ {Q : Type 0} (K : Msgq Event Q) where
  -- The loop of `bt_send_work_handler`, with fuel; `none` means that the fuel ran out.
  pub bt_send_work_handler : ℕ → BleM Q → Option (BleM Q × List Call)
  bt_send_work_handler zero m = none
  bt_send_work_handler (suc fuel) m =
      if K.num_used_get m.event_queue == 0 then some (m, []) else elim (K.get m.event_queue) [
        | none ↦ bt_send_work_handler fuel m
        | some (evt, q) ↦ elim (bt_send_work_handler fuel (record m { event_queue = q })) [
          | none ↦ none
          | some (m', calls) ↦ some (m', forward m.subscribe_list m.raw_handler_ext evt ++ calls)
        ]
      ]

  -- An event goes to the queue; a full queue drops it.
  pub enqueue : BleM Q → Event → BleM Q
  enqueue m evt = elim (K.put evt m.event_queue) [
    | none ↦ m
    | some q ↦ record m { event_queue = q }
  ]

  -- `data` and `len`; the Boolean says whether the work is submitted. `none` is a null pointer.
  pub ble_evt_handler : (List ℕ → Option Event) → BleM Q → Option (List ℕ) → BleM Q × Bool
  unfolding enqueue
  ble_evt_handler pb_decode m none = (m, false)
  ble_evt_handler pb_decode m (some []) = (m, false)
  ble_evt_handler pb_decode m (some (b ∷ bytes)) = elim (pb_decode (b ∷ bytes)) [
    | none ↦ (m, false)
    | some evt ↦ (enqueue m evt, true)
  ]
