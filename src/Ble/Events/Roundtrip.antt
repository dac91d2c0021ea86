-- ===== src/Ble/Events/Roundtrip.antt =====
-- From `ble_publish` of lib/ble/ble_m.c on one device to the handlers of another.
use mathlib.Core.Path.{ap₂}
use pyrinas_zephyr.Common.{
  ℕ, sym, ◌<◌, ◌≡◌, ◌≢◌, refl, ap, ◌∙◌, true, Option, none, some, List, [], ◌∷◌, ◌++◌, length,
  arith, Msgq,
}
use pyrinas_zephyr.Ble.Subscriptions.{
  SubscriptionList, name_length, to_event_name, ble_subscribe, max_subscriptions,
}
use pyrinas_zephyr.Ble.Subscriptions.Search.{handler_of}
use pyrinas_zephyr.Ble.Subscriptions.Handlers.{to_event_name_self, handler_of-ble_subscribe, Inv}
use pyrinas_zephyr.Ble.Events.{
  Event, Call, raw, subscribed, BleM, ble_publish, to_event, bt_send_work_handler, ble_evt_handler,
}
use pyrinas_zephyr.Ble.Events.Calls.{
  handler_calls, calls_for, calls_for_all, whole, to_event_name-whole,
}
use pyrinas_zephyr.Ble.Events.Delivery.{decoded, decoded-some, receive_all, receive_all-delivers}

pub to_event-some :
    (name_bytes data_bytes : ℕ) (name content : List ℕ)
    → name_length name < name_bytes
    → name_length content < data_bytes
    → to_event name_bytes data_bytes name content
      ≡ some (record { name = to_event_name name; content = to_event_name content })
unfolding to_event
to_event-some name_bytes data_bytes name content h k = ground arith

-- An event of this name and content, as `ble_publish` builds it.
abbrev pub event_of : List ℕ → List ℕ → Event
event_of name content = record { name = to_event_name name; content = to_event_name content }

pub event_of-whole :
    (name content : List ℕ)
    → length name < 255
    → length content < 255
    → event_of name content ≡ record { name = whole name; content = whole content }
event_of-whole name content h k =
    ap₂ (λ name content. record { name = name; content = content }) (to_event_name-whole name h)
      (to_event_name-whole content k)

-- The call of the raw handler, if there is one.
abbrev pub raw_first : Option ℕ → Event → List Call
raw_first none evt = []
raw_first (some handler) evt = raw handler evt ∷ []

calls_for-one :
    (l : SubscriptionList) (raw_handler : Option ℕ) (evt : Event) (handler : ℕ)
    → handler_of l evt.name ≡ some handler
    → calls_for_all l raw_handler (evt ∷ [])
      ≡ raw_first raw_handler evt ++ subscribed handler evt.name.bytes evt.content.bytes ∷ []
unfolding calls_for_all calls_for handler_calls
calls_for-one l none evt handler h = rw h refl
calls_for-one l (some r) evt handler h = rw h refl

pub ble_publish-some :
    (pb_encode : Event → Option (List ℕ)) (name_bytes data_bytes : ℕ) (name content : List ℕ)
    {packet : List ℕ}
    → ble_publish pb_encode name_bytes data_bytes name content ≡ some packet
    → pb_encode (event_of name content) ≡ some packet
unfolding ble_publish
ble_publish-some pb_encode name_bytes data_bytes name content e = ground arith

decoded-one :
    (pb_decode : List ℕ → Option Event) (packet : List ℕ) (evt : Event)
    → pb_decode packet ≡ some evt
    → decoded pb_decode (packet ∷ []) ≡ evt ∷ []
unfolding decoded
decoded-one pb_decode packet evt e = decoded-some pb_decode [] e

submitted :
    {Q : Type 0} (K : Msgq Event Q) (pb_decode : List ℕ → Option Event) (m : BleM Q)
    (packet : List ℕ) (evt : Event)
    → pb_decode packet ≡ some evt
    → packet ≢ []
    → (ble_evt_handler K pb_decode m (some packet)).1 ≡ true
unfolding ble_evt_handler
submitted K pb_decode m [] evt e h = absurd (h refl)
submitted K pb_decode m (b ∷ bs) evt e h = ground arith

module _ {Q : Type 0} (K : Msgq Event Q) (pb_encode : Event → Option (List ℕ))
    (pb_decode : List ℕ → Option Event) where
  -- What one device publishes and another receives, where the name is subscribed, the queue is empty
  -- and has room: the work is submitted, and its run makes the call of the raw handler, if there
  -- is one, and then that of the subscribed handler, with that name and that content, both whole and
  -- with their terminators, and leaves the queue empty. The name and the content have less than 255
  -- bytes, and the publication is not refused. The codec is assumed to read what it has written, and
  -- to write at least one byte.
  pub ble_publish-delivers :
      ((evt : Event) (packet : List ℕ)
        → pb_encode evt ≡ some packet
        → (pb_decode packet ≡ some evt) × (packet ≢ []))
      → (m : BleM Q) (name_bytes data_bytes handler : ℕ) (name content packet : List ℕ)
      → length name < 255
      → length content < 255
      → ble_publish pb_encode name_bytes data_bytes name content ≡ some packet
      → handler_of m.subscribe_list (whole name) ≡ some handler
      → K.items m.event_queue ≡ []
      → 0 < K.capacity
      → ((ble_evt_handler K pb_decode m (some packet)).1 ≡ true)
        × (q : Q) × (bt_send_work_handler K 2 (ble_evt_handler K pb_decode m (some packet)).0
            ≡ some (
              record m { event_queue = q },
              raw_first m.raw_handler_ext (record { name = whole name; content = whole content })
                  ++ subscribed handler (name ++ 0 ∷ []) (content ++ 0 ∷ []) ∷ [],
            ))
        × (K.items q ≡ [])
  unfolding receive_all
  ble_publish-delivers codec m name_bytes data_bytes handler name content packet short short' sent
        found e room =
      let evt : Event = record { name = whole name; content = whole content } in
      let (read, nonempty) = codec evt packet (
        ap pb_encode (sym (event_of-whole name content short short'))
        ∙ ble_publish-some pb_encode name_bytes data_bytes name content sent) in
      let one : decoded pb_decode (packet ∷ []) ≡ evt ∷ [] =
        decoded-one pb_decode packet evt read in
      let (q, run, left) =
        receive_all-delivers K pb_decode m (packet ∷ []) 2 e (nonempty, tt)
          (omega (arith, ap length one)) (omega (arith, ap length one)) in
      (
        submitted K pb_decode m packet evt read nonempty,
        q,
        run
            ∙ ap (λ calls. some (record m { event_queue = q }, calls))
                (ap (calls_for_all m.subscribe_list m.raw_handler_ext) one
                  ∙ calls_for-one m.subscribe_list m.raw_handler_ext evt handler found),
        left,
      )

-- A name that just fills its array can be subscribed to and not published.
pub ble_publish_boundary :
    (pb_encode : Event → Option (List ℕ)) (name_bytes data_bytes handler : ℕ) (l : SubscriptionList)
    (name content : List ℕ)
    → Inv l
    → l.count < max_subscriptions
    → name_length name ≡ name_bytes
    → (ble_publish pb_encode name_bytes data_bytes name content ≡ none)
      × (handler_of (ble_subscribe name_bytes l name handler) (to_event_name name) ≡ some handler)
ble_publish_boundary pb_encode name_bytes data_bytes handler l name content v room e = (
  unfold ble_publish in ground arith,
  handler_of-ble_subscribe name_bytes l name handler (to_event_name name) v (omega arith) room
      ∙ rw (to_event_name_self name) refl,
)
