-- ===== src/App/Ticker/Delivery.antt =====
-- From the timer of a client to the handler of a hub.
use pyrinas_zephyr.Common.{
  ℕ, zero, suc, ◌≡◌, ◌≤◌, ◌+◌, ◌%◌, ◌^◌, refl, sym, ap, ◌∙◌, true, Option, none, some, List, [],
  ◌∷◌, ◌++◌, map, Msgq, arith, length,
}
use pyrinas_zephyr.Ble.Subscriptions.{SubscriptionList}
use pyrinas_zephyr.Ble.Subscriptions.Search.{handler_of}
use pyrinas_zephyr.Ble.Events.{Event, Call, subscribed, BleM, bt_send_work_handler}
use pyrinas_zephyr.Ble.Events.Calls.{handler_calls, calls_for, calls_for_all, whole}
use pyrinas_zephyr.Ble.Events.Delivery.{receive_all}
use pyrinas_zephyr.Ble.Peripheral as Peripheral
use pyrinas_zephyr.Ble.Peripheral.{Peripheral}
use pyrinas_zephyr.Ble.Peripheral.Fifo.{sent, pump}
use pyrinas_zephyr.Ble.Central.{Central}
use pyrinas_zephyr.Ble.Role.{Role, peripheral, ble_is_connected, publish}
use pyrinas_zephyr.Ble.Role.Link.{event_for, received, IsCodec, publish_all-delivers}
use pyrinas_zephyr.Ble.Role.Queueing.{Message, publish_all, AllFit, publish-keeps}
use pyrinas_zephyr.App.Ticker.Reading.{read_int, signed, IsShown, read_int-count_text}
use pyrinas_zephyr.App.Ticker.{count_text, my_expiry_function, expiries}

-- The messages of so many rounds, from a counter on.
unfoldable pub ticks : List ℕ → ℕ → ℕ → List Message
ticks name zero n = []
ticks name (suc k) n =
    record { name = name; content = count_text n } ∷ ticks name k ((n + 1) % 2 ^ 32)

-- Each counter can be shown in nine characters.
abbrev pub AllShown : ℕ → ℕ → Type 0
AllShown zero n = Unit {0}
AllShown (suc k) n = IsShown n × AllShown k ((n + 1) % 2 ^ 32)

-- A call of the handler with the whole name, and a text that reads as the counter.
abbrev pub IsTick : List ℕ → ℕ → ℕ → Call → Type 0
IsTick name handler n call =
    (text : List ℕ) × (call ≡ subscribed handler (name ++ 0 ∷ []) (text ++ 0 ∷ []))
    × (read_int text ≡ signed n)

abbrev pub AreTicks : List ℕ → ℕ → ℕ → ℕ → List Call → Type 0
AreTicks name handler zero n [] = Unit {0}
AreTicks name handler zero n (call ∷ calls) = ⊥
AreTicks name handler (suc k) n [] = ⊥
AreTicks name handler (suc k) n (call ∷ calls) =
    IsTick name handler n call × AreTicks name handler k ((n + 1) % 2 ^ 32) calls

length-ticks : (name : List ℕ) (k n : ℕ) → length (ticks name k n) ≡ k
unfolding ticks
length-ticks name zero n = refl
length-ticks name (suc k) n = omega (arith, length-ticks name k ((n + 1) % 2 ^ 32))

calls_for-tick :
    (l : SubscriptionList) (name : List ℕ) (handler n : ℕ)
    → handler_of l (whole name) ≡ some handler
    → calls_for l none (event_for (record { name = name; content = count_text n }))
      ≡ subscribed handler (name ++ 0 ∷ []) (count_text n ++ 0 ∷ []) ∷ []
unfolding calls_for handler_calls
calls_for-tick l name handler n h = rw h refl

calls_for_all-AreTicks :
    (l : SubscriptionList) (name : List ℕ) (handler k n : ℕ)
    → handler_of l (whole name) ≡ some handler
    → AllShown k n
    → AreTicks name handler k n (calls_for_all l none (map event_for (ticks name k n)))
unfolding ticks calls_for_all
calls_for_all-AreTicks l name handler zero n h shown = tt
calls_for_all-AreTicks l name handler (suc k) n h (shown, rest) =
    rw (calls_for-tick l name handler n h) (
      (count_text n, refl, read_int-count_text n shown),
      calls_for_all-AreTicks l name handler k ((n + 1) % 2 ^ 32) h rest,
    )

module _ {Q : Type 0} (K : Msgq (List ℕ) Q) (pb_encode : Event → Option (List ℕ))
    (name_bytes data_bytes item_size : ℕ) (name : List ℕ) where
  expiry_connected :
      (n : ℕ) (r : Role Q)
      → ble_is_connected r ≡ true
      → my_expiry_function K pb_encode name_bytes data_bytes item_size name (n, r) ≡ (
        (n + 1) % 2 ^ 32,
        (publish K pb_encode name_bytes data_bytes item_size name (count_text n) r).0,
      )
  unfolding my_expiry_function
  expiry_connected n r up = rw up refl

  -- Of a connected peripheral, the rounds publish their messages one after the other.
  expiries-publish_all :
      (k n : ℕ) (p : Peripheral Q)
      → p.ready ≡ true
      → (expiries K pb_encode name_bytes data_bytes item_size name k (n, peripheral p)).1
        ≡ publish_all K pb_encode name_bytes data_bytes item_size (ticks name k n) (peripheral p)
  unfolding expiries publish_all ticks ble_is_connected Peripheral.ble_peripheral_is_connected
  expiries-publish_all zero n p up = refl
  expiries-publish_all (suc k) n p up =
      let (q, kept) =
        publish-keeps K pb_encode name_bytes data_bytes item_size name (count_text n) p in
      ap (λ s. (expiries K pb_encode name_bytes data_bytes item_size name k s).1)
        (expiry_connected n (peripheral p) up ∙ ap (λ r. ((n + 1) % 2 ^ 32, r)) kept)
      ∙ expiries-publish_all k ((n + 1) % 2 ^ 32) (record p { event_queue = q }) up
      ∙ ap
          (publish_all K pb_encode name_bytes data_bytes item_size
            (ticks name k ((n + 1) % 2 ^ 32)))
          (sym kept)

module _ {Q E : Type 0} (K : Msgq (List ℕ) Q) (KE : Msgq Event E)
    (pb_encode : Event → Option (List ℕ)) (pb_decode : List ℕ → Option Event)
    (name_bytes data_bytes item_size : ℕ) where
  delivers_at :
      {R : Type 0}
      → IsCodec pb_encode pb_decode
      → (msgs : List Message) (k : ℕ) (p : Peripheral Q) (conn cb : ℕ) (c : Central R)
        (hub : BleM E)
      → length msgs ≡ k
      → AllFit K pb_encode name_bytes data_bytes item_size msgs
      → p.current_conn ≡ some conn
      → K.items p.event_queue ≡ []
      → k ≤ K.capacity
      → c.evt_cb ≡ some cb
      → KE.items hub.event_queue ≡ []
      → k ≤ KE.capacity
      → (p' : Peripheral Q) × (q : E) × (publish_all K pb_encode name_bytes data_bytes item_size
            msgs
            (peripheral p)
          ≡ peripheral p')
        × (bt_send_work_handler KE
              (suc k)
              (receive_all KE pb_decode hub (received c (sent (pump K item_size k p').1)))
            ≡ some (
              record hub { event_queue = q },
              calls_for_all hub.subscribe_list hub.raw_handler_ext (map event_for msgs),
            ))
  delivers_at codec msgs k p conn cb c hub count fit up empty room heard idle space =
      let (p', q, published, run, _, _) =
        publish_all-delivers K KE pb_encode pb_decode name_bytes data_bytes item_size codec msgs p
          conn cb c hub fit up empty (omega (arith, count)) heard idle (omega (arith, count)) in
      (p', q, published, rw count at run)

  -- The timer of a connected client expires `k` times: the next run of the hub's work calls the
  -- handler that the hub has for the name `k` times and makes no other call, each time with
  -- the whole name and with a text that reads, with its sign, as the counter, which goes up by one
  -- from round to round. The queues are empty at first and have room for all rounds; the counters
  -- are from -99999999 to 999999999, the messages are short enough and not refused, their packets
  -- fit, a callback is attached to the central, and the hub has no raw handler; each payload
  -- that is sent is followed by its callback and the work that this submits. The link and the
  -- codec are assumed to be faithful.
  pub expiries-delivers :
      {R : Type 0}
      → IsCodec pb_encode pb_decode
      → (name : List ℕ) (handler k n : ℕ) (p : Peripheral Q) (conn cb : ℕ) (c : Central R)
        (hub : BleM E)
      → p.ready ≡ true
      → p.current_conn ≡ some conn
      → K.items p.event_queue ≡ []
      → AllShown k n
      → AllFit K pb_encode name_bytes data_bytes item_size (ticks name k n)
      → k ≤ K.capacity
      → c.evt_cb ≡ some cb
      → hub.raw_handler_ext ≡ none
      → handler_of hub.subscribe_list (whole name) ≡ some handler
      → KE.items hub.event_queue ≡ []
      → k ≤ KE.capacity
      → (p' : Peripheral Q) × (q : E) × (calls : List Call) × ((expiries K pb_encode name_bytes
            data_bytes item_size name k
            (n, peripheral p)).1
          ≡ peripheral p')
        × (bt_send_work_handler KE
              (suc k)
              (receive_all KE pb_decode hub (received c (sent (pump K item_size k p').1)))
            ≡ some (record hub { event_queue = q }, calls))
        × AreTicks name handler k n calls
  expiries-delivers codec name handler k n p conn cb c hub ready up empty shown fit room heard quiet
        found idle space =
      let (p', q, published, run) =
        delivers_at codec (ticks name k n) k p conn cb c hub (length-ticks name k n) fit up empty
          room heard idle space in
      (
        p',
        q,
        calls_for_all hub.subscribe_list none (map event_for (ticks name k n)),
        expiries-publish_all K pb_encode name_bytes data_bytes item_size name k n p ready
            ∙ published,
        run
            ∙ ap
                (λ h. some (
                  record hub { event_queue = q },
                  calls_for_all hub.subscribe_list h (map event_for (ticks name k n)),
                ))
                quiet,
        calls_for_all-AreTicks hub.subscribe_list name handler k n found shown,
      )
