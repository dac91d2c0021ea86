-- ===== src/Ble/Role/Link.antt =====
-- From `ble_publish` on a peripheral to the handlers of a central, with the queues between.
use pyrinas_zephyr.Common.{
  ℕ, suc, sym, ◌<◌, ◌≡◌, ◌≢◌, ◌≤◌, refl, ap, ◌∙◌, Option, some, List, [], ◌∷◌, ◌++◌, map, Msgq,
  arith, length,
}
use pyrinas_zephyr.Ble.Events.{Event, BleM, ble_publish, bt_send_work_handler}
use pyrinas_zephyr.Ble.Events.Calls.{whole, calls_for_all}
use pyrinas_zephyr.Ble.Events.Delivery.{decoded, AllFull, receive_all, receive_all-delivers}
use pyrinas_zephyr.Ble.Events.Roundtrip.{event_of-whole, ble_publish-some}
use pyrinas_zephyr.Ble.Peripheral.{Peripheral}
use pyrinas_zephyr.Ble.Peripheral.Fifo.{sent, pump, pump-drains}
use pyrinas_zephyr.Ble.Central as Central
use pyrinas_zephyr.Ble.Central.{Central, evt_call}
use pyrinas_zephyr.Ble.Role.{peripheral}
use pyrinas_zephyr.Ble.Role.Queueing.{
  Message, AllFit, publish_all, packets_of, length-packets_of, publish_all-queued,
}

-- The packets of `ble_data_received` among the actions of a central.
abbrev pub handed : List Central.Action → List (List ℕ)
handed [] = []
handed (evt_call cb packet ∷ actions) = packet ∷ handed actions
handed (_ ∷ actions) = handed actions

-- The stack of Zephyr delivers what a peripheral sends, in order.
unfoldable pub received : {R : Type 0} → Central R → List (List ℕ) → List (List ℕ)
received c [] = []
received c (packet ∷ packets) = handed (Central.ble_data_received packet c) ++ received c packets

received_all :
    {R : Type 0} (c : Central R) (cb : ℕ) (packets : List (List ℕ))
    → c.evt_cb ≡ some cb
    → received c packets ≡ packets
unfolding received Central.ble_data_received
received_all c cb [] h = refl
received_all c cb (packet ∷ packets) h = rw (h, received_all c cb packets h) refl

-- The event of a message, whole.
abbrev pub event_for : Message → Event
event_for msg = record { name = whole msg.name; content = whole msg.content }

length-map : (msgs : List Message) → length (map event_for msgs) ≡ length msgs
length-map [] = refl
length-map (msg ∷ msgs) = omega (arith, length-map msgs)

-- The codec reads what it has written, and writes at least one byte.
abbrev pub IsCodec : (Event → Option (List ℕ)) → (List ℕ → Option Event) → Type 0
IsCodec pb_encode pb_decode =
    (evt : Event) (packet : List ℕ)
    → pb_encode evt ≡ some packet
    → (pb_decode packet ≡ some evt) × (packet ≢ [])

module _ {Q E : Type 0} (K : Msgq (List ℕ) Q) (KE : Msgq Event E)
    (pb_encode : Event → Option (List ℕ)) (pb_decode : List ℕ → Option Event)
    (name_bytes data_bytes item_size : ℕ) where
  codec_whole :
      IsCodec pb_encode pb_decode
      → (msg : Message) (packet : List ℕ) → length msg.name < 255
      → length msg.content < 255
      → ble_publish pb_encode name_bytes data_bytes msg.name msg.content ≡ some packet
      → (pb_decode packet ≡ some (event_for msg)) × (packet ≢ [])
  codec_whole codec msg packet short short' e = codec (event_for msg) packet (
      ap pb_encode (sym (event_of-whole msg.name msg.content short short'))
      ∙ ble_publish-some pb_encode name_bytes data_bytes msg.name msg.content e)

  packets_of-AllFull :
      IsCodec pb_encode pb_decode
      → (msgs : List Message) (h : AllFit K pb_encode name_bytes data_bytes item_size msgs)
      → AllFull (packets_of K pb_encode name_bytes data_bytes item_size msgs h)
  unfolding packets_of
  packets_of-AllFull codec [] h = tt
  packets_of-AllFull codec (msg ∷ msgs) ((short, short', packet, e, fits), h) =
      ((codec_whole codec msg packet short short' e).1, packets_of-AllFull codec msgs h)

  decoded-packets_of :
      IsCodec pb_encode pb_decode
      → (msgs : List Message) (h : AllFit K pb_encode name_bytes data_bytes item_size msgs)
      → decoded pb_decode (packets_of K pb_encode name_bytes data_bytes item_size msgs h)
        ≡ map event_for msgs
  unfolding packets_of decoded
  decoded-packets_of codec [] h = refl
  decoded-packets_of codec (msg ∷ msgs) ((short, short', packet, e, fits), h) =
      rw ((codec_whole codec msg packet short short' e).0, decoded-packets_of codec msgs h) refl

  -- What a connected peripheral publishes, one message after the other, reaches the central: the next
  -- run of its work handler makes for each message, once and in order, the call of the raw
  -- handler, if there is one, and of the handler that the first entry of its name has, if there is
  -- one, with the message whole; no other call is made, and both queues are empty afterwards. The
  -- queues are empty at first and have room for all messages; each name and content has less than
  -- 255 bytes, no publication is refused, and the packets fit; each payload that is sent is followed
  -- by its callback and the work that this submits. The link and the codec are assumed to be
  -- faithful, and a callback to be attached to the central.
  pub publish_all-delivers :
      {R : Type 0}
      → IsCodec pb_encode pb_decode
      → (msgs : List Message) (p : Peripheral Q) (conn cb : ℕ) (c : Central R) (hub : BleM E)
      → AllFit K pb_encode name_bytes data_bytes item_size msgs
      → p.current_conn ≡ some conn
      → K.items p.event_queue ≡ []
      → length msgs ≤ K.capacity
      → c.evt_cb ≡ some cb
      → KE.items hub.event_queue ≡ []
      → length msgs ≤ KE.capacity
      → (p' : Peripheral Q) × (q : E) × (publish_all K pb_encode name_bytes data_bytes item_size
            msgs
            (peripheral p)
          ≡ peripheral p')
        × (bt_send_work_handler KE (suc (length msgs)) (
              receive_all KE pb_decode hub
                (received c (sent (pump K item_size (length msgs) p').1)))
            ≡ some (
              record hub { event_queue = q },
              calls_for_all hub.subscribe_list hub.raw_handler_ext (map event_for msgs),
            ))
        × (K.items (pump K item_size (length msgs) p').0.event_queue ≡ [])
        × (KE.items q ≡ [])
  publish_all-delivers codec msgs p conn cb c hub fit up empty room heard idle space =
      let (q, published, queued) =
        publish_all-queued K pb_encode name_bytes data_bytes item_size msgs fit p conn up
          (omega (arith, ap length empty)) in
      let p' : Peripheral Q = record p { event_queue = q } in
      let packets = packets_of K pb_encode name_bytes data_bytes item_size msgs fit in
      let all : K.items q ≡ packets = queued ∙ rw empty refl in
      let events = decoded-packets_of codec msgs fit in
      let count : length (decoded pb_decode packets) ≡ length msgs =
        ap length events ∙ length-map msgs in
      let (drained, went) = pump-drains K item_size (length msgs) p' conn up (
        omega (
          arith,
          ap length all,
          length-packets_of K pb_encode name_bytes data_bytes item_size msgs fit,
        )) in
      let (r, run, left) =
        receive_all-delivers KE pb_decode hub packets (suc (length msgs)) idle
          (packets_of-AllFull codec msgs fit) (omega (arith, count)) (omega (arith, count)) in
      (
        p',
        r,
        published,
        rw (went, all, received_all c cb packets heard) (run ∙ rw events refl),
        drained,
        left,
      )
