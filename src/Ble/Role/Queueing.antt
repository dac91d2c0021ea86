-- ===== src/Ble/Role/Queueing.antt =====
-- What `ble_publish` puts into the queue of a peripheral.
use pyrinas_zephyr.Common.{
  ℕ, ◌≡◌, ◌≤◌, ◌<◌, ◌+◌, refl, sym, ap, ◌∙◌, Option, some, List, [], ◌∷◌, ◌++◌, Msgq, arith, inl,
  inr, length, append-nil, append_assoc, length-append, none, Option-cases, Bool-cases, ltb,
}
use pyrinas_zephyr.Ble.Events.{Event, ble_publish}
use pyrinas_zephyr.Ble.Peripheral as Peripheral
use pyrinas_zephyr.Ble.Peripheral.{Peripheral}
use pyrinas_zephyr.Ble.Role.{Role, peripheral, role_write, publish}

-- A name and its content.
pub record Message : Type 0 where
  pub name : List ℕ
  pub content : List ℕ

module _ {Q : Type 0} (K : Msgq (List ℕ) Q) (pb_encode : Event → Option (List ℕ))
    (name_bytes data_bytes item_size : ℕ) where
  -- The application publishes one message after the other.
  unfoldable pub publish_all : List Message → Role Q → Role Q
  publish_all [] r = r
  publish_all (msg ∷ msgs) r =
      publish_all msgs
        (publish K pb_encode name_bytes data_bytes item_size msg.name msg.content r).0

  -- The message is short enough to be published whole, is not refused, and fits the queue's entries.
  abbrev pub IsFit : Message → Type 0
  IsFit msg =
      (length msg.name < 255)
      × (length msg.content < 255)
      × (packet : List ℕ) × (ble_publish pb_encode name_bytes data_bytes msg.name msg.content
          ≡ some packet)
      × (length packet ≤ item_size)

  abbrev pub AllFit : List Message → Type 0
  AllFit [] = Unit {0}
  AllFit (msg ∷ msgs) = IsFit msg × AllFit msgs

  -- Their packets.
  unfoldable pub packets_of : (msgs : List Message) → AllFit msgs → List (List ℕ)
  packets_of [] h = []
  packets_of (msg ∷ msgs) h = h.0.2 ∷ packets_of msgs h.1

  pub length-packets_of :
      (msgs : List Message) (h : AllFit msgs) → length (packets_of msgs h) ≡ length msgs
  unfolding packets_of
  length-packets_of [] h = refl
  length-packets_of (msg ∷ msgs) h = omega (arith, length-packets_of msgs h.1)

  write-keeps :
      (packet : List ℕ) (p : Peripheral Q)
      → (q : Q) × ((Peripheral.ble_peripheral_write K item_size packet p).0
          ≡ record p { event_queue = q })
  unfolding Peripheral.ble_peripheral_write
  write-keeps packet p = elim (Option-cases p.current_conn) [
    | inl none_up ↦ (p.event_queue, ground arith)
    | inr (conn, up) ↦ elim (Option-cases (K.put packet p.event_queue)) [
      | inl full ↦ (p.event_queue, ground arith)
      | inr (q, put) ↦ elim (Bool-cases (ltb item_size (length packet))) [
        | inl long ↦ (p.event_queue, ground arith)
        | inr fits ↦ (q, ground arith)
      ]
    ]
  ]

  publish_written :
      (name content packet : List ℕ) (r : Role Q)
      → ble_publish pb_encode name_bytes data_bytes name content ≡ some packet
      → publish K pb_encode name_bytes data_bytes item_size name content r
        ≡ role_write K item_size packet r
  unfolding publish
  publish_written name content packet r e = ground arith

  publish_refused :
      (name content : List ℕ) (r : Role Q)
      → ble_publish pb_encode name_bytes data_bytes name content ≡ none
      → publish K pb_encode name_bytes data_bytes item_size name content r ≡ (r, [])
  unfolding publish
  publish_refused name content r e = ground arith

  -- A publication changes the queue of a peripheral at most.
  pub publish-keeps :
      (name content : List ℕ) (p : Peripheral Q)
      → (q : Q) × ((publish K pb_encode name_bytes data_bytes item_size name content
            (peripheral p)).0
          ≡ peripheral (record p { event_queue = q }))
  unfolding role_write
  publish-keeps name content p =
      elim (Option-cases (ble_publish pb_encode name_bytes data_bytes name content)) [
        | inl refused ↦
            (p.event_queue, ap (λ x. x.0) (publish_refused name content (peripheral p) refused))
        | inr (packet, e) ↦
            let (q, kept) = write-keeps packet p in
            (
              q,
              ap (λ x. x.0) (publish_written name content packet (peripheral p) e)
                  ∙ ap peripheral kept,
            )
      ]

  publish-queued :
      (msg : Message) (packet : List ℕ) (p : Peripheral Q) (conn : ℕ)
      → ble_publish pb_encode name_bytes data_bytes msg.name msg.content ≡ some packet
      → length packet ≤ item_size
      → p.current_conn ≡ some conn
      → length (K.items p.event_queue) < K.capacity
      → (q : Q) × ((publish K pb_encode name_bytes data_bytes item_size msg.name msg.content
            (peripheral p)).0
          ≡ peripheral (record p { event_queue = q }))
        × (K.items q ≡ K.items p.event_queue ++ packet ∷ [])
  unfolding publish role_write Peripheral.ble_peripheral_write
  publish-queued msg packet p conn e fits c room = elim (K.put_cases packet p.event_queue) [
    | inl (_, q, put, items) ↦ (q, ground arith, items)
    | inr (full, _) ↦ absurd (omega arith)
  ]

  pub publish_all-queued :
      (msgs : List Message) (h : AllFit msgs) (p : Peripheral Q) (conn : ℕ)
      → p.current_conn ≡ some conn
      → length (K.items p.event_queue) + length msgs ≤ K.capacity
      → (q : Q) × (publish_all msgs (peripheral p) ≡ peripheral (record p { event_queue = q }))
        × (K.items q ≡ K.items p.event_queue ++ packets_of msgs h)
  unfolding publish_all packets_of
  publish_all-queued [] h p conn c room = (p.event_queue, refl, sym (append-nil _))
  publish_all-queued (msg ∷ msgs) ((short, short', packet, e, fits), h) p conn c room =
      let (q, one, items) = publish-queued msg packet p conn e fits c (omega arith) in
      let (q', more, all) =
        publish_all-queued msgs h (record p { event_queue = q }) conn c
          (omega (arith, ap length items, length-append (K.items p.event_queue) (packet ∷ []))) in
      (
        q',
        ap (publish_all msgs) one ∙ more,
        all ∙ rw items (append_assoc (K.items p.event_queue) (packet ∷ []) (packets_of msgs h)),
      )
