-- ===== src/Ble/Events/Delivery.antt =====
-- What the receiving half of lib/ble/ble_m.c hands to the handlers.
use pyrinas_zephyr.Common.{
  ℕ, zero, suc, ◌+◌, ◌≤◌, ◌<◌, ◌≡◌, ◌≢◌, refl, sym, ap, ◌∙◌, Option, none, some, List, [], ◌∷◌,
  ◌++◌, length, length-append, append_assoc, append-nil, arith, Msgq, Option-cases, inl, inr,
}
use pyrinas_zephyr.Ble.Events.Calls.{calls_for, calls_for_all, forward-calls_for}
use pyrinas_zephyr.Ble.Events.{Event, Call, BleM, bt_send_work_handler, ble_evt_handler}

-- The events of the packets that the codec reads, in order.
unfoldable pub decoded : (List ℕ → Option Event) → List (List ℕ) → List Event
decoded pb_decode [] = []
decoded pb_decode (p ∷ ps) = elim (pb_decode p) [
  | none ↦ decoded pb_decode ps
  | some evt ↦ evt ∷ decoded pb_decode ps
]

decoded-none :
    (pb_decode : List ℕ → Option Event) {p : List ℕ} (ps : List (List ℕ))
    → pb_decode p ≡ none
    → decoded pb_decode (p ∷ ps) ≡ decoded pb_decode ps
unfolding decoded
decoded-none pb_decode ps e = rw (e, decoded) refl

pub decoded-some :
    (pb_decode : List ℕ → Option Event) {p : List ℕ} (ps : List (List ℕ)) {evt : Event}
    → pb_decode p ≡ some evt
    → decoded pb_decode (p ∷ ps) ≡ evt ∷ decoded pb_decode ps
unfolding decoded
decoded-some pb_decode ps e = rw (e, decoded) refl

abbrev pub AllFull : List (List ℕ) → Type 0
AllFull [] = Unit {0}
AllFull (p ∷ ps) = (p ≢ []) × AllFull ps

module _ {Q : Type 0} (K : Msgq Event Q) where
  round-empty :
      (fuel : ℕ) (m : BleM Q)
      → K.items m.event_queue ≡ []
      → bt_send_work_handler K (suc fuel) m ≡ some (m, [])
  unfolding bt_send_work_handler
  round-empty fuel m e = rw (K.num_used_get_lem m.event_queue, e) refl

  round-event :
      (fuel : ℕ) (m m' : BleM Q) (evt : Event) (r : Q) (calls : List Call)
      → K.items m.event_queue ≡ evt ∷ K.items r
      → K.get m.event_queue ≡ some (evt, r)
      → bt_send_work_handler K fuel (record m { event_queue = r }) ≡ some (m', calls)
      → bt_send_work_handler K (suc fuel) m
        ≡ some (m', calls_for m.subscribe_list m.raw_handler_ext evt ++ calls)
  unfolding bt_send_work_handler
  round-event fuel m m' evt r calls e g rest = ground (
    arith,
    K.num_used_get_lem m.event_queue,
    ap length e,
    forward-calls_for m.subscribe_list m.raw_handler_ext evt,
  )

  -- The work handler empties the queue and calls the handlers for each event that was in it, the
  -- oldest first; more rounds of fuel than there are events suffice.
  pub bt_send_work_handler-drains :
      (fuel : ℕ) (m : BleM Q)
      → length (K.items m.event_queue) < fuel
      → (q : Q) × (bt_send_work_handler K fuel m
          ≡ some (
            record m { event_queue = q },
            calls_for_all m.subscribe_list m.raw_handler_ext (K.items m.event_queue),
          ))
        × (K.items q ≡ [])
  bt_send_work_handler-drains zero m h = absurd (omega arith)
  bt_send_work_handler-drains (suc fuel) m h = elim (K.get_cases m.event_queue) [
    | inl (e, _) ↦ (m.event_queue, round-empty fuel m e ∙ rw e (unfold calls_for_all in refl), e)
    | inr (evt, r, e, g) ↦ more evt r e g (
        bt_send_work_handler-drains fuel (record m { event_queue = r })
          (omega (arith, ap length e)))
  ]
    where
      more :
          (evt : Event) (r : Q)
          → K.items m.event_queue ≡ evt ∷ K.items r
          → K.get m.event_queue ≡ some (evt, r)
          → (q : Q) × (bt_send_work_handler K fuel (record m { event_queue = r })
              ≡ some (
                record m { event_queue = q },
                calls_for_all m.subscribe_list m.raw_handler_ext (K.items r),
              ))
            × (K.items q ≡ [])
          → (q : Q) × (bt_send_work_handler K (suc fuel) m
              ≡ some (
                record m { event_queue = q },
                calls_for_all m.subscribe_list m.raw_handler_ext (K.items m.event_queue),
              ))
            × (K.items q ≡ [])
      more evt r e g (q, run, left) =
          (q, round-event fuel m _ evt r _ e g run ∙ rw e (unfold calls_for_all in refl), left)

  -- The received packets, one handler call each.
  unfoldable pub receive_all : (List ℕ → Option Event) → BleM Q → List (List ℕ) → BleM Q
  receive_all pb_decode m [] = m
  receive_all pb_decode m (p ∷ ps) =
      receive_all pb_decode (ble_evt_handler K pb_decode m (some p)).0 ps

  undecoded :
      (pb_decode : List ℕ → Option Event) (m : BleM Q) (b : ℕ) (bs : List ℕ)
      → pb_decode (b ∷ bs) ≡ none
      → (ble_evt_handler K pb_decode m (some (b ∷ bs))).0 ≡ m
  unfolding ble_evt_handler
  undecoded pb_decode m b bs e = ground arith

  received :
      (pb_decode : List ℕ → Option Event) (m : BleM Q) (b : ℕ) (bs : List ℕ) (evt : Event)
      → pb_decode (b ∷ bs) ≡ some evt
      → length (K.items m.event_queue) < K.capacity
      → (q : Q) × ((ble_evt_handler K pb_decode m (some (b ∷ bs))).0 ≡ record m { event_queue = q })
        × (K.items q ≡ K.items m.event_queue ++ evt ∷ [])
  unfolding ble_evt_handler
  received pb_decode m b bs evt e room = elim (K.put_cases evt m.event_queue) [
    | inl (_, q, put, added) ↦ (q, ground arith, added)
    | inr (full, _) ↦ absurd (omega arith)
  ]

  -- While they fit, the events of the packets stand in the queue in order.
  pub items-receive_all :
      (pb_decode : List ℕ → Option Event) (m : BleM Q) (ps : List (List ℕ))
      → AllFull ps
      → length (K.items m.event_queue) + length (decoded pb_decode ps) ≤ K.capacity
      → (q : Q) × (receive_all pb_decode m ps ≡ record m { event_queue = q })
        × (K.items q ≡ K.items m.event_queue ++ decoded pb_decode ps)
  unfolding receive_all
  items-receive_all pb_decode m [] full h =
      (m.event_queue, refl, unfold decoded in sym (append-nil _))
  items-receive_all pb_decode m ([] ∷ ps) full h = absurd (full.0 refl)
  items-receive_all pb_decode m ((b ∷ bs) ∷ ps) full h = elim (Option-cases (pb_decode (b ∷ bs))) [
    | inl e ↦
        rw (decoded-none pb_decode ps e, undecoded pb_decode m b bs e)
          (items-receive_all pb_decode m ps full.1 (rw (decoded-none pb_decode ps e) at h))
    | inr (evt, e) ↦
        more evt e
          (received pb_decode m b bs evt e (omega (arith, ap length (decoded-some pb_decode ps e))))
          (λ q. items-receive_all pb_decode (record m { event_queue = q }) ps full.1)
  ]
    where
      more :
          (evt : Event)
          → pb_decode (b ∷ bs) ≡ some evt
          → (q : Q) × ((ble_evt_handler K pb_decode m (some (b ∷ bs))).0
              ≡ record m { event_queue = q })
            × (K.items q ≡ K.items m.event_queue ++ evt ∷ [])
          → ((q : Q)
              → length (K.items q) + length (decoded pb_decode ps) ≤ K.capacity
              → (r : Q) × (receive_all pb_decode (record m { event_queue = q }) ps
                  ≡ record m { event_queue = r })
                × (K.items r ≡ K.items q ++ decoded pb_decode ps))
          → (r : Q) × (receive_all pb_decode (ble_evt_handler K pb_decode m (some (b ∷ bs))).0 ps
              ≡ record m { event_queue = r })
            × (K.items r ≡ K.items m.event_queue ++ decoded pb_decode ((b ∷ bs) ∷ ps))
      more evt e (q, step, added) rest =
          let (r, run, all) = rest q (
            omega (
              arith,
              ap length added,
              length-append (K.items m.event_queue) (evt ∷ []),
              ap length (decoded-some pb_decode ps e),
            )) in
          (r, rw step run, all ∙ rw (added, decoded-some pb_decode ps e, append_assoc) refl)

  -- Packets of at least one byte come in one after the other; the queue is empty at first and has room
  -- for their events. Then the next run of the work handler, with more fuel than there are events,
  -- makes for the event of each packet that the codec reads, in their order, the call of the raw
  -- handler, if there is one, and of the handler that the first entry of its name has, if there is
  -- one; no other call is made, and the queue is empty afterwards.
  pub receive_all-delivers :
      (pb_decode : List ℕ → Option Event) (m : BleM Q) (ps : List (List ℕ)) (fuel : ℕ)
      → K.items m.event_queue ≡ []
      → AllFull ps
      → length (decoded pb_decode ps) ≤ K.capacity
      → length (decoded pb_decode ps) < fuel
      → (q : Q) × (bt_send_work_handler K fuel (receive_all pb_decode m ps)
          ≡ some (
            record m { event_queue = q },
            calls_for_all m.subscribe_list m.raw_handler_ext (decoded pb_decode ps),
          ))
        × (K.items q ≡ [])
  receive_all-delivers pb_decode m ps fuel e full fits enough =
      let (r, run, all) = items-receive_all pb_decode m ps full (omega (arith, ap length e)) in
      let queued : K.items r ≡ decoded pb_decode ps = all ∙ rw e refl in
      rw (run, ← queued)
        (bt_send_work_handler-drains fuel (record m { event_queue = r })
          (omega (arith, ap length queued)))
