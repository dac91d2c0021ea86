-- ===== src/Ble/Peripheral/Fifo.antt =====
-- The send queue of lib/ble/ble_peripheral.c: what `ble_peripheral_write` accepts is sent once and in
-- order.
use pyrinas_zephyr.Common.{
  ℕ, zero, suc, ◌≤◌, ◌≡◌, ◌⊎◌, inl, inr, refl, sym, ap, ◌∙◌, Bool, ◌&&◌, some, List, [], ◌∷◌, ◌++◌,
  append-nil, append_assoc, length, Msgq, arith, is_some, ltb, leb, if◌then◌else◌,
}
use pyrinas_zephyr.Ble.Peripheral.{
  Peripheral, Event, Action, connected, security_changed, exchange_func, bt_send_work_handler,
  bt_sent_cb, bt_receive_cb, ble_peripheral_write, step, run, nus_send, on_connected,
  on_disconnected, on_security_changed, on_exchange, on_write, on_send_work, on_sent, on_receive,
}

-- The payloads handed to the stack.
unfoldable pub sent : List Action → List (List ℕ)
sent [] = []
sent (nus_send conn payload ∷ actions) = payload ∷ sent actions
sent (_ ∷ actions) = sent actions

sent-append : (xs ys : List Action) → sent (xs ++ ys) ≡ sent xs ++ sent ys
unfolding sent
sent-append [] ys = refl
sent-append (nus_send c p ∷ xs) ys = ground (arith, sent-append xs ys)
sent-append (_ ∷ xs) ys = sent-append xs ys

module _ {Q : Type 0} (K : Msgq (List ℕ) Q) (item_size : ℕ) where
  -- A write is accepted with a connection, a payload that fits and room in the queue.
  unfoldable pub accepts : Peripheral Q → List ℕ → Bool
  accepts p payload =
      is_some p.current_conn
      && (leb (length payload) item_size && ltb (length (K.items p.event_queue)) K.capacity)

  unfoldable pub accepted_by : Peripheral Q → Event → List (List ℕ)
  unfolding accepts
  accepted_by p (on_write payload) = if accepts p payload then payload ∷ [] else []
  accepted_by p _ = []

  unfoldable pub accepted : Peripheral Q → List Event → List (List ℕ)
  accepted p [] = []
  accepted p (e ∷ es) = accepted_by p e ++ accepted (step K item_size p e).0 es

  abbrev pub IsKept : Event → Type 0
  IsKept (on_disconnected create_err set_err) = ⊥
  IsKept _ = Unit {0}

  abbrev pub AllKept : List Event → Type 0
  AllKept [] = Unit {0}
  AllKept (e ∷ es) = IsKept e × AllKept es

  abbrev IsBalanced : Peripheral Q → Event → Type 0
  IsBalanced p e =
      let (p', actions) = step K item_size p e in
      K.items p.event_queue ++ accepted_by p e ≡ sent actions ++ K.items p'.event_queue

  write-IsBalanced : (p : Peripheral Q) (payload : List ℕ) → IsBalanced p (on_write payload)
  unfolding step ble_peripheral_write accepted_by accepts sent
  write-IsBalanced p payload =
      ground (arith, K.put_cases payload p.event_queue, append-nil (K.items p.event_queue))

  send-IsBalanced : (p : Peripheral Q) → IsBalanced p on_send_work
  unfolding step bt_send_work_handler accepted_by sent
  send-IsBalanced p = ground (arith, K.get_cases p.event_queue, append-nil (K.items p.event_queue))

  step-IsBalanced : (p : Peripheral Q) (e : Event) → IsKept e → IsBalanced p e
  step-IsBalanced p (on_write payload) h = write-IsBalanced p payload
  step-IsBalanced p on_send_work h = send-IsBalanced p
  step-IsBalanced p (on_connected conn err) h =
      unfold step connected accepted_by sent in ground (arith, append-nil (K.items p.event_queue))
  step-IsBalanced p (on_disconnected create_err set_err) h = absurd h
  step-IsBalanced p (on_security_changed conn err) h =
      unfold step security_changed accepted_by sent in
      ground (arith, append-nil (K.items p.event_queue))
  step-IsBalanced p (on_exchange err max_send) h =
      unfold step exchange_func accepted_by sent in
      ground (arith, append-nil (K.items p.event_queue))
  step-IsBalanced p on_sent h =
      unfold step bt_sent_cb accepted_by sent in ground (arith, append-nil (K.items p.event_queue))
  step-IsBalanced p (on_receive bytes) h =
      unfold step bt_receive_cb accepted_by sent in
      ground (arith, append-nil (K.items p.event_queue))

  -- As long as the connection is not lost, what was queued and then what the writes had accepted
  -- is what has been sent and then what is queued: nothing that was accepted is lost, sent twice
  -- or overtaken. A write is accepted with a connection, a payload that fits and room in the
  -- queue.
  pub run-fifo :
      (p : Peripheral Q) (es : List Event)
      → AllKept es
      → let (p', actions) = run K item_size p es in
        K.items p.event_queue ++ accepted p es ≡ sent actions ++ K.items p'.event_queue
  unfolding run accepted
  run-fifo p [] h = unfold sent in append-nil (K.items p.event_queue)
  run-fifo p (e ∷ es) h =
      let (p', actions) = step K item_size p e in
      let more = (run K item_size p' es).1 in
      let q'' = (run K item_size p' es).0.event_queue in
      sym (append_assoc (K.items p.event_queue) (accepted_by p e) _)
      ∙ ap (λ xs. xs ++ accepted p' es) (step-IsBalanced p e h.0)
      ∙ append_assoc (sent actions) (K.items p'.event_queue) _
      ∙ ap (λ xs. sent actions ++ xs) (run-fifo p' es h.1)
      ∙ sym (append_assoc (sent actions) (sent more) (K.items q''))
      ∙ ap (λ xs. xs ++ K.items q'') (sym (sent-append actions more))

  -- The send work, run again for as long as the callback of what it sent submits it.
  unfoldable pub pump : ℕ → Peripheral Q → Peripheral Q × List Action
  pump zero p = (p, [])
  pump (suc fuel) p =
      let (p', actions) = bt_send_work_handler K p in
      let (p'', more) = pump fuel p' in
      elim (bt_sent_cb K p') [ [] ↦ (p', actions) | _ ∷ _ ↦ (p'', actions ++ more) ]

  send_empty : (p : Peripheral Q) → K.items p.event_queue ≡ [] → bt_send_work_handler K p ≡ (p, [])
  unfolding bt_send_work_handler
  send_empty p e = ground (arith, K.get_cases p.event_queue)

  send_oldest :
      (p : Peripheral Q) (conn : ℕ) (payload : List ℕ) (r : Q)
      → p.current_conn ≡ some conn
      → K.get p.event_queue ≡ some (payload, r)
      → bt_send_work_handler K p ≡ (record p { event_queue = r }, nus_send conn payload ∷ [])
  unfolding bt_send_work_handler
  send_oldest p conn payload r c g = ground arith

  sent_cb-cases :
      (p : Peripheral Q)
      → ((K.items p.event_queue ≡ []) × (bt_sent_cb K p ≡ []))
        ⊎ (a : Action) × (bt_sent_cb K p ≡ a ∷ [])
  unfolding bt_sent_cb
  sent_cb-cases p = ground (arith, K.num_used_get_lem p.event_queue)

  length_zero : (xs : List (List ℕ)) → length xs ≤ 0 → xs ≡ []
  length_zero xs h = ground arith

  sent_cb_none : (p : Peripheral Q) → K.items p.event_queue ≡ [] → bt_sent_cb K p ≡ []
  unfolding bt_sent_cb
  sent_cb_none p e = ground (arith, K.num_used_get_lem p.event_queue)

  pump_last :
      (fuel : ℕ) (p p' : Peripheral Q) (actions : List Action)
      → bt_send_work_handler K p ≡ (p', actions)
      → bt_sent_cb K p' ≡ []
      → pump (suc fuel) p ≡ (p', actions)
  unfolding pump
  pump_last fuel p p' actions e cb = ground arith

  pump_more :
      (fuel : ℕ) (p p' : Peripheral Q) (actions : List Action) (a : Action)
      → bt_send_work_handler K p ≡ (p', actions)
      → bt_sent_cb K p' ≡ a ∷ []
      → pump (suc fuel) p ≡ ((pump fuel p').0, actions ++ (pump fuel p').1)
  unfolding pump
  pump_more fuel p p' actions a e cb = ground arith

  -- With a connection, the send work empties the queue, the oldest payload first, if each payload
  -- that is sent is followed by its callback and the work that this submits; as many runs as there
  -- are payloads suffice.
  pub pump-drains :
      (fuel : ℕ) (p : Peripheral Q) (conn : ℕ)
      → p.current_conn ≡ some conn
      → length (K.items p.event_queue) ≤ fuel
      → (K.items (pump fuel p).0.event_queue ≡ []) × (sent (pump fuel p).1 ≡ K.items p.event_queue)
  unfolding sent
  pump-drains zero p conn c h = unfold pump in ground (arith, length_zero (K.items p.event_queue))
  pump-drains (suc fuel) p conn c h = elim (K.get_cases p.event_queue) [
    | inl (e, _) ↦ rw (pump_last fuel p p [] (send_empty p e) (sent_cb_none p e)) (e, sym e)
    | inr (payload, r, e, g) ↦
        let p' : Peripheral Q = record p { event_queue = r } in
        let run_once = send_oldest p conn payload r c g in
        let rest = pump-drains fuel p' conn c (omega (arith, ap length e)) in
        elim (sent_cb-cases p') [
          | inl (e', cb) ↦
              rw (pump_last fuel p p' _ run_once cb) (e', ap (λ xs. payload ∷ xs) (sym e') ∙ sym e)
          | inr (a, cb) ↦
              rw (pump_more fuel p p' _ a run_once cb)
                (rest.0, ap (λ xs. payload ∷ xs) rest.1 ∙ sym e)
        ]
  ]
