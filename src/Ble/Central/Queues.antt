-- ===== src/Ble/Central/Queues.antt =====
-- The send queues of lib/ble/ble_central.c: what `ble_central_write` puts in and what
-- `bt_send_work_handler` takes out.
use pyrinas_zephyr.Common.{
  ℕ, suc, ◌≤◌, ◌<◌, ◌≡◌, ◌≢◌, ◌⊎◌, inl, inr, refl, ◌∙◌, true, false, List, [], ◌∷◌, ◌++◌,
  if◌then◌else◌, length, map, Msgq, arith, Bool-cases, ◌==◌, ltb, is_some, append-nil,
}
use pyrinas_zephyr.Ble.Central.{
  Connection, Central, Action, nus_send, submit_send_work, ble_central_is_connected, put_one,
  ble_central_write, send_one, bt_send_work_handler,
}

-- The payloads handed to the client at an index, in order.
pub sent_by : ℕ → List Action → List (List ℕ)
sent_by i [] = []
sent_by i (nus_send j payload ∷ actions) =
    if j == i then payload ∷ sent_by i actions else sent_by i actions
sent_by i (_ ∷ actions) = sent_by i actions

sent_by-append : (i : ℕ) (xs ys : List Action) → sent_by i (xs ++ ys) ≡ sent_by i xs ++ sent_by i ys
unfolding sent_by
sent_by-append i [] ys = refl
sent_by-append i (nus_send j p ∷ xs) ys = ground (arith, sent_by-append i xs ys)
sent_by-append i (_ ∷ xs) ys = sent_by-append i xs ys

module _ {Q : Type 0} (K : Msgq (List ℕ) Q) where
  -- What one entry becomes when a payload is broadcast.
  abbrev pub Queued : List ℕ → Connection Q → Connection Q → Type 0
  Queued payload e f =
      ((e.ready ≡ false) × (f ≡ e))
      ⊎ (((e.ready ≡ true) × (K.capacity ≤ length (K.items e.q)) × (f ≡ e))
          ⊎ ((e.ready ≡ true)
              × (length (K.items e.q) < K.capacity)
              × (K.items f.q ≡ K.items e.q ++ payload ∷ [])
              × (f.ready ≡ e.ready)
              × (f.conn ≡ e.conn)))

  abbrev pub Broadcast : List ℕ → List (Connection Q) → List (Connection Q) → Type 0
  Broadcast payload [] [] = Unit {0}
  Broadcast payload (e ∷ es) (f ∷ fs) = Queued payload e f × Broadcast payload es fs
  Broadcast payload _ _ = ⊥

  put_one-Queued : (payload : List ℕ) (e : Connection Q) → Queued payload e (put_one K payload e)
  unfolding put_one
  put_one-Queued payload e = ground (arith, K.put_cases payload e.q)

  map_put-Broadcast :
      (payload : List ℕ) (es : List (Connection Q))
      → Broadcast payload es (map (put_one K payload) es)
  map_put-Broadcast payload [] = tt
  map_put-Broadcast payload (e ∷ es) = (put_one-Queued payload e, map_put-Broadcast payload es)

  -- With a ready connection and a payload that fits, the payload is appended to the queue of every
  -- ready connection that has room, no other queue changes, and the send work is submitted.
  -- Otherwise nothing changes and nothing is submitted.
  pub ble_central_write-broadcasts :
      (item_size : ℕ) (payload : List ℕ) (c : Central Q)
      → let (c', actions) = ble_central_write K item_size payload c in
        ((ble_central_is_connected c.conns ≡ true)
          × (length payload ≤ item_size)
          × Broadcast payload c.conns c'.conns
          × (actions ≡ submit_send_work ∷ []))
        ⊎ (((ble_central_is_connected c.conns ≡ false) ⊎ (item_size < length payload))
            × (c' ≡ c)
            × (actions ≡ []))
  unfolding ble_central_write
  ble_central_write-broadcasts item_size payload c =
      elim (Bool-cases (ble_central_is_connected c.conns)) [
        | inr idle ↦ rw idle (inr (inl refl, refl, refl))
        | inl ready ↦ elim (Bool-cases (ltb item_size (length payload))) [
          | inl long ↦ rw (ready, long) (inr (inr (ground arith), refl, refl))
          | inr fits ↦
              rw (ready, fits) (inl (refl, ground arith, map_put-Broadcast payload c.conns, refl))
        ]
      ]

  -- A ready connection with something queued sends the oldest payload; any other entry stays as it
  -- is and sends nothing.
  abbrev pub Sends : Connection Q → Connection Q → List (List ℕ) → Type 0
  Sends e f sent =
      ((e.ready ≡ true)
        × (is_some e.conn ≡ true)
        × (payload : List ℕ) × (K.items e.q ≡ payload ∷ K.items f.q)
        × (f.ready ≡ e.ready)
        × (f.conn ≡ e.conn)
        × (sent ≡ payload ∷ []))
      ⊎ (((e.ready ≡ false) ⊎ ((is_some e.conn ≡ false) ⊎ (K.items e.q ≡ [])))
          × (f ≡ e)
          × (sent ≡ []))

  -- So for each entry of the table, from index `i` on.
  abbrev pub AllSend : List (Connection Q) → List (Connection Q) → ℕ → List Action → Type 0
  AllSend [] [] i actions = Unit {0}
  AllSend (e ∷ es) (f ∷ fs) i actions =
      Sends e f (sent_by i actions) × AllSend es fs (suc i) actions
  AllSend _ _ i actions = ⊥

  send_one-Sends :
      (e : Connection Q) (i : ℕ) → Sends e (send_one K e i).0 (sent_by i (send_one K e i).1)
  unfolding send_one sent_by
  send_one-Sends e i = ground (arith, K.get_cases e.q, K.num_used_get_lem e.q)

  send_one-other : (e : Connection Q) (i j : ℕ) → j ≢ i → sent_by j (send_one K e i).1 ≡ []
  unfolding send_one sent_by
  send_one-other e i j h = ground arith

  handler-below :
      (es : List (Connection Q)) (i j : ℕ) → j < i → sent_by j (bt_send_work_handler K es i).1 ≡ []
  unfolding bt_send_work_handler
  handler-below [] i j h = unfold sent_by in refl
  handler-below (e ∷ es) i j h =
      sent_by-append j (send_one K e i).1 _
      ∙ rw (send_one-other e i j (omega arith), handler-below es (suc i) j (omega arith)) refl

  AllSend-after :
      (es fs : List (Connection Q)) (i : ℕ) (xs ys : List Action)
      → ((j : ℕ) → i ≤ j → sent_by j xs ≡ [])
      → AllSend es fs i ys
      → AllSend es fs i (xs ++ ys)
  AllSend-after [] [] i xs ys none_sent a = tt
  AllSend-after [] (f ∷ fs) i xs ys none_sent a = absurd a
  AllSend-after (e ∷ es) [] i xs ys none_sent a = absurd a
  AllSend-after (e ∷ es) (f ∷ fs) i xs ys none_sent a = (
    rw (sent_by-append i xs ys, none_sent i (omega arith)) a.0,
    AllSend-after es fs (suc i) xs ys (λ j h. none_sent j (omega arith)) a.1,
  )

  -- One run of the send work: every ready connection with something queued sends exactly its oldest
  -- payload, which leaves its queue, and no other entry changes or sends.
  pub bt_send_work_handler-sends :
      (es : List (Connection Q)) (i : ℕ)
      → AllSend es (bt_send_work_handler K es i).0 i (bt_send_work_handler K es i).1
  unfolding bt_send_work_handler
  bt_send_work_handler-sends [] i = tt
  bt_send_work_handler-sends (e ∷ es) i =
      let rest = bt_send_work_handler-sends es (suc i) in
      (
        rw
            (
              sent_by-append i (send_one K e i).1 (bt_send_work_handler K es (suc i)).1,
              handler-below es (suc i) i (omega arith),
              append-nil (sent_by i (send_one K e i).1),
            )
            (send_one-Sends e i),
        AllSend-after es _ (suc i) (send_one K e i).1 _ (λ j h. send_one-other e i j (omega arith))
            rest,
      )
