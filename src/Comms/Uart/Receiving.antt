-- ===== src/Comms/Uart/Receiving.antt =====
-- From the driver's events to the loop of `comms_rx_thread`, and the blocks of the receiver.
use pyrinas_zephyr.Common.{
  ℕ, ◌+◌, ◌≤◌, ◌≡◌, refl, sym, ap, ◌∙◌, arith, List, [], ◌∷◌, ◌++◌, ◌==◌, length, take-all,
  append_assoc, append-nil, flatten, map, RingBuf, ==_iff, Bool-cases, inl, inr,
}
use pyrinas_zephyr.Comms.Rx.{done, idle, rx_thread}
use pyrinas_zephyr.Comms.Rx.Reference.{encode, AllSent}
use pyrinas_zephyr.Comms.Rx.Framing.{Paced, rx_thread-encode}
use pyrinas_zephyr.Comms.Uart.Sending.{block-append, taken-le}
use pyrinas_zephyr.Comms.Uart.{Comms, rx_rdy, take_chunk}

-- What happens to the receiving ring buffer: bytes arrive, or the thread takes a turn.
pub data Step : Type 0 where
  arrive : List ℕ → Step
  turn : Step

-- All the bytes that arrive.
unfoldable pub arrived : List Step → List ℕ
arrived [] = []
arrived (arrive bytes ∷ es) = bytes ++ arrived es
arrived (turn ∷ es) = arrived es

module _ {R : Type 0} (b : RingBuf R) where
  open b use {contents, claimed, capacity}

  -- The state at the end, and the chunks that the thread's turns gave.
  unfoldable pub run : List Step → Comms R → Comms R × List (List ℕ)
  run [] s = (s, [])
  run (arrive bytes ∷ es) s = run es (rx_rdy b bytes s).0
  run (turn ∷ es) s =
      let (s', chunk) = take_chunk b s in let (t, chunks) = run es s' in (t, chunk ∷ chunks)

  -- There is room for the bytes whenever some arrive.
  unfoldable pub Roomy : List Step → Comms R → Type 0
  Roomy [] s = Unit {0}
  Roomy (arrive bytes ∷ es) s =
      (length (contents s.rx) + length bytes ≤ capacity) × Roomy es (rx_rdy b bytes s).0
  Roomy (turn ∷ es) s = Roomy es (take_chunk b s).0

  rx_rdy-keeps :
      (bytes : List ℕ) (s : Comms R)
      → length (contents s.rx) + length bytes ≤ capacity
      → (contents (rx_rdy b bytes s).0.rx ≡ contents s.rx ++ bytes)
        × (claimed (rx_rdy b bytes s).0.rx ≡ claimed s.rx)
  unfolding rx_rdy
  rx_rdy-keeps bytes s h =
      let (amount, shape, same) = b.put_lem bytes s.rx in
      (shape ∙ ap (◌++◌ (contents s.rx)) (take-all _ bytes (omega (arith, amount))), same)

  take_chunk-keeps :
      (s : Comms R)
      → claimed s.rx ≡ 0
      → ((take_chunk b s).1 ++ contents (take_chunk b s).0.rx ≡ contents s.rx)
        × (claimed (take_chunk b s).0.rx ≡ 0)
  unfolding take_chunk
  take_chunk-keeps s h =
      let (shape, le, same, more) = b.get_claim_lem 512 s.rx in
      let claim = b.get_claim 512 s.rx in
      elim (Bool-cases (length claim.0 == 0)) [
        | inl e ↦ rw e (same, omega (arith, more, h, (==_iff (length claim.0) 0).0 e))
        | inr e ↦
            let first = shape ∙ rw h in
            let (ok, left, free) =
              b.get_finish_lem (length claim.0) claim.1
                (rw same (taken-le _ _ claim.0 (contents s.rx) refl first refl)) in
            rw e (
              ap (◌++◌ claim.0) (left ∙ rw same) ∙ block-append _ claim.0 (contents s.rx) first,
              free,
            )
      ]

  -- Where there is room whenever bytes arrive, what the thread has been given and what is still in the
  -- buffer are the bytes that were in it and those that arrived, in their order, whenever the
  -- thread has taken its turns and however many bytes a claim gave.
  pub run-keeps :
      (es : List Step) (s : Comms R)
      → claimed s.rx ≡ 0
      → Roomy es s
      → flatten (run es s).1 ++ contents (run es s).0.rx ≡ contents s.rx ++ arrived es
  unfolding run Roomy arrived flatten
  run-keeps [] s h room = sym (append-nil (contents s.rx))
  run-keeps (arrive bytes ∷ es) s h (fits, room) =
      let (kept, same) = rx_rdy-keeps bytes s fits in
      run-keeps es (rx_rdy b bytes s).0 (same ∙ h) room
      ∙ ap (λ l. l ++ arrived es) kept
      ∙ append_assoc (contents s.rx) bytes (arrived es)
  run-keeps (turn ∷ es) s h room =
      let (kept, free) = take_chunk-keeps s h in
      let (s', chunk) = take_chunk b s in
      let (t, chunks) = run es s' in
      append_assoc chunk (flatten chunks) (contents t.rx)
      ∙ ap (◌++◌ chunk) (run-keeps es s' free room)
      ∙ sym (append_assoc chunk (contents s'.rx) (arrived es))
      ∙ ap (λ l. l ++ arrived es) kept

  -- From the driver to the handler: if the bytes that arrive are encoded messages, the buffer starts
  -- empty, has room whenever bytes arrive and is empty at the end, and no claim completes more than
  -- one message, then the loop of the thread hands over those messages, all of them and in
  -- order.
  pub run-messages :
      (es : List Step) (s : Comms R) (ms : List (List ℕ))
      → AllSent ms
      → arrived es ≡ flatten (map encode ms)
      → contents s.rx ≡ []
      → claimed s.rx ≡ 0
      → Roomy es s
      → contents (run es s).0.rx ≡ []
      → Paced idle (run es s).1
      → rx_thread idle (run es s).1 ≡ done idle ms
  run-messages es s ms sent bytes empty unclaimed room drained paced =
      rx_thread-encode ms (run es s).1 sent
        (sym (append-nil _)
          ∙ ap (◌++◌ (flatten (run es s).1)) (sym drained)
          ∙ run-keeps es s unclaimed room
          ∙ ap (λ l. l ++ arrived es) empty
          ∙ bytes)
        paced
