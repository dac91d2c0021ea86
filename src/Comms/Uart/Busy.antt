-- ===== src/Comms/Uart/Busy.antt =====
-- `comms_write` while a block is on its way.
use pyrinas_zephyr.Common.{
  ℕ, ◌-◌, ◌+◌, ◌≤◌, ◌<◌, ◌≡◌, refl, sym, ap, ◌∙◌, arith, true, List, [], ◌∷◌, ◌++◌, length, take,
  drop, take-all, drop-drop, drop-append, length-drop, length-append, ℤ, pos, is_error, RingBuf,
  inl, inr, ◌⊎◌,
}
use pyrinas_zephyr.Comms.Uart.{Comms, uart_tx, uart_start_tx, comms_write, tx_done}
use pyrinas_zephyr.Comms.Uart.Sending.{
  handed, nonzero, taken-le, handed-none, handed-one, comms_write-starts, tx_done-cases,
}

drop-behind : (m : ℕ) (xs ys : List ℕ) → drop (length xs) (drop m (xs ++ ys)) ≡ drop m ys
drop-behind m xs ys =
    drop-drop (m + length xs) (length xs) m (xs ++ ys) (omega arith)
    ∙ sym (drop-drop (m + length xs) m (length xs) (xs ++ ys) refl)
    ∙ ap (drop m) (drop-append (length xs) xs ys refl)

all_or_more :
    {A B : Type 0} {k : ℕ} (m : ℕ) (bytes : List ℕ)
    → m ≤ length bytes
    → A × B × ((length (drop m bytes) ≡ 0) ⊎ (0 < k))
    → A × B × ((m ≡ length bytes) ⊎ (0 < k))
all_or_more m bytes room (a, b, rest) = (
  a,
  b,
  elim rest [
    | inl none_left ↦ inl (omega (arith, none_left, length-drop m bytes))
    | inr more ↦ inr more
  ],
)

module _ {R : Type 0} (b : RingBuf R) where
  open b use {contents, claimed, capacity}

  -- A start that the driver refuses: the claimed bytes are counted, and as many are freed at the front.
  start-refused :
      (err : ℤ) (s : Comms R)
      → is_error err ≡ true
      → claimed s.tx < length (contents s.tx)
      → (m : ℕ) × (rb : R) × (0 < m)
        × (m ≤ length (contents s.tx) - claimed s.tx)
        × (uart_start_tx b err s ≡ (
          record s { tx = rb },
          pos 0,
          uart_tx (take m (drop (claimed s.tx) (contents s.tx))) ∷ [],
        ))
        × (contents rb ≡ drop m (contents s.tx))
        × (claimed rb ≡ 0)
  unfolding uart_start_tx
  start-refused err s bad h =
      let (shape, le, same, more) = b.get_claim_lem 512 s.tx in
      let some_bytes = b.get_claim_some 512 s.tx (omega arith) h in
      let claim = b.get_claim 512 s.tx in
      let few : length claim.0 ≤ length (contents s.tx) - claimed s.tx = omega (
        arith,
        taken-le _ _ claim.0 (drop (claimed s.tx) (contents s.tx)) refl shape refl,
        length-drop (claimed s.tx) (contents s.tx),
      ) in
      let (ok, left, free) = b.get_finish_lem (length claim.0) claim.1 (rw same (omega arith)) in
      (
        length claim.0,
        (b.get_finish (length claim.0) claim.1).1,
        some_bytes,
        few,
        rw (nonzero (length claim.0) some_bytes, bad, ok)
            (ap
              (λ bytes. (
                record s { tx = (b.get_finish (length claim.0) claim.1).1 },
                pos 0,
                uart_tx bytes ∷ [],
              ))
              shape),
        left ∙ rw same,
        free,
      )

  tx_done-rest :
      (len : ℕ) (s : Comms R) (left : List ℕ)
      → len ≤ length (contents s.tx)
      → drop len (contents s.tx) ≡ left
      → let (s', calls) = tx_done b (pos 0) len s in
        (contents s'.tx ≡ left)
        × (handed calls ≡ take (length (handed calls)) left)
        × ((length left ≡ 0) ⊎ (0 < length (handed calls)))
  tx_done-rest len s left h e = elim (tx_done-cases b len s h) [
    | inl (none_left, rb, done, same, free) ↦
        rw done (same ∙ sym none_left ∙ e, rw handed-none refl, inl (ap length (sym e ∙ none_left)))
    | inr (bytes, rb, next, same, on_way, some_bytes, shape) ↦
        rw next
          (same ∙ e, rw (handed-one bytes) (shape ∙ rw e), inr (rw (handed-one bytes) some_bytes))
  ]

  -- While a block is on its way, all that is in the buffer, the driver refuses the next one, and a
  -- write of some bytes for which there is room returns 0 nonetheless; when the block is sent
  -- the first bytes of the write, one at least, are gone, and the rest of them is what is in the
  -- buffer; unless nothing is left of it, its first bytes, one at least, are handed over then.
  pub comms_write-busy :
      (err : ℤ) (s : Comms R) (bytes : List ℕ)
      → is_error err ≡ true
      → claimed s.tx ≡ length (contents s.tx)
      → 0 < length bytes
      → length (contents s.tx) + length bytes ≤ capacity
      → let (s', result, calls) = comms_write b err bytes s in
        let (s'', more) = tx_done b (pos 0) (length (contents s.tx)) s' in
        (m : ℕ) × (0 < m)
        × (m ≤ length bytes)
        × (result ≡ pos 0)
        × ((contents s''.tx ≡ drop m bytes)
            × (handed more ≡ take (length (handed more)) (drop m bytes))
            × ((m ≡ length bytes) ⊎ (0 < length (handed more))))
  comms_write-busy err s bytes bad on_way n fits =
      let (amount, shape, unclaimed) = b.put_lem bytes s.tx in
      let all : (b.put bytes s.tx).0 ≡ length bytes = amount ∙ (omega arith) in
      let s1 = record s { tx = (b.put bytes s.tx).1 } in
      let put : contents s1.tx ≡ contents s.tx ++ bytes =
        shape ∙ ap (◌++◌ (contents s.tx)) (take-all _ bytes (omega (arith, all))) in
      let (m, rb, some_bytes, few, refused, left, free) =
        start-refused err s1 bad (rw (put, length-append) (omega (arith, unclaimed))) in
      let room : m ≤ length bytes =
        omega (arith, few, unclaimed, on_way, ap length put, length-append (contents s.tx) bytes) in
      let rest : drop (length (contents s.tx)) (contents rb) ≡ drop m bytes =
        ap (drop (length (contents s.tx))) (left ∙ ap (drop m) put)
        ∙ drop-behind m (contents s.tx) bytes in
      rw (comms_write-starts b err s bytes (rw all n) ∙ refused) (
        m,
        some_bytes,
        room,
        refl,
        all_or_more m bytes room (
            tx_done-rest (length (contents s.tx)) (record s { tx = rb }) (drop m bytes)
              (rw (left, length-drop, put, length-append) (omega (arith, room))) rest),
      )
