-- ===== src/Comms/Uart/Sending.antt =====
-- What becomes of the bytes that are given to `comms_write`.
use pyrinas_zephyr.Common.{
  ℕ, zero, suc, ◌-◌, ◌+◌, ◌≤◌, ◌<◌, ◌≡◌, refl, sym, ap, ◌∙◌, arith, true, false, List, [], ◌∷◌,
  ◌++◌, ◌==◌, if◌then◌else◌, length, take, drop, length-drop, length-take, take-append-drop, ℤ, pos,
  RingBuf, ◌⊎◌, Bool-cases, inl, inr, min, append-nil,
}
use pyrinas_zephyr.Comms.Uart.{
  Comms, UartCall, uart_tx, uart_rx_enable, uart_rx_buf_rsp, uart_callback_set, sem_give,
  uart_start_tx, comms_write, tx_done,
}

-- The bytes that a driver is handed, in the order of the calls.
pub handed : List UartCall → List ℕ
handed [] = []
handed (uart_tx bytes ∷ calls) = bytes ++ handed calls
handed (uart_rx_enable n ∷ calls) = handed calls
handed (uart_rx_buf_rsp n ∷ calls) = handed calls
handed (uart_callback_set ∷ calls) = handed calls
handed (sem_give ∷ calls) = handed calls

pub nonzero : (n : ℕ) → 0 < n → (n == 0) ≡ false
nonzero n h = ground arith

zero_add : (n : ℕ) → 0 + n ≡ n
zero_add n = omega arith

empty-of : (xs : List ℕ) → (length xs == 0) ≡ true → xs ≡ []
empty-of [] h = refl
empty-of (x ∷ xs) h = absurd (ground arith)

pub some-of : (xs : List ℕ) → (length xs == 0) ≡ false → 0 < length xs
some-of xs h = ground arith

pub handed-none : handed [] ≡ []
unfolding handed
handed-none = refl

pub handed-block :
    (bytes : List ℕ) (calls : List UartCall)
    → handed (uart_tx bytes ∷ calls) ≡ bytes ++ handed calls
unfolding handed
handed-block bytes calls = refl

pub handed-one : (bytes : List ℕ) → handed (uart_tx bytes ∷ []) ≡ bytes
unfolding handed
handed-one bytes = append-nil bytes

pub block-append : (n : ℕ) (bytes xs : List ℕ) → bytes ≡ take n xs → bytes ++ drop n xs ≡ xs
block-append n bytes xs h = ap (λ l. l ++ drop n xs) h ∙ take-append-drop n xs

min_minus_zero : (m n : ℕ) → min m (n - 0) ≡ min m n
min_minus_zero m n = omega arith

take-min : (k n : ℕ) (xs : List ℕ) → k ≡ min (length xs) n → take k xs ≡ take n xs
take-min zero zero xs h = refl
take-min zero (suc n) [] h = refl
take-min zero (suc n) (x ∷ xs) h = absurd (omega arith)
take-min (suc k) zero xs h = absurd (omega arith)
take-min (suc k) (suc n) [] h = refl
take-min (suc k) (suc n) (x ∷ xs) h = ap (◌∷◌ x) (take-min k n xs (omega arith))

-- A block that starts a list is no longer than it.
pub taken-le :
    (k n : ℕ) (bytes xs : List ℕ) → k ≡ n → bytes ≡ take n xs → n ≡ length bytes → k ≤ length xs
taken-le k n bytes xs e h l = omega (arith, ap length h, length-take n xs)

module _ {R : Type 0} (b : RingBuf R) where
  open b use {contents, claimed, capacity}

  -- The driver sends its block and reports its end, `n` times at most, and no call of it fails.
  pub drain : ℕ → Comms R → Comms R × List UartCall
  drain zero s = (s, [])
  drain (suc n) s =
      let (s', calls) = tx_done b (pos 0) (claimed s.tx) s in
      let (s'', more) = drain n s' in if claimed s.tx == 0 then (s, []) else (s'', calls ++ more)

  -- A block of the buffer's first bytes is on its way.
  abbrev pub Handed : Comms R → List ℕ → R → Type 0
  Handed s bytes rb =
      (contents rb ≡ contents s.tx)
      × (claimed rb ≡ length bytes)
      × (0 < length bytes)
      × (bytes ≡ take (length bytes) (contents s.tx))

  -- A start with bytes in the buffer and no block on its way.
  starts :
      (s : Comms R)
      → claimed s.tx ≡ 0
      → 0 < length (contents s.tx)
      → (bytes : List ℕ) × (rb : R) × (uart_start_tx b (pos 0) s
          ≡ (record s { tx = rb }, pos 0, uart_tx bytes ∷ []))
        × Handed s bytes rb
  unfolding uart_start_tx
  starts s h n =
      let (shape, le, same, more) = b.get_claim_lem 512 s.tx in
      let some_bytes = b.get_claim_some 512 s.tx (omega arith) (omega arith) in
      (
        (b.get_claim 512 s.tx).0,
        (b.get_claim 512 s.tx).1,
        rw (nonzero (length (b.get_claim 512 s.tx).0) some_bytes),
        (same, more ∙ rw h (zero_add _), some_bytes, shape ∙ rw h),
      )

  -- What the end of a block does: nothing is left, or the next block is on its way.
  abbrev pub Nothing : ℕ → Comms R → List ℕ → Type 0
  Nothing len s left =
      (left ≡ [])
      × (rb : R) × (tx_done b (pos 0) (len) s ≡ (record s { tx = rb }, []))
      × (contents rb ≡ [])
      × (claimed rb ≡ 0)

  abbrev pub NextBlock : ℕ → Comms R → List ℕ → Type 0
  NextBlock len s left =
      (bytes : List ℕ) × (rb : R) × (tx_done b (pos 0) (len) s
        ≡ (record s { tx = rb }, uart_tx bytes ∷ []))
      × (contents rb ≡ left)
      × (claimed rb ≡ length bytes)
      × (0 < length bytes)
      × (bytes ≡ take (length bytes) left)

  pub tx_done-cases :
      (len : ℕ) (s : Comms R)
      → len ≤ length (contents s.tx)
      → Nothing len s (drop (len) (contents s.tx)) ⊎ NextBlock len s (drop (len) (contents s.tx))
  unfolding tx_done
  tx_done-cases len s h =
      let (ok, left, free) = b.get_finish_lem len s.tx h in
      let s' = record s { tx = (b.get_finish len s.tx).1 } in
      elim (Bool-cases (b.is_empty s'.tx)) [
        | inl e ↦
            let none_left = empty-of (contents s'.tx) (sym (b.is_empty_lem s'.tx) ∙ e) in
            inl (sym left ∙ none_left, s'.tx, rw e, none_left, free)
        | inr e ↦
            let (bytes, rb, started, (same, on_way, some_bytes, shape)) =
              starts s' free (some-of (contents s'.tx) (sym (b.is_empty_lem s'.tx) ∙ e)) in
            inr (bytes, rb, rw (e, started), same ∙ left, on_way, some_bytes, shape ∙ rw left)
      ]

  drain-step :
      (n : ℕ) (s s' : Comms R) (calls : List UartCall)
      → 0 < claimed s.tx
      → tx_done b (pos 0) (claimed s.tx) s ≡ (s', calls)
      → drain (suc n) s ≡ ((drain n s').0, calls ++ (drain n s').1)
  unfolding drain
  drain-step n s s' calls h e = rw (nonzero (claimed s.tx) h, e)

  drain-idle : (n : ℕ) (s : Comms R) → claimed s.tx ≡ 0 → drain n s ≡ (s, [])
  unfolding drain
  drain-idle zero s h = refl
  drain-idle (suc n) s h = rw h

  -- From the moment that a block is on its way, the bytes behind it are handed over in their order,
  -- and the buffer is empty at the end.
  drain-sends :
      (n : ℕ) (s : Comms R)
      → 0 < claimed s.tx
      → claimed s.tx ≤ length (contents s.tx)
      → length (contents s.tx) ≤ n
      → (handed (drain n s).1 ≡ drop (claimed s.tx) (contents s.tx))
        × (contents (drain n s).0.tx ≡ [])
        × (claimed (drain n s).0.tx ≡ 0)
  drain-sends zero s h k m = absurd (omega arith)
  drain-sends (suc n) s h k m = elim (tx_done-cases (claimed s.tx) s k) [
    | inl (left, rb, done, same, free) ↦
        rw
          (
            drain-step n s (record s { tx = rb }) [] h done,
            drain-idle n (record s { tx = rb }) free,
            left,
          )
          (handed-none, same, free)
    | inr (bytes, rb, next, same, on_way, some_bytes, shape) ↦
        let s' = record s { tx = rb } in
        let (sends, ends, idle) =
          drain-sends n s' (rw on_way some_bytes)
            (taken-le (claimed rb) (length bytes) bytes (contents rb) on_way (rw same shape) refl)
            (rw (same, length-drop) (omega arith)) in
        rw (drain-step n s s' (uart_tx bytes ∷ []) h next) (
          handed-block bytes (drain n s').1
              ∙ ap (◌++◌ bytes) (sends ∙ rw (on_way, same))
              ∙ block-append (length bytes) bytes _ shape,
          ends,
          idle,
        )
  ]

  -- What `comms_write` takes of its bytes, where the buffer is empty and nothing is on its way.
  put-empty :
      (bytes : List ℕ) (r : R)
      → contents r ≡ []
      → (contents (b.put bytes r).1 ≡ take capacity bytes)
        × ((b.put bytes r).0 ≡ min (length bytes) capacity)
  put-empty bytes r h =
      let (amount, shape, unclaimed) = b.put_lem bytes r in
      let all = amount ∙ rw h (min_minus_zero (length bytes) capacity) in
      (shape ∙ rw h (take-min _ capacity bytes all), all)

  pub comms_write-starts :
      (err : ℤ) (s : Comms R) (bytes : List ℕ)
      → 0 < (b.put bytes s.tx).0
      → comms_write b err bytes s ≡ uart_start_tx b err (record s { tx = (b.put bytes s.tx).1 })
  unfolding comms_write
  comms_write-starts err s bytes h = rw (nonzero (b.put bytes s.tx).0 h)

  -- A write while nothing is on its way, of some bytes, to a buffer that has room for a byte, returns
  -- 0, and what the driver is then handed until it has no more, in at most as many blocks as
  -- there are bytes, is those bytes in their order, as many as the buffer has room for; the
  -- buffer is empty again at the end.
  pub comms_write-sends :
      (s : Comms R) (bytes : List ℕ)
      → contents s.tx ≡ []
      → claimed s.tx ≡ 0
      → 0 < capacity
      → 0 < length bytes
      → let (s', result, calls) = comms_write b (pos 0) bytes s in
        let (s'', more) = drain (length bytes) s' in
        (result ≡ pos 0)
        × (handed (calls ++ more) ≡ take capacity bytes)
        × (contents s''.tx ≡ [])
        × (claimed s''.tx ≡ 0)
  comms_write-sends s bytes e h c n =
      let (taken, amount) = put-empty bytes s.tx e in
      let s1 = record s { tx = (b.put bytes s.tx).1 } in
      let unclaimed : claimed s1.tx ≡ 0 = (b.put_lem bytes s.tx).2 ∙ h in
      let (block, rb, started, (same, on_way, some_bytes, shape)) =
        starts s1 unclaimed (rw (taken, length-take) (omega arith)) in
      let (sends, ends, idle) =
        drain-sends (length bytes) (record s { tx = rb }) (rw on_way some_bytes)
          (taken-le (claimed rb) (length block) block (contents rb) on_way (rw same shape) refl)
          (rw (same, taken, length-take) (omega arith)) in
      rw (comms_write-starts (pos 0) s bytes (rw amount (omega arith)) ∙ started) (
        refl,
        handed-block block (drain (length bytes) (record s { tx = rb })).1
            ∙ ap (◌++◌ block) (sends ∙ rw (on_way, same))
            ∙ block-append (length block) block (contents s1.tx) shape
            ∙ taken,
        ends,
        idle,
      )
