-- ===== src/Cloud/Payload/Exact.antt =====
-- What `publish_get_payload` leaves in the buffer.
use pyrinas_zephyr.Common.{
  ℕ, zero, suc, ◌-◌, ◌≤◌, ◌<◌, ◌≡◌, ◌⊎◌, inl, inr, refl, sym, ap, ◌∙◌, true, some, List, [], ◌∷◌,
  ◌++◌, append_assoc, append-nil, length-append, ltb, length, pos, negsuc, eio, emsgsize,
  is_negative, arith, Bool-cases,
}
use pyrinas_zephyr.Cloud.Payload.{
  ReadResult, failed, got, Reader, Outcome, read_loop, publish_get_payload,
}

ReadResult-cases :
    {S : Type 0} (r : ReadResult S)
    → ((n : ℕ) × (s : S) × (r ≡ failed n s)) ⊎ ((bytes : List ℕ) × (s : S) × (r ≡ got bytes s))
ReadResult-cases (failed n s) = inl (n, s, refl)
ReadResult-cases (got bytes s) = inr (bytes, s, refl)

module _ {S : Type 0} (R : Reader S) where
  -- How a run of the loop from `s`, with `left` bytes to come after `written`, may end.
  abbrev pub IsRead : ℕ → List ℕ → S → Outcome S → Type 0
  IsRead left written s o =
      (bytes rest : List ℕ) × (o.written ≡ written ++ bytes)
      × (R.remaining s ≡ bytes ++ rest)
      × (((o.result ≡ pos 0) × (length bytes ≡ left) × (rest ≡ R.remaining o.reader))
          ⊎ ((is_negative o.result ≡ true) × (length bytes < left)))

  -- One read that gave `bytes`, and what follows it.
  IsRead-more :
      (left : ℕ) (written bytes : List ℕ) (s s' : S) (o : Outcome S)
      → R.remaining s ≡ bytes ++ R.remaining s'
      → length bytes ≤ left
      → IsRead (left - length bytes) (written ++ bytes) s' o
      → IsRead left written s o
  IsRead-more left written bytes s s' o e h (more, rest, w, r, end) = (
    bytes ++ more,
    rest,
    w ∙ append_assoc written bytes more,
    e ∙ ap (λ xs. bytes ++ xs) r ∙ sym (append_assoc bytes more rest),
    elim end [
      | inl (z, l, k) ↦ inl (z, length-append bytes more ∙ omega arith, k)
      | inr (neg, l) ↦ inr (neg, omega (arith, length-append bytes more))
    ],
  )

  loop_done :
      (fuel : ℕ) (written : List ℕ) (s : S)
      → read_loop R fuel 0 written s
        ≡ some (record { result = pos 0; written = written; reader = s })
  unfolding read_loop
  loop_done fuel written s = refl

  loop_failed :
      (fuel left n : ℕ) (written : List ℕ) (s s' : S)
      → R.read (suc left) s ≡ failed n s'
      → read_loop R (suc fuel) (suc left) written s
        ≡ some (record { result = negsuc n; written = written; reader = s' })
  unfolding read_loop
  loop_failed fuel left n written s s' e = ground arith

  loop_empty :
      (fuel left : ℕ) (written : List ℕ) (s s' : S)
      → R.read (suc left) s ≡ got [] s'
      → read_loop R (suc fuel) (suc left) written s
        ≡ some (record { result = eio; written = written; reader = s' })
  unfolding read_loop
  loop_empty fuel left written s s' e = ground arith

  loop_got :
      (fuel left b : ℕ) (bytes written : List ℕ) (s s' : S)
      → R.read (suc left) s ≡ got (b ∷ bytes) s'
      → read_loop R (suc fuel) (suc left) written s
        ≡ read_loop R fuel (suc left - length (b ∷ bytes)) (written ++ b ∷ bytes) s'
  unfolding read_loop
  loop_got fuel left b bytes written s s' e = ground arith

  read_loop_lem :
      (fuel left : ℕ) (written : List ℕ) (s : S)
      → left ≤ fuel
      → (o : Outcome S) × (read_loop R fuel left written s ≡ some o) × IsRead left written s o
  read_loop_lem fuel zero written s h = (
    record { result = pos 0; written = written; reader = s },
    loop_done fuel written s,
    ([], R.remaining s, sym (append-nil written), refl, inl (refl, refl, refl)),
  )
  read_loop_lem zero (suc left) written s h = absurd (omega arith)
  read_loop_lem (suc fuel) (suc left) written s h = elim (ReadResult-cases (R.read (suc left) s)) [
    | inl (n, s', e) ↦ (
      _,
      loop_failed fuel left n written s s' e,
      ([], R.remaining s, sym (append-nil written), refl, inr (refl, omega arith)),
    )
    | inr ([], s', e) ↦ (
      _,
      loop_empty fuel left written s s' e,
      ([], R.remaining s, sym (append-nil written), refl, inr (refl, omega arith)),
    )
    | inr (b ∷ bytes, s', e) ↦
        let (parts, short) = R.read_prefix (suc left) s s' (b ∷ bytes) e in
        let (o, ran, read) =
          read_loop_lem fuel (suc left - length (b ∷ bytes)) (written ++ b ∷ bytes) s'
            (omega arith) in
        (
          o,
          loop_got fuel left b bytes written s s' e ∙ ran,
          IsRead-more (suc left) written (b ∷ bytes) s s' o parts short read,
        )
  ]

  -- With at least as many rounds as the payload has bytes the call ends. A payload that is larger than
  -- the buffer is not read. For any other the result is 0, exactly the next `size` bytes of the payload
  -- are in the buffer and the reader stands behind them, or it is negative and fewer bytes are in the
  -- buffer, the first of the payload: it writes no further than `size` in either case.
  pub publish_get_payload-IsRead :
      (buffer_size fuel size : ℕ) (s : S)
      → size ≤ fuel
      → (o : Outcome S) × (publish_get_payload R buffer_size fuel size s ≡ some o)
        × (((buffer_size < size) × (o ≡ record { result = emsgsize; written = []; reader = s }))
            ⊎ ((size ≤ buffer_size) × IsRead size [] s o))
  unfolding publish_get_payload
  publish_get_payload-IsRead buffer_size fuel size s enough =
      elim (Bool-cases (ltb buffer_size size)) [
        | inl long ↦ rw long (_, refl, inl (ground arith, refl))
        | inr fits ↦
            let (o, ran, read) = read_loop_lem fuel size [] s enough in
            rw fits (o, ran, inr (ground arith, read))
      ]
