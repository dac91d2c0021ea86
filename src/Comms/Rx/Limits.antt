-- ===== src/Comms/Rx/Limits.antt =====
-- What the receive loop of subsys/comms/comms.c does with chunks that complete two messages.
use pyrinas_zephyr.Common.{
  ℕ, ◌+◌, ◌-◌, ◌≤◌, ◌<◌, ◌≡◌, ◌≢◌, ◌⊎◌, inl, inr, refl, ap, sym, ◌∙◌, false, List, [], ◌∷◌, ◌++◌,
  arith, ltb, ◌==◌, if◌then◌else◌, length, length-append, take-append, drop-append, take-all,
  Bool-cases, append-nil,
}
use pyrinas_zephyr.Comms.Rx.{
  Rx, Round, done, fault, idle, sub32, buffer_size, fill, leftover, rx_round, rx_thread,
  after_round,
}
use pyrinas_zephyr.Comms.Rx.Reference.{read_bytes, filling, encode, CanSend, read_bytes-encode}
use pyrinas_zephyr.Comms.Rx.Framing.{fill-full, rx_round-header, rx_round-going, rx_thread-cons}

pos_length : (m : List ℕ) → m ≢ [] → 0 < length m
pos_length [] ne = absurd (ne refl)
pos_length (x ∷ xs) ne = omega arith

-- After one whole message the rest of the chunk is taken for the next one, whatever it holds.
rx_round-encode : (m rest : List ℕ) → CanSend m → rx_round idle (encode m ++ rest) ≡ leftover m rest
rx_round-encode m rest h =
    unfold encode in
    (rx_round-header idle (length m) (m ++ rest) refl (omega (arith, pos_length m h.0))
      ∙ fill-full (length m) [] (m ++ rest) h.1 (pos_length m h.0)
          (omega (arith, length-append m rest))
      ∙ rw
          (
            take-append (length m - 0) m rest (omega arith),
            drop-append (length m - 0) m rest (omega arith),
          )
          refl)

-- A message, a header and more than 256 bytes in one chunk write past the end of `message`, after
-- the first message has been handed over.
pub rx_round_overflow :
    (m rest : List ℕ) (b : ℕ)
    → CanSend m
    → b ≢ 0
    → buffer_size < length rest
    → rx_round idle (encode m ++ b ∷ rest) ≡ fault (m ∷ [])
rx_round_overflow m rest b h nz long = rx_round-encode m (b ∷ rest) h ∙ over
  where
    over : leftover m (b ∷ rest) ≡ fault (m ∷ [])
    over = unfold leftover in ground arith

-- Of two whole messages in one chunk the second waits in the buffer until more bytes arrive, where
-- the stream holds both.
pub rx_round_late :
    (m m' : List ℕ)
    → CanSend m
    → CanSend m'
    → (rx_round idle (encode m ++ encode m') ≡ done (filling (length m') m') (m ∷ []))
      × (read_bytes idle (encode m ++ encode m') ≡ (idle, m ∷ m' ∷ []))
rx_round_late m m' h h' = (
  rx_round-encode m (encode m') h ∙ kept,
  ap (λ w. read_bytes idle (encode m ++ w)) (sym (append-nil (encode m')))
      ∙ rw (read_bytes-encode m (encode m' ++ []) h, read_bytes-encode m' [] h')
          (unfold read_bytes in refl),
)
  where
    kept : leftover m (encode m') ≡ done (filling (length m') m') (m ∷ [])
    kept = unfold leftover encode in ground (arith, pos_length m')

abbrev pub AllShort : List (List ℕ) → Type 0
AllShort [] = Unit {0}
AllShort (c ∷ cs) = (length c ≤ 512) × AllShort cs

-- More bytes are stored than the message has.
abbrev pub IsOverrun : Rx → Type 0
IsOverrun s =
    (0 < s.message_size) × (s.message_size < length s.received) × (length s.received ≤ buffer_size)

overrun_fill :
    (n : ℕ) (r c : List ℕ)
    → 0 < n
    → n < length r
    → length r ≤ buffer_size
    → length c ≤ 512
    → fill n r c
      ≡ (if ltb buffer_size (length r + length c) then fault [] else done (filling n (r ++ c)) [])
overrun_fill n r c h0 h1 h2 h3 =
    unfold fill in rw (whole, more, take-all (length c) c (omega arith)) refl
  where
    whole :
        (if ltb (sub32 n (length r)) (length c) then sub32 n (length r) else length c) ≡ length c
    whole = ground arith

    more : (sub32 (sub32 n (length r)) (length c) == 0) ≡ false
    more = ground arith

rx_round-IsOverrun :
    (s : Rx) (c : List ℕ)
    → IsOverrun s
    → length c ≤ 512
    → (rx_round s c ≡ fault []) ⊎ ((t : Rx) × (rx_round s c ≡ done t []) × IsOverrun t)
rx_round-IsOverrun s [] o h = inr (s, unfold rx_round in refl, o)
rx_round-IsOverrun s (b ∷ rest) o h =
    let step =
      rx_round-going s b rest (omega arith)
      ∙ overrun_fill s.message_size s.received (b ∷ rest) o.0 o.1 o.2 h in
    elim (Bool-cases (ltb buffer_size (length s.received + length (b ∷ rest)))) [
      | inl over ↦ inl (step ∙ rw over refl)
      | inr fits ↦ inr (
        filling s.message_size (s.received ++ b ∷ rest),
        step ∙ rw fits refl,
        (
          o.0,
          omega (arith, length-append s.received (b ∷ rest)),
          ground (arith, length-append s.received (b ∷ rest)),
        ),
      )
    ]

-- No message is handed over.
abbrev pub IsSilent : Round → Type 0
IsSilent (done s ms) = ms ≡ []
IsSilent (fault ms) = ms ≡ []

-- From a state with more bytes than its message has, as a chunk with two whole messages and the
-- beginning of a third leaves it, no message is handed over ever again, whatever chunks come.
pub rx_thread-overrun :
    (s : Rx) (cs : List (List ℕ)) → IsOverrun s → AllShort cs → IsSilent (rx_thread s cs)
rx_thread-overrun s [] o h = unfold rx_thread in refl
rx_thread-overrun s (c ∷ cs) o h = elim (rx_round-IsOverrun s c o h.0) [
  | inl e ↦ unfold rx_thread in rw (e, rx_thread) refl
  | inr (t, e, o') ↦
      rw (rx_thread-cons s c cs e) (silent (rx_thread t cs) (rx_thread-overrun t cs o' h.1))
]
  where
    silent : (r : Round) → IsSilent r → IsSilent (after_round [] r)
    silent (done t ms) e = unfold after_round in e
    silent (fault ms) e = unfold after_round in e
