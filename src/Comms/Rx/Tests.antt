-- ===== src/Comms/Rx/Tests.antt =====
-- Runs of the receive loop on concrete bytes.
use pyrinas_zephyr.Common.{
  ℕ, ◌≡◌, ◌≢◌, refl, inl, inr, List, [], ◌∷◌, ◌++◌, arith, replicate, flatten,
}
use pyrinas_zephyr.Comms.Rx.{done, fault, idle, rx_round, rx_thread, fill}
use pyrinas_zephyr.Comms.Rx.Reference.{read_bytes, filling, encode}
use pyrinas_zephyr.Comms.Rx.Framing.{Paced, rx_thread-encode, rx_thread-reads}
use pyrinas_zephyr.Comms.Rx.Limits.{IsSilent, rx_round_overflow, rx_thread-overrun}

abbrev first : List ℕ
first = 7 ∷ 8 ∷ []

abbrev second : List ℕ
second = 9 ∷ []

-- The header of the second message comes with the end of the first one.
abbrev chunks : List (List ℕ)
chunks = (2 ∷ 7 ∷ []) ∷ (8 ∷ 1 ∷ []) ∷ (9 ∷ []) ∷ []

rx_thread_runs : rx_thread idle chunks ≡ done idle (first ∷ second ∷ [])
unfolding rx_thread rx_round fill
rx_thread_runs = refl

-- A header 0 drops the rest of its chunk.
rx_round_zero : rx_round idle (0 ∷ 2 ∷ 7 ∷ 8 ∷ []) ≡ done idle []
unfolding rx_round
rx_round_zero = refl

nonempty : (b : ℕ) (bs : List ℕ) → b ∷ bs ≢ []
nonempty b bs = ground arith

chunks-Paced : Paced idle chunks
unfolding read_bytes
chunks-Paced = (
  omega arith,
  inl refl,
  (
    omega arith,
    inr (first, nonempty 7 (8 ∷ []), refl),
    (omega arith, inr (second, nonempty 9 [], refl), tt),
  ),
)

rx_thread-encode_example : rx_thread idle chunks ≡ done idle (first ∷ second ∷ [])
unfolding flatten encode
rx_thread-encode_example =
    rx_thread-encode (first ∷ second ∷ []) chunks
      ((nonempty 7 (8 ∷ []), omega arith), ((nonempty 9 [], omega arith), tt)) refl chunks-Paced

rx_thread-reads_example :
    rx_thread idle chunks
    ≡ done (read_bytes idle (flatten chunks)).0 (read_bytes idle (flatten chunks)).1
rx_thread-reads_example = rx_thread-reads idle chunks (inl refl) chunks-Paced

rx_round_overflow_example :
    rx_round idle (encode second ++ 1 ∷ replicate 300 0) ≡ fault (second ∷ [])
rx_round_overflow_example =
    rx_round_overflow second (replicate 300 0) 1 (nonempty 9 [], omega arith) (omega arith)
      (omega arith)

-- As three messages in one chunk leave it.
rx_thread-overrun_example : IsSilent (rx_thread (filling 1 (9 ∷ 1 ∷ 4 ∷ [])) ((1 ∷ 5 ∷ []) ∷ []))
rx_thread-overrun_example =
    rx_thread-overrun (filling 1 (9 ∷ 1 ∷ 4 ∷ [])) ((1 ∷ 5 ∷ []) ∷ []) (omega arith) (omega arith)
