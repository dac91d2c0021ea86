-- ===== src/Comms/Uart/Tests.antt =====
-- A link that writes, and one that receives.
use pyrinas_zephyr.Common.{
  ℕ, ◌≡◌, ◌⊎◌, ◌≤◌, ◌<◌, refl, inl, inr, ◌≢◌, arith, none, some, List, [], ◌∷◌, ◌++◌, length, take,
  drop, pos, negsuc, list_ring, true, enomem, einval, flatten,
}
use pyrinas_zephyr.Comms.Rx.{done, idle, rx_thread}
use pyrinas_zephyr.Comms.Rx.Reference.{read_bytes, encode}
use pyrinas_zephyr.Comms.Rx.Framing.{Paced}
use pyrinas_zephyr.Comms.Uart.{
  Comms, uart_tx, uart_rx_enable, uart_callback_set, comms_write, tx_done, comms_init, rx_rdy,
  take_chunk,
}
use pyrinas_zephyr.Comms.Uart.Sending.{handed, drain, comms_write-sends}
use pyrinas_zephyr.Comms.Uart.Busy.{comms_write-busy}
use pyrinas_zephyr.Comms.Uart.Receiving.{Step, arrive, turn, run, Roomy, arrived, run-messages}
use pyrinas_zephyr.Comms.Uart.Blocks.{Blocks}

abbrev Ring : Type 0
Ring = List ℕ × ℕ

-- Buffers of 8 bytes whose claims have at most 2, and one block.
abbrev fresh : Comms Ring
fresh = record { tx = ([], 0); rx = ([], 0); slab_free = 1; callback = none }

abbrev bytes : List ℕ
bytes = 2 ∷ 7 ∷ 8 ∷ []

comms_write-sends_example :
    let (s', result, calls) = comms_write (list_ring 8 1) (pos 0) bytes fresh in
    let (s'', more) = drain (list_ring 8 1) 3 s' in
    (result ≡ pos 0) × (handed (calls ++ more) ≡ bytes) × (s''.tx.0 ≡ []) × (s''.tx.1 ≡ 0)
comms_write-sends_example =
    comms_write-sends (list_ring 8 1) fresh bytes refl refl (omega arith) (omega arith)

-- The first of two blocks.
write_starts :
    comms_write (list_ring 8 1) (pos 0) bytes fresh
    ≡ (record fresh { tx = (bytes, 2) }, pos 0, uart_tx (2 ∷ 7 ∷ []) ∷ [])
unfolding comms_write
write_starts = refl

abbrev busy : Comms Ring
busy = record fresh { tx = (1 ∷ 5 ∷ [], 2) }

comms_write-busy_example :
    let (s', result, calls) = comms_write (list_ring 8 1) (negsuc 15) bytes busy in
    let (s'', more) = tx_done (list_ring 8 1) (pos 0) 2 s' in
    (m : ℕ) × (0 < m)
    × (m ≤ 3)
    × (result ≡ pos 0)
    × ((s''.tx.0 ≡ drop m bytes)
        × (handed more ≡ take (length (handed more)) (drop m bytes))
        × ((m ≡ 3) ⊎ (0 < length (handed more))))
comms_write-busy_example =
    comms_write-busy (list_ring 8 1) (negsuc 15) busy bytes refl refl (omega arith) (omega arith)

write_full : comms_write (list_ring 2 1) (pos 0) bytes busy ≡ (busy, enomem, [])
unfolding comms_write
write_full = refl

init_without_callback : comms_init none true (pos 0) (pos 0) fresh ≡ some (fresh, einval, [])
unfolding comms_init
init_without_callback = refl

init :
    comms_init (some 3) true (pos 0) (pos 0) fresh
    ≡ some (
      record fresh { callback = some 3; slab_free = 0 },
      pos 0,
      uart_callback_set ∷ uart_rx_enable 128 ∷ [],
    )
unfolding comms_init
init = refl

abbrev steps : List Step
steps = arrive (2 ∷ 7 ∷ []) ∷ turn ∷ arrive (8 ∷ 1 ∷ []) ∷ turn ∷ arrive (9 ∷ []) ∷ turn ∷ []

nonempty : (b : ℕ) (bs : List ℕ) → b ∷ bs ≢ []
nonempty b bs = ground arith

steps-Paced : Paced idle ((2 ∷ 7 ∷ []) ∷ (8 ∷ 1 ∷ []) ∷ (9 ∷ []) ∷ [])
unfolding read_bytes
steps-Paced = (
  omega arith,
  inl refl,
  (
    omega arith,
    inr (7 ∷ 8 ∷ [], nonempty 7 (8 ∷ []), refl),
    (omega arith, inr (9 ∷ [], nonempty 9 [], refl), tt),
  ),
)

run_steps : run (list_ring 8 1) steps fresh ≡ (fresh, (2 ∷ 7 ∷ []) ∷ (8 ∷ 1 ∷ []) ∷ (9 ∷ []) ∷ [])
unfolding run rx_rdy take_chunk
run_steps = refl

run-messages_example :
    rx_thread idle (run (list_ring 8 1) steps fresh).1 ≡ done idle ((7 ∷ 8 ∷ []) ∷ (9 ∷ []) ∷ [])
unfolding run Roomy arrived encode flatten rx_rdy take_chunk
run-messages_example =
    run-messages (list_ring 8 1) steps fresh ((7 ∷ 8 ∷ []) ∷ (9 ∷ []) ∷ [])
      ((nonempty 7 (8 ∷ []), omega arith), ((nonempty 9 [], omega arith), tt)) refl refl refl
      (omega arith) refl steps-Paced

abbrev blocks : Blocks Ring
blocks = record { comms = fresh; held = 0; lost = 0 }
