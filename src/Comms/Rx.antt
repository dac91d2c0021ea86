-- ===== src/Comms/Rx.antt =====
-- The receive loop of subsys/comms/comms.c (`comms_rx_thread`): what one round of the loop does with
-- the bytes that it claims from the ring buffer. A message on the wire is its length, one byte, and
-- then its bytes.
pub mod Reference
pub mod Framing
pub mod Limits
mod Tests
use pyrinas_zephyr.Common.{
  ℕ, suc, ◌+◌, ◌-◌, ◌%◌, ◌^◌, ◌<◌, List, [], ◌∷◌, ◌++◌, ltb, ◌==◌, if◌then◌else◌, length, take,
  drop,
}

-- The variables that live from one round to the next. `received` is what stands in `message` before
-- `p_message_next`.
pub record Rx : Type 0 where
  pub message_size : ℕ
  pub received : List ℕ

-- What a round comes to: the state and the messages handed to `callback`, or a write past the end of
-- `message`, after those messages.
pub data Round : Type 0 where
  done : Rx → List (List ℕ) → Round
  fault : List (List ℕ) → Round

-- sizeof(message)
abbrev pub buffer_size : ℕ
buffer_size = 256

-- The thread's state when the loop begins.
abbrev pub idle : Rx
idle = record { message_size = 0; received = [] }

-- `size_t` subtraction on the 32-bit target.
abbrev pub sub32 : ℕ → ℕ → ℕ
sub32 a b = (a + 2 ^ 32 - b) % 2 ^ 32

-- After a full message: the first byte of what is left is the next size, and all the rest is copied.
pub leftover : List ℕ → List ℕ → Round
leftover message [] = done idle (message ∷ [])
leftover message (b ∷ rest) =
    if b == 0
    then done idle (message ∷ [])
    else if ltb buffer_size (length rest)
    then fault (message ∷ [])
    else done (record { message_size = b; received = rest }) (message ∷ [])

-- From `read_cnt` on, with the bytes from `p_data_start` to `p_data_end`.
pub fill : ℕ → List ℕ → List ℕ → Round
unfolding leftover
fill size received chunk =
    let remaining = sub32 size (length received) in
    let read_cnt = (if ltb remaining (length chunk) then remaining else length chunk) in
    let message = received ++ take read_cnt chunk in
    if ltb buffer_size (length received + read_cnt)
    then fault []
    else if sub32 remaining read_cnt == 0
    then leftover (take size message) (drop read_cnt chunk)
    else done (record { message_size = size; received = message }) []

-- A first byte 0 skips the whole round.
pub begin : ℕ → List ℕ → Round
begin b rest = if b == 0 then done idle [] else fill b [] rest

-- One round; the list is what `ring_buf_get_claim` gave.
pub rx_round : Rx → List ℕ → Round
unfolding begin
rx_round s [] = done s []
rx_round s (b ∷ rest) =
    if s.message_size == 0 then begin b rest else fill s.message_size s.received (b ∷ rest)

-- The rounds of the loop, to the first fault.
pub after_round : List (List ℕ) → Round → Round
after_round ms (done s more) = done s (ms ++ more)
after_round ms (fault more) = fault (ms ++ more)

pub rx_thread : Rx → List (List ℕ) → Round
unfolding after_round
rx_thread s [] = done s []
rx_thread s (c ∷ cs) = elim (rx_round s c) [
  | done s' ms ↦ after_round ms (rx_thread s' cs)
  | fault ms ↦ fault ms
]
