-- ===== src/App/Ticker.antt =====
-- applications/client/src/app.c, and applications/hub/src/app.c with another name: the timer that
-- publishes a counter twice a second.
pub mod Reading
pub mod Delivery
mod Tests
use pyrinas_zephyr.Common.{
  ℕ, zero, suc, ◌+◌, ◌-◌, ◌*◌, ◌/◌, ◌%◌, ◌^◌, Option, List, [], ◌∷◌, ltb, if◌then◌else◌, take, Msgq,
}
use pyrinas_zephyr.Ble.Events.{Event}
use pyrinas_zephyr.Ble.Role.{Role, ble_is_connected, publish}

-- The digits of a number, before those in `last`; a number below 2 ^ 32 has at most ten.
pub digits : ℕ → ℕ → List ℕ → List ℕ
digits zero n last = last
digits (suc fuel) n last =
    let rest = digits fuel (n / 10) ((48 + n % 10) ∷ last) in
    if ltb n 10 then (48 + n % 10) ∷ last else rest

-- "%i" of an `int`, which stands here as its bit pattern; 45 is "-".
pub print_int : ℕ → List ℕ
unfolding digits
print_int n = if ltb n (2 ^ 31) then digits 10 n [] else 45 ∷ digits 10 (2 ^ 32 - n) []

-- What `snprintf` leaves in the ten bytes of `count`.
pub count_text : ℕ → List ℕ
unfolding print_int
count_text n = take 9 (print_int n)

-- "pong", which the client publishes, and "ping", which the hub does.
abbrev pub pong : List ℕ
pong = b'p' ∷ b'o' ∷ b'n' ∷ b'g' ∷ []

abbrev pub ping : List ℕ
ping = b'p' ∷ b'i' ∷ b'n' ∷ b'g' ∷ []

module _ {Q : Type 0} (K : Msgq (List ℕ) Q) (pb_encode : Event → Option (List ℕ))
    (name_bytes data_bytes item_size : ℕ) (name : List ℕ) where
  -- `tx_counter` and the role. The counter is taken to wrap around. The timer is started again in
  -- either case.
  pub my_expiry_function : ℕ × Role Q → ℕ × Role Q
  unfolding count_text
  my_expiry_function (n, r) =
      if ble_is_connected r
      then (
        (n + 1) % 2 ^ 32,
        (publish K pb_encode name_bytes data_bytes item_size name (count_text n) r).0,
      )
      else (n, r)

  -- The timer expires so many times.
  pub expiries : ℕ → ℕ × Role Q → ℕ × Role Q
  expiries zero s = s
  expiries (suc k) s = expiries k (my_expiry_function s)
