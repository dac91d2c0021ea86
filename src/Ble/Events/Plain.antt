-- ===== src/Ble/Events/Plain.antt =====
-- A codec for all events, in the place of nanopb.
use pyrinas_zephyr.Common.{
  ℕ, ◌≡◌, ◌≢◌, Option, some, none, List, [], ◌∷◌, ◌++◌, arith, take, drop, take-append, drop-append,
  length,
}
use pyrinas_zephyr.Ble.Events.{Event}

-- A codec for all events.
abbrev pub plain_encode : Event → Option (List ℕ)
plain_encode evt = some (
    evt.name.size
    ∷ length evt.name.bytes
    ∷ evt.content.size
    ∷ (evt.name.bytes ++ evt.content.bytes))

abbrev pub plain_decode : List ℕ → Option Event
plain_decode (a ∷ n ∷ c ∷ rest) = some (record {
  name = record { size = a; bytes = take n rest };
  content = record { size = c; bytes = drop n rest };
})
plain_decode _ = none

pub plain_codec :
    (evt : Event) (packet : List ℕ)
    → plain_encode evt ≡ some packet
    → (plain_decode packet ≡ some evt) × (packet ≢ [])
plain_codec evt [] e = cc
plain_codec evt (a ∷ []) e = cc
plain_codec evt (a ∷ b ∷ []) e = cc
plain_codec evt (a ∷ n ∷ c ∷ rest) e = (
  ground (
    arith,
    take-append n evt.name.bytes evt.content.bytes,
    drop-append n evt.name.bytes evt.content.bytes,
  ),
  ground arith,
)
