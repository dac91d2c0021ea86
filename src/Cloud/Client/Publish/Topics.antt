-- ===== src/Cloud/Client/Publish/Topics.antt =====
-- The topics of `pyrinas_cloud_publish_evt` and of `pyrinas_cloud_init`.
use mathlib.Core.Path.{ap₂}
use pyrinas_zephyr.Common.{
  ℕ, zero, suc, ◌+◌, ◌*◌, ◌/◌, ◌%◌, ◌-◌, ◌≤◌, ◌<◌, ◌≡◌, refl, ap, ◌∙◌, arith, Bool, true, false,
  some, List, [], ◌∷◌, ◌++◌, ltb, if◌then◌else◌, length, length-append, take, take-all, length-take,
  Bool-cases, inl, inr, take-append, drop, drop-append, append_assoc, c_string, is_error, pos, ℤ,
}
use pyrinas_zephyr.Cloud.Client.Publish.{
  hex, hex_digit, uid_of, application_topic, app_pub, ota_pub, ota_sub, tel_pub, app_sub, printed,
  Setup, set_topics, get_imei, pyrinas_cloud_init,
}

-- A reader of the hexadecimal text of an address.
abbrev pub hex_value : ℕ → ℕ
hex_value c = if ltb c 58 then c - 48 else c - 87

abbrev pub read_hex : List ℕ → List ℕ
read_hex [] = []
read_hex (c ∷ []) = []
read_hex (c ∷ d ∷ cs) = (hex_value c * 16 + hex_value d) ∷ read_hex cs

abbrev pub AreBytes : List ℕ → Type 0
AreBytes [] = Unit {0}
AreBytes (b ∷ bs) = (b < 256) × AreBytes bs

hex_value-hex_digit : (n : ℕ) → n < 16 → hex_value (hex_digit n) ≡ n
hex_value-hex_digit n h = ground arith

byte-hex :
    (b : ℕ) → b < 256 → hex_value (hex_digit (b / 16)) * 16 + hex_value (hex_digit (b % 16)) ≡ b
byte-hex b h =
    rw (hex_value-hex_digit (b / 16) (omega arith), hex_value-hex_digit (b % 16) (omega arith))
      (omega arith)

read_hex-hex : (bs : List ℕ) → AreBytes bs → read_hex (hex bs) ≡ bs
read_hex-hex [] h = refl
read_hex-hex (b ∷ bs) (h, hs) = ap₂ ◌∷◌ (byte-hex b h) (read_hex-hex bs hs)

length-hex : (bs : List ℕ) → length (hex bs) ≡ 2 * length bs
length-hex [] = omega arith
length-hex (b ∷ bs) = omega (arith, length-hex bs)

-- An address of a Bluetooth device.
abbrev pub IsAddress : List ℕ → Type 0
IsAddress addr = AreBytes addr × (length addr ≡ 6)

uid_of-hex : (addr : List ℕ) → IsAddress addr → uid_of addr ≡ hex addr
unfolding uid_of
uid_of-hex addr (h, n) = take-all 13 (hex addr) (omega (arith, length-hex addr))

topic-parts :
    (addr name : List ℕ)
    → IsAddress addr
    → length name ≤ 234
    → application_topic (uid_of addr) name ≡ hex addr ++ (app_pub ++ name)
unfolding application_topic
topic-parts addr name (h, a) n = rw (uid_of-hex addr (h, a)) (
    take-all 255 (hex addr ++ app_pub ++ name)
      (rw (length-append, length-append, length-hex) (omega arith))
    ∙ append_assoc (hex addr) app_pub name)

-- A reader of topics: the address from the 12 digits at the start, and what follows "/app/pub/".
abbrev pub read_topic : List ℕ → List ℕ × List ℕ
read_topic t = (read_hex (take 12 t), drop 9 (drop 12 t))

-- The topic of an event tells its sender and its name: for the address of a peripheral, 6 bytes, and
-- a name of at most 234 bytes it is not cut, and both are read back from it.
pub read_topic-application_topic :
    (addr name : List ℕ)
    → IsAddress addr
    → length name ≤ 234
    → read_topic (application_topic (uid_of addr) name) ≡ (addr, name)
read_topic-application_topic addr name (h, a) n =
    let digits : 12 ≡ length (hex addr) = omega (arith, length-hex addr) in
    ap read_topic (topic-parts addr name (h, a) n)
    ∙ ap₂ (λ x y. (x, y))
        (ap read_hex (take-append 12 (hex addr) (app_pub ++ name) digits) ∙ read_hex-hex addr h)
        (ap (drop 9) (drop-append 12 (hex addr) (app_pub ++ name) digits))

-- The topics with no byte cut off.
abbrev pub whole_topics : List ℕ → Setup
whole_topics imei = record {
  imei = imei;
  ota_pub_topic = c_string imei ++ ota_pub;
  ota_sub_topic = c_string imei ++ ota_sub;
  telemetry_pub_topic = c_string imei ++ tel_pub;
  application_sub_topic = c_string imei ++ app_sub ++ b'+' ∷ [];
}

length-c_string : (s : List ℕ) → length (c_string s) ≤ length s
length-c_string [] = omega arith
length-c_string (zero ∷ s) = omega arith
length-c_string (suc b ∷ s) = omega (arith, length-c_string s)

printed-append :
    (size : ℕ) (s t : List ℕ)
    → length s ≤ 15
    → 15 + length t < size
    → printed size (c_string s ++ t) ≡ c_string s ++ t
printed-append size s t hs ht =
    take-all (size - 1) (c_string s ++ t) (rw length-append (omega (arith, length-c_string s)))

set_topics-whole :
    (name_max : ℕ) (imei : List ℕ) → length imei ≤ 15 → set_topics name_max imei ≡ whole_topics imei
unfolding set_topics
set_topics-whole name_max imei h = rw (
  printed-append 28 imei ota_pub h (omega arith),
  printed-append 28 imei ota_sub h (omega arith),
  printed-append 28 imei tel_pub h (omega arith),
  append_assoc,
  printed-append (33 + name_max) imei (app_sub ++ b'+' ∷ []) h (omega arith),
)

get_imei_lem :
    (err : ℤ) (answer imei : List ℕ)
    → (get_imei err answer imei).0 ≡ (if is_error err then imei else take 15 answer)
unfolding get_imei
get_imei_lem err answer imei = elim (Bool-cases (is_error err)) [ inl e ↦ rw e | inr e ↦ rw e ]

imei-le :
    (b : Bool) (answer imei : List ℕ)
    → length imei ≤ 15
    → length (if b then imei else take 15 answer) ≤ 15
imei-le true answer imei h = h
imei-le false answer imei h = omega (arith, length-take 15 answer)

-- Where its assertions hold `pyrinas_cloud_init` makes all four topics whole, from the first 15 bytes
-- of the modem's answer, and from what the array held before, of at most 15 bytes, if the
-- modem could not be asked: the error is lost.
pub pyrinas_cloud_init_topics :
    (name_max channel : ℕ) (err : ℤ) (answer imei : List ℕ)
    → length imei ≤ 15
    → pyrinas_cloud_init name_max true true (pos channel) err answer imei
      ≡ some (whole_topics (if is_error err then imei else take 15 answer))
unfolding pyrinas_cloud_init
pyrinas_cloud_init_topics name_max channel err answer imei h =
    ap (λ i. some (set_topics name_max i)) (get_imei_lem err answer imei)
    ∙ ap some (set_topics-whole name_max _ (imei-le (is_error err) answer imei h))
