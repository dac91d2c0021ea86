-- ===== src/Cloud/Codec/Encode/Fits.antt =====
-- What `encode_ota_request` and `encode_telemetry_data` make, and the buffers that hold it.
use pyrinas_zephyr.Common.{
  ℕ, ◌+◌, ◌≤◌, ◌<◌, ◌≡◌, refl, sym, ◌∙◌, length-append, Bool, true, false, some, List, [], ◌∷◌,
  ◌++◌, append-nil, append_assoc, arith, length, ℤ, pos, negsuc, Bool-cases, inl, inr,
}
use pyrinas_zephyr.Cloud.Codec.{
  Value, int, text, TelemetryData, OtaCmdType, cmd_code, ota_cmd_type_check, ota_cmd_type_done,
}
use pyrinas_zephyr.Cloud.Codec.Encode.{
  Encoder, encode_ota_request, encode_telemetry_data, add_version, add_rsrp, add_central_rssi,
  add_peripheral_rssi, present, when, fit, entries_size, value_size, head_size,
}

nested :
    (d : TelemetryData)
    → present d
      ≡ ((([] ++ when d.has_version 0 (text d.version)) ++ when d.has_rsrp 1 (int (pos d.rsrp)))
          ++ when d.has_central_rssi 2 (int d.central_rssi))
        ++ when d.has_peripheral_rssi 3 (int d.peripheral_rssi)
nested d = simp append_assoc refl

-- The numbers that an `int8_t` holds.
abbrev pub IsInt8 : ℤ → Type 0
IsInt8 (pos n) = n < 128
IsInt8 (negsuc n) = n < 128

-- A version string that is there fits its 24 bytes with its terminator.
abbrev pub IsShort : Bool → List ℕ → Type 0
IsShort true s = length s < 24
IsShort false s = Unit {0}

abbrev pub IsSized : TelemetryData → Type 0
IsSized d =
    IsShort d.has_version d.version
    × (d.rsrp < 256)
    × IsInt8 d.central_rssi
    × IsInt8 d.peripheral_rssi

head-small : (n : ℕ) → n < 256 → head_size n ≤ 2
head-small n h = ground arith

int8-size : (n : ℤ) → IsInt8 n → value_size (int n) ≤ 2
int8-size (pos n) h = ground arith
int8-size (negsuc n) h = ground arith

entries_size-append :
    (xs ys : List (ℕ × Value)) → entries_size (xs ++ ys) ≡ entries_size xs + entries_size ys
entries_size-append [] ys = omega arith
entries_size-append ((l, v) ∷ xs) ys = omega (arith, entries_size-append xs ys)

when-size :
    (b : Bool) (l : ℕ) (v : Value)
    → l < 24
    → (entries_size (when b l v) ≤ 1 + value_size v) × (length (when b l v) ≤ 1)
when-size true l v h = (ground arith, omega arith)
when-size false l v h = (omega arith, omega arith)

-- Four lists of at most one entry each.
append-size :
    (a b c e : List (ℕ × Value))
    → length a ≤ 1
    → length b ≤ 1
    → length c ≤ 1
    → length e ≤ 1
    → entries_size a + entries_size b + entries_size c + entries_size e ≤ 63
    → head_size (length (a ++ b ++ c ++ e)) + entries_size (a ++ b ++ c ++ e) ≤ 64
append-size a b c e la lb lc le h =
    let few : length (a ++ b ++ c ++ e) < 24 =
      rw (length-append, length-append, length-append) (omega arith) in
    let size : entries_size (a ++ b ++ c ++ e)
        ≡ entries_size a + entries_size b + entries_size c + entries_size e =
      rw (entries_size-append, entries_size-append, entries_size-append) (omega arith) in
    ground (arith, few, size)

version-size : (b : Bool) (s : List ℕ) → IsShort b s → entries_size (when b 0 (text s)) ≤ 25
version-size true s h = ground arith
version-size false s h = omega arith

present-size :
    (d : TelemetryData) → IsSized d → head_size (length (present d)) + entries_size (present d) ≤ 64
present-size d (hv, hr, hc, hp) =
    append-size _ _ _ _ (when-size d.has_version 0 (text d.version) (omega arith)).1
      (when-size d.has_rsrp 1 (int (pos d.rsrp)) (omega arith)).1
      (when-size d.has_central_rssi 2 (int d.central_rssi) (omega arith)).1
      (when-size d.has_peripheral_rssi 3 (int d.peripheral_rssi) (omega arith)).1
      (omega (
        arith,
        when-size d.has_rsrp 1 (int (pos d.rsrp)) (omega arith),
        when-size d.has_central_rssi 2 (int d.central_rssi) (omega arith),
        when-size d.has_peripheral_rssi 3 (int d.peripheral_rssi) (omega arith),
        version-size d.has_version d.version hv,
        head-small d.rsrp hr,
        int8-size d.central_rssi hc,
        int8-size d.peripheral_rssi hp,
      ))

code-size :
    (cmd : OtaCmdType) → head_size 1 + entries_size ((0, int (pos (cmd_code cmd))) ∷ []) ≤ 10
code-size ota_cmd_type_check = omega arith
code-size ota_cmd_type_done = omega arith

module _ {E : Type 0} (q : Encoder E) where
  open q use {entries, capacity}

  -- An encoder that has been given the entries `es` and has a buffer of `n` bytes.
  abbrev Holds : List (ℕ × Value) → ℕ → E → Type 0
  Holds es n ec = (entries ec ≡ es) × (capacity ec ≡ n)

  open_map-Holds : (n : ℕ) → Holds [] n (q.open_map (q.init n))
  open_map-Holds n = (q.entries-open_map n, q.capacity-open_map n)

  add_version-Holds :
      (d : TelemetryData) (es : List (ℕ × Value)) (n : ℕ) (ec : E)
      → Holds es n ec
      → Holds (es ++ when d.has_version 0 (text d.version)) n (add_version q d ec)
  unfolding add_version
  add_version-Holds d es n ec (e, c) = elim (Bool-cases d.has_version) [
    | inl h ↦ rw (h, q.entries-add_sz_string, q.capacity-add_sz_string, e) (refl, c)
    | inr h ↦ rw (h, append-nil) (e, c)
  ]

  add_rsrp-Holds :
      (d : TelemetryData) (es : List (ℕ × Value)) (n : ℕ) (ec : E)
      → Holds es n ec
      → Holds (es ++ when d.has_rsrp 1 (int (pos d.rsrp))) n (add_rsrp q d ec)
  unfolding add_rsrp
  add_rsrp-Holds d es n ec (e, c) = elim (Bool-cases d.has_rsrp) [
    | inl h ↦ rw (h, q.entries-add_uint64, q.capacity-add_uint64, e) (refl, c)
    | inr h ↦ rw (h, append-nil) (e, c)
  ]

  add_central_rssi-Holds :
      (d : TelemetryData) (es : List (ℕ × Value)) (n : ℕ) (ec : E)
      → Holds es n ec
      → Holds (es ++ when d.has_central_rssi 2 (int d.central_rssi)) n (add_central_rssi q d ec)
  unfolding add_central_rssi
  add_central_rssi-Holds d es n ec (e, c) = elim (Bool-cases d.has_central_rssi) [
    | inl h ↦ rw (h, q.entries-add_int64, q.capacity-add_int64, e) (refl, c)
    | inr h ↦ rw (h, append-nil) (e, c)
  ]

  add_peripheral_rssi-Holds :
      (d : TelemetryData) (es : List (ℕ × Value)) (n : ℕ) (ec : E)
      → Holds es n ec
      → Holds
          (es ++ when d.has_peripheral_rssi 3 (int d.peripheral_rssi))
          n
          (add_peripheral_rssi q d ec)
  unfolding add_peripheral_rssi
  add_peripheral_rssi-Holds d es n ec (e, c) = elim (Bool-cases d.has_peripheral_rssi) [
    | inl h ↦ rw (h, q.entries-add_int64, q.capacity-add_int64, e) (refl, c)
    | inr h ↦ rw (h, append-nil) (e, c)
  ]

  finish-Holds :
      (es : List (ℕ × Value)) (n : ℕ) (ec : E)
      → Holds es n ec
      → q.finish_get_size (q.close_map ec) ≡ fit q es n
  finish-Holds es n ec (e, c) = rw (q.finish_close_map, e, c)

  -- `encode_telemetry_data` gives the encoding of the map of the fields that the record has, in
  -- the order of their labels, if that fits the buffer, and an error if it does not.
  pub encode_telemetry_data-present :
      (d : TelemetryData) (n : ℕ) → encode_telemetry_data q d n ≡ fit q (present d) n
  unfolding encode_telemetry_data
  encode_telemetry_data-present d n = rw (sym (nested d)) (
      finish-Holds _ n _ (
        add_peripheral_rssi-Holds d _ n _ (
          add_central_rssi-Holds d _ n _
            (add_rsrp-Holds d _ n _ (add_version-Holds d [] n _ (open_map-Holds n))))))

  encode_ota_request-code :
      (cmd : OtaCmdType) (n : ℕ)
      → encode_ota_request q cmd n ≡ fit q ((0, int (pos (cmd_code cmd))) ∷ []) n
  unfolding encode_ota_request
  encode_ota_request-code cmd n = finish-Holds _ n _ (
      rw (q.entries-add_uint64, q.capacity-add_uint64, q.entries-open_map, q.capacity-open_map)
        (refl, refl))

  -- A list of entries that fits its buffer.
  fit-some :
      (es : List (ℕ × Value)) (n : ℕ)
      → head_size (length es) + entries_size es ≤ n
      → fit q es n ≡ some (q.encoding es)
  fit-some es n h = ground (arith, q.length-encoding es)

  -- The buffers of 64 and 10 bytes of pyrinas_cloud.c hold what the codec makes for them: a
  -- telemetry record whose version string and numbers fit their fields, which are of 24, 1, 1 and
  -- 1 bytes, gives the encoding of its fields in 64 bytes, and either request gives its own in 10.
  pub encode-fits :
      (d : TelemetryData) (cmd : OtaCmdType)
      → IsSized d
      → (encode_telemetry_data q d 64 ≡ some (q.encoding (present d)))
        × (encode_ota_request q cmd 10 ≡ some (q.encoding ((0, int (pos (cmd_code cmd))) ∷ [])))
  encode-fits d cmd h = (
    encode_telemetry_data-present d 64 ∙ fit-some (present d) 64 (present-size d h),
    encode_ota_request-code cmd 10 ∙ fit-some _ 10 (code-size cmd),
  )
