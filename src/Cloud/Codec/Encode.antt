-- ===== src/Cloud/Codec/Encode.antt =====
-- `encode_ota_request` and `encode_telemetry_data` of pyrinas_cloud_codec.c, with QCBOR's encoder
-- as an interface.
pub mod Fits
pub mod Cbor
mod Tests
use pyrinas_zephyr.Common.{
  ℕ, ◌+◌, ◌^◌, ◌≤◌, ◌≡◌, Bool, true, false, Option, none, some, List, [], ◌∷◌, ◌++◌, leb,
  if◌then◌else◌, length, ℤ, pos, negsuc, ltb,
}
use pyrinas_zephyr.Cloud.Codec.{
  Value, int, text, TelemetryData, tel_type_version, tel_type_rsrp, tel_type_rssi_central,
  tel_type_rssi_peripheral, OtaCmdType, cmd_code,
}

-- The bytes that CBOR needs for a head with the number `n`, and for an item that an encoder adds.
abbrev pub head_size : ℕ → ℕ
head_size n =
    if ltb n 24
    then 1
    else if ltb n (2 ^ 8)
    then 2
    else if ltb n (2 ^ 16)
    then 3
    else if ltb n (2 ^ 32)
    then 5
    else 9

abbrev pub value_size : Value → ℕ
value_size (int (pos n)) = head_size n
value_size (int (negsuc n)) = head_size n
value_size (text s) = head_size (length s) + length s
value_size _ = 0

abbrev pub entries_size : List (ℕ × Value) → ℕ
entries_size [] = 0
entries_size ((label, value) ∷ rest) = head_size label + value_size value + entries_size rest

-- An encoding context `E` for one map, with what QCBOR's documentation says of the calls that the
-- code makes: the entries stand in the map in the order in which they were added, and the encoding
-- is given only if it fits the buffer. `none` is a nonzero `QCBORError`.
pub record Encoder (E : Type 0) : Type 0 where
  pub init : ℕ → E
  pub open_map : E → E
  pub add_uint64_to_map_n : ℕ → ℕ → E → E
  pub add_int64_to_map_n : ℕ → ℤ → E → E
  pub add_sz_string_to_map_n : ℕ → List ℕ → E → E
  pub close_map : E → E
  pub finish_get_size : E → Option (List ℕ)
  pub entries : E → List (ℕ × Value)
  pub capacity : E → ℕ
  pub encoding : List (ℕ × Value) → List ℕ
  pub entries-open_map : (n : ℕ) → entries (open_map (init n)) ≡ []
  pub capacity-open_map : (n : ℕ) → capacity (open_map (init n)) ≡ n
  pub entries-add_uint64 :
      (l n : ℕ) (e : E) → entries (add_uint64_to_map_n l n e) ≡ entries e ++ (l, int (pos n)) ∷ []
  pub capacity-add_uint64 : (l n : ℕ) (e : E) → capacity (add_uint64_to_map_n l n e) ≡ capacity e
  pub entries-add_int64 :
      (l : ℕ) (n : ℤ) (e : E) → entries (add_int64_to_map_n l n e) ≡ entries e ++ (l, int n) ∷ []
  pub capacity-add_int64 :
      (l : ℕ) (n : ℤ) (e : E) → capacity (add_int64_to_map_n l n e) ≡ capacity e
  pub entries-add_sz_string :
      (l : ℕ) (s : List ℕ) (e : E)
      → entries (add_sz_string_to_map_n l s e) ≡ entries e ++ (l, text s) ∷ []
  pub capacity-add_sz_string :
      (l : ℕ) (s : List ℕ) (e : E) → capacity (add_sz_string_to_map_n l s e) ≡ capacity e
  pub finish_close_map :
      (e : E)
      → finish_get_size (close_map e) ≡ (
          if leb (length (encoding (entries e))) (capacity e)
          then some (encoding (entries e))
          else none)
  pub length-encoding :
      (es : List (ℕ × Value)) → length (encoding es) ≤ head_size (length es) + entries_size es

module _ {E : Type 0} (q : Encoder E) where
  open q use {
    init, open_map, close_map, add_uint64_to_map_n, add_int64_to_map_n, add_sz_string_to_map_n,
    finish_get_size,
  }

  pub encode_ota_request : OtaCmdType → ℕ → Option (List ℕ)
  encode_ota_request cmd_type data_len =
      let ec = open_map (init data_len) in
      let ec' = add_uint64_to_map_n 0 (cmd_code cmd_type) ec in finish_get_size (close_map ec')

  -- The four fields of `encode_telemetry_data`, each under its `if`.
  pub add_version : TelemetryData → E → E
  add_version d ec =
      if d.has_version then add_sz_string_to_map_n tel_type_version d.version ec else ec

  pub add_rsrp : TelemetryData → E → E
  add_rsrp d ec = if d.has_rsrp then add_uint64_to_map_n tel_type_rsrp d.rsrp ec else ec

  pub add_central_rssi : TelemetryData → E → E
  add_central_rssi d ec =
      if d.has_central_rssi then add_int64_to_map_n tel_type_rssi_central d.central_rssi ec else ec

  pub add_peripheral_rssi : TelemetryData → E → E
  add_peripheral_rssi d ec =
      if d.has_peripheral_rssi
      then add_int64_to_map_n tel_type_rssi_peripheral d.peripheral_rssi ec
      else ec

  pub encode_telemetry_data : TelemetryData → ℕ → Option (List ℕ)
  unfolding add_version add_rsrp add_central_rssi add_peripheral_rssi
  encode_telemetry_data d data_len =
      let ec = open_map (init data_len) in
      let ec' = add_peripheral_rssi d (add_central_rssi d (add_rsrp d (add_version d ec))) in
      finish_get_size (close_map ec')

-- The entries that stand for the record: the fields that it has, in the order of their labels.
abbrev pub when : Bool → ℕ → Value → List (ℕ × Value)
when true label value = (label, value) ∷ []
when false label value = []

abbrev pub present : TelemetryData → List (ℕ × Value)
present d =
    when d.has_version tel_type_version (text d.version)
    ++ when d.has_rsrp tel_type_rsrp (int (pos d.rsrp))
    ++ when d.has_central_rssi tel_type_rssi_central (int d.central_rssi)
    ++ when d.has_peripheral_rssi tel_type_rssi_peripheral (int d.peripheral_rssi)

-- What an encoder makes of the entries in a buffer of `n` bytes.
abbrev pub fit : {E : Type 0} → Encoder E → List (ℕ × Value) → ℕ → Option (List ℕ)
fit q es n = if leb (length (q.encoding es)) n then some (q.encoding es) else none
