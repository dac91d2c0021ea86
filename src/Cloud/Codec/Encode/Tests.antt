-- ===== src/Cloud/Codec/Encode/Tests.antt =====
-- Messages in the bytes of CBOR.
use pyrinas_zephyr.Common.{ℕ, ◌≡◌, refl, true, false, none, some, List, [], ◌∷◌, pos, negsuc}
use pyrinas_zephyr.Cloud.Codec.{TelemetryData, ota_cmd_type_done}
use pyrinas_zephyr.Cloud.Codec.Encode.{encode_telemetry_data, encode_ota_request}
use pyrinas_zephyr.Cloud.Codec.Encode.Cbor.{collector}

-- The version "1.2", a signal strength of 40, and -70 at the central.
abbrev sample : TelemetryData
sample = record {
  has_version = true;
  version = 49 ∷ 46 ∷ 50 ∷ [];
  has_rsrp = true;
  rsrp = 40;
  has_central_rssi = true;
  central_rssi = negsuc 69;
  has_peripheral_rssi = false;
  peripheral_rssi = pos 0;
}

abbrev sample_bytes : List ℕ
sample_bytes = 163 ∷ 0 ∷ 99 ∷ 49 ∷ 46 ∷ 50 ∷ 1 ∷ 24 ∷ 40 ∷ 2 ∷ 56 ∷ 69 ∷ []

encode_sample : encode_telemetry_data collector sample 64 ≡ some sample_bytes
unfolding encode_telemetry_data
encode_sample = refl

encode_cut : encode_telemetry_data collector sample 11 ≡ none
unfolding encode_telemetry_data
encode_cut = refl

encode_done : encode_ota_request collector ota_cmd_type_done 10 ≡ some (161 ∷ 0 ∷ 1 ∷ [])
unfolding encode_ota_request
encode_done = refl
