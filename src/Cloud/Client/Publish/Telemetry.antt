-- ===== src/Cloud/Client/Publish/Telemetry.antt =====
-- What `publish_telemetry` sends.
use mathlib.Core.Path.{ap₂}
use pyrinas_zephyr.Common.{
  ℕ, ◌<◌, ◌≡◌, refl, ap, ◌∙◌, arith, Bool, true, false, Option, none, some, List, [], ◌∷◌, ◌++◌,
  leb, if◌then◌else◌, length, pos, is_some,
}
use pyrinas_zephyr.Cellular.{started, cellular_get_signal_strength, rsrp_threshold}
use pyrinas_zephyr.Cellular.Signal.{reports, last_valid, strength_or, reports-last_valid}
use pyrinas_zephyr.Cloud.Version.{OtaVersion}
use pyrinas_zephyr.App.Version.{get_version_string}
use pyrinas_zephyr.App.Version.Text.{length-get_version_string}
use pyrinas_zephyr.Cloud.Codec.{Value, int, text, TelemetryData, ota_cmd_type_check}
use pyrinas_zephyr.Cloud.Codec.Encode.{Encoder, present, when}
use pyrinas_zephyr.Cloud.Codec.Encode.Fits.{IsSized, IsInt8, IsShort, encode-fits}
use pyrinas_zephyr.Cloud.Client.{
  Cloud, Config, publish, data_publish, publish_telemetry, is_connected,
}
use pyrinas_zephyr.Cloud.Client.Publish.{telemetry_record, telemetry_message}

-- The entry of a signal strength, if there is one.
abbrev pub strength_entry : Option ℕ → List (ℕ × Value)
strength_entry none = []
strength_entry (some v) = (1, int (pos v)) ∷ []

-- What the memory of a record may hold, whatever was there: numbers of their sizes.
abbrev pub IsMemory : TelemetryData → Type 0
IsMemory d = (d.rsrp < 256) × IsInt8 d.central_rssi × IsInt8 d.peripheral_rssi

-- The version string of a telemetry record, in its 24 bytes.
abbrev pub version_string : OtaVersion → List ℕ
version_string v = (get_version_string v 24).0

length-version_string : (v : OtaVersion) → length (version_string v) < 24
length-version_string v = omega (arith, length-get_version_string v 24)

IsShort-if : (b : Bool) (s t : List ℕ) → length s < 24 → IsShort b (if b then s else t)
IsShort-if true s t h = h
IsShort-if false s t h = tt

byte-if : (r d : ℕ) → d < 256 → (if leb r rsrp_threshold then r else d) < 256
byte-if r d h = ground arith

telemetry_record-IsSized :
    (stack : TelemetryData) (has_version : Bool) (v : OtaVersion) (rsrp : ℕ)
    → IsMemory stack
    → IsSized (telemetry_record stack has_version (version_string v) rsrp)
unfolding telemetry_record
telemetry_record-IsSized stack has_version v rsrp (r, c, p) = (
  IsShort-if has_version _ stack.version (length-version_string v),
  byte-if rsrp stack.rsrp r,
  c,
  p,
)

strength-entries :
    (r : ℕ) (o : Option ℕ) (d : ℕ)
    → r ≡ strength_or 255 o
    → leb r rsrp_threshold ≡ is_some o
    → when (leb r rsrp_threshold) 1 (int (pos (if leb r rsrp_threshold then r else d)))
      ≡ strength_entry o
strength-entries r none d e h = rw h
strength-entries r (some v) d e h = rw h (rw e)

version-entries :
    (b : Bool) (s t : List ℕ) → when b 0 (text (if b then s else t)) ≡ when b 0 (text s)
version-entries true s t = refl
version-entries false s t = refl

-- The entries of a telemetry message of the hub: the version if it is asked for, the last signal
-- strength if there was one, and what the record's memory held of the two other fields.
abbrev pub hub_entries : TelemetryData → Bool → OtaVersion → List ℕ → List (ℕ × Value)
hub_entries stack has_version v vs =
    when has_version 0 (text (version_string v))
    ++ strength_entry (last_valid vs)
    ++ when stack.has_central_rssi 2 (int stack.central_rssi)
    ++ when stack.has_peripheral_rssi 3 (int stack.peripheral_rssi)

present-hub_entries :
    (stack : TelemetryData) (has_version : Bool) (v : OtaVersion) (vs : List ℕ)
    → present (
        telemetry_record stack has_version
          (version_string v)
          (cellular_get_signal_strength (reports vs started)))
      ≡ hub_entries stack has_version v vs
unfolding telemetry_record
present-hub_entries stack has_version v vs =
    let (strength, found) = reports-last_valid vs in
    ap
      (λ es.
        es
        ++ when stack.has_central_rssi 2 (int stack.central_rssi)
        ++ when stack.has_peripheral_rssi 3 (int stack.peripheral_rssi))
      (ap₂ ◌++◌ (version-entries has_version (version_string v) stack.version)
        (strength-entries _ (last_valid vs) stack.rsrp strength found))

module _ {E : Type 0} (q : Encoder E) where
  hub-message :
      (stack : TelemetryData) (has_version : Bool) (v : OtaVersion) (vs : List ℕ)
      → IsMemory stack
      → telemetry_message q stack has_version
          (version_string v)
          (cellular_get_signal_strength (reports vs started))
        ≡ some (q.encoding (hub_entries stack has_version v vs))
  unfolding telemetry_message
  hub-message stack has_version v vs m =
      (encode-fits q
        (telemetry_record stack has_version (version_string v)
          (cellular_get_signal_strength (reports vs started)))
        ota_cmd_type_check
        (telemetry_record-IsSized stack has_version v
          (cellular_get_signal_strength (reports vs started)) m)).0
      ∙ ap (λ es. some (q.encoding es)) (present-hub_entries stack has_version v vs)

  publish_telemetry-message :
      (k : Config) (message : List ℕ) (c : Cloud)
      → is_connected c.cloud_state ≡ true
      → publish_telemetry k (some message) c ≡ publish k.telemetry_pub_topic message ∷ []
  unfolding publish_telemetry data_publish
  publish_telemetry-message k message c h = rw (publish_telemetry, h)

  -- A connected client whose modem has made the reports `vs` publishes its telemetry: the encoding of
  -- the version string if that is asked for, of the last report of at most 97 if there is one, and
  -- of the two further fields of the record as its memory held them, which has numbers of
  -- their sizes.
  pub publish_telemetry-strength :
      (k : Config) (stack : TelemetryData) (has_version : Bool) (v : OtaVersion) (vs : List ℕ)
      (c : Cloud)
      → IsMemory stack
      → is_connected c.cloud_state ≡ true
      → publish_telemetry k
          (telemetry_message q stack has_version
            (version_string v)
            (cellular_get_signal_strength (reports vs started)))
          c
        ≡ publish k.telemetry_pub_topic (q.encoding (hub_entries stack has_version v vs)) ∷ []
  publish_telemetry-strength k stack has_version v vs c m h =
      ap (λ message. publish_telemetry k message c) (hub-message stack has_version v vs m)
      ∙ publish_telemetry-message k _ c h
