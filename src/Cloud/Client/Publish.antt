-- ===== src/Cloud/Client/Publish.antt =====
-- What subsys/pyrinas_cloud/pyrinas_cloud.c publishes: the telemetry of the hub and of its peripherals,
-- their events, the topics, and the set-up of these by `pyrinas_cloud_init`. The topics are the
-- defaults of subsys/pyrinas_cloud/Kconfig.
pub mod Events
pub mod Telemetry
pub mod Topics
mod Tests
use pyrinas_zephyr.Common.{
  ℕ, ◌+◌, ◌-◌, ◌/◌, ◌%◌, Bool, true, false, not, ◌&&◌, Option, none, some, List, [], ◌∷◌, ◌++◌, ltb,
  leb, if◌then◌else◌, length, take, c_string, ℤ, pos, negsuc, is_error, is_negative, flatten, map,
}
use pyrinas_zephyr.Ble.Subscriptions.{EventName}
use pyrinas_zephyr.Cellular.{rsrp_threshold}
use pyrinas_zephyr.Cloud.Version.{OtaVersion}
use pyrinas_zephyr.Cloud.Codec.{TelemetryData, OtaCmdType, ota_cmd_type_check, ota_cmd_type_done}
use pyrinas_zephyr.Cloud.Codec.Encode.{Encoder, encode_telemetry_data, encode_ota_request}
use pyrinas_zephyr.Cloud.Client.{
  Cloud, Config, Action, data_publish, publish_telemetry, mqtt_evt_handler, disconnect,
}

-- `snprintf` into a buffer of `size` bytes, as the C string that it leaves.
abbrev pub printed : ℕ → List ℕ → List ℕ
printed size text = take (size - 1) text

abbrev pub imei_len : ℕ
imei_len = 15

-- "/ota/pub", "/ota/sub", "/tel/pub", "/app/pub/" and "/app/sub/"
abbrev pub ota_pub : List ℕ
ota_pub = b'/' ∷ b'o' ∷ b't' ∷ b'a' ∷ b'/' ∷ b'p' ∷ b'u' ∷ b'b' ∷ []

abbrev pub ota_sub : List ℕ
ota_sub = b'/' ∷ b'o' ∷ b't' ∷ b'a' ∷ b'/' ∷ b's' ∷ b'u' ∷ b'b' ∷ []

abbrev pub tel_pub : List ℕ
tel_pub = b'/' ∷ b't' ∷ b'e' ∷ b'l' ∷ b'/' ∷ b'p' ∷ b'u' ∷ b'b' ∷ []

abbrev pub app_pub : List ℕ
app_pub = b'/' ∷ b'a' ∷ b'p' ∷ b'p' ∷ b'/' ∷ b'p' ∷ b'u' ∷ b'b' ∷ b'/' ∷ []

abbrev pub app_sub : List ℕ
app_sub = b'/' ∷ b'a' ∷ b'p' ∷ b'p' ∷ b'/' ∷ b's' ∷ b'u' ∷ b'b' ∷ b'/' ∷ []

-- What the code uses of a `pyrinas_event_t`.
pub record CloudEvent : Type 0 where
  pub name : EventName
  pub content : List ℕ
  pub peripheral_addr : List ℕ
  pub central_rssi : ℤ
  pub peripheral_rssi : ℤ

-- "%02x" of a byte, and of an address into `uid`, an array of 14 bytes.
abbrev pub hex_digit : ℕ → ℕ
hex_digit n = if ltb n 10 then 48 + n else 87 + n

abbrev pub hex : List ℕ → List ℕ
hex [] = []
hex (b ∷ bs) = hex_digit (b / 16) ∷ hex_digit (b % 16) ∷ hex bs

pub uid_of : List ℕ → List ℕ
uid_of addr = printed 14 (hex addr)

-- "%.*s/app/pub/%.*s" and "%.*s/tel/pub" in an array of 256 bytes.
pub application_topic : List ℕ → List ℕ → List ℕ
application_topic uid name = printed 256 (uid ++ app_pub ++ name)

pub telemetry_topic : List ℕ → List ℕ
telemetry_topic uid = printed 256 (uid ++ tel_pub)

-- The record that `publish_telemetry` fills, which is not initialised: `stack` is what its memory
-- held. `version` is what `get_version_string` gives, and `rsrp` what
-- `cellular_get_signal_strength` does.
pub telemetry_record : TelemetryData → Bool → List ℕ → ℕ → TelemetryData
telemetry_record stack has_version version rsrp = record stack {
  has_rsrp = leb rsrp rsrp_threshold;
  rsrp = if leb rsrp rsrp_threshold then rsrp else stack.rsrp;
  has_version = has_version;
  version = if has_version then version else stack.version;
}

-- The record that `pyrinas_cloud_publish_telemetry_evt` fills.
pub event_record : TelemetryData → ℤ → ℤ → TelemetryData
event_record stack central_rssi peripheral_rssi = record stack {
  has_central_rssi = if is_negative central_rssi then true else stack.has_central_rssi;
  central_rssi = if is_negative central_rssi then central_rssi else stack.central_rssi;
  has_peripheral_rssi = if is_negative peripheral_rssi then true else stack.has_peripheral_rssi;
  peripheral_rssi = if is_negative peripheral_rssi then peripheral_rssi else stack.peripheral_rssi;
}

-- What follows the encoding, whose error is `qcbor_err`; `err` is the result of `mqtt_publish`.
pub publish_encoded : List ℕ → ℤ → ℤ → Option (List ℕ) → Cloud → ℤ × List Action
publish_encoded topic qcbor_err err none c = (qcbor_err, [])
publish_encoded topic qcbor_err err (some message) c = data_publish topic message err c

-- What the library does meanwhile: a call of `mqtt_publish` that finds the connection lost hands the
-- event of a disconnection, with the result `lost`, to `mqtt_evt_handler`.
pub after_publish : Config → Option ℤ → Cloud → ℤ × List Action → Option (Cloud × ℤ × List Action)
after_publish k none c (result, actions) = some (c, result, actions)
after_publish k (some lost) c (result, []) = some (c, result, [])
after_publish k (some lost) c (result, a ∷ actions) =
    elim (mqtt_evt_handler k 0 (disconnect lost) c) [
      | none ↦ none
      | some (c', more) ↦ some (c', result, a ∷ actions ++ more)
    ]

-- Those actions, and then what comes after them.
pub behind : List Action → Option (Cloud × ℤ × List Action) → Option (Cloud × ℤ × List Action)
behind actions none = none
behind actions (some (c, result, more)) = some (c, result, actions ++ more)

module _ {E : Type 0} (q : Encoder E) where
  pub telemetry_message : TelemetryData → Bool → List ℕ → ℕ → Option (List ℕ)
  unfolding telemetry_record
  telemetry_message stack has_version version rsrp =
      encode_telemetry_data q (telemetry_record stack has_version version rsrp) 64

  pub pyrinas_cloud_publish_telemetry_evt :
      TelemetryData → ℤ → ℤ → CloudEvent → Cloud → ℤ × List Action
  unfolding event_record publish_encoded uid_of telemetry_topic
  pyrinas_cloud_publish_telemetry_evt stack qcbor_err err evt c =
      let message =
        encode_telemetry_data q (event_record stack evt.central_rssi evt.peripheral_rssi) 64 in
      publish_encoded (telemetry_topic (uid_of evt.peripheral_addr)) qcbor_err err message c

  -- The second half of `pyrinas_cloud_publish_evt`, behind the first publish, whose result is only
  -- logged. `none` is a fault.
  pub with_telemetry :
      Config
      → TelemetryData
      → ℤ
      → ℤ × Option ℤ
      → CloudEvent
      → Option (Cloud × ℤ × List Action)
      → Option (Cloud × ℤ × List Action)
  unfolding pyrinas_cloud_publish_telemetry_evt after_publish behind
  with_telemetry k stack qcbor_err (err, lost) evt none = none
  with_telemetry k stack qcbor_err (err, lost) evt (some (c, logged, actions)) =
      behind actions
        (after_publish k lost c (pyrinas_cloud_publish_telemetry_evt stack qcbor_err err evt c))

  -- `%.*s` takes at most `size` bytes of the name and stops at a 0. Each publish has the result of
  -- `mqtt_publish`, and whether it finds the connection lost.
  pub pyrinas_cloud_publish_evt :
      Config
      → TelemetryData
      → ℤ
      → ℤ × Option ℤ
      → ℤ × Option ℤ
      → CloudEvent
      → Cloud
      → Option (Cloud × ℤ × List Action)
  unfolding uid_of application_topic with_telemetry after_publish
  pyrinas_cloud_publish_evt k stack qcbor_err (err, lost) second evt c =
      let topic =
        application_topic (uid_of evt.peripheral_addr)
          (c_string (take evt.name.size evt.name.bytes)) in
      with_telemetry k stack qcbor_err second evt
        (after_publish k lost c (data_publish topic evt.content err c))

-- `imei` is the array, of 15 bytes.
pub pyrinas_cloud_publish : List ℕ → List ℕ → List ℕ → ℤ → Cloud → ℤ × List Action
unfolding application_topic
pyrinas_cloud_publish imei type_name bytes err c =
    data_publish (application_topic (c_string imei) type_name) bytes err c

-- The first 15 bytes of the modem's answer to "AT+CGSN"; `err` is the result of `at_cmd_write`.
pub get_imei : ℤ → List ℕ → List ℕ → List ℕ × ℤ
get_imei err answer imei = if is_error err then (imei, err) else (take imei_len answer, pos 0)

-- The variables that `pyrinas_cloud_init` sets; `pyrinas_cloud_connect` reads the IMEI again.
pub record Setup : Type 0 where
  pub imei : List ℕ
  pub ota_pub_topic : List ℕ
  pub ota_sub_topic : List ℕ
  pub telemetry_pub_topic : List ℕ
  pub application_sub_topic : List ℕ

-- The sizes of the arrays are those of the formats with IMEI_LEN added, and `name_max` for the last,
-- which is CONFIG_PYRINAS_CLOUD_APPLICATION_EVENT_NAME_MAX_SIZE.
pub set_topics : ℕ → List ℕ → Setup
set_topics name_max imei = record {
  imei = imei;
  ota_pub_topic = printed (13 + imei_len) (c_string imei ++ ota_pub);
  ota_sub_topic = printed (13 + imei_len) (c_string imei ++ ota_sub);
  telemetry_pub_topic = printed (13 + imei_len) (c_string imei ++ tel_pub);
  application_sub_topic =
      printed (18 + imei_len + name_max) (c_string imei ++ app_sub ++ b'+' ∷ []);
}

-- `imei` is what the array held before. `none` is a failed assertion: no queue, no watchdog device, or
-- an error of `wdt_install_timeout`. The result of `get_imei` is not looked at.
pub pyrinas_cloud_init : ℕ → Bool → Bool → ℤ → ℤ → List ℕ → List ℕ → Option Setup
unfolding get_imei set_topics
pyrinas_cloud_init name_max has_queue has_wdt channel err answer imei =
    if has_queue && has_wdt && not (is_negative channel)
    then some (set_topics name_max (get_imei err answer imei).0)
    else none

-- The client with the topics of a set-up, and with the messages that the codec makes in 10 bytes. An
-- error of the codec leaves a message of no bytes.
abbrev pub message_or : Option (List ℕ) → List ℕ
message_or none = []
message_or (some message) = message

pub config_of : {E : Type 0} → Encoder E → Setup → OtaVersion → Config
config_of q s version = record {
  ota_pub_topic = s.ota_pub_topic;
  ota_sub_topic = s.ota_sub_topic;
  telemetry_pub_topic = s.telemetry_pub_topic;
  application_sub_topic = s.application_sub_topic;
  ota_check_message = message_or (encode_ota_request q ota_cmd_type_check 10);
  ota_done_message = message_or (encode_ota_request q ota_cmd_type_done 10);
  pyrinas_version = version;
}
