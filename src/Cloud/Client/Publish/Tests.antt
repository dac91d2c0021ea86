-- ===== src/Cloud/Client/Publish/Tests.antt =====
-- A hub that publishes its telemetry and an event of a peripheral.
use pyrinas_zephyr.Common.{
  ℕ, ◌≡◌, refl, arith, true, false, some, none, List, [], ◌∷◌, replicate, pos, negsuc, eio,
}
use pyrinas_zephyr.Cellular.{started, cellular_get_signal_strength}
use pyrinas_zephyr.Cellular.Signal.{reports}
use pyrinas_zephyr.Cloud.Version.{OtaVersion}
use pyrinas_zephyr.Cloud.Codec.{int, TelemetryData}
use pyrinas_zephyr.Cloud.Codec.Encode.Cbor.{collector}
use pyrinas_zephyr.Cloud.Client.{
  Cloud, Config, publish, cloud_state_connected, ota_state_ready, publish_telemetry,
}
use pyrinas_zephyr.Cloud.Client.Publish.{
  CloudEvent, telemetry_message, uid_of, application_topic, telemetry_topic,
  pyrinas_cloud_publish_evt, pyrinas_cloud_init, config_of,
}
use pyrinas_zephyr.Cloud.Client.Publish.Telemetry.{
  version_string, hub_entries, publish_telemetry-strength,
}
use pyrinas_zephyr.Cloud.Client.Publish.Events.{pyrinas_cloud_publish_evt-sends}
use pyrinas_zephyr.Cloud.Client.Publish.Topics.{
  whole_topics, read_topic, read_topic-application_topic,
}

abbrev version : OtaVersion
version = record { major = 1; minor = 2; patch = 0; commit = 7; hash = replicate 8 97 }

-- "123456789012345" with the end of the modem's answer.
abbrev answer : List ℕ
answer =
    b'1' ∷ b'2' ∷ b'3' ∷ b'4' ∷ b'5' ∷ b'6' ∷ b'7' ∷ b'8' ∷ b'9' ∷ b'0' ∷ b'1' ∷ b'2' ∷ b'3' ∷ b'4'
    ∷ b'5' ∷ 13 ∷ 10 ∷ []

abbrev imei : List ℕ
imei =
    b'1' ∷ b'2' ∷ b'3' ∷ b'4' ∷ b'5' ∷ b'6' ∷ b'7' ∷ b'8' ∷ b'9' ∷ b'0' ∷ b'1' ∷ b'2' ∷ b'3' ∷ b'4'
    ∷ b'5' ∷ []

abbrev config : Config
config = config_of collector (whole_topics imei) version

abbrev client : Cloud
client = record {
  cloud_state = cloud_state_connected;
  ota_state = ota_state_ready;
  initial_ota_check = false;
  ota_sub_message_id = 0;
  ota_version = version;
  broker = none;
  callbacks = [];
  has_ota_callback = true;
  has_state_callback = true;
}

-- The memory of a record that held a signal strength of the peripheral.
abbrev stack : TelemetryData
stack = record {
  has_version = false;
  version = [];
  has_rsrp = false;
  rsrp = 3;
  has_central_rssi = false;
  central_rssi = pos 0;
  has_peripheral_rssi = true;
  peripheral_rssi = negsuc 49;
}

abbrev message : List ℕ
message = collector.encoding (hub_entries stack true version (40 ∷ 99 ∷ []))

publish_telemetry-strength_example :
    publish_telemetry config
      (telemetry_message collector stack true
        (version_string version)
        (cellular_get_signal_strength (reports (40 ∷ 99 ∷ []) started)))
      client
    ≡ publish config.telemetry_pub_topic message ∷ []
publish_telemetry-strength_example =
    publish_telemetry-strength collector config stack true version (40 ∷ 99 ∷ []) client
      (omega arith) refl

abbrev addr : List ℕ
addr = 0 ∷ 17 ∷ 34 ∷ 170 ∷ 187 ∷ 255 ∷ []

abbrev evt : CloudEvent
evt = record {
  name = record { size = 2; bytes = b'o' ∷ b'n' ∷ [] };
  content = 9 ∷ [];
  peripheral_addr = addr;
  central_rssi = negsuc 59;
  peripheral_rssi = pos 0;
}

-- "001122aabbff"
uid_of_addr :
    uid_of addr
    ≡ b'0' ∷ b'0' ∷ b'1' ∷ b'1' ∷ b'2' ∷ b'2' ∷ b'a' ∷ b'a' ∷ b'b' ∷ b'b' ∷ b'f' ∷ b'f' ∷ []
unfolding uid_of
uid_of_addr = refl

pyrinas_cloud_publish_evt-sends_example :
    pyrinas_cloud_publish_evt collector config stack (pos 1) (pos 0, none) (pos 0, none) evt client
    ≡ some (
      client,
      pos 0,
      publish (application_topic (uid_of addr) (b'o' ∷ b'n' ∷ [])) (9 ∷ [])
          ∷ publish
              (telemetry_topic (uid_of addr))
              (collector.encoding ((2, int (negsuc 59)) ∷ (3, int (negsuc 49)) ∷ []))
          ∷ [],
    )
pyrinas_cloud_publish_evt-sends_example =
    pyrinas_cloud_publish_evt-sends collector config stack (pos 1) (pos 0) (pos 0) none none evt
      client (omega arith) tt (omega arith) (omega arith)

read_topic-application_topic_example :
    read_topic (application_topic (uid_of addr) (b'o' ∷ b'n' ∷ [])) ≡ (addr, b'o' ∷ b'n' ∷ [])
read_topic-application_topic_example =
    read_topic-application_topic addr (b'o' ∷ b'n' ∷ []) (omega arith) (omega arith)

init_topics :
    pyrinas_cloud_init 20 true true (pos 0) (pos 0) answer (replicate 15 0)
    ≡ some (whole_topics imei)
unfolding pyrinas_cloud_init
init_topics = refl

-- Without an answer the topics of the device have no id.
init_without_imei :
    pyrinas_cloud_init 20 true true (pos 0) eio answer (replicate 15 0)
    ≡ some (whole_topics (replicate 15 0))
unfolding pyrinas_cloud_init
init_without_imei = refl

init_without_queue : pyrinas_cloud_init 20 false true (pos 0) (pos 0) answer [] ≡ none
unfolding pyrinas_cloud_init
init_without_queue = refl
