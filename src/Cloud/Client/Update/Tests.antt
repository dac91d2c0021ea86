-- ===== src/Cloud/Client/Update/Tests.antt =====
-- A client that is told of a newer version.
use pyrinas_zephyr.Common.{
  ◌≡◌, refl, true, false, none, some, List, [], ◌∷◌, replicate, arith, inl, inr, Option, ℕ,
  strncmp_eq,
}
use pyrinas_zephyr.Cloud.Version.{OtaVersion}
use pyrinas_zephyr.Cloud.Codec.{Value, OtaData}
use pyrinas_zephyr.Cloud.Codec.Decode.Cursor.{cursor}
use pyrinas_zephyr.Cloud.Codec.Decode.Reader.{OtaMessage}
use pyrinas_zephyr.Cloud.Codec.Decode.Replies.{ota_item, zeroed, Says}
use pyrinas_zephyr.Cloud.Client.{
  Cloud, Config, cloud_state_connected, ota_state_ready, ota_state_started, submit, fota,
  ota_callback,
}
use pyrinas_zephyr.Cloud.Client.Update.{decoding_evt_handler, decoding_evt_handler-starts}

abbrev version : ℕ → OtaVersion
version n = record { major = 1; minor = n; patch = 0; commit = 7; hash = replicate 8 97 }

abbrev told : OtaMessage
told = record { version = version 3; host = 104 ∷ []; file = 102 ∷ []; force = true }

abbrev config : Config
config = record {
  ota_pub_topic = 1 ∷ 2 ∷ [];
  ota_sub_topic = 1 ∷ 3 ∷ [];
  telemetry_pub_topic = 1 ∷ 4 ∷ [];
  application_sub_topic = 1 ∷ 5 ∷ [];
  ota_check_message = 10 ∷ [];
  ota_done_message = 11 ∷ [];
  pyrinas_version = version 2;
}

abbrev client : Cloud
client = record {
  cloud_state = cloud_state_connected;
  ota_state = ota_state_ready;
  initial_ota_check = false;
  ota_sub_message_id = 0;
  ota_version = version 0;
  broker = none;
  callbacks = [];
  has_ota_callback = true;
  has_state_callback = true;
}

abbrev known : List ℕ → Option Value
known [] = none
known (b ∷ bs) = some (ota_item told)

decoding_evt_handler-starts_example :
    (o : OtaData) × (decoding_evt_handler
        (cursor known)
        config
        (1 ∷ 3 ∷ [])
        2
        (0 ∷ [])
        5
        (zeroed (version 0))
        client
      ≡ some (
        record client {
          initial_ota_check = true;
          ota_version = version 3;
          ota_state = ota_state_started;
        },
        o,
        ota_callback ota_state_started ∷ submit fota ∷ [],
      ))
    × Says o told
unfolding strncmp_eq
decoding_evt_handler-starts_example =
    decoding_evt_handler-starts (cursor known) config (1 ∷ 3 ∷ []) (0 ∷ []) 2 5 told (version 0)
      client refl (omega arith) refl refl (inl (inr (refl, inl (omega arith))))
