-- ===== src/Cloud/Client/Tests.antt =====
-- A client that connects, asks for an update and gets one.
use pyrinas_zephyr.Common.{
  ℕ, ◌≡◌, refl, true, false, none, some, List, [], ◌∷◌, replicate, strncmp_eq, pos,
}
use pyrinas_zephyr.Cloud.Version.{OtaVersion, ver_comp}
use pyrinas_zephyr.Cloud.Client.{
  Cloud, Config, Address, cloud_state_connected, cloud_state_disconnected, ota_state_ready,
  ota_state_started, ota_state_downloading, ota_state_done, connack, suback, publish_received,
  fota_download_evt_finished, submit, on_connect, ota_request, ota_reboot, fota,
  ota_check_subscribed, ota_callback, state_callback, publish, subscribe, ack, mqtt_connect,
  sem_give, timer_start, fota_download_start, set_ota_state, set_cloud_state, data_publish,
  publish_telemetry, on_connect_fn, publish_ota_check, fota_start_fn, decide, ota_message,
  publish_evt_handler, fota_evt, receive, with_ack, mqtt_evt_handler, first_address, broker_init,
  finish_connect, pyrinas_cloud_connect,
}
use pyrinas_zephyr.Cloud.Client.Steps.{
  Event, step, run, on_mqtt, on_connect_work, on_ota_request_work, on_fota_work, on_fota_evt,
  on_connect_call,
}
use pyrinas_zephyr.Cloud.Client.Notify.{OnDone, IsTold, run-IsTold}
use pyrinas_zephyr.Cloud.Client.Orderly.{IsOrderly}
use pyrinas_zephyr.Cloud.Client.Ota.{step-IsOrderly}

abbrev version : ℕ → OtaVersion
version n = record { major = 1; minor = n; patch = 0; commit = 0; hash = replicate 8 0 }

abbrev config : Config
config = record {
  ota_pub_topic = 1 ∷ 2 ∷ [];
  ota_sub_topic = 1 ∷ 3 ∷ [];
  telemetry_pub_topic = 1 ∷ 4 ∷ [];
  application_sub_topic = 1 ∷ 5 ∷ [];
  ota_check_message = 10 ∷ [];
  ota_done_message = 11 ∷ [];
  pyrinas_version = version 2;
}

abbrev fresh : Cloud
fresh = record {
  cloud_state = cloud_state_disconnected;
  ota_state = ota_state_ready;
  initial_ota_check = false;
  ota_sub_message_id = 0;
  ota_version = version 0;
  broker = none;
  callbacks = [];
  has_ota_callback = true;
  has_state_callback = true;
}

abbrev addresses : List Address
addresses = record { addrlen = 8; addr = 99 } ∷ []

abbrev session : List Event
session =
    on_connect_call 8 (pos 0) addresses (pos 0)
    ∷ on_mqtt 0 (connack (pos 0))
    ∷ on_connect_work (some (20 ∷ [])) 77
    ∷ on_mqtt 0 (suback (pos 0) 77)
    ∷ on_ota_request_work
    ∷ on_mqtt 0 (publish_received (pos 0) (1 ∷ 3 ∷ []) 2 (30 ∷ []) (some (version 3)) 5 true)
    ∷ on_fota_work (pos 0)
    ∷ on_fota_evt fota_download_evt_finished
    ∷ []

session_runs :
    run config fresh session
    ≡ some (
      record fresh {
        cloud_state = cloud_state_connected;
        ota_state = ota_state_done;
        initial_ota_check = true;
        ota_sub_message_id = 77;
        ota_version = version 3;
        broker = some 99;
      },
      mqtt_connect
          ∷ state_callback cloud_state_connected
          ∷ sem_give
          ∷ submit on_connect
          ∷ timer_start
          ∷ publish (1 ∷ 4 ∷ []) (20 ∷ [])
          ∷ subscribe (1 ∷ 3 ∷ []) 77
          ∷ submit ota_request
          ∷ submit ota_check_subscribed
          ∷ publish (1 ∷ 2 ∷ []) (10 ∷ [])
          ∷ ota_callback ota_state_started
          ∷ submit fota
          ∷ ack 5
          ∷ fota_download_start
          ∷ ota_callback ota_state_downloading
          ∷ ota_callback ota_state_done
          ∷ submit ota_reboot
          ∷ [],
    )
unfolding run step pyrinas_cloud_connect broker_init finish_connect set_cloud_state mqtt_evt_handler
    on_connect_fn publish_telemetry data_publish publish_ota_check receive publish_evt_handler
    ota_message decide set_ota_state with_ack fota_start_fn fota_evt strncmp_eq ver_comp
    first_address
session_runs = refl

run-IsTold_example : OnDone (IsTold fresh) (run config fresh session)
run-IsTold_example = run-IsTold config fresh session refl

step-IsOrderly_example : OnDone (IsOrderly fresh) (step config fresh (on_mqtt 0 (suback (pos 0) 0)))
step-IsOrderly_example = step-IsOrderly config fresh (on_mqtt 0 (suback (pos 0) 0))
