-- ===== src/App/Main/Tests.antt =====
-- A device that loses its connection.
use pyrinas_zephyr.Common.{
  ◌≢◌, refl, true, false, none, List, [], ◌∷◌, replicate, pos, negsuc, arith,
}
use pyrinas_zephyr.Cloud.Version.{OtaVersion}
use pyrinas_zephyr.Cloud.Client.{Config, cloud_state_connected, ota_state_ready, disconnect}
use pyrinas_zephyr.Cloud.Client.Steps as Steps
use pyrinas_zephyr.App.Main.{App, Event, on_cloud, on_reconnect_work, positive_einprogress, run}
use pyrinas_zephyr.App.Main.Watch.{IsWatched, StillWatched, run-IsWatched}

abbrev version : OtaVersion
version = record { major = 1; minor = 0; patch = 0; commit = 0; hash = replicate 8 0 }

abbrev config : Config
config = record {
  ota_pub_topic = 1 ∷ 2 ∷ [];
  ota_sub_topic = 1 ∷ 3 ∷ [];
  telemetry_pub_topic = 1 ∷ 4 ∷ [];
  application_sub_topic = 1 ∷ 5 ∷ [];
  ota_check_message = 10 ∷ [];
  ota_done_message = 11 ∷ [];
  pyrinas_version = version;
}

abbrev device : App
device = record {
  cloud = record {
    cloud_state = cloud_state_connected;
    ota_state = ota_state_ready;
    initial_ota_check = false;
    ota_sub_message_id = 0;
    ota_version = version;
    broker = none;
    callbacks = [];
    has_ota_callback = true;
    has_state_callback = true;
  };
  reconnect_pending = false;
  proceed = false;
}

-- The connection is lost, the first attempt fails and the second succeeds.
abbrev outage : List Event
outage =
    on_cloud (Steps.on_mqtt 0 (disconnect (pos 0)))
    ∷ on_reconnect_work 8 (negsuc 1) [] (pos 0)
    ∷ on_reconnect_work 8 (pos 0) [] (pos 0)
    ∷ []

zero_signed : pos 0 ≢ positive_einprogress
zero_signed e = absurd (ground arith)

negative_signed : negsuc 1 ≢ positive_einprogress
negative_signed e = absurd (ground arith)

device-IsWatched : IsWatched device
device-IsWatched = (refl, λ e. absurd (ground arith))

run-IsWatched_example : StillWatched (run config device outage)
run-IsWatched_example =
    run-IsWatched config device outage
      (tt, ((negative_signed, zero_signed), ((zero_signed, zero_signed), tt))) device-IsWatched
