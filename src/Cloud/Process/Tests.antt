-- ===== src/Cloud/Process/Tests.antt =====
-- Rounds of the processing thread.
use pyrinas_zephyr.Common.{
  ◌≡◌, refl, true, false, none, some, List, [], ◌∷◌, replicate, pos, negsuc, eagain,
}
use pyrinas_zephyr.Cloud.Version.{OtaVersion}
use pyrinas_zephyr.Cloud.Client.{
  Cloud, Config, cloud_state_connected, cloud_state_disconnected, ota_state_ready, disconnect,
  timer_stop, state_callback, mqtt_evt_handler, set_cloud_state,
}
use pyrinas_zephyr.Cloud.Process.{
  Round, wdt_feed, client, client_steps, poll_failed, live_failed, Served, handle, after_input,
  after_live, live_round, serve, then_steps, carry_on, serve_loop,
}

abbrev version : OtaVersion
version = record { major = 1; minor = 0; patch = 0; commit = 0; hash = replicate 8 0 }

abbrev config : Config
config = record {
  ota_pub_topic = 1 ∷ 2 ∷ [];
  ota_sub_topic = 1 ∷ 3 ∷ [];
  telemetry_pub_topic = 1 ∷ 4 ∷ [];
  application_sub_topic = 1 ∷ 5 ∷ [];
  ota_check_message = 10 ∷ [];
  ota_done_message = 11 ∷ [];
  pyrinas_version = version;
}

abbrev online : Cloud
online = record {
  cloud_state = cloud_state_connected;
  ota_state = ota_state_ready;
  initial_ota_check = false;
  ota_sub_message_id = 0;
  ota_version = version;
  broker = none;
  callbacks = [];
  has_ota_callback = true;
  has_state_callback = true;
}

-- Nothing comes in, and no ping is due.
abbrev quiet : Round
quiet = record {
  poll_result = pos 0;
  live_result = eagain;
  input_result = pos 0;
  pollin = false;
  pollerr = false;
  pollnval = false;
  live_events = [];
  input_events = [];
  abort_events = disconnect (negsuc 102) ∷ [];
}

abbrev broken : List Round
broken = quiet ∷ record quiet { poll_result = negsuc 0 } ∷ []

-- A ping that finds the connection lost.
abbrev lost : List Round
lost = record quiet { live_result = negsuc 31; live_events = disconnect (negsuc 31) ∷ [] } ∷ []

lost_runs :
    serve_loop config online lost
    ≡ some (record {
      cloud = record online { cloud_state = cloud_state_disconnected };
      next = live_failed;
      steps = wdt_feed ∷ client timer_stop ∷ client (state_callback cloud_state_disconnected) ∷ [];
    })
unfolding serve_loop serve live_round after_live handle mqtt_evt_handler set_cloud_state
    client_steps carry_on
lost_runs = refl

abbrev stuck : Served
stuck = record { cloud = online; next = poll_failed; steps = wdt_feed ∷ wdt_feed ∷ [] }

broken_runs : serve_loop config online broken ≡ some stuck
unfolding serve_loop serve live_round after_live handle client_steps after_input carry_on then_steps
broken_runs = refl
