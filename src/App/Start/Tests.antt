-- ===== src/App/Start/Tests.antt =====
-- Devices that start.
use pyrinas_zephyr.Common.{
  ◌≡◌, ◌≢◌, refl, Bool, true, false, some, List, [], ◌∷◌, replicate, pos, negsuc, arith, strncmp_eq,
}
use pyrinas_zephyr.Rtc.{pcf85063a_set_alarm}
use pyrinas_zephyr.Rtc.Chip.{Chip, bus, blank}
use pyrinas_zephyr.Cloud.Version.{OtaVersion, ver_comp}
use pyrinas_zephyr.Cloud.Client.{
  Config, publish_received, connack, disconnect, mqtt_evt_handler, set_cloud_state, broker_init,
  finish_connect, first_address, ota_state_ready, cloud_state_connected, pyrinas_cloud_connect,
}
use pyrinas_zephyr.Cloud.Client.Steps as Steps
use pyrinas_zephyr.App.Main.{
  Event, on_cloud, on_reconnect_work, positive_einprogress, hear, cloud_state_callback, step, run,
}
use pyrinas_zephyr.App.Main.Watch.{StillWatched}
use pyrinas_zephyr.App.Start.{
  Build, Given, BsdlibResult, modem_dfu_result_ok, modem_dfu_result_hardware_error, not_initialized,
  other, waiting, suspended, returned, stopped, k_work_q_start, worker_init, bsdlib_init,
  k_thread_suspend, img_mgmt_register_group, k_sem_give, boot, registered, modem_switch,
  board_calls, connect_asserted, cloud_start, behind_modem, rtc_init, main_rest, main,
}
use pyrinas_zephyr.App.Start.Boot.{up, main-IsWatched}
use pyrinas_zephyr.App.Start.Idle.{StaysIdle, main-idle}
use pyrinas_zephyr.App.Start.Proceed.{GoesOn, main-proceeds}

-- The hub, with assertions or without.
abbrev hub : Bool → Build
hub checks = record {
  cloud_enabled = true;
  littlefs = true;
  wipe_storage = false;
  img_manager = true;
  img_mgmt = false;
  has_rtc = true;
  assert_enabled = checks;
}

abbrev sensor : Build
sensor = record {
  cloud_enabled = false;
  littlefs = false;
  wipe_storage = false;
  img_manager = false;
  img_mgmt = true;
  has_rtc = false;
  assert_enabled = false;
}

abbrev given : BsdlibResult → Given
given modem = record {
  modem = modem;
  open_rc = pos 0;
  mount_rc = negsuc 4;
  rtc_found = true;
  init_passes = true;
  size = 8;
  addr_err = pos 0;
  addresses = [];
  mqtt_err = pos 0;
}

abbrev version : OtaVersion
version = record { major = 1; minor = 0; patch = 0; commit = 0; hash = replicate 8 0 }

abbrev config : Config
config = record {
  ota_pub_topic = 1 ∷ 2 ∷ [];
  ota_sub_topic = 1 ∷ 3 ∷ [];
  telemetry_pub_topic = 1 ∷ 4 ∷ [];
  application_sub_topic = 1 ∷ 5 ∷ [];
  ota_check_message = 10 ∷ [];
  ota_done_message = 11 ∷ [];
  pyrinas_version = version;
}

abbrev alarmed : Chip
alarmed = (pcf85063a_set_alarm bus 10 blank).0

hub_waits :
    (main bus (hub true) (given other) (boot []) blank).0 ≡ waiting (up (given other) []) alarmed
unfolding main main_rest behind_modem modem_switch board_calls cloud_start connect_asserted
    registered rtc_init boot up hear cloud_state_callback pyrinas_cloud_connect broker_init
    finish_connect set_cloud_state first_address
hub_waits = refl

idle_waits :
    (main bus (hub false) (given other) (boot []) blank).0 ≡ waiting (registered (boot [])) alarmed
unfolding main main_rest behind_modem modem_switch board_calls cloud_start connect_asserted
    registered rtc_init boot up hear cloud_state_callback pyrinas_cloud_connect broker_init
    finish_connect set_cloud_state first_address
idle_waits = refl

-- A modem that reports a fatal error does not stop the device.
hardware_runs :
    (main bus (hub true) (given modem_dfu_result_hardware_error) (boot []) blank).0
    ≡ waiting (up (given modem_dfu_result_hardware_error) []) alarmed
unfolding main main_rest behind_modem modem_switch board_calls cloud_start connect_asserted
    registered rtc_init boot up hear cloud_state_callback pyrinas_cloud_connect broker_init
    finish_connect set_cloud_state first_address
hardware_runs = refl

updated_runs :
    main bus (hub true) (given modem_dfu_result_ok) (boot []) blank
    ≡ (suspended, k_work_q_start ∷ worker_init ∷ bsdlib_init ∷ k_thread_suspend ∷ [])
unfolding main main_rest behind_modem modem_switch
updated_runs = refl

modemless_runs : (main bus (hub true) (given not_initialized) (boot []) blank).0 ≡ returned
unfolding main main_rest behind_modem modem_switch
modemless_runs = refl

offline_runs :
    (main bus (hub true) (record (given other) { addr_err = negsuc 1 }) (boot []) blank).0 ≡ stopped
unfolding main main_rest behind_modem modem_switch board_calls cloud_start connect_asserted
    registered rtc_init boot pyrinas_cloud_connect broker_init finish_connect set_cloud_state
    first_address
offline_runs = refl

sensor_runs : main bus sensor (given other) (boot []) blank ≡ (
  waiting (record (boot []) { proceed = true }) blank,
  img_mgmt_register_group ∷ k_sem_give ∷ [],
)
unfolding main main_rest board_calls
sensor_runs = refl

-- The connection is lost and made again.
abbrev outage : List Event
outage =
    on_cloud (Steps.on_mqtt 0 (disconnect (pos 0))) ∷ on_reconnect_work 8 (pos 0) [] (pos 0) ∷ []

zero_signed : pos 0 ≢ positive_einprogress
zero_signed e = absurd (ground arith)

main-IsWatched_example :
    ((up (given other) []).cloud.cloud_state ≡ cloud_state_connected)
    × StillWatched (run config (up (given other) []) outage)
main-IsWatched_example =
    main-IsWatched bus config (hub true) (given other) [] blank alarmed (up (given other) []) outage
      refl refl hub_waits (tt, ((zero_signed, zero_signed), tt))

-- The telemetry's work and the one of an update run, and a turn of the reconnect work would come.
abbrev own_steps : List Event
own_steps =
    on_cloud (Steps.on_telemetry_work (some (1 ∷ [])))
    ∷ on_cloud (Steps.on_fota_work (negsuc 4))
    ∷ on_reconnect_work 8 (pos 0) [] (pos 0)
    ∷ []

main-idle_example : StaysIdle (run config (registered (boot [])) own_steps)
main-idle_example =
    main-idle bus config (hub false) (given other) [] blank alarmed (registered (boot [])) own_steps
      refl refl idle_waits (tt, (tt, (tt, tt)))

-- The acknowledgement of the connection, and then the reply with the version that the device has.
abbrev acknowledged : List Event
acknowledged = on_cloud (Steps.on_mqtt 0 (connack (pos 0))) ∷ []

abbrev reply : Steps.Event
reply = Steps.on_mqtt 0 (publish_received (pos 0) (1 ∷ 3 ∷ []) 2 [] (some version) 5 true)

acknowledged_runs : run config (up (given other) []) acknowledged ≡ some (up (given other) [])
unfolding run step Steps.step mqtt_evt_handler hear up boot
acknowledged_runs = refl

version_current : ver_comp version version ≢ pos 1
unfolding ver_comp
version_current e = absurd (ground arith)

up_ready : (up (given other) []).cloud.ota_state ≡ ota_state_ready
unfolding up boot
up_ready = refl

topic_hit : strncmp_eq 2 (1 ∷ 3 ∷ []) (1 ∷ 3 ∷ []) ≡ true
unfolding strncmp_eq
topic_hit = refl

main-proceeds_example :
    ((up (given other) []).proceed ≡ false)
    × GoesOn (step config (up (given other) []) (on_cloud reply))
main-proceeds_example =
    main-proceeds bus config (hub true) (given other) [] blank alarmed (up (given other) [])
      (up (given other) []) acknowledged reply refl refl hub_waits (tt, tt) acknowledged_runs
      (refl, topic_hit, version_current) up_ready
