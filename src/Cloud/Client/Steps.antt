-- ===== src/Cloud/Client/Steps.antt =====
-- The histories of the cloud client: the MQTT events, the work functions, the events of the download
-- and the application's calls, in any order.
use pyrinas_zephyr.Common.{ℕ, Option, none, some, List, [], ◌∷◌, ◌++◌, ℤ}
use pyrinas_zephyr.Cloud.Client.{
  Cloud, Config, Action, Address, MqttEvt, FotaEvt, mqtt_evt_handler, on_connect_fn,
  publish_telemetry, publish_ota_check, publish_ota_done, fota_start_fn, fota_evt, reboot_work_fn,
  pyrinas_cloud_connect,
}

-- Each with its arguments and the results of the calls that it makes.
pub data Event : Type 0 where
  on_mqtt : ℕ → MqttEvt → Event
  on_connect_work : Option (List ℕ) → ℕ → Event
  on_telemetry_work : Option (List ℕ) → Event
  on_ota_request_work on_ota_done_work on_reboot_work : Event
  on_fota_work : ℤ → Event
  on_fota_evt : FotaEvt → Event
  on_connect_call : ℕ → ℤ → List Address → ℤ → Event

module _ (k : Config) where
  -- `none` is a fault.
  unfoldable pub step : Cloud → Event → Option (Cloud × List Action)
  step c (on_mqtt rand evt) = mqtt_evt_handler k rand evt c
  step c (on_connect_work message id) = some (on_connect_fn k message id c)
  step c (on_telemetry_work message) = some (c, publish_telemetry k message c)
  step c on_ota_request_work = some (c, publish_ota_check k c)
  step c on_ota_done_work = some (c, publish_ota_done k c)
  step c on_reboot_work = some (reboot_work_fn c)
  step c (on_fota_work err) = some (fota_start_fn err c)
  step c (on_fota_evt evt) = some (fota_evt evt c)
  step c (on_connect_call size addr_err addresses mqtt_err) =
      let (c', err, actions) = pyrinas_cloud_connect size addr_err addresses mqtt_err c in
      some (c', actions)

  unfoldable pub run : Cloud → List Event → Option (Cloud × List Action)
  run c [] = some (c, [])
  run c (e ∷ es) = elim (step c e) [
    | none ↦ none
    | some (c', actions) ↦ elim (run c' es) [
      | none ↦ none
      | some (c'', more) ↦ some (c'', actions ++ more)
    ]
  ]
