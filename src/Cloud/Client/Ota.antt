-- ===== src/Cloud/Client/Ota.antt =====
-- The firmware update of the cloud client: its state, its check, and what they allow.
use pyrinas_zephyr.Common.{
  ℕ, inl, inr, refl, Bool, true, false, Option, none, some, List, [], ◌∷◌, ℤ, pos, arith, is_error,
  if◌then◌else◌, Bool-cases,
}
use pyrinas_zephyr.Cloud.Client.{
  CloudState, ota_state_error, ota_state_done, ota_state_downloading, ota_state_rebooting,
  cloud_state_disconnected, Cloud, Config, state_callback, is_ready, MqttEvt, connack, disconnect,
  puback, suback, publish_received, other, FotaEvt, set_cloud_state, set_ota_state, data_publish,
  publish_telemetry, on_connect_fn, publish_ota_check, publish_ota_done, fota_start_fn,
  fota_download_evt_error, fota_download_evt_finished, fota_download_evt_other, fota_evt,
  reboot_work_fn, mqtt_evt_handler, broker_init, finish_connect, pyrinas_cloud_connect,
}
use pyrinas_zephyr.Cloud.Client.Steps.{
  Event, step, on_mqtt, on_connect_work, on_telemetry_work, on_ota_request_work, on_ota_done_work,
  on_reboot_work, on_fota_work, on_fota_evt, on_connect_call,
}
use pyrinas_zephyr.Cloud.Client.Notify.{OnDone}
use pyrinas_zephyr.Cloud.Client.{Address}
use pyrinas_zephyr.Cloud.Client.Orderly.{
  AllAllowed-append, callback-AllAllowed, received-IsOrderly, acked-IsOrderly, AllAllowed, IsOnward,
  IsOrderly,
}

state-AllAllowed :
    (c : Cloud) (b : Bool) (s : CloudState) → AllAllowed c (if b then state_callback s ∷ [] else [])
state-AllAllowed c true s = (tt, tt)
state-AllAllowed c false s = tt

mqtt-IsOrderly :
    (k : Config) (rand : ℕ) (evt : MqttEvt) (c : Cloud)
    → OnDone (IsOrderly c) (mqtt_evt_handler k rand evt c)
mqtt-IsOrderly k rand (connack result) c = elim (Bool-cases (is_error result)) [
  | inl bad ↦
      unfold mqtt_evt_handler set_cloud_state in
      rw bad ((λ h. h, λ h. h), state-AllAllowed c c.has_state_callback cloud_state_disconnected)
  | inr good ↦ unfold mqtt_evt_handler in rw good ((λ h. h, λ h. h), (tt, (tt, tt)))
]
mqtt-IsOrderly k rand (disconnect result) c =
    unfold mqtt_evt_handler set_cloud_state in
    ((λ h. h, λ h. h), (tt, state-AllAllowed c c.has_state_callback cloud_state_disconnected))
mqtt-IsOrderly k rand (puback result) c = unfold mqtt_evt_handler in ((λ h. h, λ h. h), tt)
mqtt-IsOrderly k rand (suback result id) c = unfold mqtt_evt_handler in ground arith
mqtt-IsOrderly k rand other c = unfold mqtt_evt_handler in ((λ h. h, λ h. h), tt)
mqtt-IsOrderly k rand (publish_received read_err topic n bytes decoded id qos1) c =
    unfold mqtt_evt_handler in
    acked-IsOrderly qos1 id c _ (received-IsOrderly k read_err topic n bytes decoded rand c)

data_publish-AllAllowed :
    (topic bytes : List ℕ) (err : ℤ) (c : Cloud) → AllAllowed c (data_publish topic bytes err c).1
unfolding data_publish
data_publish-AllAllowed topic bytes err c = ground arith

telemetry-AllAllowed :
    (k : Config) (message : Option (List ℕ)) (c : Cloud)
    → AllAllowed c (publish_telemetry k message c)
unfolding publish_telemetry
telemetry-AllAllowed k none c = tt
telemetry-AllAllowed k (some m) c = data_publish-AllAllowed k.telemetry_pub_topic m (pos 0) c

connect_work-IsOrderly :
    (k : Config) (message : Option (List ℕ)) (id : ℕ) (c : Cloud)
    → IsOrderly c (on_connect_fn k message id c)
unfolding on_connect_fn
connect_work-IsOrderly k message id c = elim (Bool-cases (is_ready c.ota_state)) [
  | inl ready ↦ rw ready (
    (λ h. absurd (ground arith), λ h. h),
    AllAllowed-append c _ _ (telemetry-AllAllowed k message c) (ready, tt),
  )
  | inr busy ↦ rw busy ((λ h. busy, λ h. h), telemetry-AllAllowed k message c)
]

fota_start-IsOrderly : (err : ℤ) (c : Cloud) → IsOrderly c (fota_start_fn err c)
unfolding fota_start_fn set_ota_state
fota_start-IsOrderly err c = elim (Bool-cases (is_error err)) [
  | inl bad ↦ rw bad (
    (λ h. refl, λ h. h),
    (
      tt,
      AllAllowed-append c _ _ (callback-AllAllowed c c.has_ota_callback ota_state_error) (tt, tt),
    ),
  )
  | inr good ↦
      rw good
        ((λ h. refl, λ h. h), (tt, callback-AllAllowed c c.has_ota_callback ota_state_downloading))
]

fota-IsOrderly : (evt : FotaEvt) (c : Cloud) → IsOrderly c (fota_evt evt c)
unfolding fota_evt set_ota_state
fota-IsOrderly fota_download_evt_error c = (
  (λ h. refl, λ h. h),
  AllAllowed-append c _ _ (callback-AllAllowed c c.has_ota_callback ota_state_error) (tt, tt),
)
fota-IsOrderly fota_download_evt_finished c = (
  (λ h. refl, λ h. h),
  AllAllowed-append c _ _ (callback-AllAllowed c c.has_ota_callback ota_state_done) (tt, tt),
)
fota-IsOrderly fota_download_evt_other c = ((λ h. h, λ h. h), tt)

connect-AllAllowed :
    (size : ℕ) (addr_err : ℤ) (addresses : List Address) (mqtt_err : ℤ) (c : Cloud)
    → let (c', err, actions) = pyrinas_cloud_connect size addr_err addresses mqtt_err c in
      AllAllowed c actions
unfolding pyrinas_cloud_connect broker_init finish_connect set_cloud_state
connect-AllAllowed size addr_err addresses mqtt_err c = ground arith

connect-IsOnward :
    (size : ℕ) (addr_err : ℤ) (addresses : List Address) (mqtt_err : ℤ) (c : Cloud)
    → IsOnward c (pyrinas_cloud_connect size addr_err addresses mqtt_err c).0
unfolding pyrinas_cloud_connect broker_init finish_connect set_cloud_state
connect-IsOnward size addr_err addresses mqtt_err c = ground arith

-- In every step that does not fault, an update that has begun does not go back to "ready" and an
-- answer about updates is not forgotten; the client publishes only if it is connected, subscribes
-- and submits the "done" report only if no update has begun, and submits the request for an update
-- only if it has had no answer.
pub step-IsOrderly : (k : Config) (c : Cloud) (e : Event) → OnDone (IsOrderly c) (step k c e)
step-IsOrderly k c (on_mqtt rand evt) = unfold step in mqtt-IsOrderly k rand evt c
step-IsOrderly k c (on_connect_work message id) =
    unfold step in connect_work-IsOrderly k message id c
step-IsOrderly k c (on_telemetry_work message) =
    unfold step in ((λ h. h, λ h. h), telemetry-AllAllowed k message c)
step-IsOrderly k c on_ota_request_work =
    unfold step publish_ota_check in
    ((λ h. h, λ h. h), data_publish-AllAllowed k.ota_pub_topic k.ota_check_message (pos 0) c)
step-IsOrderly k c on_ota_done_work =
    unfold step publish_ota_done in
    ((λ h. h, λ h. h), data_publish-AllAllowed k.ota_pub_topic k.ota_done_message (pos 0) c)
step-IsOrderly k c on_reboot_work =
    unfold step reboot_work_fn set_ota_state in
    ((λ h. refl, λ h. h), (tt, callback-AllAllowed c c.has_ota_callback ota_state_rebooting))
step-IsOrderly k c (on_fota_work err) = unfold step in fota_start-IsOrderly err c
step-IsOrderly k c (on_fota_evt evt) = unfold step in fota-IsOrderly evt c
step-IsOrderly k c (on_connect_call size addr_err addresses mqtt_err) =
    unfold step in
    (
      connect-IsOnward size addr_err addresses mqtt_err c,
      connect-AllAllowed size addr_err addresses mqtt_err c,
    )
