-- ===== src/Cloud/Client/Untold.antt =====
-- The steps of the cloud client that leave the state of the connection, and do not tell the application
-- of it.
use pyrinas_zephyr.Common.{
  ℕ, ◌≡◌, refl, Bool, true, false, Option, none, some, List, [], ◌∷◌, ◌++◌, arith, Bool-cases, inl,
  inr,
}
use pyrinas_zephyr.Cloud.Client.{
  Cloud, Config, Action, subscribe, state_callback, is_ready, FotaEvt, set_ota_state, data_publish,
  publish_telemetry, on_connect_fn, publish_ota_check, publish_ota_done, fota_start_fn,
  fota_download_evt_error, fota_download_evt_finished, fota_download_evt_other, fota_evt,
  reboot_work_fn,
}
use pyrinas_zephyr.Cloud.Client.Ready.{IsElse}
use pyrinas_zephyr.Cloud.Client.Steps as Steps

-- Is there a call of the callback for the connection among the actions?
unfoldable pub says_state : List Action → Bool
says_state [] = false
says_state (state_callback s ∷ actions) = true
says_state (_ ∷ actions) = says_state actions

abbrev pub IsUntold : Cloud → Cloud × List Action → Type 0
IsUntold c (c', actions) = (says_state actions ≡ false) × (c'.cloud_state ≡ c.cloud_state)

says_state-append :
    (xs ys : List Action)
    → says_state xs ≡ false
    → says_state ys ≡ false
    → says_state (xs ++ ys) ≡ false
unfolding says_state
says_state-append [] ys h h' = h'
says_state-append (state_callback s ∷ xs) ys h h' = h
says_state-append (_ ∷ xs) ys h h' = says_state-append xs ys h h'

telemetry-says_state :
    (k : Config) (message : Option (List ℕ)) (c : Cloud)
    → says_state (publish_telemetry k message c) ≡ false
unfolding publish_telemetry data_publish says_state
telemetry-says_state k none c = refl
telemetry-says_state k (some m) c = ground arith

on_connect-IsUntold :
    (k : Config) (message : Option (List ℕ)) (id : ℕ) (c : Cloud)
    → IsUntold c (on_connect_fn k message id c)
unfolding on_connect_fn says_state
on_connect-IsUntold k message id c = elim (Bool-cases (is_ready c.ota_state)) [
  | inl ready ↦ rw ready (
    says_state-append (publish_telemetry k message c) (subscribe k.ota_sub_topic id ∷ [])
        (telemetry-says_state k message c) refl,
    refl,
  )
  | inr busy ↦ rw busy (telemetry-says_state k message c, refl)
]

fota-IsUntold : (evt : FotaEvt) (c : Cloud) → IsUntold c (fota_evt evt c)
unfolding fota_evt set_ota_state says_state
fota-IsUntold fota_download_evt_error c = ground arith
fota-IsUntold fota_download_evt_finished c = ground arith
fota-IsUntold fota_download_evt_other c = (refl, refl)

-- The steps of the device itself: all but an event of the MQTT library, which has none before it is
-- connected, and a call of `pyrinas_cloud_connect` from outside the reconnect work.
abbrev pub IsOwnStep : Steps.Event → Type 0
IsOwnStep (Steps.on_mqtt rand evt) = ⊥
IsOwnStep (Steps.on_connect_call size addr_err addresses mqtt_err) = ⊥
IsOwnStep _ = Unit {0}

pub IsOwnStep-IsElse : (k : Config) (e : Steps.Event) → IsOwnStep e → IsElse k e
IsOwnStep-IsElse k (Steps.on_mqtt rand evt) h = absurd h
IsOwnStep-IsElse k (Steps.on_connect_work message id) h = tt
IsOwnStep-IsElse k (Steps.on_telemetry_work message) h = tt
IsOwnStep-IsElse k Steps.on_ota_request_work h = tt
IsOwnStep-IsElse k Steps.on_ota_done_work h = tt
IsOwnStep-IsElse k Steps.on_reboot_work h = tt
IsOwnStep-IsElse k (Steps.on_fota_work err) h = tt
IsOwnStep-IsElse k (Steps.on_fota_evt evt) h = tt
IsOwnStep-IsElse k (Steps.on_connect_call size addr_err addresses mqtt_err) h = absurd h

-- Such a step does not fault, leaves the state of the connection and says nothing of it.
pub step-IsUntold :
    (k : Config) (c : Cloud) (e : Steps.Event)
    → IsOwnStep e
    → (r : Cloud × List Action) × (Steps.step k c e ≡ some r) × IsUntold c r
unfolding Steps.step
step-IsUntold k c (Steps.on_mqtt rand evt) h = absurd h
step-IsUntold k c (Steps.on_connect_work message id) h =
    (_, refl, on_connect-IsUntold k message id c)
step-IsUntold k c (Steps.on_telemetry_work message) h =
    (_, refl, (telemetry-says_state k message c, refl))
step-IsUntold k c Steps.on_ota_request_work h =
    (_, refl, unfold publish_ota_check data_publish says_state in ground arith)
step-IsUntold k c Steps.on_ota_done_work h =
    (_, refl, unfold publish_ota_done data_publish says_state in ground arith)
step-IsUntold k c Steps.on_reboot_work h =
    (_, refl, unfold reboot_work_fn set_ota_state says_state in ground arith)
step-IsUntold k c (Steps.on_fota_work err) h =
    (_, refl, unfold fota_start_fn set_ota_state says_state in ground arith)
step-IsUntold k c (Steps.on_fota_evt evt) h = (_, refl, fota-IsUntold evt c)
step-IsUntold k c (Steps.on_connect_call size addr_err addresses mqtt_err) h = absurd h
