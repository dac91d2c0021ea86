-- ===== src/Cloud/Client/Notify.antt =====
-- The connection state of the cloud client and its callback.
use pyrinas_zephyr.Common.{
  ℕ, ◌≡◌, inl, inr, refl, sym, ◌∙◌, Bool, true, false, Option, none, some, List, [], ◌∷◌, ◌++◌, map,
  ℤ, pos, arith, is_negative, Bool-cases, Option-cases, strncmp_eq, length, ◌==ℤ◌,
}
use pyrinas_zephyr.Cloud.Version.{OtaVersion, ver_comp}
use pyrinas_zephyr.Cloud.Topics.{Call, dispatch}
use pyrinas_zephyr.Cloud.Client.{
  CloudState, Cloud, Config, Action, state_callback, app_call, is_ready, MqttEvt, connack,
  disconnect, puback, suback, publish_received, other, FotaEvt, set_cloud_state, set_ota_state,
  data_publish, publish_telemetry, on_connect_fn, publish_ota_check, publish_ota_done,
  fota_start_fn, fota_download_evt_error, fota_download_evt_finished, fota_download_evt_other,
  decide, ota_message, publish_evt_handler, fota_evt, reboot_work_fn, receive, with_ack,
  mqtt_evt_handler, broker_init, finish_connect, pyrinas_cloud_connect,
}
use pyrinas_zephyr.Cloud.Client.Steps.{
  Event, step, run, on_mqtt, on_connect_work, on_telemetry_work, on_ota_request_work,
  on_ota_done_work, on_reboot_work, on_fota_work, on_fota_evt, on_connect_call,
}

-- The state that the last call of `cloud_state_callback` among the actions had, or `s` without one.
unfoldable pub notified : CloudState → List Action → CloudState
notified s [] = s
notified s (state_callback s' ∷ actions) = notified s' actions
notified s (_ ∷ actions) = notified s actions

notified-append :
    (s : CloudState) (xs ys : List Action) → notified s (xs ++ ys) ≡ notified (notified s xs) ys
unfolding notified
notified-append s [] ys = refl
notified-append s (state_callback s' ∷ xs) ys = notified-append s' xs ys
notified-append s (_ ∷ xs) ys = notified-append s xs ys

-- What holds of a result, unless it is a fault.
abbrev pub OnDone : (Cloud × List Action → Type 0) → Option (Cloud × List Action) → Type 0
OnDone P none = Unit {0}
OnDone P (some r) = P r

-- Who hears the callbacks knows the state.
abbrev pub IsTold : Cloud → Cloud × List Action → Type 0
IsTold c (c', actions) =
    (c'.cloud_state ≡ notified c.cloud_state actions)
    × (c'.has_state_callback ≡ c.has_state_callback)

decide-IsTold : (k : Config) (update : Bool) (id : ℕ) (c : Cloud) → IsTold c (decide k update id c)
unfolding decide set_ota_state notified
decide-IsTold k update id c = ground arith

ota_message-IsTold :
    (k : Config) (decoded : Option OtaVersion) (id : ℕ) (c : Cloud)
    → IsTold c (ota_message k decoded id c)
unfolding ota_message
ota_message-IsTold k none id c = decide-IsTold k false id (record c { initial_ota_check = true })
ota_message-IsTold k (some v) id c =
    decide-IsTold k (ver_comp k.pyrinas_version v ==ℤ pos 1) id
      (record c { initial_ota_check = true; ota_version = v })

notified-app_call : (s : CloudState) (calls : List Call) → notified s (map app_call calls) ≡ s
unfolding notified
notified-app_call s [] = refl
notified-app_call s (call ∷ calls) = notified-app_call s calls

receive-IsTold :
    (k : Config) (topic : List ℕ) (n : ℕ) (bytes : List ℕ) (decoded : Option OtaVersion) (id : ℕ)
    (c : Cloud)
    → OnDone (IsTold c) (publish_evt_handler k topic n bytes decoded id c)
unfolding publish_evt_handler
receive-IsTold k topic n bytes decoded id c =
    elim (Bool-cases (strncmp_eq (length k.ota_sub_topic) k.ota_sub_topic topic)) [
      | inl hit ↦ rw hit (ota_message-IsTold k decoded id c)
      | inr miss ↦ elim (Option-cases (dispatch topic n bytes c.callbacks)) [
        | inl bad ↦ rw (miss, bad) tt
        | inr (calls, ran) ↦ rw (miss, ran) (sym (notified-app_call c.cloud_state calls), refl)
      ]
    ]

acked-IsTold :
    (qos1 : Bool) (id : ℕ) (c : Cloud) (r : Option (Cloud × List Action))
    → OnDone (IsTold c) r
    → OnDone (IsTold c) (with_ack qos1 id r)
unfolding with_ack notified
acked-IsTold qos1 id c none h = tt
acked-IsTold true id c (some (c', actions)) h =
    (h.0 ∙ sym (notified-append c.cloud_state actions _), h.1)
acked-IsTold false id c (some (c', actions)) h =
    (h.0 ∙ sym (notified-append c.cloud_state actions _), h.1)

publish-IsTold :
    (k : Config) (read_err : ℤ) (topic : List ℕ) (n : ℕ) (bytes : List ℕ)
    (decoded : Option OtaVersion) (rand : ℕ) (c : Cloud)
    → OnDone (IsTold c) (receive k read_err topic n bytes decoded rand c)
unfolding receive
publish-IsTold k read_err topic n bytes decoded rand c = elim (Bool-cases (is_negative read_err)) [
  | inl bad ↦ rw bad (unfold notified in (refl, refl))
  | inr good ↦ rw good (receive-IsTold k topic n bytes decoded rand c)
]

mqtt-IsTold :
    (k : Config) (rand : ℕ) (evt : MqttEvt) (c : Cloud)
    → c.has_state_callback ≡ true
    → OnDone (IsTold c) (mqtt_evt_handler k rand evt c)
mqtt-IsTold k rand (connack result) c h =
    unfold mqtt_evt_handler set_cloud_state notified in ground arith
mqtt-IsTold k rand (disconnect result) c h =
    unfold mqtt_evt_handler set_cloud_state notified in ground arith
mqtt-IsTold k rand (puback result) c h = unfold mqtt_evt_handler notified in (refl, refl)
mqtt-IsTold k rand (suback result id) c h = unfold mqtt_evt_handler notified in ground arith
mqtt-IsTold k rand other c h = unfold mqtt_evt_handler notified in (refl, refl)
mqtt-IsTold k rand (publish_received read_err topic n bytes decoded id qos1) c h =
    unfold mqtt_evt_handler in
    acked-IsTold qos1 id c _ (publish-IsTold k read_err topic n bytes decoded rand c)

telemetry-IsTold :
    (k : Config) (message : Option (List ℕ)) (s : CloudState) (c : Cloud)
    → notified s (publish_telemetry k message c) ≡ s
telemetry-IsTold k none s c = unfold publish_telemetry notified in refl
telemetry-IsTold k (some m) s c = unfold publish_telemetry data_publish notified in ground arith

on_connect-IsTold :
    (k : Config) (message : Option (List ℕ)) (id : ℕ) (c : Cloud)
    → IsTold c (on_connect_fn k message id c)
unfolding on_connect_fn notified
on_connect-IsTold k message id c = elim (Bool-cases (is_ready c.ota_state)) [
  | inl ready ↦
      rw (ready, notified-append c.cloud_state (publish_telemetry k message c))
        (sym (telemetry-IsTold k message c.cloud_state c), refl)
  | inr busy ↦ rw busy (sym (telemetry-IsTold k message c.cloud_state c), refl)
]

fota-IsTold : (evt : FotaEvt) (c : Cloud) → IsTold c (fota_evt evt c)
unfolding fota_evt set_ota_state notified
fota-IsTold fota_download_evt_error c = ground arith
fota-IsTold fota_download_evt_finished c = ground arith
fota-IsTold fota_download_evt_other c = (refl, refl)

-- In every step the state of the connection changes exactly as the callback is told: what its last
-- call of the step says, or not at all. The callback must be registered.
pub step-IsTold :
    (k : Config) (c : Cloud) (e : Event)
    → c.has_state_callback ≡ true
    → OnDone (IsTold c) (step k c e)
step-IsTold k c (on_mqtt rand evt) h = unfold step in mqtt-IsTold k rand evt c h
step-IsTold k c (on_connect_work message id) h = unfold step in on_connect-IsTold k message id c
step-IsTold k c (on_telemetry_work message) h =
    unfold step in (sym (telemetry-IsTold k message c.cloud_state c), refl)
step-IsTold k c on_ota_request_work h =
    unfold step publish_ota_check data_publish notified in ground arith
step-IsTold k c on_ota_done_work h =
    unfold step publish_ota_done data_publish notified in ground arith
step-IsTold k c on_reboot_work h = unfold step reboot_work_fn set_ota_state notified in ground arith
step-IsTold k c (on_fota_work err) h =
    unfold step fota_start_fn set_ota_state notified in ground arith
step-IsTold k c (on_fota_evt evt) h = unfold step in fota-IsTold evt c
step-IsTold k c (on_connect_call size addr_err addresses mqtt_err) h =
    unfold step pyrinas_cloud_connect broker_init finish_connect set_cloud_state notified in
    ground arith

run-cons :
    (k : Config) (c : Cloud) (e : Event) (es : List Event)
    → c.has_state_callback ≡ true
    → OnDone (IsTold c) (step k c e)
    → ((c' : Cloud) → c'.has_state_callback ≡ true → OnDone (IsTold c') (run k c' es))
    → OnDone (IsTold c) (run k c (e ∷ es))
unfolding run
run-cons k c e es h one rest = elim (Option-cases (step k c e)) [
  | inl bad ↦ rw (bad, OnDone) tt
  | inr ((c', actions), ran) ↦
      let told = rw (ran, OnDone) at one in
      let more = rest c' (told.1 ∙ h) in
      elim (Option-cases (run k c' es)) [
        | inl bad ↦ rw (ran, bad, OnDone) tt
        | inr ((c'', last), ran') ↦
            let told' = rw (ran', OnDone) at more in
            rw (ran, ran', OnDone, notified-append c.cloud_state actions last, sym told.0)
              (told'.0, told'.1 ∙ told.1)
      ]
]

-- With the callback registered, after any history that does not fault the connection has the state
-- that the last call of the callback gave, or the one of the start if there was no call.
pub run-IsTold :
    (k : Config) (c : Cloud) (es : List Event)
    → c.has_state_callback ≡ true
    → OnDone (IsTold c) (run k c es)
run-IsTold k c [] h = unfold run notified in (refl, refl)
run-IsTold k c (e ∷ es) h =
    run-cons k c e es h (step-IsTold k c e h) (λ c' h'. run-IsTold k c' es h')
