-- ===== src/Cloud/Client/Ready.antt =====
-- When the cloud client tells the application that no update is on its way.
use pyrinas_zephyr.Common.{
  ℕ, ◌≡◌, ◌≢◌, ==ℤ_iff, inl, inr, refl, Bool, true, false, ◌||◌, Option, none, some, List, [], ◌∷◌,
  ◌++◌, map, ℤ, pos, arith, is_negative, Bool-cases, Option-cases, strncmp_eq, length, ◌==ℤ◌,
}
use pyrinas_zephyr.Cloud.Version.{OtaVersion, ver_comp}
use pyrinas_zephyr.Cloud.Topics.{Call, dispatch}
use pyrinas_zephyr.Cloud.Client.{
  Cloud, Config, Address, Action, subscribe, ota_callback, app_call, is_ready, MqttEvt, connack,
  disconnect, puback, suback, publish_received, other, FotaEvt, set_cloud_state, set_ota_state,
  data_publish, publish_telemetry, on_connect_fn, publish_ota_check, publish_ota_done,
  fota_start_fn, fota_download_evt_error, fota_download_evt_finished, fota_download_evt_other,
  decide, ota_message, publish_evt_handler, fota_evt, reboot_work_fn, receive, with_ack,
  mqtt_evt_handler, broker_init, finish_connect, pyrinas_cloud_connect, ota_state_ready,
}
use pyrinas_zephyr.Cloud.Client.Notify.{OnDone}
use pyrinas_zephyr.Cloud.Client.Steps.{
  Event, step, on_mqtt, on_connect_work, on_telemetry_work, on_ota_request_work, on_ota_done_work,
  on_reboot_work, on_fota_work, on_fota_evt, on_connect_call,
}

-- Is the callback called with `ota_state_ready` among the actions?
unfoldable pub says_ready : List Action → Bool
says_ready [] = false
says_ready (ota_callback s ∷ actions) = is_ready s || says_ready actions
says_ready (_ ∷ actions) = says_ready actions

abbrev pub IsSilent : Cloud → Cloud × List Action → Type 0
IsSilent c (c', actions) = (says_ready actions ≡ false) × (c'.has_ota_callback ≡ c.has_ota_callback)

says_ready-append :
    (xs ys : List Action)
    → says_ready xs ≡ false
    → says_ready ys ≡ false
    → says_ready (xs ++ ys) ≡ false
unfolding says_ready
says_ready-append [] ys h h' = h'
says_ready-append (ota_callback s ∷ xs) ys h h' = ground (arith, says_ready-append xs ys)
says_ready-append (_ ∷ xs) ys h h' = says_ready-append xs ys h h'

says_ready-app_call : (calls : List Call) → says_ready (map app_call calls) ≡ false
unfolding says_ready
says_ready-app_call [] = refl
says_ready-app_call (call ∷ calls) = says_ready-app_call calls

-- Every event but a message about an update.
abbrev pub IsElse : Config → Event → Type 0
IsElse k (on_mqtt rand (publish_received read_err topic n bytes decoded id qos1)) =
    strncmp_eq (length k.ota_sub_topic) k.ota_sub_topic topic ≡ false
IsElse k _ = Unit {0}

miss-IsSilent :
    (k : Config) (read_err : ℤ) (topic : List ℕ) (n : ℕ) (bytes : List ℕ)
    (decoded : Option OtaVersion) (rand : ℕ) (c : Cloud)
    → strncmp_eq (length k.ota_sub_topic) k.ota_sub_topic topic ≡ false
    → OnDone (IsSilent c) (publish_evt_handler k topic n bytes decoded rand c)
unfolding publish_evt_handler
miss-IsSilent k read_err topic n bytes decoded rand c miss =
    elim (Option-cases (dispatch topic n bytes c.callbacks)) [
      | inl bad ↦ rw (miss, bad) tt
      | inr (calls, ran) ↦ rw (miss, ran) (says_ready-app_call calls, refl)
    ]

receive-IsSilent :
    (k : Config) (read_err : ℤ) (topic : List ℕ) (n : ℕ) (bytes : List ℕ)
    (decoded : Option OtaVersion) (rand : ℕ) (c : Cloud)
    → strncmp_eq (length k.ota_sub_topic) k.ota_sub_topic topic ≡ false
    → OnDone (IsSilent c) (receive k read_err topic n bytes decoded rand c)
unfolding receive
receive-IsSilent k read_err topic n bytes decoded rand c miss =
    elim (Bool-cases (is_negative read_err)) [
      | inl bad ↦ rw bad (unfold says_ready in (refl, refl))
      | inr good ↦ rw good (miss-IsSilent k read_err topic n bytes decoded rand c miss)
    ]

acked-IsSilent :
    (qos1 : Bool) (id : ℕ) (c : Cloud) (r : Option (Cloud × List Action))
    → OnDone (IsSilent c) r
    → OnDone (IsSilent c) (with_ack qos1 id r)
unfolding with_ack says_ready
acked-IsSilent qos1 id c none h = tt
acked-IsSilent true id c (some (c', actions)) h = (says_ready-append actions _ h.0 refl, h.1)
acked-IsSilent false id c (some (c', actions)) h = (says_ready-append actions _ h.0 refl, h.1)

mqtt-IsSilent :
    (k : Config) (rand : ℕ) (evt : MqttEvt) (c : Cloud)
    → IsElse k (on_mqtt rand evt)
    → OnDone (IsSilent c) (mqtt_evt_handler k rand evt c)
unfolding mqtt_evt_handler set_cloud_state says_ready
mqtt-IsSilent k rand (connack result) c h = ground arith
mqtt-IsSilent k rand (disconnect result) c h = ground arith
mqtt-IsSilent k rand (puback result) c h = (refl, refl)
mqtt-IsSilent k rand (suback result id) c h = ground arith
mqtt-IsSilent k rand other c h = (refl, refl)
mqtt-IsSilent k rand (publish_received read_err topic n bytes decoded id qos1) c h =
    acked-IsSilent qos1 id c _ (receive-IsSilent k read_err topic n bytes decoded rand c h)

telemetry-says_ready :
    (k : Config) (message : Option (List ℕ)) (c : Cloud)
    → says_ready (publish_telemetry k message c) ≡ false
unfolding publish_telemetry data_publish says_ready
telemetry-says_ready k none c = refl
telemetry-says_ready k (some m) c = ground arith

on_connect-IsSilent :
    (k : Config) (message : Option (List ℕ)) (id : ℕ) (c : Cloud)
    → IsSilent c (on_connect_fn k message id c)
unfolding on_connect_fn says_ready
on_connect-IsSilent k message id c = elim (Bool-cases (is_ready c.ota_state)) [
  | inl ready ↦ rw ready (
    says_ready-append (publish_telemetry k message c) (subscribe k.ota_sub_topic id ∷ [])
        (telemetry-says_ready k message c) refl,
    refl,
  )
  | inr busy ↦ rw busy (telemetry-says_ready k message c, refl)
]

fota-IsSilent : (evt : FotaEvt) (c : Cloud) → IsSilent c (fota_evt evt c)
unfolding fota_evt set_ota_state says_ready
fota-IsSilent fota_download_evt_error c = ground arith
fota-IsSilent fota_download_evt_finished c = ground arith
fota-IsSilent fota_download_evt_other c = (refl, refl)

pub connect-IsSilent :
    (size : ℕ) (addr_err : ℤ) (addresses : List Address) (mqtt_err : ℤ) (c : Cloud)
    → let (c', err, actions) = pyrinas_cloud_connect size addr_err addresses mqtt_err c in
      IsSilent c (c', actions)
unfolding pyrinas_cloud_connect broker_init finish_connect set_cloud_state says_ready
connect-IsSilent size addr_err addresses mqtt_err c = ground arith

-- A step that is not a message about an update does not say that the client is ready, and leaves the
-- callback registered.
pub step-IsSilent :
    (k : Config) (c : Cloud) (e : Event) → IsElse k e → OnDone (IsSilent c) (step k c e)
step-IsSilent k c (on_mqtt rand evt) h = unfold step in mqtt-IsSilent k rand evt c h
step-IsSilent k c (on_connect_work message id) h = unfold step in on_connect-IsSilent k message id c
step-IsSilent k c (on_telemetry_work message) h =
    unfold step in (telemetry-says_ready k message c, refl)
step-IsSilent k c on_ota_request_work h =
    unfold step publish_ota_check data_publish says_ready in ground arith
step-IsSilent k c on_ota_done_work h =
    unfold step publish_ota_done data_publish says_ready in ground arith
step-IsSilent k c on_reboot_work h =
    unfold step reboot_work_fn set_ota_state says_ready in ground arith
step-IsSilent k c (on_fota_work err) h =
    unfold step fota_start_fn set_ota_state says_ready in ground arith
step-IsSilent k c (on_fota_evt evt) h = unfold step in fota-IsSilent evt c
step-IsSilent k c (on_connect_call size addr_err addresses mqtt_err) h =
    unfold step in connect-IsSilent size addr_err addresses mqtt_err c

-- The message has no version that could be read, or none that `ver_comp` says to install.
abbrev pub IsCurrent : Config → Option OtaVersion → Type 0
IsCurrent k none = Unit {0}
IsCurrent k (some v) = ver_comp k.pyrinas_version v ≢ pos 1

abbrev pub SaysReady : Option (Cloud × List Action) → Type 0
SaysReady none = ⊥
SaysReady (some (c, actions)) = says_ready actions ≡ true

-- A message about an update that can be read, and that brings nothing to install.
abbrev pub IsReply : Config → Event → Type 0
IsReply k (on_mqtt rand (publish_received read_err topic n bytes decoded id qos1)) =
    (is_negative read_err ≡ false)
    × (strncmp_eq (length k.ota_sub_topic) k.ota_sub_topic topic ≡ true)
    × IsCurrent k decoded
IsReply k _ = ⊥

decide-says_ready :
    (k : Config) (id : ℕ) (c : Cloud)
    → c.ota_state ≡ ota_state_ready
    → c.has_ota_callback ≡ true
    → says_ready (decide k false id c).1 ≡ true
unfolding decide set_ota_state says_ready
decide-says_ready k id c ready told = rw (ready, told) refl

ota_message-says_ready :
    (k : Config) (decoded : Option OtaVersion) (id : ℕ) (c : Cloud)
    → IsCurrent k decoded
    → c.ota_state ≡ ota_state_ready
    → c.has_ota_callback ≡ true
    → says_ready (ota_message k decoded id c).1 ≡ true
unfolding ota_message
ota_message-says_ready k none id c current ready told =
    decide-says_ready k id (record c { initial_ota_check = true }) ready told
ota_message-says_ready k (some v) id c current ready told =
    let older : (ver_comp k.pyrinas_version v ==ℤ pos 1) ≡ false =
      ground (arith, ==ℤ_iff (ver_comp k.pyrinas_version v) (pos 1)) in
    rw older
      (decide-says_ready k id (record c { initial_ota_check = true; ota_version = v }) ready told)

says_ready-append_left : (xs ys : List Action) → says_ready xs ≡ true → says_ready (xs ++ ys) ≡ true
unfolding says_ready
says_ready-append_left [] ys h = absurd (ground arith)
says_ready-append_left (ota_callback s ∷ xs) ys h = ground (arith, says_ready-append_left xs ys)
says_ready-append_left (_ ∷ xs) ys h = says_ready-append_left xs ys h

acked-SaysReady :
    (qos1 : Bool) (id : ℕ) (r : Option (Cloud × List Action))
    → SaysReady r
    → SaysReady (with_ack qos1 id r)
unfolding with_ack
acked-SaysReady qos1 id none h = h
acked-SaysReady qos1 id (some (c, actions)) h = says_ready-append_left actions _ h

received-SaysReady :
    (k : Config) (read_err : ℤ) (topic : List ℕ) (n : ℕ) (bytes : List ℕ)
    (decoded : Option OtaVersion) (rand : ℕ) (c : Cloud)
    → is_negative read_err ≡ false
    → strncmp_eq (length k.ota_sub_topic) k.ota_sub_topic topic ≡ true
    → SaysReady (some (ota_message k decoded rand c))
    → SaysReady (receive k read_err topic n bytes decoded rand c)
unfolding receive publish_evt_handler
received-SaysReady k read_err topic n bytes decoded rand c good hit h = rw (good, hit) h

-- A reply that brings nothing to install makes a ready client say so.
pub reply-SaysReady :
    (k : Config) (c : Cloud) (e : Event)
    → IsReply k e
    → c.ota_state ≡ ota_state_ready
    → c.has_ota_callback ≡ true
    → SaysReady (step k c e)
reply-SaysReady k c (on_mqtt rand (publish_received read_err topic n bytes decoded id qos1))
      (good, hit, current) ready told =
    unfold step mqtt_evt_handler in
    acked-SaysReady qos1 id _ (
      received-SaysReady k read_err topic n bytes decoded rand c good hit
        (ota_message-says_ready k decoded rand c current ready told))
reply-SaysReady k c _ h ready told = absurd h
