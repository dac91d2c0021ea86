-- ===== src/Cloud/Client.antt =====
-- The MQTT client of subsys/pyrinas_cloud/pyrinas_cloud.c: its connection state, the state of the
-- firmware update, the work functions and the handler of the MQTT events. Each call of the MQTT
-- library, of Zephyr and of the application's callbacks is an `Action` in the result, in the order of
-- the calls, and what a call returns is an argument.
pub mod Steps
pub mod Untold
pub mod Connect
pub mod Notify
pub mod Orderly
pub mod Ota
pub mod Publish
pub mod Ready
pub mod Update
mod Tests
use pyrinas_zephyr.Common.{
  ℕ, zero, suc, Bool, true, false, not, ◌&&◌, Option, none, some, List, [], ◌∷◌, ◌++◌, map, ltb,
  ◌==◌, if◌then◌else◌, length, strncmp_eq, ℤ, pos, negsuc, ◌==ℤ◌, is_error, is_negative, enetdown,
  einprogress,
}
use pyrinas_zephyr.Cloud.Version.{OtaVersion, ver_comp}
use pyrinas_zephyr.Cloud.Topics.{Slot, Call, dispatch}

pub data CloudState : Type 0 where
  cloud_state_disconnected cloud_state_connected : CloudState

pub data OtaState : Type 0 where
  ota_state_ready ota_state_started ota_state_downloading ota_state_done : OtaState
  ota_state_error ota_state_reboot ota_state_rebooting : OtaState

pub data Work : Type 0 where
  on_connect publish_telemetry_work ota_request ota_done ota_reboot : Work
  fota ota_check_subscribed : Work  -- after 5 seconds

pub data Action : Type 0 where
  submit : Work → Action
  ota_callback : OtaState → Action
  state_callback : CloudState → Action
  publish : List ℕ → List ℕ → Action  -- `mqtt_publish`: the topic and the data
  subscribe : List ℕ → ℕ → Action
  ack : ℕ → Action
  mqtt_connect mqtt_disconnect sem_give : Action
  timer_start timer_stop : Action
  fota_download_start sys_reboot : Action
  app_call : Call → Action

-- `cloud_state_s`, `ota_state_s`, `initial_ota_check`, `ota_sub_message_id`, `ota_data.version`, the
-- address in `broker`, `callbacks`, and whether the two callbacks of the states are set.
pub record Cloud : Type 0 where
  pub cloud_state : CloudState
  pub ota_state : OtaState
  pub initial_ota_check : Bool
  pub ota_sub_message_id : ℕ
  pub ota_version : OtaVersion
  pub broker : Option ℕ
  pub callbacks : List Slot
  pub has_ota_callback : Bool
  pub has_state_callback : Bool

-- `atomic_get(&cloud_state_s) == cloud_state_connected`
abbrev pub is_connected : CloudState → Bool
is_connected cloud_state_disconnected = false
is_connected cloud_state_connected = true

abbrev pub is_ready : OtaState → Bool
is_ready ota_state_ready = true
is_ready _ = false

-- The topics and messages that the code makes with `snprintf` and the codec, and its own version.
pub record Config : Type 0 where
  pub ota_pub_topic : List ℕ
  pub ota_sub_topic : List ℕ
  pub telemetry_pub_topic : List ℕ
  pub application_sub_topic : List ℕ
  pub ota_check_message : List ℕ
  pub ota_done_message : List ℕ
  pub pyrinas_version : OtaVersion

-- `atomic_set(&ota_state_s, s)` with the call of the callback behind it.
pub set_ota_state : OtaState → Cloud → Cloud × List Action
set_ota_state s c =
    (record c { ota_state = s }, if c.has_ota_callback then ota_callback s ∷ [] else [])

unfoldable pub set_cloud_state : CloudState → Cloud → Cloud × List Action
set_cloud_state s c =
    (record c { cloud_state = s }, if c.has_state_callback then state_callback s ∷ [] else [])

-- `err` is the result of `mqtt_publish`.
pub data_publish : List ℕ → List ℕ → ℤ → Cloud → ℤ × List Action
data_publish topic bytes err c =
    if is_connected c.cloud_state then (err, publish topic bytes ∷ []) else (enetdown, [])

-- `err` is the result of `fota_download_start`.
pub fota_start_fn : ℤ → Cloud → Cloud × List Action
unfolding set_ota_state
fota_start_fn err c =
    let (c', failed) = set_ota_state ota_state_error c in
    let (c'', started) = set_ota_state ota_state_downloading c in
    if is_error err
    then (c', fota_download_start ∷ failed ++ sys_reboot ∷ [])
    else (c'', fota_download_start ∷ started)

module _ (k : Config) where
  -- The message is what `encode_telemetry_data` made, `none` for its error.
  pub publish_telemetry : Option (List ℕ) → Cloud → List Action
  publish_telemetry none c = []
  publish_telemetry (some message) c = (data_publish k.telemetry_pub_topic message (pos 0) c).1

  -- `id` is the result of `sys_rand32_get`.
  pub on_connect_fn : Option (List ℕ) → ℕ → Cloud → Cloud × List Action
  on_connect_fn message id c =
      let telemetry = publish_telemetry message c in
      if is_ready c.ota_state
      then (record c { ota_sub_message_id = id }, telemetry ++ subscribe k.ota_sub_topic id ∷ [])
      else (c, telemetry)

  pub publish_ota_check : Cloud → List Action
  publish_ota_check c = (data_publish k.ota_pub_topic k.ota_check_message (pos 0) c).1

  pub publish_ota_done : Cloud → List Action
  publish_ota_done c = (data_publish k.ota_pub_topic k.ota_done_message (pos 0) c).1

  -- The end of the update part of `publish_evt_handler`, with the outcome of the test of the version.
  pub decide : Bool → ℕ → Cloud → Cloud × List Action
  unfolding set_ota_state
  decide update id c =
      let (c', actions) = set_ota_state ota_state_started c in
      if update
      then (c', actions ++ submit fota ∷ [])
      else if is_ready c.ota_state
      then (
        c,
        submit ota_done
            ∷ subscribe k.application_sub_topic id
            ∷ (if c.has_ota_callback then ota_callback c.ota_state ∷ [] else []),
      )
      else (c, [])

  -- The result of `decode_ota_data` is `none` for an error.
  pub ota_message : Option OtaVersion → ℕ → Cloud → Cloud × List Action
  unfolding decide
  ota_message none id c = decide false id (record c { initial_ota_check = true })
  ota_message (some v) id c =
      decide (ver_comp k.pyrinas_version v ==ℤ pos 1) id
        (record c { initial_ota_check = true; ota_version = v })

  -- `topic` is the memory from the pointer on. `none` is the fault of `dispatch`.
  pub publish_evt_handler :
      List ℕ → ℕ → List ℕ → Option OtaVersion → ℕ → Cloud → Option (Cloud × List Action)
  unfolding ota_message
  publish_evt_handler topic topic_len bytes decoded id c =
      if strncmp_eq (length k.ota_sub_topic) k.ota_sub_topic topic
      then some (ota_message decoded id c)
      else elim (dispatch topic topic_len bytes c.callbacks) [
        | none ↦ none
        | some calls ↦ some (c, map app_call calls)
      ]

-- `fota_evt`
pub data FotaEvt : Type 0 where
  fota_download_evt_error fota_download_evt_finished fota_download_evt_other : FotaEvt

pub fota_evt : FotaEvt → Cloud → Cloud × List Action
unfolding set_ota_state
fota_evt fota_download_evt_error c =
    let (c', actions) = set_ota_state ota_state_error c in (c', actions ++ submit ota_reboot ∷ [])
fota_evt fota_download_evt_finished c =
    let (c', actions) = set_ota_state ota_state_done c in (c', actions ++ submit ota_reboot ∷ [])
fota_evt fota_download_evt_other c = (c, [])

-- What follows `sys_reboot` runs if that returns.
pub reboot_work_fn : Cloud → Cloud × List Action
unfolding set_ota_state
reboot_work_fn c =
    let (c', actions) = set_ota_state ota_state_rebooting c in (c', sys_reboot ∷ actions)

-- An event of the MQTT library. A publish has the result of `publish_get_payload`, its topic and the
-- length of that, its payload, what `decode_ota_data` makes of it, the message id, and whether its
-- quality of service is 1.
pub data MqttEvt : Type 0 where
  connack disconnect puback : ℤ → MqttEvt
  suback : ℤ → ℕ → MqttEvt
  publish_received : ℤ → List ℕ → ℕ → List ℕ → Option OtaVersion → ℕ → Bool → MqttEvt
  other : MqttEvt

-- The acknowledgement behind whatever a publish did.
pub with_ack : Bool → ℕ → Option (Cloud × List Action) → Option (Cloud × List Action)
with_ack qos1 id none = none
with_ack qos1 id (some (c, actions)) = some (c, actions ++ (if qos1 then ack id ∷ [] else []))

module _ (k : Config) where
  -- `rand` is the result of `sys_rand32_get`. `none` is a fault.
  pub receive :
      ℤ → List ℕ → ℕ → List ℕ → Option OtaVersion → ℕ → Cloud → Option (Cloud × List Action)
  receive read_err topic topic_len bytes decoded rand c =
      if is_negative read_err
      then some (c, mqtt_disconnect ∷ [])
      else publish_evt_handler k topic topic_len bytes decoded rand c

  unfoldable pub mqtt_evt_handler : ℕ → MqttEvt → Cloud → Option (Cloud × List Action)
  unfolding set_cloud_state receive with_ack
  mqtt_evt_handler rand (connack result) c =
      if is_error result
      then some (set_cloud_state cloud_state_disconnected c)
      else some (c, submit on_connect ∷ timer_start ∷ [])
  mqtt_evt_handler rand (disconnect result) c =
      let (c', actions) = set_cloud_state cloud_state_disconnected c in
      some (c', timer_stop ∷ actions)
  mqtt_evt_handler rand (publish_received read_err topic topic_len bytes decoded id qos1) c =
      with_ack qos1 id (receive read_err topic topic_len bytes decoded rand c)
  mqtt_evt_handler rand (puback result) c = some (c, [])
  mqtt_evt_handler rand (suback result id) c =
      if is_error result
      then some (c, [])
      else if c.ota_sub_message_id == id && not c.initial_ota_check
      then some (c, submit ota_request ∷ submit ota_check_subscribed ∷ [])
      else some (c, [])
  mqtt_evt_handler rand other c = some (c, [])

-- An entry of the list that `getaddrinfo` gives.
pub record Address : Type 0 where
  pub addrlen : ℕ
  pub addr : ℕ

-- The loop of `broker_init`, which ends after the first entry; `size` is sizeof(struct sockaddr_in).
unfoldable pub first_address : ℕ → List Address → Option ℕ → Option ℕ
first_address size [] broker = broker
first_address size (a ∷ rest) broker = if a.addrlen == size then some a.addr else broker

-- `err` and the list are the results of `getaddrinfo`.
unfoldable pub broker_init : ℕ → ℤ → List Address → Cloud → Cloud × ℤ
broker_init size err addresses c =
    if is_error err
    then (c, err)
    else (record c { broker = first_address size addresses c.broker }, pos 0)

-- The rest of `pyrinas_cloud_connect`, with the result of `mqtt_connect`.
unfoldable pub finish_connect : ℤ → Cloud → Cloud × ℤ × List Action
finish_connect err c =
    let (c', actions) = set_cloud_state cloud_state_connected c in
    if is_error err
    then (c, err, mqtt_connect ∷ [])
    else (c', pos 0, mqtt_connect ∷ actions ++ sem_give ∷ [])

unfoldable pub pyrinas_cloud_connect : ℕ → ℤ → List Address → ℤ → Cloud → Cloud × ℤ × List Action
pyrinas_cloud_connect size addr_err addresses mqtt_err c =
    let (c', err) = broker_init size addr_err addresses c in
    let connected = finish_connect mqtt_err c' in
    if is_connected c.cloud_state
    then (c, einprogress, [])
    else if is_error err
    then (c', err, [])
    else connected
