-- ===== src/App/Start.antt =====
-- The start of lib/app/main.c: `main` up to its wait for the cloud, with `flash_init` and `rtc_init`.
-- The options of the build and what the calls return are arguments; the clock chip is behind the bus
-- of Rtc.antt.
pub mod Boot
pub mod Idle
pub mod Proceed
mod Tests
use pyrinas_zephyr.Common.{
  ℕ, Bool, true, false, not, ◌&&◌, Option, none, some, List, [], ◌∷◌, ◌++◌, map, if◌then◌else◌, ℤ,
  is_error, is_negative, replicate,
}
use pyrinas_zephyr.Rtc.{Bus, pcf85063a_set_alarm}
use pyrinas_zephyr.Cloud.Version.{OtaVersion}
use pyrinas_zephyr.Cloud.Topics.{Slot}
use pyrinas_zephyr.Cloud.Client.{
  Cloud, Action, Address, pyrinas_cloud_connect, cloud_state_disconnected, ota_state_ready,
}
use pyrinas_zephyr.App.Main.{App, hear}

-- CONFIG_PYRINAS_CLOUD_ENABLED, CONFIG_FILE_SYSTEM_LITTLEFS, CONFIG_APP_WIPE_STORAGE,
-- CONFIG_IMG_MANAGER, CONFIG_MCUMGR_CMD_IMG_MGMT, CONFIG_PCF85063A and CONFIG_ASSERT
pub record Build : Type 0 where
  pub cloud_enabled : Bool
  pub littlefs : Bool
  pub wipe_storage : Bool
  pub img_manager : Bool
  pub img_mgmt : Bool
  pub has_rtc : Bool
  pub assert_enabled : Bool

-- The results of `bsdlib_init` that the code tells apart; `not_initialized` is -1.
pub data BsdlibResult : Type 0 where
  modem_dfu_result_ok modem_dfu_result_uuid_error modem_dfu_result_auth_error : BsdlibResult
  modem_dfu_result_hardware_error modem_dfu_result_internal_error : BsdlibResult
  not_initialized other : BsdlibResult

pub data Call : Type 0 where
  k_work_q_start worker_init bsdlib_init k_thread_suspend : Call
  boot_write_img_confirmed img_mgmt_register_group : Call
  flash_area_open flash_area_erase flash_area_close fs_mount fs_statvfs : Call
  cellular_configure cellular_info_init k_delayed_work_init : Call
  pyrinas_cloud_init register_state_evt k_sem_give : Call
  client : Action → Call

-- What the calls return: `bsdlib_init`, `flash_area_open`, `fs_mount`, whether there is a clock,
-- whether the assertions of `pyrinas_cloud_init` hold, and the arguments of `pyrinas_cloud_connect`.
pub record Given : Type 0 where
  pub modem : BsdlibResult
  pub open_rc : ℤ
  pub mount_rc : ℤ
  pub rtc_found : Bool
  pub init_passes : Bool
  pub size : ℕ
  pub addr_err : ℤ
  pub addresses : List Address
  pub mqtt_err : ℤ

abbrev pub calls_if : Bool → List Call → List Call
calls_if b calls = if b then calls else []

pub flash_init : Bool → ℤ → ℤ → List Call
flash_init wipe open_rc mount_rc =
    flash_area_open
    ∷ calls_if (not (is_negative open_rc)) (
        calls_if wipe (flash_area_erase ∷ [])
        ++ flash_area_close ∷ fs_mount ∷ calls_if (not (is_negative mount_rc)) (fs_statvfs ∷ []))

pub data Switch : Type 0 where
  suspend leave go_on : Switch

-- The `switch` on the result of `bsdlib_init`.
pub modem_switch : BsdlibResult → Switch
modem_switch modem_dfu_result_ok = suspend
modem_switch not_initialized = leave
modem_switch _ = go_on

-- Between the modem and the clock.
pub board_calls : Build → Given → List Call
unfolding flash_init
board_calls b g =
    calls_if b.img_manager (boot_write_img_confirmed ∷ [])
    ++ calls_if b.littlefs (flash_init b.wipe_storage g.open_rc g.mount_rc)
    ++ calls_if b.img_mgmt (img_mgmt_register_group ∷ [])

abbrev pub no_version : OtaVersion
no_version = record { major = 0; minor = 0; patch = 0; commit = 0; hash = replicate 8 0 }

-- The static variables at the start, over the array of the application's subscriptions.
pub boot : List Slot → App
boot callbacks = record {
  cloud = record {
    cloud_state = cloud_state_disconnected;
    ota_state = ota_state_ready;
    initial_ota_check = false;
    ota_sub_message_id = 0;
    ota_version = no_version;
    broker = none;
    callbacks = callbacks;
    has_ota_callback = false;
    has_state_callback = false;
  };
  reconnect_pending = false;
  proceed = false;
}

-- `__ASSERT(pyrinas_cloud_connect() == 0, ...)`: without assertions the expression is not there.
-- `none` is a failed assertion.
pub connect_asserted : Bool → Given → App → Option App × List Call
connect_asserted assert_enabled g a =
    let (c, err, actions) =
      pyrinas_cloud_connect g.size g.addr_err g.addresses g.mqtt_err a.cloud in
    if not assert_enabled
    then (some a, [])
    else if is_error err
    then (none, map client actions)
    else (some (hear (record a { cloud = c }) actions), map client actions)

-- `pyrinas_cloud_init` sets the callback of the updates, and `pyrinas_cloud_register_state_evt` that
-- of the connection.
pub registered : App → App
registered a = record a {
  cloud = record a.cloud { has_ota_callback = true; has_state_callback = true };
}

-- From `cellular_configure` to `pyrinas_cloud_connect`.
pub cloud_start : Build → Given → App → Option App × List Call
unfolding connect_asserted registered
cloud_start b g a =
    let set_up : List Call =
      cellular_configure ∷ cellular_info_init ∷ k_delayed_work_init ∷ pyrinas_cloud_init ∷ [] in
    let (a', connecting) = connect_asserted b.assert_enabled g (registered a) in
    if b.assert_enabled && not g.init_passes
    then (none, set_up)
    else (a', set_up ++ register_state_evt ∷ connecting)

-- How `main` gets on: it is suspended, it has returned, an assertion has failed, or it waits in
-- `k_sem_take`, behind which it calls `setup`.
pub data Outcome (C : Type 0) : Type 0 where
  suspended returned stopped : Outcome C
  waiting : App → C → Outcome C

abbrev pub outcome_of : {C : Type 0} → Option App → C → Outcome C
outcome_of none c = stopped
outcome_of (some a) c = waiting a c

-- The `switch`, behind the start of the queue and `bsdlib_init`, and the rest of `main`.
pub behind_modem : {C : Type 0} → Switch → Outcome C × List Call → Outcome C × List Call
behind_modem suspend rest =
    (suspended, k_work_q_start ∷ worker_init ∷ bsdlib_init ∷ k_thread_suspend ∷ [])
behind_modem leave rest = (returned, k_work_q_start ∷ worker_init ∷ bsdlib_init ∷ [])
behind_modem go_on (o, calls) = (o, k_work_q_start ∷ worker_init ∷ bsdlib_init ∷ calls)

module _ {C : Type 0} (B : Bus C) where
  -- The alarm, in 10 ticks of a second; an error is only printed.
  pub rtc_init : Bool → C → C
  rtc_init found c = if found then (pcf85063a_set_alarm B 10 c).0 else c

  -- The part of `main` behind the modem.
  pub main_rest : Build → Given → App → C → Outcome C × List Call
  unfolding board_calls cloud_start rtc_init
  main_rest b g a c =
      let c' = if b.has_rtc then rtc_init g.rtc_found c else c in
      let (a', calls) = cloud_start b g a in
      if b.cloud_enabled
      then (outcome_of a' c', board_calls b g ++ calls)
      else (waiting (record a { proceed = true }) c', board_calls b g ++ k_sem_give ∷ [])

  pub main : Build → Given → App → C → Outcome C × List Call
  unfolding behind_modem main_rest modem_switch
  main b g a c =
      if b.cloud_enabled
      then behind_modem (modem_switch g.modem) (main_rest b g a c)
      else main_rest b g a c
