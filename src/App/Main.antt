-- ===== src/App/Main.antt =====
-- The cloud side of lib/app/main.c: the callbacks that it registers with the cloud client, and the
-- work that reconnects.
pub mod Watch
mod Tests
use pyrinas_zephyr.Common.{
  ℕ, Bool, true, false, not, ◌&&◌, Option, none, some, List, [], ◌∷◌, ◌++◌, if◌then◌else◌, ℤ, pos,
  ◌==ℤ◌, is_error,
}
use pyrinas_zephyr.Cloud.Client.{
  Cloud, CloudState, OtaState, Config, Action, Address, cloud_state_disconnected,
  cloud_state_connected, ota_state_ready, state_callback, ota_callback, pyrinas_cloud_connect,
}
use pyrinas_zephyr.Cloud.Client.Steps as Steps

-- The client, whether `reconnect_work` is submitted, and `main_thread_proceed_sem`, which is at most
-- 1.
pub record App : Type 0 where
  pub cloud : Cloud
  pub reconnect_pending : Bool
  pub proceed : Bool

unfoldable pub pyrinas_cloud_ota_evt_handler : OtaState → App → App
pyrinas_cloud_ota_evt_handler ota_state_ready a = record a { proceed = true }
pyrinas_cloud_ota_evt_handler _ a = a

unfoldable pub cloud_state_callback : CloudState → App → App
cloud_state_callback cloud_state_disconnected a = record a { reconnect_pending = true }
cloud_state_callback cloud_state_connected a = a

-- The calls of the two callbacks among the client's actions.
unfoldable pub hear : App → List Action → App
hear a [] = a
hear a (state_callback s ∷ actions) = hear (cloud_state_callback s a) actions
hear a (ota_callback s ∷ actions) = hear (pyrinas_cloud_ota_evt_handler s a) actions
hear a (_ ∷ actions) = hear a actions

-- EINPROGRESS, without the sign with which `pyrinas_cloud_connect` returns it.
abbrev pub positive_einprogress : ℤ
positive_einprogress = pos 119

-- What `reconnect_work_fn` does with the result of `pyrinas_cloud_connect`.
unfoldable pub resubmit : ℤ → App → App
resubmit err a =
    if is_error err && not (err ==ℤ positive_einprogress)
    then record a { reconnect_pending = true }
    else a

-- The work runs, and is not submitted any more; the arguments are those of `pyrinas_cloud_connect`.
unfoldable pub reconnect_work_fn : ℕ → ℤ → List Address → ℤ → App → App
unfolding hear resubmit
reconnect_work_fn size addr_err addresses mqtt_err a =
    let (c, err, actions) = pyrinas_cloud_connect size addr_err addresses mqtt_err a.cloud in
    resubmit err (hear (record a { cloud = c; reconnect_pending = false }) actions)

pub data Event : Type 0 where
  on_cloud : Steps.Event → Event
  on_reconnect_work : ℕ → ℤ → List Address → ℤ → Event

module _ (k : Config) where
  -- The work runs only where it is submitted. `none` is a fault of the client.
  unfoldable pub step : App → Event → Option App
  step a (on_cloud e) = elim (Steps.step k a.cloud e) [
    | none ↦ none
    | some (c, actions) ↦ some (hear (record a { cloud = c }) actions)
  ]
  step a (on_reconnect_work size addr_err addresses mqtt_err) =
      some (if a.reconnect_pending then reconnect_work_fn size addr_err addresses mqtt_err a else a)

  unfoldable pub run : App → List Event → Option App
  run a [] = some a
  run a (e ∷ es) = elim (step a e) [ none ↦ none | some a' ↦ run a' es ]
