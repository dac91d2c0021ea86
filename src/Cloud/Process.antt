-- ===== src/Cloud/Process.antt =====
-- `pyrinas_cloud_process` of subsys/pyrinas_cloud/pyrinas_cloud.c: the thread that serves the
-- connection and feeds the watchdog. What poll and the MQTT library do in one round is an argument:
-- their results, and the events that they hand to `mqtt_evt_handler` meanwhile.
pub mod Ending
pub mod Rounds
mod Tests
use pyrinas_zephyr.Common.{
  ℕ, zero, suc, Bool, true, false, not, ◌&&◌, ◌||◌, Option, none, some, List, [], ◌∷◌, ◌++◌,
  if◌then◌else◌, ℤ, ◌==ℤ◌, is_error, is_negative, eagain,
}
use pyrinas_zephyr.Cloud.Client.{Cloud, Config, Action, MqttEvt, is_connected, mqtt_evt_handler}

-- One round: the results of `poll`, `mqtt_live` and `mqtt_input`, the flags in `revents`, and the
-- events during `mqtt_live`, whose ping may find the connection lost, during `mqtt_input` and during
-- `mqtt_abort`.
pub record Round : Type 0 where
  pub poll_result : ℤ
  pub live_result : ℤ
  pub input_result : ℤ
  pub pollin : Bool
  pub pollerr : Bool
  pub pollnval : Bool
  pub live_events : List MqttEvt
  pub input_events : List MqttEvt
  pub abort_events : List MqttEvt

-- What the thread does besides: it feeds the watchdog, or sets it up.
pub data Step : Type 0 where
  wdt_feed wdt_setup mqtt_abort : Step
  client : Action → Step

pub client_steps : List Action → List Step
client_steps [] = []
client_steps (a ∷ actions) = client a ∷ client_steps actions

-- How a round ends: the loop goes on, or breaks.
pub data Next : Type 0 where
  go_on : Next
  poll_failed live_failed aborted : Next

pub record Served : Type 0 where
  pub cloud : Cloud
  pub next : Next
  pub steps : List Step

pub then_steps : List Step → Option Served → Option Served
then_steps steps none = none
then_steps steps (some s) = some (record s { steps = steps ++ s.steps })

-- After a round: the rest of the loop, or the break.
pub carry_on : Next → Served → Option Served → Option Served
unfolding then_steps
carry_on go_on s rest = then_steps s.steps rest
carry_on _ s rest = some s

module _ (k : Config) where
  -- `none` is a fault of the handler.
  pub handle : Cloud → List MqttEvt → Option (Cloud × List Action)
  handle c [] = some (c, [])
  handle c (e ∷ es) = elim (mqtt_evt_handler k 0 e c) [
    | none ↦ none
    | some (c', actions) ↦ elim (handle c' es) [
      | none ↦ none
      | some (c'', more) ↦ some (c'', actions ++ more)
    ]
  ]

  -- `mqtt_abort` and the break behind it.
  pub abort : Round → Cloud → List Step → Option Served
  unfolding handle client_steps
  abort r c steps = elim (handle c r.abort_events) [
    | none ↦ none
    | some (c', actions) ↦
        some (record {
          cloud = c';
          next = aborted;
          steps = steps ++ mqtt_abort ∷ client_steps actions;
        })
  ]

  -- The tests of POLLERR and POLLNVAL.
  pub after_input : Round → Cloud → List Step → Option Served
  unfolding abort
  after_input r c steps =
      let stopped = abort r c steps in
      if r.pollerr || r.pollnval
      then stopped
      else some (record { cloud = c; next = go_on; steps = steps })

  pub input : Round → Cloud → List Step → Option Served
  unfolding after_input
  input r c steps = elim (handle c r.input_events) [
    | none ↦ none
    | some (c', actions) ↦
        let stopped = abort r c' (steps ++ client_steps actions) in
        let more = after_input r c' (steps ++ client_steps actions) in
        if is_error r.input_result then stopped else more
  ]

  -- The round behind `mqtt_live`.
  pub after_live : Round → Cloud → List Step → Option Served
  unfolding input
  after_live r c steps =
      if is_error r.live_result && not (r.live_result ==ℤ eagain)
      then some (record { cloud = c; next = live_failed; steps = steps })
      else if r.pollin
      then input r c steps
      else after_input r c steps

  pub live_round : Round → Cloud → Option Served
  unfolding after_live
  live_round r c = elim (handle c r.live_events) [
    | none ↦ none
    | some (c', actions) ↦ after_live r c' (wdt_feed ∷ client_steps actions)
  ]

  -- One round of the inner loop.
  pub serve : Round → Cloud → Option Served
  unfolding live_round
  serve r c =
      if is_negative r.poll_result
      then some (record { cloud = c; next = poll_failed; steps = wdt_feed ∷ [] })
      else live_round r c

  -- The inner loop, over the rounds that are given; `next` is `go_on` where it ended because the
  -- client is not connected any more, or because the rounds are used up.
  pub serve_loop : Cloud → List Round → Option Served
  unfolding serve carry_on
  serve_loop c [] = some (record { cloud = c; next = go_on; steps = [] })
  serve_loop c (r ∷ rs) = elim (is_connected c.cloud_state) [
    | false ↦ some (record { cloud = c; next = go_on; steps = [] })
    | true ↦ elim (serve r c) [ none ↦ none | some s ↦ carry_on s.next s (serve_loop s.cloud rs) ]
  ]

-- One turn of the outer loop: the result of `k_sem_take`, and whether the watchdog was started.
pub turn : Config → ℤ → List Round → Bool → Cloud → Option (Bool × Served)
unfolding serve_loop then_steps
turn k sem_err rounds wdt_started c =
    if is_error sem_err
    then some (
      wdt_started,
      record { cloud = c; next = go_on; steps = if wdt_started then wdt_feed ∷ [] else [] },
    )
    else elim (then_steps (if wdt_started then [] else wdt_setup ∷ []) (serve_loop k c rounds)) [
      | none ↦ none
      | some s ↦ some (true, s)
    ]
