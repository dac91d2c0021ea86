-- ===== src/App/Start/Idle.antt =====
-- The wait of `main` in a build without assertions, whose `__ASSERT` around `pyrinas_cloud_connect` is
-- not compiled.
use pyrinas_zephyr.Common.{
  ◌≡◌, refl, ◌∙◌, ap, true, false, Option, none, some, List, [], ◌∷◌, arith,
}
use pyrinas_zephyr.Rtc.{Bus}
use pyrinas_zephyr.Cloud.Topics.{Slot}
use pyrinas_zephyr.Cloud.Client.{
  Cloud, Config, Action, OtaState, ota_callback, state_callback, cloud_state_disconnected,
  ota_state_ready,
}
use pyrinas_zephyr.Cloud.Client.Notify.{OnDone}
use pyrinas_zephyr.Cloud.Client.Ready.{IsSilent, step-IsSilent}
use pyrinas_zephyr.Cloud.Client.Untold.{
  says_state, IsUntold, IsOwnStep, IsOwnStep-IsElse, step-IsUntold,
}
use pyrinas_zephyr.App.Main.{
  App, Event, on_cloud, on_reconnect_work, hear, step, run, pyrinas_cloud_ota_evt_handler,
}
use pyrinas_zephyr.App.Main.Watch.{hear-cloud}
use pyrinas_zephyr.App.Start.{Build, Given, waiting, boot, registered, main}
use pyrinas_zephyr.App.Start.Boot.{main-waiting, cloud_start_idle}
use pyrinas_zephyr.App.Start.Proceed.{IsWaiting, hear-IsWaiting}

abbrev pub IsOwn : Event → Type 0
IsOwn (on_cloud e) = IsOwnStep e
IsOwn (on_reconnect_work size addr_err addresses mqtt_err) = Unit {0}

abbrev pub AllOwn : List Event → Type 0
AllOwn [] = Unit {0}
AllOwn (e ∷ es) = IsOwn e × AllOwn es

ota_handler-pending :
    (s : OtaState) (a : App)
    → (pyrinas_cloud_ota_evt_handler s a).reconnect_pending ≡ a.reconnect_pending
unfolding pyrinas_cloud_ota_evt_handler
ota_handler-pending ota_state_ready a = refl
ota_handler-pending _ a = refl

hear-pending :
    (a : App) (actions : List Action)
    → says_state actions ≡ false
    → (hear a actions).reconnect_pending ≡ a.reconnect_pending
unfolding hear says_state
hear-pending a [] h = refl
hear-pending a (state_callback s ∷ actions) h = absurd (ground arith)
hear-pending a (ota_callback s ∷ actions) h =
    hear-pending (pyrinas_cloud_ota_evt_handler s a) actions h ∙ ota_handler-pending s a
hear-pending a (_ ∷ actions) h = hear-pending a actions h

-- Not connected, nobody told to reconnect, and `main` waits.
abbrev pub IsIdle : App → Type 0
IsIdle a =
    IsWaiting a × (a.cloud.cloud_state ≡ cloud_state_disconnected) × (a.reconnect_pending ≡ false)

-- There is no fault, and the device is as above.
abbrev pub StaysIdle : Option App → Type 0
StaysIdle none = ⊥
StaysIdle (some a) = IsIdle a

heard-IsIdle :
    (a : App) (c : Cloud) (actions : List Action)
    → IsIdle a
    → IsSilent a.cloud (c, actions)
    → IsUntold a.cloud (c, actions)
    → IsIdle (hear (record a { cloud = c }) actions)
heard-IsIdle a c actions (w, down, off) silent untold = (
  hear-IsWaiting a c actions w.0 w.1 silent,
  ap (λ d. d.cloud_state) (hear-cloud (record a { cloud = c }) actions) ∙ untold.1 ∙ down,
  hear-pending (record a { cloud = c }) actions untold.0 ∙ off,
)

step-StaysIdle : (k : Config) (a : App) (e : Event) → IsOwn e → IsIdle a → StaysIdle (step k a e)
unfolding step
step-StaysIdle k a (on_cloud e) h idle =
    let ((c, actions), ran, untold) = step-IsUntold k a.cloud e h in
    let silent = step-IsSilent k a.cloud e (IsOwnStep-IsElse k e h) in
    rw (ran, StaysIdle) (heard-IsIdle a c actions idle (rw (ran, OnDone) at silent) untold)
step-StaysIdle k a (on_reconnect_work size addr_err addresses mqtt_err) h idle =
    rw (idle.2, StaysIdle) (idle.0, idle.1, refl)

run-idle-cons :
    (k : Config) (o : Option App) (a : App) (e : Event) (es : List Event)
    → step k a e ≡ o
    → StaysIdle o
    → ((a' : App) → IsIdle a' → StaysIdle (run k a' es))
    → StaysIdle (run k a (e ∷ es))
unfolding run
run-idle-cons k none a e es ran one rest = absurd one
run-idle-cons k (some a') a e es ran one rest = rw (ran, StaysIdle) (rest a' one)

run-StaysIdle :
    (k : Config) (a : App) (es : List Event) → AllOwn es → IsIdle a → StaysIdle (run k a es)
run-StaysIdle k a [] h idle = unfold run in idle
run-StaysIdle k a (e ∷ es) h idle =
    run-idle-cons k _ a e es refl (step-StaysIdle k a e h.0 idle)
      (λ a' idle'. run-StaysIdle k a' es h.1 idle')

registered-IsIdle : (callbacks : List Slot) → IsIdle (registered (boot callbacks))
unfolding registered boot
registered-IsIdle callbacks = ((refl, refl), refl, refl)

-- If `main` of a cloud build without assertions comes to wait for the cloud, then whatever the
-- device itself does after that, its work functions, its downloads and the turns of the reconnect
-- work, with any results, nothing faults, the client stays disconnected, the reconnect work is
-- not submitted, and `main` does not go on to `setup`; only `pyrinas_cloud_connect` called from
-- outside the reconnect work, or an event of the MQTT library, which is not connected, is left out.
pub main-idle :
    {C : Type 0} (B : Bus C) (k : Config) (b : Build) (g : Given) (callbacks : List Slot) (c c' : C)
    (a : App) (es : List Event)
    → b.cloud_enabled ≡ true
    → b.assert_enabled ≡ false
    → (main B b g (boot callbacks) c).0 ≡ waiting a c'
    → AllOwn es
    → StaysIdle (run k a es)
main-idle B k b g callbacks c c' a es cloud checks h own =
    let e =
      cloud_start_idle b g callbacks a checks
        (main-waiting B b g (boot callbacks) c a c' cloud h) in
    run-StaysIdle k a es own (rw e (registered-IsIdle callbacks))
