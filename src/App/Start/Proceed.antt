-- ===== src/App/Start/Proceed.antt =====
-- When `main` goes on to `setup`.
use pyrinas_zephyr.Common.{
  ℕ, ◌≡◌, inl, inr, refl, ◌∙◌, ap, Bool, true, false, ◌||◌, Option, none, some, List, [], ◌∷◌, ℤ,
  arith, Option-cases, if◌then◌else◌,
}
use pyrinas_zephyr.Rtc.{Bus}
use pyrinas_zephyr.Cloud.Topics.{Slot}
use pyrinas_zephyr.Cloud.Client.{
  Cloud, Config, Action, Address, OtaState, ota_state_ready, is_ready, state_callback, ota_callback,
  pyrinas_cloud_connect, cloud_state_disconnected, cloud_state_connected,
}
use pyrinas_zephyr.Cloud.Client.Steps as Steps
use pyrinas_zephyr.Cloud.Client.Notify.{OnDone}
use pyrinas_zephyr.Cloud.Client.Ready.{
  says_ready, IsSilent, IsElse, IsReply, SaysReady, step-IsSilent, reply-SaysReady,
  connect-IsSilent,
}
use pyrinas_zephyr.App.Main.{
  App, Event, on_cloud, on_reconnect_work, hear, step, run, cloud_state_callback,
  pyrinas_cloud_ota_evt_handler, resubmit, reconnect_work_fn,
}
use pyrinas_zephyr.App.Main.Watch.{hear-cloud}
use pyrinas_zephyr.App.Start.{Build, Given, waiting, boot, main}
use pyrinas_zephyr.App.Start.Boot.{up, main-up}

ota_handler-proceed :
    (s : OtaState) (a : App)
    → (pyrinas_cloud_ota_evt_handler s a).proceed ≡ (is_ready s || a.proceed)
unfolding pyrinas_cloud_ota_evt_handler
ota_handler-proceed ota_state_ready a = refl
ota_handler-proceed _ a = refl

-- The semaphore is given if and only if the client says that it is ready.
hear-proceed :
    (a : App) (actions : List Action) → (hear a actions).proceed ≡ (says_ready actions || a.proceed)
unfolding hear says_ready cloud_state_callback
hear-proceed a [] = refl
hear-proceed a (state_callback cloud_state_disconnected ∷ actions) =
    hear-proceed (record a { reconnect_pending = true }) actions
hear-proceed a (state_callback cloud_state_connected ∷ actions) = hear-proceed a actions
hear-proceed a (ota_callback s ∷ actions) =
    hear-proceed (pyrinas_cloud_ota_evt_handler s a) actions
    ∙ ground (arith, ota_handler-proceed s a)
hear-proceed a (_ ∷ actions) = hear-proceed a actions

-- The application waits, and hears of the updates.
abbrev pub IsWaiting : App → Type 0
IsWaiting a = (a.proceed ≡ false) × (a.cloud.has_ota_callback ≡ true)

abbrev pub StillWaits : Option App → Type 0
StillWaits none = Unit {0}
StillWaits (some a) = IsWaiting a

abbrev pub IsOther : Config → Event → Type 0
IsOther k (on_cloud e) = IsElse k e
IsOther k (on_reconnect_work size addr_err addresses mqtt_err) = Unit {0}

abbrev pub AllOther : Config → List Event → Type 0
AllOther k [] = Unit {0}
AllOther k (e ∷ es) = IsOther k e × AllOther k es

pub hear-IsWaiting :
    (a : App) (c : Cloud) (actions : List Action)
    → a.proceed ≡ false
    → a.cloud.has_ota_callback ≡ true
    → IsSilent a.cloud (c, actions)
    → IsWaiting (hear (record a { cloud = c }) actions)
hear-IsWaiting a c actions waits told silent = (
  hear-proceed (record a { cloud = c }) actions ∙ ground arith,
  ap (λ d. d.has_ota_callback) (hear-cloud (record a { cloud = c }) actions) ∙ silent.1 ∙ told,
)

resubmit-IsWaiting : (err : ℤ) (a : App) → IsWaiting a → IsWaiting (resubmit err a)
unfolding resubmit
resubmit-IsWaiting err a w = ground arith

work-IsWaiting :
    (size : ℕ) (addr_err : ℤ) (addresses : List Address) (mqtt_err : ℤ) (a : App)
    → IsWaiting a
    → IsWaiting (reconnect_work_fn size addr_err addresses mqtt_err a)
unfolding reconnect_work_fn
work-IsWaiting size addr_err addresses mqtt_err a w =
    let (c, err, actions) = pyrinas_cloud_connect size addr_err addresses mqtt_err a.cloud in
    resubmit-IsWaiting err (hear (record a { cloud = c; reconnect_pending = false }) actions) (
      hear-IsWaiting (record a { reconnect_pending = false }) c actions w.0 w.1
        (connect-IsSilent size addr_err addresses mqtt_err a.cloud))

either-IsWaiting :
    (b : Bool) (x y : App) → IsWaiting x → IsWaiting y → IsWaiting (if b then x else y)
either-IsWaiting true x y h h' = h
either-IsWaiting false x y h h' = h'

step-StillWaits :
    (k : Config) (a : App) (e : Event) → IsOther k e → IsWaiting a → StillWaits (step k a e)
unfolding step
step-StillWaits k a (on_cloud e) h w =
    let silent = step-IsSilent k a.cloud e h in
    elim (Option-cases (Steps.step k a.cloud e)) [
      | inl bad ↦ rw (bad, StillWaits) tt
      | inr ((c, actions), ran) ↦
          rw (ran, StillWaits) (hear-IsWaiting a c actions w.0 w.1 (rw (ran, OnDone) at silent))
    ]
step-StillWaits k a (on_reconnect_work size addr_err addresses mqtt_err) h w =
    either-IsWaiting a.reconnect_pending _ a (work-IsWaiting size addr_err addresses mqtt_err a w) w

up-IsWaiting : (g : Given) (callbacks : List Slot) → IsWaiting (up g callbacks)
unfolding up boot
up-IsWaiting g callbacks = (refl, refl)

run-waits-cons :
    (k : Config) (a : App) (e : Event) (es : List Event)
    → StillWaits (step k a e)
    → ((a' : App) → IsWaiting a' → StillWaits (run k a' es))
    → StillWaits (run k a (e ∷ es))
unfolding run
run-waits-cons k a e es one rest = elim (Option-cases (step k a e)) [
  | inl bad ↦ rw (bad, StillWaits) tt
  | inr (a', ran) ↦ rw (ran, StillWaits) (rest a' (rw (ran, StillWaits) at one))
]

run-StillWaits :
    (k : Config) (a : App) (es : List Event) → AllOther k es → IsWaiting a → StillWaits (run k a es)
run-StillWaits k a [] h w = unfold run in w
run-StillWaits k a (e ∷ es) h w =
    run-waits-cons k a e es (step-StillWaits k a e h.0 w) (λ a' w'. run-StillWaits k a' es h.1 w')

-- `main` goes on.
abbrev pub GoesOn : Option App → Type 0
GoesOn none = ⊥
GoesOn (some a) = a.proceed ≡ true

step-GoesOn :
    (k : Config) (a : App) (e : Steps.Event)
    → SaysReady (Steps.step k a.cloud e)
    → GoesOn (step k a (on_cloud e))
unfolding step
step-GoesOn k a e h = elim (Option-cases (Steps.step k a.cloud e)) [
  | inl bad ↦ absurd (rw (bad, SaysReady) at h)
  | inr ((c, actions), ran) ↦
      let said = rw (ran, SaysReady) at h in
      rw (ran, GoesOn) (hear-proceed (record a { cloud = c }) actions ∙ ground (arith, said))
]

-- `main` of a cloud build with assertions that comes to wait goes on waiting whatever happens, as
-- long as no message about an update arrives and nothing faults; then a reply that can be read and
-- brings nothing to install lets it go on to `setup`, if the client is in its ready state.
pub main-proceeds :
    {C : Type 0} (B : Bus C) (k : Config) (b : Build) (g : Given) (callbacks : List Slot) (c c' : C)
    (a a' : App) (es : List Event) (e : Steps.Event)
    → b.cloud_enabled ≡ true
    → b.assert_enabled ≡ true
    → (main B b g (boot callbacks) c).0 ≡ waiting a c'
    → AllOther k es
    → run k a es ≡ some a'
    → IsReply k e
    → a'.cloud.ota_state ≡ ota_state_ready
    → (a'.proceed ≡ false) × GoesOn (step k a' (on_cloud e))
main-proceeds B k b g callbacks c c' a a' es e cloud checks h others ran reply ready =
    let began = main-up B b g callbacks c c' a cloud checks h in
    let still = run-StillWaits k a es others (rw began (up-IsWaiting g callbacks)) in
    let waits = rw (ran, StillWaits) at still in
    (waits.0, step-GoesOn k a' e (reply-SaysReady k a'.cloud e reply ready waits.1))
