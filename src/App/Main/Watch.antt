-- ===== src/App/Main/Watch.antt =====
-- A device that has lost its connection tries again.
use pyrinas_zephyr.Common.{
  ℕ, ◌≡◌, ◌≢◌, ◌⊎◌, inl, inr, refl, sym, ap, ◌∙◌, Bool, true, false, Option, none, some, List, [],
  ◌∷◌, if◌then◌else◌, ℤ, is_error, arith, Option-cases, ==ℤ_iff,
}
use pyrinas_zephyr.Cloud.Client.{
  Cloud, CloudState, OtaState, Config, Action, Address, cloud_state_disconnected,
  cloud_state_connected, state_callback, ota_callback, ota_state_ready, pyrinas_cloud_connect,
}
use pyrinas_zephyr.Cloud.Client.Steps as Steps
use pyrinas_zephyr.Cloud.Client.Notify.{notified, OnDone, IsTold, step-IsTold}
use pyrinas_zephyr.Cloud.Client.Connect.{connect_result, connect_again}
use pyrinas_zephyr.App.Main.{
  App, Event, on_cloud, on_reconnect_work, pyrinas_cloud_ota_evt_handler, cloud_state_callback,
  hear, resubmit, positive_einprogress, reconnect_work_fn, step, run,
}

abbrev pub IsWatched : App → Type 0
IsWatched a =
    (a.cloud.has_state_callback ≡ true)
    × (a.cloud.cloud_state ≡ cloud_state_disconnected → a.reconnect_pending ≡ true)

ota_handler-same :
    (s : OtaState) (a : App)
    → ((pyrinas_cloud_ota_evt_handler s a).cloud ≡ a.cloud)
      × ((pyrinas_cloud_ota_evt_handler s a).reconnect_pending ≡ a.reconnect_pending)
unfolding pyrinas_cloud_ota_evt_handler
ota_handler-same ota_state_ready a = (refl, refl)
ota_handler-same _ a = (refl, refl)

-- The callbacks leave the client alone, and the work is submitted if the last state that they gave
-- is "disconnected".
hear-pending :
    (a : App) (s : CloudState) (actions : List Action)
    → (s ≡ cloud_state_disconnected → a.reconnect_pending ≡ true)
    → ((hear a actions).cloud ≡ a.cloud)
      × (notified s actions ≡ cloud_state_disconnected → (hear a actions).reconnect_pending ≡ true)
unfolding hear notified cloud_state_callback
hear-pending a s [] h = (refl, h)
hear-pending a s (state_callback cloud_state_disconnected ∷ actions) h =
    hear-pending (record a { reconnect_pending = true }) cloud_state_disconnected actions
      (λ e. refl)
hear-pending a s (state_callback cloud_state_connected ∷ actions) h =
    hear-pending a cloud_state_connected actions (λ e. absurd (ground arith))
hear-pending a s (ota_callback t ∷ actions) h =
    let (same, pending) = ota_handler-same t a in
    let (same', told) =
      hear-pending (pyrinas_cloud_ota_evt_handler t a) s actions (λ e. pending ∙ h e) in
    (same' ∙ same, told)
hear-pending a s (_ ∷ actions) h = hear-pending a s actions h

abbrev pub StillWatched : Option App → Type 0
StillWatched none = Unit {0}
StillWatched (some a) = IsWatched a

heard-IsWatched :
    (a : App) (c : Cloud) (actions : List Action)
    → IsWatched a
    → IsTold a.cloud (c, actions)
    → IsWatched (hear (record a { cloud = c }) actions)
heard-IsWatched a c actions w told =
    let (same, pending) = hear-pending (record a { cloud = c }) a.cloud.cloud_state actions w.1 in
    rw same (told.1 ∙ w.0, λ e. pending (sym told.0 ∙ e))

cloud-IsWatched :
    (k : Config) (a : App) (e : Steps.Event) → IsWatched a → StillWatched (step k a (on_cloud e))
unfolding step
cloud-IsWatched k a e w =
    let told = step-IsTold k a.cloud e w.0 in
    elim (Option-cases (Steps.step k a.cloud e)) [
      | inl bad ↦ rw (bad, StillWatched) tt
      | inr ((c, actions), ran) ↦
          rw (ran, StillWatched) (heard-IsWatched a c actions w (rw (ran, OnDone) at told))
    ]

pub hear-cloud : (a : App) (actions : List Action) → (hear a actions).cloud ≡ a.cloud
unfolding hear cloud_state_callback
hear-cloud a [] = refl
hear-cloud a (state_callback cloud_state_disconnected ∷ actions) =
    hear-cloud (record a { reconnect_pending = true }) actions
hear-cloud a (state_callback cloud_state_connected ∷ actions) = hear-cloud a actions
hear-cloud a (ota_callback t ∷ actions) =
    hear-cloud (pyrinas_cloud_ota_evt_handler t a) actions ∙ (ota_handler-same t a).0
hear-cloud a (_ ∷ actions) = hear-cloud a actions

pub resubmit-cloud : (err : ℤ) (a : App) → (resubmit err a).cloud ≡ a.cloud
unfolding resubmit
resubmit-cloud err a = ground arith

resubmit-pending :
    (err : ℤ) (a : App)
    → is_error err ≡ true
    → err ≢ positive_einprogress
    → (resubmit err a).reconnect_pending ≡ true
unfolding resubmit
resubmit-pending err a e h = ground (arith, ==ℤ_iff err positive_einprogress)

-- The reconnect work leaves the client connected, or submits itself again; this needs that neither
-- the resolver nor `mqtt_connect` returns EINPROGRESS without its sign.
pub reconnect_work_fn_lem :
    (size : ℕ) (addr_err : ℤ) (addresses : List Address) (mqtt_err : ℤ) (a : App)
    → addr_err ≢ positive_einprogress
    → mqtt_err ≢ positive_einprogress
    → let a' = reconnect_work_fn size addr_err addresses mqtt_err a in
      ((a'.cloud.cloud_state ≡ cloud_state_connected) ⊎ (a'.reconnect_pending ≡ true))
      × (a'.cloud.has_state_callback ≡ a.cloud.has_state_callback)
unfolding reconnect_work_fn
reconnect_work_fn_lem size addr_err addresses mqtt_err a h h' =
    let (c, err, actions) = pyrinas_cloud_connect size addr_err addresses mqtt_err a.cloud in
    let heard = hear (record a { cloud = c; reconnect_pending = false }) actions in
    let same : (resubmit err heard).cloud ≡ c = resubmit-cloud err heard ∙ hear-cloud _ actions in
    let (outcome, flag) = connect_result size addr_err addresses mqtt_err a.cloud in
    (
      elim outcome [
        | inl (_, up) ↦ inl (ap (λ d. d.cloud_state) same ∙ up)
        | inr (bad, which) ↦ inr (resubmit-pending err heard bad (λ e. ground arith))
      ],
      ap (λ d. d.has_state_callback) same ∙ flag,
    )

abbrev pub IsSigned : Event → Type 0
IsSigned (on_cloud e) = Unit {0}
IsSigned (on_reconnect_work size addr_err addresses mqtt_err) =
    (addr_err ≢ positive_einprogress) × (mqtt_err ≢ positive_einprogress)

work-IsWatched :
    (size : ℕ) (addr_err : ℤ) (addresses : List Address) (mqtt_err : ℤ) (a : App)
    → IsSigned (on_reconnect_work size addr_err addresses mqtt_err)
    → IsWatched a
    → IsWatched (reconnect_work_fn size addr_err addresses mqtt_err a)
work-IsWatched size addr_err addresses mqtt_err a h w =
    let (outcome, flag) = reconnect_work_fn_lem size addr_err addresses mqtt_err a h.0 h.1 in
    (flag ∙ w.0, elim outcome [ inl up ↦ λ e. absurd (ground arith) | inr pending ↦ λ e. pending ])

either-IsWatched :
    (b : Bool) (x y : App) → IsWatched x → IsWatched y → IsWatched (if b then x else y)
either-IsWatched true x y h h' = h
either-IsWatched false x y h h' = h'

-- A disconnected device has its reconnect work submitted: every event of the client, every work
-- function and every run of the reconnect work keeps that.
pub step-IsWatched :
    (k : Config) (a : App) (e : Event) → IsSigned e → IsWatched a → StillWatched (step k a e)
step-IsWatched k a (on_cloud e) h w = cloud-IsWatched k a e w
step-IsWatched k a (on_reconnect_work size addr_err addresses mqtt_err) h w =
    unfold step in
    either-IsWatched a.reconnect_pending _ a (work-IsWatched size addr_err addresses mqtt_err a h w)
      w

abbrev pub AllSigned : List Event → Type 0
AllSigned [] = Unit {0}
AllSigned (e ∷ es) = IsSigned e × AllSigned es

run-watched-cons :
    (k : Config) (a : App) (e : Event) (es : List Event)
    → StillWatched (step k a e)
    → ((a' : App) → IsWatched a' → StillWatched (run k a' es))
    → StillWatched (run k a (e ∷ es))
unfolding run
run-watched-cons k a e es one rest = elim (Option-cases (step k a e)) [
  | inl bad ↦ rw (bad, StillWatched) tt
  | inr (a', ran) ↦ rw (ran, StillWatched) (rest a' (rw (ran, StillWatched) at one))
]

-- After any interleaving of the steps of the client and of the reconnect work that does not fault,
-- a device that is disconnected has its reconnect work submitted, if it starts out connected or
-- with the work submitted, the callback is registered, and neither the resolver nor `mqtt_connect`
-- returns EINPROGRESS without its sign.
pub run-IsWatched :
    (k : Config) (a : App) (es : List Event)
    → AllSigned es
    → IsWatched a
    → StillWatched (run k a es)
run-IsWatched k a [] h w = unfold run in w
run-IsWatched k a (e ∷ es) h w =
    run-watched-cons k a e es (step-IsWatched k a e h.0 w) (λ a' w'. run-IsWatched k a' es h.1 w')

-- While the client is connected, a run of the reconnect work changes nothing and submits itself
-- again: -EINPROGRESS is compared with EINPROGRESS.
pub reconnect_work_fn_again :
    (size : ℕ) (addr_err : ℤ) (addresses : List Address) (mqtt_err : ℤ) (a : App)
    → a.cloud.cloud_state ≡ cloud_state_connected
    → reconnect_work_fn size addr_err addresses mqtt_err a ≡ record a { reconnect_pending = true }
unfolding reconnect_work_fn hear resubmit
reconnect_work_fn_again size addr_err addresses mqtt_err a up =
    rw (connect_again size addr_err addresses mqtt_err a.cloud up) refl
