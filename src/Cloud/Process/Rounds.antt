-- ===== src/Cloud/Process/Rounds.antt =====
-- How a round of `pyrinas_cloud_process` ends.
use pyrinas_zephyr.Common.{
  ℕ, suc, ◌+◌, ◌≡◌, ◌⊎◌, inl, inr, refl, sym, ap, ◌∙◌, Bool, true, false, not, ◌&&◌, ◌||◌, Option,
  none, some, List, [], ◌∷◌, ◌++◌, if◌then◌else◌, ℤ, ◌==ℤ◌, is_error, is_negative, eagain, arith,
  Option-cases, Bool-cases,
}
use pyrinas_zephyr.Cloud.Client.{
  Cloud, CloudState, cloud_state_connected, cloud_state_disconnected, Config, Action, MqttEvt,
  disconnect,
}
use pyrinas_zephyr.Cloud.Client.Connect.{mqtt_evt_handler_disconnect}
use pyrinas_zephyr.Cloud.Process.{
  Round, Step, Next, wdt_feed, wdt_setup, mqtt_abort, client, client_steps, go_on, poll_failed,
  live_failed, aborted, Served, handle, abort, after_input, input, after_live, live_round, serve,
}

-- What the MQTT library promises: `mqtt_abort` hands over the event of a disconnection, and
-- `mqtt_live` hands over that event or none.
abbrev pub IsLawful : Round → Type 0
IsLawful r =
    ((result : ℤ) × (r.abort_events ≡ disconnect result ∷ []))
    × ((r.live_events ≡ []) ⊎ ((result : ℤ) × (r.live_events ≡ disconnect result ∷ [])))

abbrev pub AllLawful : List Round → Type 0
AllLawful [] = Unit {0}
AllLawful (r ∷ rs) = IsLawful r × AllLawful rs

-- How often the watchdog is fed.
abbrev pub feeds : List Step → ℕ
feeds [] = 0
feeds (wdt_feed ∷ steps) = suc (feeds steps)
feeds (_ ∷ steps) = feeds steps

-- The state after those events of `mqtt_live`, for a client that was connected.
abbrev pub after_ping : List MqttEvt → CloudState
after_ping [] = cloud_state_connected
after_ping (e ∷ es) = cloud_state_disconnected

-- The state of the connection that each ending leaves, with the round that ends.
abbrev pub Leaves : Round → Next → CloudState → Type 0
Leaves r go_on s = Unit {0}
Leaves r aborted s = s ≡ cloud_state_disconnected
Leaves r poll_failed s = (is_negative r.poll_result ≡ true) × (s ≡ cloud_state_connected)
Leaves r live_failed s = (is_error r.live_result ≡ true) × (s ≡ after_ping r.live_events)

abbrev pub OnServed : (Served → Type 0) → Option Served → Type 0
OnServed P none = Unit {0}
OnServed P (some s) = P s

abbrev pub IsRoundEnd : Round → ℕ → Served → Type 0
IsRoundEnd r n s = Leaves r s.next s.cloud.cloud_state × (feeds s.steps ≡ n)

pub feeds-append : (xs ys : List Step) → feeds (xs ++ ys) ≡ feeds xs + feeds ys
feeds-append [] ys = omega arith
feeds-append (wdt_feed ∷ xs) ys = omega (arith, feeds-append xs ys)
feeds-append (wdt_setup ∷ xs) ys = feeds-append xs ys
feeds-append (mqtt_abort ∷ xs) ys = feeds-append xs ys
feeds-append (client a ∷ xs) ys = feeds-append xs ys

feeds-client_steps : (actions : List Action) → feeds (client_steps actions) ≡ 0
unfolding client_steps
feeds-client_steps [] = refl
feeds-client_steps (a ∷ actions) = feeds-client_steps actions

feeds_behind :
    (steps : List Step) (actions : List Action)
    → feeds (steps ++ client_steps actions) ≡ feeds steps
feeds_behind steps actions =
    omega (arith, feeds-append steps (client_steps actions), feeds-client_steps actions)

either_served :
    (P : Served → Type 0) (b : Bool) (x y : Option Served)
    → OnServed P x
    → OnServed P y
    → OnServed P (if b then x else y)
either_served P true x y h h' = h
either_served P false x y h h' = h'

counted :
    (r : Round) (m n : ℕ) (o : Option Served)
    → m ≡ n
    → OnServed (IsRoundEnd r m) o
    → OnServed (IsRoundEnd r n) o
counted r m n none e h = tt
counted r m n (some s) e (left, fed) = (left, fed ∙ e)

module _ (k : Config) where
  handle_none : (c : Cloud) → handle k c [] ≡ some (c, [])
  unfolding handle
  handle_none c = refl

  handle_disconnect :
      (result : ℤ) (c : Cloud)
      → (actions : List Action) × (handle k c (disconnect result ∷ [])
          ≡ some (record c { cloud_state = cloud_state_disconnected }, actions))
  unfolding handle
  handle_disconnect result c =
      let (actions, e) = mqtt_evt_handler_disconnect k 0 result c in
      (actions ++ [], rw (e, handle) refl)

  -- After those events of `mqtt_live` a connected client is as `after_ping` says.
  handle_live :
      (r : Round) (c : Cloud)
      → IsLawful r
      → c.cloud_state ≡ cloud_state_connected
      → (c' : Cloud) × (actions : List Action) × (handle k c r.live_events ≡ some (c', actions))
        × (c'.cloud_state ≡ after_ping r.live_events)
  handle_live r c (_, inl e) up =
      (c, [], ap (handle k c) e ∙ handle_none c, up ∙ sym (ap after_ping e))
  handle_live r c (_, inr (result, e)) up =
      let (actions, ran) = handle_disconnect result c in
      (
        record c { cloud_state = cloud_state_disconnected },
        actions,
        ap (handle k c) e ∙ ran,
        sym (ap after_ping e),
      )

  abort-IsRoundEnd :
      (r : Round) (c : Cloud) (steps : List Step)
      → IsLawful r
      → OnServed (IsRoundEnd r (feeds steps)) (abort k r c steps)
  unfolding abort
  abort-IsRoundEnd r c steps ((result, e), _) =
      let (actions, ran) = handle_disconnect result c in
      let stopped = ap (handle k c) e ∙ ran in
      rw (stopped, OnServed)
        (
          refl,
          omega (
            arith,
            feeds-append steps (mqtt_abort ∷ client_steps actions),
            feeds-client_steps actions,
          ),
        )

  after_input-IsRoundEnd :
      (r : Round) (c : Cloud) (steps : List Step)
      → IsLawful r
      → OnServed (IsRoundEnd r (feeds steps)) (after_input k r c steps)
  unfolding after_input
  after_input-IsRoundEnd r c steps h =
      either_served (IsRoundEnd r (feeds steps)) (r.pollerr || r.pollnval) _ _
        (abort-IsRoundEnd r c steps h) (tt, refl)

  input-IsRoundEnd :
      (r : Round) (c : Cloud) (steps : List Step)
      → IsLawful r
      → OnServed (IsRoundEnd r (feeds steps)) (input k r c steps)
  unfolding input
  input-IsRoundEnd r c steps h = elim (Option-cases (handle k c r.input_events)) [
    | inl bad ↦ rw (bad, OnServed) tt
    | inr ((c', actions), ran) ↦
        let stopped = abort-IsRoundEnd r c' (steps ++ client_steps actions) h in
        let more = after_input-IsRoundEnd r c' (steps ++ client_steps actions) h in
        rw (ran, OnServed)
          (counted r _ (feeds steps) _ (feeds_behind steps actions) (
            either_served (IsRoundEnd r (feeds (steps ++ client_steps actions)))
              (is_error r.input_result) _ _ stopped more))
  ]

  failed_live :
      (result : ℤ) → (is_error result && not (result ==ℤ eagain)) ≡ true → is_error result ≡ true
  failed_live result h = ground arith

  after_live-IsRoundEnd :
      (r : Round) (c : Cloud) (steps : List Step)
      → IsLawful r
      → c.cloud_state ≡ after_ping r.live_events
      → OnServed (IsRoundEnd r (feeds steps)) (after_live k r c steps)
  unfolding after_live
  after_live-IsRoundEnd r c steps h up =
      elim (Bool-cases (is_error r.live_result && not (r.live_result ==ℤ eagain))) [
        | inl bad ↦ rw bad ((failed_live r.live_result bad, up), refl)
        | inr good ↦ rw good (
            either_served (IsRoundEnd r (feeds steps)) r.pollin _ _ (input-IsRoundEnd r c steps h)
              (after_input-IsRoundEnd r c steps h))
      ]

  pub serve-IsRoundEnd :
      (r : Round) (c : Cloud)
      → IsLawful r
      → c.cloud_state ≡ cloud_state_connected
      → OnServed (IsRoundEnd r 1) (serve k r c)
  unfolding serve live_round
  serve-IsRoundEnd r c h up = elim (Bool-cases (is_negative r.poll_result)) [
    | inl bad ↦ rw bad ((bad, up), refl)
    | inr good ↦
        let (c', actions, ran, state) = handle_live r c h up in
        rw (good, ran, OnServed)
          (counted r _ 1 _ (feeds_behind (wdt_feed ∷ []) actions)
            (after_live-IsRoundEnd r c' (wdt_feed ∷ client_steps actions) h state))
  ]
