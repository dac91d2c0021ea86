-- ===== src/Cloud/Client/Orderly.antt =====
-- The order that the cloud client keeps, and how a message that comes in keeps it.
use pyrinas_zephyr.Common.{
  ℕ, ◌≡◌, inl, inr, refl, Bool, true, false, Option, none, some, List, [], ◌∷◌, ◌++◌, map, ℤ, pos,
  arith, is_negative, if◌then◌else◌, Bool-cases, Option-cases, strncmp_eq, length, ◌==ℤ◌,
}
use pyrinas_zephyr.Cloud.Version.{OtaVersion, ver_comp}
use pyrinas_zephyr.Cloud.Topics.{Call, dispatch}
use pyrinas_zephyr.Cloud.Client.{
  OtaState, ota_state_started, ota_callback, Cloud, Config, Action, app_call, is_connected,
  is_ready, set_ota_state, decide, ota_message, publish_evt_handler, receive, with_ack,
}
use pyrinas_zephyr.Cloud.Client.Notify.{OnDone}
use pyrinas_zephyr.Cloud.Client.{submit, publish, subscribe, ota_request, ota_done}

-- When the client does what it does: it publishes while it is connected, subscribes and reports "done"
-- while no update has begun, and asks for an update while it has no answer.
abbrev pub IsAllowed : Cloud → Action → Type 0
IsAllowed c (submit ota_request) = c.initial_ota_check ≡ false
IsAllowed c (submit ota_done) = is_ready c.ota_state ≡ true
IsAllowed c (publish topic bytes) = is_connected c.cloud_state ≡ true
IsAllowed c (subscribe topic id) = is_ready c.ota_state ≡ true
IsAllowed c _ = Unit {0}

abbrev pub AllAllowed : Cloud → List Action → Type 0
AllAllowed c [] = Unit {0}
AllAllowed c (a ∷ actions) = IsAllowed c a × AllAllowed c actions

-- An update that has begun and an answer that has come stay so.
abbrev pub IsOnward : Cloud → Cloud → Type 0
IsOnward c c' =
    (is_ready c.ota_state ≡ false → is_ready c'.ota_state ≡ false)
    × (c.initial_ota_check ≡ true → c'.initial_ota_check ≡ true)

abbrev pub IsOrderly : Cloud → Cloud × List Action → Type 0
IsOrderly c (c', actions) = IsOnward c c' × AllAllowed c actions

pub AllAllowed-append :
    (c : Cloud) (xs ys : List Action) → AllAllowed c xs → AllAllowed c ys → AllAllowed c (xs ++ ys)
AllAllowed-append c [] ys h k = k
AllAllowed-append c (x ∷ xs) ys h k = (h.0, AllAllowed-append c xs ys h.1 k)

pub callback-AllAllowed :
    (c : Cloud) (b : Bool) (s : OtaState) → AllAllowed c (if b then ota_callback s ∷ [] else [])
callback-AllAllowed c true s = (tt, tt)
callback-AllAllowed c false s = tt

pub decide-IsOrderly :
    (k : Config) (update : Bool) (id : ℕ) (c : Cloud) → IsOrderly c (decide k update id c)
unfolding decide set_ota_state
decide-IsOrderly k true id c = (
  (λ h. refl, λ h. h),
  AllAllowed-append c _ _ (callback-AllAllowed c c.has_ota_callback ota_state_started) (tt, tt),
)
decide-IsOrderly k false id c = elim (Bool-cases (is_ready c.ota_state)) [
  | inl ready ↦ rw ready (
    (λ h. absurd (ground arith), λ h. h),
    (ready, (ready, callback-AllAllowed c c.has_ota_callback c.ota_state)),
  )
  | inr busy ↦ rw busy ((λ h. busy, λ h. h), tt)
]

-- The handler has set the answer before it decides, and the decision does not look at it.
pub answered-IsOrderly :
    (k : Config) (update : Bool) (id : ℕ) (v : OtaVersion) (c : Cloud)
    → IsOrderly c (decide k update id (record c { initial_ota_check = true; ota_version = v }))
unfolding decide set_ota_state
answered-IsOrderly k true id v c = (
  (λ h. refl, λ h. refl),
  AllAllowed-append c _ _ (callback-AllAllowed c c.has_ota_callback ota_state_started) (tt, tt),
)
answered-IsOrderly k false id v c = elim (Bool-cases (is_ready c.ota_state)) [
  | inl ready ↦ rw ready (
    (λ h. absurd (ground arith), λ h. refl),
    (ready, (ready, callback-AllAllowed c c.has_ota_callback c.ota_state)),
  )
  | inr busy ↦ rw busy ((λ h. busy, λ h. refl), tt)
]

pub ota_message-IsOrderly :
    (k : Config) (decoded : Option OtaVersion) (id : ℕ) (c : Cloud)
    → IsOrderly c (ota_message k decoded id c)
unfolding ota_message
ota_message-IsOrderly k none id c = answered-IsOrderly k false id c.ota_version c
ota_message-IsOrderly k (some v) id c =
    answered-IsOrderly k (ver_comp k.pyrinas_version v ==ℤ pos 1) id v c

pub app_call-AllAllowed : (c : Cloud) (calls : List Call) → AllAllowed c (map app_call calls)
app_call-AllAllowed c [] = tt
app_call-AllAllowed c (call ∷ calls) = (tt, app_call-AllAllowed c calls)

pub dispatched-IsOrderly :
    (k : Config) (topic : List ℕ) (n : ℕ) (bytes : List ℕ) (decoded : Option OtaVersion) (id : ℕ)
    (c : Cloud)
    → OnDone (IsOrderly c) (publish_evt_handler k topic n bytes decoded id c)
unfolding publish_evt_handler
dispatched-IsOrderly k topic n bytes decoded id c =
    elim (Bool-cases (strncmp_eq (length k.ota_sub_topic) k.ota_sub_topic topic)) [
      | inl hit ↦ rw hit (ota_message-IsOrderly k decoded id c)
      | inr miss ↦ elim (Option-cases (dispatch topic n bytes c.callbacks)) [
        | inl bad ↦ rw (miss, bad) tt
        | inr (calls, ran) ↦ rw (miss, ran) ((λ h. h, λ h. h), app_call-AllAllowed c calls)
      ]
    ]

pub received-IsOrderly :
    (k : Config) (read_err : ℤ) (topic : List ℕ) (n : ℕ) (bytes : List ℕ)
    (decoded : Option OtaVersion) (rand : ℕ) (c : Cloud)
    → OnDone (IsOrderly c) (receive k read_err topic n bytes decoded rand c)
unfolding receive
received-IsOrderly k read_err topic n bytes decoded rand c =
    elim (Bool-cases (is_negative read_err)) [
      | inl bad ↦ rw bad ((λ h. h, λ h. h), (tt, tt))
      | inr good ↦ rw good (dispatched-IsOrderly k topic n bytes decoded rand c)
    ]

pub acked-IsOrderly :
    (qos1 : Bool) (id : ℕ) (c : Cloud) (r : Option (Cloud × List Action))
    → OnDone (IsOrderly c) r
    → OnDone (IsOrderly c) (with_ack qos1 id r)
unfolding with_ack
acked-IsOrderly qos1 id c none h = tt
acked-IsOrderly true id c (some (c', actions)) h = (h.0, AllAllowed-append c actions _ h.1 (tt, tt))
acked-IsOrderly false id c (some (c', actions)) h = (h.0, AllAllowed-append c actions _ h.1 tt)
