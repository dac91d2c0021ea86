-- ===== src/Cloud/Topics.antt =====
-- The application subscriptions of subsys/pyrinas_cloud/pyrinas_cloud.c: the array `callbacks`, with
-- `pyrinas_cloud_subscribe`, `pyrinas_cloud_unsubscribe` and the second half of
-- `publish_evt_handler`. A callback is a function pointer, and stands here as a number.
pub mod Delivery
pub mod Lifetime
mod Tests
use pyrinas_zephyr.Common.{
  ℕ, zero, suc, ◌+◌, Bool, true, false, Option, none, some, List, [], ◌∷◌, ◌++◌, ltb, ◌==◌,
  if◌then◌else◌, length, take, drop, strncmp_eq, ℤ, pos, einval, enoent, enomem,
}

-- `pryinas_cloud_application_cb_entry_t`; `topic` is the whole array, of which only the first
-- `topic_len` bytes are written.
pub record Entry : Type 0 where
  pub cb : ℕ
  pub full_topic : List ℕ
  pub topic : List ℕ
  pub topic_len : ℕ

-- An element of `callbacks`: NULL, a pointer to an entry, or a pointer to one that has been freed.
pub data Slot : Type 0 where
  null : Slot
  live : Entry → Slot
  freed : Entry → Slot

-- `fault` is an access to memory that the program does not own.
pub data Outcome : Type 0 where
  done : List Slot → ℤ → Outcome
  fault : Outcome

pub behind : Slot → Outcome → Outcome
behind s (done slots r) = done (s ∷ slots) r
behind s fault = fault

-- `strcmp(a, b) == 0` for an array `a` and a string `b`; `none` if it reads past the array.
pub strcmp_eq : List ℕ → List ℕ → Option Bool
strcmp_eq [] b = none
strcmp_eq (x ∷ a) [] = some (x == 0)
strcmp_eq (x ∷ a) (y ∷ b) = let rest = strcmp_eq a b in if x == y then rest else some false

-- The entry that `pyrinas_cloud_subscribe` writes to memory that held `memory` where `topic` is.
pub to_entry : (List ℕ → List ℕ) → List ℕ → ℕ → List ℕ → Entry
to_entry full_topic_of topic callback memory = record {
  cb = callback;
  full_topic = full_topic_of topic;
  topic = topic ++ drop (length topic) memory;
  topic_len = length topic;
}

-- `full_topic_of` is what `snprintf` makes of the topic, with the format and the IMEI of the device.
module _ (full_topic_of : List ℕ → List ℕ) where
  -- Its loop. The argument before the last is the result of `k_malloc`: the memory, or `none` for
  -- NULL, which the code writes through.
  pub subscribe_loop : List ℕ → ℕ → Option (List ℕ) → List Slot → Outcome
  unfolding behind to_entry
  subscribe_loop topic callback memory [] = done [] enomem
  subscribe_loop topic callback memory (null ∷ slots) = elim memory [
    | none ↦ fault
    | some m ↦ done (live (to_entry full_topic_of topic callback m) ∷ slots) (pos 0)
  ]
  subscribe_loop topic callback memory (s ∷ slots) =
      behind s (subscribe_loop topic callback memory slots)

  -- `name_size` is CONFIG_PYRINAS_CLOUD_APPLICATION_EVENT_NAME_MAX_SIZE.
  pub pyrinas_cloud_subscribe : ℕ → List ℕ → ℕ → Option (List ℕ) → List Slot → Outcome
  pyrinas_cloud_subscribe name_size topic callback memory slots =
      if ltb name_size (length topic)
      then done slots einval
      else subscribe_loop topic callback memory slots

-- `k_free` leaves the pointer in its place.
pub pyrinas_cloud_unsubscribe : List ℕ → List Slot → Outcome
unfolding strcmp_eq behind
pyrinas_cloud_unsubscribe topic [] = done [] enoent
pyrinas_cloud_unsubscribe topic (null ∷ slots) = behind null (pyrinas_cloud_unsubscribe topic slots)
pyrinas_cloud_unsubscribe topic (live e ∷ slots) =
    let rest = behind (live e) (pyrinas_cloud_unsubscribe topic slots) in
    elim (strcmp_eq e.topic topic) [
      | none ↦ fault
      | some same ↦ if same then done (freed e ∷ slots) (pos 0) else rest
    ]
pyrinas_cloud_unsubscribe topic (freed e ∷ slots) = fault

-- A call of `cb`.
pub data Call : Type 0 where
  application : ℕ → List ℕ → List ℕ → Call

-- The loop of `publish_evt_handler`: `topic` is the memory from the pointer on. `none` is a fault.
unfoldable pub dispatch : List ℕ → ℕ → List ℕ → List Slot → Option (List Call)
dispatch topic topic_len bytes [] = some []
dispatch topic topic_len bytes (null ∷ slots) = dispatch topic topic_len bytes slots
dispatch topic topic_len bytes (live e ∷ slots) =
    let rest = dispatch topic topic_len bytes slots in
    if strncmp_eq topic_len e.full_topic topic
    then some (application e.cb (take e.topic_len e.topic) bytes ∷ [])
    else rest
dispatch topic topic_len bytes (freed e ∷ slots) = none
