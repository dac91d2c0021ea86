-- ===== src/Ble/Subscriptions.antt =====
-- The subscription list of lib/ble/ble_m.c: `ble_subscribe` and `subscriber_search`, with the types
-- of include/ble/ble_m.h. A handler is a function pointer, and stands here as a number.
pub mod Search
pub mod Handlers
mod Tests
use pyrinas_zephyr.Common.{
  ℕ, zero, suc, ◌+◌, ◌%◌, Bool, ◌&&◌, Option, none, some, List, [], ◌∷◌, ◌++◌, ltb, leb, ◌==◌,
  if◌then◌else◌, length, take, set, mem_eq,
}

-- `pyrinas_event_name_data_t`: of `bytes` the first `size` are meant.
pub record EventName : Type 0 where
  pub size : ℕ
  pub bytes : List ℕ

-- `ble_subscription_handler_t`
pub record Subscriber : Type 0 where
  pub evt_handler : ℕ
  pub name : EventName

-- `ble_subscription_list_t`: an array, of which the first `count` entries are in use.
pub record SubscriptionList : Type 0 where
  pub subscribers : List Subscriber
  pub count : ℕ

-- BLE_SETTINGS_MAX_SUBSCRIPTIONS
abbrev pub max_subscriptions : ℕ
max_subscriptions = 12

-- `strlen(name) + 1` as a `uint8_t`
abbrev pub name_length : List ℕ → ℕ
name_length name = (length name + 1) % 256

-- The size and the bytes that `ble_subscribe` copies, the terminator among them.
abbrev pub to_event_name : List ℕ → EventName
to_event_name name = record {
  size = name_length name;
  bytes = take (name_length name) (name ++ 0 ∷ []);
}

-- The test of `subscriber_search` on one entry.
unfoldable pub is_named : EventName → EventName → Bool
is_named name event_name =
    name.size == event_name.size && mem_eq name.size name.bytes event_name.bytes

-- Its loop, with the entries left, at `index`; `none` is -1.
unfoldable pub search_from : ℕ → List Subscriber → EventName → ℕ → Option ℕ
search_from zero subscribers event_name index = none
search_from (suc n) [] event_name index = none
search_from (suc n) (s ∷ subscribers) event_name index =
    if is_named s.name event_name
    then some index
    else search_from n subscribers event_name (suc index)

unfoldable pub subscriber_search : SubscriptionList → EventName → Option ℕ
subscriber_search l event_name = search_from l.count l.subscribers event_name 0

-- The end of `ble_subscribe`, at the index that the search gave.
pub store : SubscriptionList → Subscriber → Option ℕ → SubscriptionList
store l subscriber (some index) = record l { subscribers = set l.subscribers index subscriber }
store l subscriber none = record l {
  subscribers = set l.subscribers l.count subscriber;
  count = (l.count + 1) % 256;
}

-- `name_bytes` is the size of the array `bytes` of `protobuf_event_t_name_t`.
module _ (name_bytes : ℕ) where
  pub ble_subscribe : SubscriptionList → List ℕ → ℕ → SubscriptionList
  unfolding store
  ble_subscribe l name handler =
      if ltb name_bytes (name_length name)
      then l
      else if leb max_subscriptions l.count
      then l
      else store l (record { evt_handler = handler; name = to_event_name name })
          (subscriber_search l (to_event_name name))
