-- ===== src/Cloud/Topics/Tests.antt =====
-- A table of two slots. The full topic is the name behind the bytes 105 and 47.
use pyrinas_zephyr.Common.{
  ℕ, ◌+◌, ◌≡◌, refl, some, List, [], ◌∷◌, replicate, strncmp_eq, pos, arith,
}
use pyrinas_zephyr.Cloud.Topics.{
  Entry, Slot, null, live, freed, done, behind, strcmp_eq, to_entry, subscribe_loop,
  pyrinas_cloud_subscribe, pyrinas_cloud_unsubscribe, application, dispatch,
}
use pyrinas_zephyr.Cloud.Topics.Delivery.{IsUnheard, subscribe-delivers}
use pyrinas_zephyr.Cloud.Topics.Lifetime.{
  nulls, Request, subscribing, unsubscribing, requests, request, is_accepted, nulls-requests,
}

abbrev full : List ℕ → List ℕ
full topic = 105 ∷ 47 ∷ topic

abbrev zeros : List ℕ
zeros = replicate 4 0

-- The entry of a name of two bytes.
abbrev entry : ℕ → ℕ → ℕ → Entry
entry a b callback = record {
  cb = callback;
  full_topic = 105 ∷ 47 ∷ a ∷ b ∷ [];
  topic = a ∷ b ∷ 0 ∷ 0 ∷ [];
  topic_len = 2;
}

abbrev one : List Slot
one = live (entry 97 98 5) ∷ null ∷ []

abbrev two : List Slot
two = live (entry 97 98 5) ∷ live (entry 99 100 6) ∷ []

subscribe_runs :
    pyrinas_cloud_subscribe full 4 (99 ∷ 100 ∷ []) 6 (some zeros) one ≡ done two (pos 0)
unfolding pyrinas_cloud_subscribe subscribe_loop behind to_entry
subscribe_runs = refl

abbrev topic_d : List ℕ
topic_d = 105 ∷ 47 ∷ 99 ∷ 100 ∷ 1 ∷ 2 ∷ []

unheard : IsUnheard topic_d 4 one
unfolding strncmp_eq
unheard = (refl, tt)

subscribe-delivers_example :
    dispatch topic_d 4 (8 ∷ []) two ≡ some (application 6 (99 ∷ 100 ∷ []) (8 ∷ []) ∷ [])
subscribe-delivers_example =
    subscribe-delivers full 4 (99 ∷ 100 ∷ []) 6 (some zeros) one two topic_d (8 ∷ []) subscribe_runs
      (omega arith) refl unheard

-- The topic of the message ends after the first byte of the name.
abbrev topic_a : List ℕ
topic_a = 105 ∷ 47 ∷ 97 ∷ []

unsubscribe_runs :
    pyrinas_cloud_unsubscribe (97 ∷ 98 ∷ []) two
    ≡ done (freed (entry 97 98 5) ∷ live (entry 99 100 6) ∷ []) (pos 0)
unfolding pyrinas_cloud_unsubscribe strcmp_eq
unsubscribe_runs = refl

abbrev history : List Request
history =
    subscribing (97 ∷ 98 ∷ []) 5 (some zeros)
    ∷ unsubscribing (97 ∷ 98 ∷ [])
    ∷ subscribing (99 ∷ 100 ∷ []) 6 (some zeros)
    ∷ subscribing (99 ∷ 100 ∷ []) 6 (some zeros)
    ∷ []

-- The third subscription finds no slot, although one of the two was given back.
history_runs :
    requests full 4 (null ∷ null ∷ []) history
    ≡ some (freed (entry 97 98 5) ∷ live (entry 99 100 6) ∷ [], 2)
unfolding requests request is_accepted pyrinas_cloud_subscribe subscribe_loop behind to_entry
    pyrinas_cloud_unsubscribe strcmp_eq
history_runs = refl

nulls-requests_example :
    nulls (null ∷ null ∷ []) ≡ 2 + nulls (freed (entry 97 98 5) ∷ live (entry 99 100 6) ∷ [])
nulls-requests_example = nulls-requests full 4 (null ∷ null ∷ []) _ history 2 history_runs
