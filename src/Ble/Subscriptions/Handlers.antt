-- ===== src/Ble/Subscriptions/Handlers.antt =====
-- The subscription list of lib/ble/ble_m.c as a map from names to handlers.
use pyrinas_zephyr.Common.{
  ℕ, zero, suc, ◌+◌, ◌%◌, ◌≤◌, ◌<◌, ◌⊎◌, ◌≡◌, refl, ap, ◌∙◌, true, false, none, some, List, [], ◌∷◌,
  ◌++◌, ltb, leb, if◌then◌else◌, length, take, set, get_elem?, mem_eq, mem_eq_refl, arith,
  Option-cases, Bool-cases, inl, inr, length-set, length-take, length-append,
}
use pyrinas_zephyr.Ble.Subscriptions.{
  EventName, Subscriber, SubscriptionList, max_subscriptions, name_length, to_event_name, is_named,
  search_from, subscriber_search, store, ble_subscribe,
}
use pyrinas_zephyr.Ble.Subscriptions.Search.{
  is_named_comm, handler_of, search_none, search_le, search_some, search_congr, search_append,
  search_set, search_entry, search_missing,
}

-- The list holds what its array can, and no two entries in use have one name.
abbrev Distinct : ℕ → List Subscriber → Type 0
Distinct zero ss = Unit {0}
Distinct (suc n) [] = Unit {0}
Distinct (suc n) (s ∷ ss) = (search_from n ss s.name 0 ≡ none) × Distinct n ss

pub record Inv (l : SubscriptionList) : Type 0 where
  pub array : length l.subscribers ≡ max_subscriptions
  pub in_use : l.count ≤ max_subscriptions
  pub distinct : Distinct l.count l.subscribers

Distinct-append :
    (n : ℕ) (ss : List Subscriber) (s : Subscriber) (i : ℕ)
    → search_from n ss s.name i ≡ none
    → Distinct n ss
    → Distinct (suc n) (set ss n s)
unfolding search_from
Distinct-append zero [] s i e d = tt
Distinct-append zero (x ∷ xs) s i e d = (refl, tt)
Distinct-append (suc n) [] s i e d = tt
Distinct-append (suc n) (x ∷ xs) s i e d = (
  search_append n xs s x.name 0 d.0 (ground (arith, is_named_comm x.name s.name)),
  Distinct-append n xs s (suc i) (ground arith) d.1,
)

Distinct-set :
    (n : ℕ) (ss : List Subscriber) (s : Subscriber) (i j : ℕ)
    → search_from n ss s.name i ≡ some (i + j)
    → Distinct n ss
    → Distinct n (set ss j s)
unfolding search_from
Distinct-set zero ss s i j e d = tt
Distinct-set (suc n) [] s i j e d = tt
Distinct-set (suc n) (x ∷ xs) s i zero e d =
    (ground (arith, search_congr n xs x.name s.name 0, search_le n xs s.name (suc i) (i + 0)), d.1)
Distinct-set (suc n) (x ∷ xs) s i (suc j) e d = (
  search_set n xs s x.name 0 j d.0 (ground (arith, is_named_comm x.name s.name)),
  Distinct-set n xs s (suc i) j (ground arith) d.1,
)

module _ (l : SubscriptionList) (s : Subscriber) (v : Inv l)
    (room : l.count < max_subscriptions) where
  next : (l.count + 1) % 256 ≡ suc l.count
  next = omega arith

  -- The end of `ble_subscribe`, with the list well formed and not full.
  store-Inv : Inv (store l s (subscriber_search l s.name))
  store-Inv = elim (Option-cases (subscriber_search l s.name)) [
    | inl e ↦ rw e (
        unfold store subscriber_search in
        record {
          array = rw length-set v.array;
          in_use = omega arith;
          distinct = rw next (Distinct-append l.count l.subscribers s 0 e v.distinct);
        })
    | inr (j, e) ↦ rw e (
        unfold store subscriber_search in
        record {
          array = rw length-set v.array;
          in_use = v.in_use;
          distinct =
              Distinct-set l.count l.subscribers s 0 j (e ∙ ap some (omega arith)) v.distinct;
        })
  ]

  handler_of-store :
      (q : EventName)
      → handler_of (store l s (subscriber_search l s.name)) q
        ≡ (if is_named s.name q then some s.evt_handler else handler_of l q)
  handler_of-store q = elim (Option-cases (subscriber_search l s.name)) [
    | inl e ↦ rw e (
        unfold store subscriber_search handler_of in
        rw next (search_none l.count l.subscribers s q 0 e (omega (arith, v.array))))
    | inr (j, e) ↦ rw e (
        unfold store subscriber_search handler_of in
        search_some l.count l.subscribers s q 0 j (e ∙ ap some (omega arith)))
  ]

-- `ble_subscribe` keeps the list well formed: an array of 12 entries, of which at most 12 are in
-- use, under names that differ.
pub ble_subscribe-Inv :
    (name_bytes : ℕ) (l : SubscriptionList) (name : List ℕ) (handler : ℕ)
    → Inv l
    → Inv (ble_subscribe name_bytes l name handler)
unfolding ble_subscribe
ble_subscribe-Inv name_bytes l name handler v =
    elim (Bool-cases (ltb name_bytes (name_length name))) [
      | inl long ↦ rw long v
      | inr fits ↦ elim (Bool-cases (leb max_subscriptions l.count)) [
        | inl full ↦ rw (fits, full) v
        | inr room ↦
            rw (fits, room)
              (store-Inv l (record { evt_handler = handler; name = to_event_name name }) v
                (ground arith))
      ]
    ]

-- A name that fits, with room in the list: events of that name go to the new handler, and all others
-- where they went before. (The name may be in the list already.)
pub handler_of-ble_subscribe :
    (name_bytes : ℕ) (l : SubscriptionList) (name : List ℕ) (handler : ℕ) (q : EventName)
    → Inv l
    → name_length name ≤ name_bytes
    → l.count < max_subscriptions
    → handler_of (ble_subscribe name_bytes l name handler) q
      ≡ (if is_named (to_event_name name) q then some handler else handler_of l q)
unfolding ble_subscribe
handler_of-ble_subscribe name_bytes l name handler q v fits room =
    rw (fits', room')
      (handler_of-store l (record { evt_handler = handler; name = to_event_name name }) v room q)
  where
    fits' : ltb name_bytes (name_length name) ≡ false
    fits' = ground arith

    room' : leb max_subscriptions l.count ≡ false
    room' = ground arith

-- A name that is too long, or a full list, changes nothing: a full list refuses also the new handler
-- of a name that it holds.
pub ble_subscribe_refused :
    (name_bytes : ℕ) (l : SubscriptionList) (name : List ℕ) (handler : ℕ)
    → (name_bytes < name_length name) ⊎ (max_subscriptions ≤ l.count)
    → ble_subscribe name_bytes l name handler ≡ l
unfolding ble_subscribe
ble_subscribe_refused name_bytes l name handler h = ground arith

-- The length is cut to 8 bits before it is checked: a name of 255 characters passes for every size of
-- the array, and its handler gets the events whose name has size 0.
pub ble_subscribe_truncates :
    (name_bytes : ℕ) (l : SubscriptionList) (name bytes : List ℕ) (handler : ℕ)
    → Inv l
    → l.count < max_subscriptions
    → length name ≡ 255
    → handler_of (ble_subscribe name_bytes l name handler) (record { size = 0; bytes = bytes })
      ≡ some handler
ble_subscribe_truncates name_bytes l name bytes handler v room e =
    handler_of-ble_subscribe name_bytes l name handler _ v (omega arith) room ∙ rw named refl
  where
    cut : name_length name ≡ 0
    cut = omega arith

    named : is_named (to_event_name name) (record { size = 0; bytes = bytes }) ≡ true
    named = unfold is_named mem_eq in rw cut refl

-- What the search gives, by the handler of the name.
pub subscriber_search-cases :
    (l : SubscriptionList) (q : EventName)
    → ((subscriber_search l q ≡ none) × (handler_of l q ≡ none))
      ⊎ ((j : ℕ) × (s : Subscriber) × (subscriber_search l q ≡ some j)
          × (get_elem? l.subscribers j ≡ some s)
          × (handler_of l q ≡ some s.evt_handler))
unfolding subscriber_search handler_of
subscriber_search-cases l q = elim (Option-cases (subscriber_search l q)) [
  | inl e ↦ inl (e, search_missing l.count l.subscribers q 0 e)
  | inr (j, e) ↦
      let (s, at, found) = search_entry l.count l.subscribers q 0 j (e ∙ ap some (omega arith)) in
      inr (j, s, e, at, found)
]

-- The name that `ble_subscribe` stores is found by itself.
pub to_event_name_self : (name : List ℕ) → is_named (to_event_name name) (to_event_name name) ≡ true
unfolding is_named
to_event_name_self name = ground (
  arith,
  mem_eq_refl (name_length name) (take (name_length name) (name ++ 0 ∷ [])),
  length-take (name_length name) (name ++ 0 ∷ []),
  length-append name (0 ∷ []),
)
