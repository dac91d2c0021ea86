-- ===== src/Ble/Subscriptions/Search.antt =====
-- `subscriber_search` of lib/ble/ble_m.c on the array, and what an assignment to an entry does to it.
use pyrinas_zephyr.Common.{
  ℕ, zero, suc, ◌+◌, ◌≤◌, ◌<◌, ◌≡◌, refl, true, false, Option, none, some, List, [], ◌∷◌,
  if◌then◌else◌, length, set, get_elem?, mem_eq_congr, mem_eq_comm, arith,
}
use pyrinas_zephyr.Ble.Subscriptions.{
  EventName, Subscriber, SubscriptionList, is_named, search_from,
}

pub is_named_congr : (a b c : EventName) → is_named b c ≡ true → is_named a b ≡ is_named a c
unfolding is_named
is_named_congr a b c e = ground (arith, mem_eq_congr a.size a.bytes b.bytes c.bytes)

pub is_named_comm : (a b : EventName) → is_named a b ≡ is_named b a
unfolding is_named
is_named_comm a b = ground (arith, mem_eq_comm a.size a.bytes b.bytes)

-- The handler of the first entry in use with that name.
unfoldable pub handler_from : ℕ → List Subscriber → EventName → Option ℕ
handler_from zero subscribers event_name = none
handler_from (suc n) [] event_name = none
handler_from (suc n) (s ∷ subscribers) event_name =
    if is_named s.name event_name then some s.evt_handler else handler_from n subscribers event_name

unfoldable pub handler_of : SubscriptionList → EventName → Option ℕ
unfolding handler_from
handler_of l event_name = handler_from l.count l.subscribers event_name

pub search_none :
    (n : ℕ) (ss : List Subscriber) (s : Subscriber) (q : EventName) (i : ℕ)
    → search_from n ss s.name i ≡ none
    → n < length ss
    → handler_from (suc n) (set ss n s) q
      ≡ (if is_named s.name q then some s.evt_handler else handler_from n ss q)
unfolding search_from handler_from
search_none zero [] s q i e h = absurd (omega arith)
search_none zero (x ∷ xs) s q i e h = refl
search_none (suc n) [] s q i e h = absurd (omega arith)
search_none (suc n) (x ∷ xs) s q i e h =
    ground (arith, is_named_congr x.name s.name q, search_none n xs s q (suc i))

pub search_le :
    (n : ℕ) (ss : List Subscriber) (name : EventName) (i j : ℕ)
    → search_from n ss name i ≡ some j
    → (i ≤ j) × (j < i + n)
unfolding search_from
search_le zero ss name i j e = cc
search_le (suc n) [] name i j e = cc
search_le (suc n) (x ∷ xs) name i j e = ground (arith, search_le n xs name (suc i) j)

pub search_some :
    (n : ℕ) (ss : List Subscriber) (s : Subscriber) (q : EventName) (i j : ℕ)
    → search_from n ss s.name i ≡ some (i + j)
    → handler_from n (set ss j s) q
      ≡ (if is_named s.name q then some s.evt_handler else handler_from n ss q)
unfolding search_from handler_from
search_some zero ss s q i j e = cc
search_some (suc n) [] s q i j e = cc
search_some (suc n) (x ∷ xs) s q i zero e = ground (
  arith,
  is_named_congr q x.name s.name,
  is_named_comm q x.name,
  is_named_comm q s.name,
  search_le n xs s.name (suc i) (i + 0),
)
search_some (suc n) (x ∷ xs) s q i (suc j) e =
    ground (arith, is_named_congr x.name s.name q, search_some n xs s q (suc i) j)

pub search_shift :
    (n : ℕ) (ss : List Subscriber) (q : EventName) (i k : ℕ)
    → search_from n ss q i ≡ none
    → search_from n ss q k ≡ none
unfolding search_from
search_shift zero ss q i k e = refl
search_shift (suc n) [] q i k e = refl
search_shift (suc n) (x ∷ xs) q i k e = ground (arith, search_shift n xs q (suc i) (suc k))

pub search_congr :
    (n : ℕ) (ss : List Subscriber) (a b : EventName) (i : ℕ)
    → is_named a b ≡ true
    → search_from n ss a i ≡ search_from n ss b i
unfolding search_from
search_congr zero ss a b i e = refl
search_congr (suc n) [] a b i e = refl
search_congr (suc n) (x ∷ xs) a b i e =
    ground (arith, is_named_congr x.name a b, search_congr n xs a b (suc i))

-- A new entry of another name, at the end or in the place of an old one, is not found.
pub search_append :
    (n : ℕ) (ss : List Subscriber) (s : Subscriber) (q : EventName) (i : ℕ)
    → search_from n ss q i ≡ none
    → is_named s.name q ≡ false
    → search_from (suc n) (set ss n s) q i ≡ none
unfolding search_from
search_append zero [] s q i e f = refl
search_append zero (x ∷ xs) s q i e f = ground arith
search_append (suc n) [] s q i e f = refl
search_append (suc n) (x ∷ xs) s q i e f = ground (arith, search_append n xs s q (suc i))

pub search_set :
    (n : ℕ) (ss : List Subscriber) (s : Subscriber) (q : EventName) (i j : ℕ)
    → search_from n ss q i ≡ none
    → is_named s.name q ≡ false
    → search_from n (set ss j s) q i ≡ none
unfolding search_from
search_set zero ss s q i j e f = refl
search_set (suc n) [] s q i j e f = refl
search_set (suc n) (x ∷ xs) s q i zero e f = ground arith
search_set (suc n) (x ∷ xs) s q i (suc j) e f = ground (arith, search_set n xs s q (suc i) j)

pub search_entry :
    (n : ℕ) (ss : List Subscriber) (q : EventName) (i j : ℕ)
    → search_from n ss q i ≡ some (i + j)
    → (s : Subscriber) × (get_elem? ss j ≡ some s) × (handler_from n ss q ≡ some s.evt_handler)
unfolding search_from handler_from
search_entry zero ss q i j e = cc
search_entry (suc n) [] q i j e = cc
search_entry (suc n) (x ∷ xs) q i zero e =
    (x, refl, ground (arith, search_le n xs q (suc i) (i + 0)))
search_entry (suc n) (x ∷ xs) q i (suc j) e =
    let (s, at, found) = search_entry n xs q (suc i) j (ground arith) in (s, at, ground arith)

pub search_missing :
    (n : ℕ) (ss : List Subscriber) (q : EventName) (i : ℕ)
    → search_from n ss q i ≡ none
    → handler_from n ss q ≡ none
unfolding search_from handler_from
search_missing zero ss q i e = refl
search_missing (suc n) [] q i e = refl
search_missing (suc n) (x ∷ xs) q i e = ground (arith, search_missing n xs q (suc i))
