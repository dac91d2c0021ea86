-- ===== src/Cloud/Topics/Lifetime.antt =====
-- What becomes of the slots of `callbacks` over time.
use pyrinas_zephyr.Common.{
  ℕ, suc, ◌+◌, ◌≤◌, ◌<◌, ◌≡◌, ◌⊎◌, inl, inr, refl, ap, Bool, true, false, Option, none, some, List,
  [], ◌∷◌, if◌then◌else◌, length, ℤ, ◌==ℤ◌, pos, einval, enomem, arith, Option-cases,
}
use pyrinas_zephyr.Cloud.Topics.{
  Entry, Slot, null, live, freed, Outcome, done, fault, behind, strcmp_eq, subscribe_loop,
  pyrinas_cloud_subscribe, pyrinas_cloud_unsubscribe,
}
use pyrinas_zephyr.Cloud.Topics.Delivery.{behind-done, subscribe_loop_live, subscribe_loop_freed}

Outcome-cases : (o : Outcome) → ((slots : List Slot) × (r : ℤ) × (o ≡ done slots r)) ⊎ (o ≡ fault)
Outcome-cases (done slots r) = inl (slots, r, refl)
Outcome-cases fault = inr refl

-- The slots that a subscription can still take.
unfoldable pub nulls : List Slot → ℕ
nulls [] = 0
nulls (null ∷ slots) = suc (nulls slots)
nulls (_ ∷ slots) = nulls slots

unsubscribe_null :
    (topic : List ℕ) (slots slots' : List Slot) (r : ℤ)
    → pyrinas_cloud_unsubscribe topic (null ∷ slots) ≡ done slots' r
    → (rest : List Slot) × (pyrinas_cloud_unsubscribe topic slots ≡ done rest r)
      × (slots' ≡ null ∷ rest)
unfolding pyrinas_cloud_unsubscribe
unsubscribe_null topic slots slots' r e =
    behind-done null (pyrinas_cloud_unsubscribe topic slots) slots' r e

-- An entry is freed, or passed over.
unsubscribe_live :
    (topic : List ℕ) (s : Entry) (slots slots' : List Slot) (r : ℤ)
    → pyrinas_cloud_unsubscribe topic (live s ∷ slots) ≡ done slots' r
    → ((strcmp_eq s.topic topic ≡ some true) × (r ≡ pos 0) × (slots' ≡ freed s ∷ slots))
      ⊎ ((strcmp_eq s.topic topic ≡ some false)
          × (rest : List Slot) × (pyrinas_cloud_unsubscribe topic slots ≡ done rest r)
          × (slots' ≡ live s ∷ rest))
unfolding pyrinas_cloud_unsubscribe
unsubscribe_live topic s slots slots' r e = elim (Option-cases (strcmp_eq s.topic topic)) [
  | inl past ↦ absurd (ground arith)
  | inr (true, same) ↦ inl (same, ground arith, ground arith)
  | inr (false, other) ↦
      let (rest, e', split) =
        behind-done (live s) (pyrinas_cloud_unsubscribe topic slots) slots' r (ground arith) in
      inr (other, rest, e', split)
]

unsubscribe_freed :
    (topic : List ℕ) (s : Entry) (slots : List Slot)
    → pyrinas_cloud_unsubscribe topic (freed s ∷ slots) ≡ fault
unfolding pyrinas_cloud_unsubscribe
unsubscribe_freed topic s slots = refl

nulls-unsubscribe :
    (topic : List ℕ) (slots slots' : List Slot) (r : ℤ)
    → pyrinas_cloud_unsubscribe topic slots ≡ done slots' r
    → nulls slots' ≡ nulls slots
unfolding nulls
nulls-unsubscribe topic [] slots' r e = unfold pyrinas_cloud_unsubscribe in ground arith
nulls-unsubscribe topic (null ∷ slots) slots' r e =
    let (rest, e', split) = unsubscribe_null topic slots slots' r e in
    rw split (ap suc (nulls-unsubscribe topic slots rest r e'))
nulls-unsubscribe topic (live s ∷ slots) slots' r e =
    elim (unsubscribe_live topic s slots slots' r e) [
      | inl (_, _, split) ↦ rw split refl
      | inr (_, rest, e', split) ↦ rw split (nulls-unsubscribe topic slots rest r e')
    ]
nulls-unsubscribe topic (freed s ∷ slots) slots' r e =
    unfold pyrinas_cloud_unsubscribe in ground arith

unsubscribe_null_fault :
    (topic : List ℕ) (slots : List Slot)
    → pyrinas_cloud_unsubscribe topic slots ≡ fault
    → pyrinas_cloud_unsubscribe topic (null ∷ slots) ≡ fault
unfolding pyrinas_cloud_unsubscribe behind
unsubscribe_null_fault topic slots e = rw e refl

unsubscribe_live_fault :
    (topic : List ℕ) (s : Entry) (slots : List Slot)
    → strcmp_eq s.topic topic ≡ some false
    → pyrinas_cloud_unsubscribe topic slots ≡ fault
    → pyrinas_cloud_unsubscribe topic (live s ∷ slots) ≡ fault
unfolding pyrinas_cloud_unsubscribe behind
unsubscribe_live_fault topic s slots other e = ground arith

-- An unsubscription that returned 0 leaves a pointer to freed memory behind: the same call once
-- more reads through it.
pub unsubscribe_twice :
    (topic : List ℕ) (slots slots' : List Slot)
    → pyrinas_cloud_unsubscribe topic slots ≡ done slots' (pos 0)
    → pyrinas_cloud_unsubscribe topic slots' ≡ fault
unsubscribe_twice topic [] slots' e = unfold pyrinas_cloud_unsubscribe in ground arith
unsubscribe_twice topic (null ∷ slots) slots' e =
    let (rest, e', split) = unsubscribe_null topic slots slots' (pos 0) e in
    rw split (unsubscribe_null_fault topic rest (unsubscribe_twice topic slots rest e'))
unsubscribe_twice topic (live s ∷ slots) slots' e =
    elim (unsubscribe_live topic s slots slots' (pos 0) e) [
      | inl (_, _, split) ↦ rw split (unsubscribe_freed topic s slots)
      | inr (other, rest, e', split) ↦
          rw split
            (unsubscribe_live_fault topic s rest other (unsubscribe_twice topic slots rest e'))
    ]
unsubscribe_twice topic (freed s ∷ slots) slots' e =
    unfold pyrinas_cloud_unsubscribe in ground arith

-- A history of the application's calls, with the callback and the memory of each subscription.
pub data Request : Type 0 where
  subscribing : List ℕ → ℕ → Option (List ℕ) → Request
  unsubscribing : List ℕ → Request

unfoldable pub is_accepted : Request → ℤ → ℕ
is_accepted (subscribing topic callback memory) r = if r ==ℤ pos 0 then 1 else 0
is_accepted (unsubscribing topic) r = 0

module _ (full_topic_of : List ℕ → List ℕ) (name_size : ℕ) where
  over :
      (e : Entry) (slots rest : List Slot) (r : ℤ) (b : Bool)
      → ((r ≡ pos 0) × (nulls slots ≡ suc (nulls rest)))
        ⊎ ((r ≡ enomem) × (rest ≡ slots) × (nulls slots ≡ 0))
      → let s = (if b then live e else freed e) in
        ((r ≡ pos 0) × (nulls (s ∷ slots) ≡ suc (nulls (s ∷ rest))))
        ⊎ ((r ≡ enomem) × (s ∷ rest ≡ s ∷ slots) × (nulls (s ∷ slots) ≡ 0))
  unfolding nulls
  over e slots rest r true h = ground arith
  over e slots rest r false h = ground arith

  nulls-loop :
      (topic : List ℕ) (callback : ℕ) (memory : Option (List ℕ)) (slots slots' : List Slot) (r : ℤ)
      → subscribe_loop full_topic_of topic callback memory slots ≡ done slots' r
      → ((r ≡ pos 0) × (nulls slots ≡ suc (nulls slots')))
        ⊎ ((r ≡ enomem) × (slots' ≡ slots) × (nulls slots ≡ 0))
  unfolding nulls
  nulls-loop topic callback memory [] slots' r e = unfold subscribe_loop in ground arith
  nulls-loop topic callback memory (null ∷ slots) slots' r e = unfold subscribe_loop in ground arith
  nulls-loop topic callback memory (live s ∷ slots) slots' r e =
      let (rest, e', split) =
        subscribe_loop_live full_topic_of topic callback memory s slots slots' r e in
      rw split (over s slots rest r true (nulls-loop topic callback memory slots rest r e'))
  nulls-loop topic callback memory (freed s ∷ slots) slots' r e =
      let (rest, e', split) =
        subscribe_loop_freed full_topic_of topic callback memory s slots slots' r e in
      rw split (over s slots rest r false (nulls-loop topic callback memory slots rest r e'))

  -- A subscription that does not fault returns 0 and takes one NULL slot, or it changes nothing
  -- and returns an error, for a name that is too long or for want of a NULL slot.
  pub nulls-subscribe :
      (topic : List ℕ) (callback : ℕ) (memory : Option (List ℕ)) (slots slots' : List Slot) (r : ℤ)
      → pyrinas_cloud_subscribe full_topic_of name_size topic callback memory slots ≡ done slots' r
      → ((r ≡ pos 0) × (length topic ≤ name_size) × (nulls slots ≡ suc (nulls slots')))
        ⊎ ((slots' ≡ slots)
            × (((r ≡ einval) × (name_size < length topic))
                ⊎ ((r ≡ enomem) × (length topic ≤ name_size) × (nulls slots ≡ 0))))
  unfolding pyrinas_cloud_subscribe
  nulls-subscribe topic callback memory slots slots' r e =
      ground (arith, nulls-loop topic callback memory slots slots' r)

  unfoldable pub request : List Slot → Request → Outcome
  request slots (subscribing topic callback memory) =
      pyrinas_cloud_subscribe full_topic_of name_size topic callback memory slots
  request slots (unsubscribing topic) = pyrinas_cloud_unsubscribe topic slots

  -- The slots in the end, and how many subscriptions returned 0; `none` is a fault.
  unfoldable pub requests : List Slot → List Request → Option (List Slot × ℕ)
  requests slots [] = some (slots, 0)
  requests slots (q ∷ qs) = elim (request slots q) [
    | fault ↦ none
    | done slots' r ↦ elim (requests slots' qs) [
      | none ↦ none
      | some (slots'', n) ↦ some (slots'', is_accepted q r + n)
    ]
  ]

  nulls-request :
      (q : Request) (slots slots' : List Slot) (r : ℤ)
      → request slots q ≡ done slots' r
      → nulls slots ≡ is_accepted q r + nulls slots'
  unfolding request is_accepted
  nulls-request (subscribing topic callback memory) slots slots' r e =
      elim (nulls-subscribe topic callback memory slots slots' r e) [
        | inl (z, _, n) ↦ rw z (omega arith)
        | inr (same, inl (z, _)) ↦ rw (z, same) (omega arith)
        | inr (same, inr (z, _, _)) ↦ rw (z, same) (omega arith)
      ]
  nulls-request (unsubscribing topic) slots slots' r e =
      omega (arith, nulls-unsubscribe topic slots slots' r e)

  requests-cons :
      (slots slots'' : List Slot) (q : Request) (qs : List Request) (n : ℕ)
      → requests slots (q ∷ qs) ≡ some (slots'', n)
      → (slots' : List Slot) × (r : ℤ) × (m : ℕ) × (request slots q ≡ done slots' r)
        × (requests slots' qs ≡ some (slots'', m))
        × (n ≡ is_accepted q r + m)
  unfolding requests
  requests-cons slots slots'' q qs n e = elim (Outcome-cases (request slots q)) [
    | inr bad ↦ absurd (ground arith)
    | inl (slots', r, ran) ↦ elim (Option-cases (requests slots' qs)) [
      | inl stuck ↦ absurd (ground arith)
      | inr ((last, m), more) ↦ (slots', r, m, ran, ground arith, ground arith)
    ]
  ]

  -- Over any history that does not fault, each subscription that returned 0 has used up one of the
  -- NULL slots that there were at the start: unsubscribing gives none back.
  pub nulls-requests :
      (slots slots' : List Slot) (qs : List Request) (n : ℕ)
      → requests slots qs ≡ some (slots', n)
      → nulls slots ≡ n + nulls slots'
  nulls-requests slots slots' [] n e = unfold requests in ground arith
  nulls-requests slots slots' (q ∷ qs) n e =
      let (mid, r, m, ran, more, sum) = requests-cons slots slots' q qs n e in
      let rest = nulls-requests mid slots' qs m more in
      omega (arith, nulls-request q slots mid r ran)
