-- ===== src/Cloud/Topics/Delivery.antt =====
-- Which callback a message reaches.
use pyrinas_zephyr.Common.{
  ℕ, zero, suc, ◌≤◌, ◌≡◌, ◌↔◌, ◌≢◌, take-all, ◌⊎◌, refl, sym, ◌∙◌, true, false, Option, none, some,
  List, [], ◌∷◌, length, take, drop, take-append, strncmp_eq, ℤ, pos, arith,
}
use pyrinas_zephyr.Cloud.Topics.{
  Entry, Slot, null, live, freed, Outcome, done, fault, behind, to_entry, subscribe_loop,
  pyrinas_cloud_subscribe, application, dispatch,
}

-- The test compares the whole of the message's topic with the beginning of the entry's.
pub strncmp_eq-take :
    (n : ℕ) (xs ys : List ℕ) → n ≤ length ys → (strncmp_eq n xs ys ≡ true) ↔ (take n xs ≡ take n ys)
unfolding strncmp_eq
strncmp_eq-take n xs ys h = (forth n xs ys, back n xs ys h)
  where
    forth : (n : ℕ) (xs ys : List ℕ) → strncmp_eq n xs ys ≡ true → take n xs ≡ take n ys
    forth zero xs ys e = refl
    forth (suc n) [] [] e = refl
    forth (suc n) [] (y ∷ ys) e = ground arith
    forth (suc n) (x ∷ xs) [] e = ground arith
    forth (suc n) (x ∷ xs) (y ∷ ys) e = ground (arith, forth n xs ys)

    back :
        (n : ℕ) (xs ys : List ℕ) → n ≤ length ys → take n xs ≡ take n ys → strncmp_eq n xs ys ≡ true
    back zero xs ys h e = refl
    back (suc n) [] [] h e = refl
    back (suc n) [] (y ∷ ys) h e = ground arith
    back (suc n) (x ∷ xs) [] h e = absurd (omega arith)
    back (suc n) (x ∷ xs) (y ∷ ys) h e = ground (arith, back n xs ys)

-- No slot before the first NULL is freed, or would take the message.
abbrev pub IsUnheard : List ℕ → ℕ → List Slot → Type 0
IsUnheard topic n [] = Unit {0}
IsUnheard topic n (null ∷ slots) = Unit {0}
IsUnheard topic n (live e ∷ slots) =
    (strncmp_eq n e.full_topic topic ≡ false) × IsUnheard topic n slots
IsUnheard topic n (freed e ∷ slots) = ⊥

pub behind-done :
    (s : Slot) (o : Outcome) (slots' : List Slot) (r : ℤ)
    → behind s o ≡ done slots' r
    → (rest : List Slot) × (o ≡ done rest r) × (slots' ≡ s ∷ rest)
unfolding behind
behind-done s (done rest r') slots' r e = ground arith
behind-done s fault slots' r e = ground arith

module _ (full_topic_of : List ℕ → List ℕ) where
  -- The loop passes over a slot that is not NULL.
  pub subscribe_loop_live :
      (topic : List ℕ) (callback : ℕ) (memory : Option (List ℕ)) (s : Entry)
      (slots slots' : List Slot) (r : ℤ)
      → subscribe_loop full_topic_of topic callback memory (live s ∷ slots) ≡ done slots' r
      → (rest : List Slot) × (subscribe_loop full_topic_of topic callback memory slots
          ≡ done rest r)
        × (slots' ≡ live s ∷ rest)
  unfolding subscribe_loop
  subscribe_loop_live topic callback memory s slots slots' r e =
      behind-done (live s) (subscribe_loop full_topic_of topic callback memory slots) slots' r e

  pub subscribe_loop_freed :
      (topic : List ℕ) (callback : ℕ) (memory : Option (List ℕ)) (s : Entry)
      (slots slots' : List Slot) (r : ℤ)
      → subscribe_loop full_topic_of topic callback memory (freed s ∷ slots) ≡ done slots' r
      → (rest : List Slot) × (subscribe_loop full_topic_of topic callback memory slots
          ≡ done rest r)
        × (slots' ≡ freed s ∷ rest)
  unfolding subscribe_loop
  subscribe_loop_freed topic callback memory s slots slots' r e =
      behind-done (freed s) (subscribe_loop full_topic_of topic callback memory slots) slots' r e

dispatch_miss :
    (message : List ℕ) (n : ℕ) (bytes : List ℕ) (e : Entry) (slots : List Slot)
    → strncmp_eq n e.full_topic message ≡ false
    → dispatch message n bytes (live e ∷ slots) ≡ dispatch message n bytes slots
unfolding dispatch
dispatch_miss message n bytes e slots h = ground arith

module _ (full_topic_of : List ℕ → List ℕ) where
  loop-delivers :
      (topic : List ℕ) (callback : ℕ) (memory : Option (List ℕ)) (slots slots' : List Slot)
      (message : List ℕ) (bytes : List ℕ)
      → subscribe_loop full_topic_of topic callback memory slots ≡ done slots' (pos 0)
      → strncmp_eq (length (full_topic_of topic)) (full_topic_of topic) message ≡ true
      → IsUnheard message (length (full_topic_of topic)) slots
      → dispatch message (length (full_topic_of topic)) bytes slots'
        ≡ some (application callback topic bytes ∷ [])
  loop-delivers topic callback memory [] slots' message bytes e m u =
      unfold subscribe_loop in ground arith
  loop-delivers topic callback none (null ∷ slots) slots' message bytes e m u =
      unfold subscribe_loop in ground arith
  loop-delivers topic callback (some k) (null ∷ slots) slots' message bytes e m u =
      unfold subscribe_loop dispatch to_entry in
      ground (arith, take-append (length topic) topic (drop (length topic) k) refl)
  loop-delivers topic callback memory (live s ∷ slots) slots' message bytes e m u =
      let (rest, e', split) =
        subscribe_loop_live full_topic_of topic callback memory s slots slots' (pos 0) e in
      rw split (
        dispatch_miss message (length (full_topic_of topic)) bytes s rest u.0
        ∙ loop-delivers topic callback memory slots rest message bytes e' m u.1)
  loop-delivers topic callback memory (freed s ∷ slots) slots' message bytes e m u = absurd u

  loop-subscribe :
      (name_size : ℕ) (topic : List ℕ) (callback : ℕ) (memory : Option (List ℕ))
      (slots slots' : List Slot)
      → pyrinas_cloud_subscribe full_topic_of name_size topic callback memory slots
        ≡ done slots' (pos 0)
      → subscribe_loop full_topic_of topic callback memory slots ≡ done slots' (pos 0)
  unfolding pyrinas_cloud_subscribe
  loop-subscribe name_size topic callback memory slots slots' e = ground arith

  -- After a subscription that returned 0, a message whose topic is the subscription's full topic
  -- reaches its callback and no other, with the name that was subscribed to, provided that no freed
  -- slot and no slot that takes the message stands before the new one.
  pub subscribe-delivers :
      (name_size : ℕ) (topic : List ℕ) (callback : ℕ) (memory : Option (List ℕ))
      (slots slots' : List Slot) (message bytes : List ℕ)
      → pyrinas_cloud_subscribe full_topic_of name_size topic callback memory slots
        ≡ done slots' (pos 0)
      → length (full_topic_of topic) ≤ length message
      → take (length (full_topic_of topic)) message ≡ full_topic_of topic
      → IsUnheard message (length (full_topic_of topic)) slots
      → dispatch message (length (full_topic_of topic)) bytes slots'
        ≡ some (application callback topic bytes ∷ [])
  subscribe-delivers name_size topic callback memory slots slots' message bytes e long same u =
      loop-delivers topic callback memory slots slots' message bytes
        (loop-subscribe name_size topic callback memory slots slots' e)
        ((strncmp_eq-take (length (full_topic_of topic)) (full_topic_of topic) message long).1
          (take-all _ (full_topic_of topic) (omega arith) ∙ sym same))
        u

-- A live entry takes a message exactly if its full topic begins with the topic of the message,
-- equal or not, and otherwise the slots behind it are asked: a message for a part of a subscribed
-- topic reaches the callback of the longer topic.
pub dispatch_first :
    (message : List ℕ) (n : ℕ) (bytes : List ℕ) (e : Entry) (slots : List Slot)
    → n ≤ length message
    → ((take n e.full_topic ≡ take n message)
        × (dispatch message n bytes (live e ∷ slots)
            ≡ some (application e.cb (take e.topic_len e.topic) bytes ∷ [])))
      ⊎ ((take n e.full_topic ≢ take n message)
          × (dispatch message n bytes (live e ∷ slots) ≡ dispatch message n bytes slots))
unfolding dispatch
dispatch_first message n bytes e slots h = ground (arith, strncmp_eq-take n e.full_topic message h)
