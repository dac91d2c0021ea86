-- ===== src/Ble/Events/Calls.antt =====
-- Which handlers an event of lib/ble/ble_m.c goes to, without the search of the code.
use pyrinas_zephyr.Common.{
  ℕ, ◌+◌, ◌%◌, ◌<◌, ◌≡◌, refl, ap, Option, none, some, List, [], ◌∷◌, ◌++◌, length, take-all, arith,
  inl, inr, length-append,
}
use mathlib.Core.Path.{ap₂}
use pyrinas_zephyr.Ble.Subscriptions.{EventName, SubscriptionList, to_event_name}
use pyrinas_zephyr.Ble.Subscriptions.Search.{handler_of}
use pyrinas_zephyr.Ble.Subscriptions.Handlers.{subscriber_search-cases}
use pyrinas_zephyr.Ble.Events.{Event, Call, raw, subscribed, raw_calls, forward}

-- The call of the handler that the name has.
unfoldable pub handler_calls : Option ℕ → Event → List Call
handler_calls none evt = []
handler_calls (some handler) evt = subscribed handler evt.name.bytes evt.content.bytes ∷ []

-- An event goes to the raw handler, if there is one, and then to the handler of its name, if there
-- is one.
unfoldable pub calls_for : SubscriptionList → Option ℕ → Event → List Call
calls_for l none evt = handler_calls (handler_of l evt.name) evt
calls_for l (some handler) evt = raw handler evt ∷ handler_calls (handler_of l evt.name) evt

unfoldable pub calls_for_all : SubscriptionList → Option ℕ → List Event → List Call
calls_for_all l raw_handler [] = []
calls_for_all l raw_handler (evt ∷ evts) =
    calls_for l raw_handler evt ++ calls_for_all l raw_handler evts

subscriber_calls-handler_calls :
    (l : SubscriptionList) (evt : Event)
    → forward l none evt ≡ handler_calls (handler_of l evt.name) evt
unfolding forward handler_calls raw_calls
subscriber_calls-handler_calls l evt = elim (subscriber_search-cases l evt.name) [
  | inl (e, f) ↦ rw (e, f) refl
  | inr (j, s, e, at, f) ↦ ground arith
]

pub forward-calls_for :
    (l : SubscriptionList) (raw_handler : Option ℕ) (evt : Event)
    → forward l raw_handler evt ≡ calls_for l raw_handler evt
unfolding forward calls_for raw_calls
forward-calls_for l none evt = subscriber_calls-handler_calls l evt
forward-calls_for l (some handler) evt =
    ap (λ calls. raw handler evt ∷ calls) (subscriber_calls-handler_calls l evt)

-- A text as it is, with its terminator.
abbrev pub whole : List ℕ → EventName
whole text = record { size = length text + 1; bytes = text ++ 0 ∷ [] }

pub to_event_name-whole : (text : List ℕ) → length text < 255 → to_event_name text ≡ whole text
to_event_name-whole text h =
    let size : (length text + 1) % 256 ≡ length text + 1 = omega arith in
    ap₂ (λ size bytes. record { size = size; bytes = bytes }) size
      (take-all ((length text + 1) % 256) (text ++ 0 ∷ [])
        (omega (arith, length-append text (0 ∷ []))))
