-- ===== src/Cellular/Signal.antt =====
-- The signal strength after any reports of the modem, and the start of the reports.
use pyrinas_zephyr.Common.{
  ℕ, ◌≤◌, ◌≡◌, refl, ◌∙◌, is_some, inl, inr, arith, Option, none, some, List, [], ◌∷◌, leb,
  if◌then◌else◌, Bool-cases,
}
use pyrinas_zephyr.Cellular.{
  Cellular, started, modem_rsrp_handler, cellular_get_signal_strength, rsrp_threshold,
}

-- The reports of the modem one after the other.
pub reports : List ℕ → Cellular → Cellular
reports [] c = c
reports (v ∷ vs) c = reports vs (modem_rsrp_handler v c)

abbrev pub or_else : Option ℕ → ℕ → Option ℕ
or_else (some w) v = some w
or_else none v = if leb v rsrp_threshold then some v else none

-- The last report that stands for a signal strength, one of at most 97.
abbrev pub last_valid : List ℕ → Option ℕ
last_valid [] = none
last_valid (v ∷ vs) = or_else (last_valid vs) v

abbrev pub strength_or : ℕ → Option ℕ → ℕ
strength_or r none = r
strength_or r (some v) = v

strength_or-or_else :
    (o : Option ℕ) (v : ℕ) (c : Cellular)
    → strength_or (modem_rsrp_handler v c).rsrp o ≡ strength_or c.rsrp (or_else o v)
unfolding modem_rsrp_handler
strength_or-or_else none v c = ground arith
strength_or-or_else (some w) v c = refl

reports-from :
    (vs : List ℕ) (c : Cellular)
    → cellular_get_signal_strength (reports vs c) ≡ strength_or c.rsrp (last_valid vs)
unfolding reports cellular_get_signal_strength
reports-from [] c = refl
reports-from (v ∷ vs) c =
    reports-from vs (modem_rsrp_handler v c) ∙ strength_or-or_else (last_valid vs) v c

abbrev IsValid : Option ℕ → Type 0
IsValid none = Unit {0}
IsValid (some v) = v ≤ rsrp_threshold

or_else-IsValid : (o : Option ℕ) (v : ℕ) → IsValid o → IsValid (or_else o v)
or_else-IsValid none v h = elim (Bool-cases (leb v rsrp_threshold)) [
  | inl e ↦ rw e (ground arith)
  | inr e ↦ rw e tt
]
or_else-IsValid (some w) v h = h

last_valid-IsValid : (vs : List ℕ) → IsValid (last_valid vs)
last_valid-IsValid [] = tt
last_valid-IsValid (v ∷ vs) = or_else-IsValid (last_valid vs) v (last_valid-IsValid vs)

leb-strength_or : (o : Option ℕ) → IsValid o → leb (strength_or 255 o) rsrp_threshold ≡ is_some o
leb-strength_or none h = refl
leb-strength_or (some v) h = ground arith

-- After any reports of the modem the signal strength is that of the last report of at most 97, and
-- 255 if there was none, so that it is at most 97 exactly if there was such a report.
pub reports-last_valid :
    (vs : List ℕ)
    → (cellular_get_signal_strength (reports vs started) ≡ strength_or 255 (last_valid vs))
      × (leb (cellular_get_signal_strength (reports vs started)) rsrp_threshold
          ≡ is_some (last_valid vs))
reports-last_valid vs = (
  reports-from vs started,
  rw (reports-from vs started) (leb-strength_or (last_valid vs) (last_valid-IsValid vs)),
)
