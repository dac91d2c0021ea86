-- ===== src/Cloud/Codec/Qcbor.antt =====
-- QCBOR's decoder as an interface: where a decoding context stands in an item, and what the calls of
-- the code do there.
use pyrinas_zephyr.Common.{
  ℕ, ◌≡◌, Bool, true, false, Option, none, some, List, [], ◌∷◌, ◌==◌, if◌then◌else◌, is_some, pos,
}
use pyrinas_zephyr.Cloud.Codec.{
  Value, int, text, bool, array, map_of, Items, cons, Fields, end, entry,
}

has_label : ℕ → Fields → Bool
has_label label end = false
has_label label (entry l v fs) = if l == label then true else has_label label fs

-- The value of a label that stands once in the map.
unfoldable pub field : ℕ → Fields → Option Value
unfolding has_label
field label end = none
field label (entry l v fs) =
    let rest = field label fs in
    if l == label then (if has_label label fs then none else some v) else rest

-- Where a decoding context stands: before an item, in a map, or in an array with the items that it
-- has not read; the innermost place first.
pub data Place : Type 0 where
  before : Value → Place
  in_map : Fields → Place
  in_array : Items → Place

-- `none` once a call has failed: QCBOR keeps the first error, and the calls that follow do nothing.
abbrev pub Places : Type 0
Places = Option (List Place)

abbrev pub map_field : ℕ → Places → Option Value
map_field label (some (in_map fs ∷ s)) = field label fs
map_field label _ = none

abbrev pub as_uint : Option Value → Option ℕ
as_uint (some (int (pos n))) = some n
as_uint _ = none

abbrev pub as_text : Option Value → Option (List ℕ)
as_text (some (text s)) = some s
as_text _ = none

abbrev pub as_bool : Option Value → Option Bool
as_bool (some (bool b)) = some b
as_bool _ = none

abbrev pub as_map : Option Value → Option Fields
as_map (some (map_of fs)) = some fs
as_map _ = none

abbrev pub as_array : Option Value → Option Items
as_array (some (array xs)) = some xs
as_array _ = none

-- The places behind a call that reads a value and stays where it is.
abbrev pub keep {ℓ} : {A : Type ℓ} → Option A → Places → Places
keep none p = none
keep (some a) p = p

abbrev pub enter {ℓ} : {A : Type ℓ} → (A → Place) → Option A → Places → Places
enter f (some a) (some s) = some (f a ∷ s)
enter f _ _ = none

abbrev pub enter_top : Places → Places
enter_top (some (before (map_of fs) ∷ s)) = some (in_map fs ∷ s)
enter_top _ = none

abbrev pub next_uint : Places → Option ℕ
next_uint (some (in_array (cons (int (pos n)) xs) ∷ s)) = some n
next_uint _ = none

abbrev pub next_place : Places → Places
next_place (some (in_array (cons (int (pos n)) xs) ∷ s)) = some (in_array xs ∷ s)
next_place _ = none

abbrev pub exit_array_place : Places → Places
exit_array_place (some (in_array xs ∷ s)) = some s
exit_array_place _ = none

abbrev pub exit_map_place : Places → Places
exit_map_place (some (in_map fs ∷ s)) = some s
exit_map_place _ = none

-- Every item has been left and there was no error.
abbrev pub is_closed : Places → Bool
is_closed (some []) = true
is_closed _ = false

-- QCBOR's decoding context `D`, in QCBOR_DECODE_MODE_NORMAL, with what its documentation says of the
-- calls that the code makes. `parse` gives the item whose encoding the bytes are. A number that a
-- failing call leaves in its output is any number, and a text that a call leaves unset is `none`.
pub record Decoder (D : Type 0) : Type 0 where
  pub init : List ℕ → D
  pub enter_map : D → D
  pub enter_map_from_map_n : ℕ → D → D
  pub exit_map : D → D
  pub enter_array_from_map_n : ℕ → D → D
  pub exit_array : D → D
  pub get_uint64_convert_all_in_map_n : ℕ → D → ℕ × D
  pub get_uint64 : D → ℕ × D
  pub get_text_string_in_map_n : ℕ → D → Option (List ℕ) × D
  pub get_bool_in_map_n : ℕ → D → Bool × D
  pub get_error : D → ℕ
  pub finish : D → ℕ
  pub parse : List ℕ → Option Value
  pub places : D → Places
  pub places-init :
      (bytes : List ℕ) (v : Value)
      → parse bytes ≡ some v
      → places (init bytes) ≡ some (before v ∷ [])
  pub places-enter_map : (d : D) → places (enter_map d) ≡ enter_top (places d)
  pub places-enter_map_from_map_n :
      (l : ℕ) (d : D)
      → places (enter_map_from_map_n l d)
        ≡ enter in_map (as_map (map_field l (places d))) (places d)
  pub places-exit_map : (d : D) → places (exit_map d) ≡ exit_map_place (places d)
  pub places-enter_array_from_map_n :
      (l : ℕ) (d : D)
      → places (enter_array_from_map_n l d)
        ≡ enter in_array (as_array (map_field l (places d))) (places d)
  pub places-exit_array : (d : D) → places (exit_array d) ≡ exit_array_place (places d)
  pub get_uint64_convert_all_in_map_n_lem :
      (l : ℕ) (d : D)
      → (places (get_uint64_convert_all_in_map_n l d).1
          ≡ keep (as_uint (map_field l (places d))) (places d))
        × ((n : ℕ)
            → as_uint (map_field l (places d)) ≡ some n
            → (get_uint64_convert_all_in_map_n l d).0 ≡ n)
  pub get_uint64_lem :
      (d : D)
      → (places (get_uint64 d).1 ≡ next_place (places d))
        × ((n : ℕ) → next_uint (places d) ≡ some n → (get_uint64 d).0 ≡ n)
  pub get_text_string_in_map_n_lem :
      (l : ℕ) (d : D)
      → (places (get_text_string_in_map_n l d).1
          ≡ keep (as_text (map_field l (places d))) (places d))
        × ((s : List ℕ)
            → as_text (map_field l (places d)) ≡ some s
            → (get_text_string_in_map_n l d).0 ≡ some s)
  pub get_bool_in_map_n_lem :
      (l : ℕ) (d : D)
      → (places (get_bool_in_map_n l d).1 ≡ keep (as_bool (map_field l (places d))) (places d))
        × ((b : Bool) → as_bool (map_field l (places d)) ≡ some b → (get_bool_in_map_n l d).0 ≡ b)
  pub get_error_lem : (d : D) → (get_error d == 0) ≡ is_some (places d)
  pub finish_lem : (d : D) → (finish d == 0) ≡ is_closed (places d)
