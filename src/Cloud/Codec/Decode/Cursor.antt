-- ===== src/Cloud/Codec/Decode/Cursor.antt =====
-- A decoder that meets the interface: it walks an item.
use pyrinas_zephyr.Common.{
  ℕ, ◌≡◌, ◌==◌, refl, arith, false, Option, none, some, List, [], ◌∷◌, is_some, if◌then◌else◌,
}
use mathlib.Core.Option.{some_inj}
use pyrinas_zephyr.Cloud.Codec.{Value}
use pyrinas_zephyr.Cloud.Codec.Qcbor.{
  Places, before, in_map, in_array, map_field, as_uint, as_text, as_bool, as_map, as_array, keep,
  enter, enter_top, next_uint, next_place, exit_array_place, exit_map_place, is_closed, Decoder,
}

abbrev pub value_or {ℓ} : {A : Type ℓ} → A → Option A → A
value_or a none = a
value_or a (some b) = b

pub value_or-some {ℓ} : {A : Type ℓ} (a : A) (o : Option A) (b : A) → o ≡ some b → value_or a o ≡ b
value_or-some a none b e = absurd (ground arith)
value_or-some a (some c) b e = some_inj.0 e

abbrev pub start : Option Value → Places
start none = none
start (some v) = some (before v ∷ [])

pub start_lem : (o : Option Value) (v : Value) → o ≡ some v → start o ≡ some (before v ∷ [])
start_lem o v e = rw e

pub error_of : (p : Places) → ((if is_some p then 0 else 1) == 0) ≡ is_some p
error_of none = refl
error_of (some s) = refl

pub finish_of : (p : Places) → ((if is_closed p then 0 else 1) == 0) ≡ is_closed p
finish_of none = refl
finish_of (some []) = refl
finish_of (some (m ∷ s)) = refl

-- A decoder whose context is where it stands. What a failing call leaves is 0, unset or false.
abbrev pub cursor : (List ℕ → Option Value) → Decoder Places
cursor parse = record {
  init = λ bytes. start (parse bytes);
  enter_map = enter_top;
  enter_map_from_map_n = λ l p. enter in_map (as_map (map_field l p)) p;
  exit_map = exit_map_place;
  enter_array_from_map_n = λ l p. enter in_array (as_array (map_field l p)) p;
  exit_array = exit_array_place;
  get_uint64_convert_all_in_map_n =
      λ l p. (value_or 0 (as_uint (map_field l p)), keep (as_uint (map_field l p)) p);
  get_uint64 = λ p. (value_or 0 (next_uint p), next_place p);
  get_text_string_in_map_n = λ l p. (as_text (map_field l p), keep (as_text (map_field l p)) p);
  get_bool_in_map_n =
      λ l p. (value_or false (as_bool (map_field l p)), keep (as_bool (map_field l p)) p);
  get_error = λ p. if is_some p then 0 else 1;
  finish = λ p. if is_closed p then 0 else 1;
  parse = parse;
  places = λ p. p;
  places-init = λ bytes v e. start_lem (parse bytes) v e;
  places-enter_map = λ p. refl;
  places-enter_map_from_map_n = λ l p. refl;
  places-exit_map = λ p. refl;
  places-enter_array_from_map_n = λ l p. refl;
  places-exit_array = λ p. refl;
  get_uint64_convert_all_in_map_n_lem =
      λ l p. (refl, λ n e. value_or-some 0 (as_uint (map_field l p)) n e);
  get_uint64_lem = λ p. (refl, λ n e. value_or-some 0 (next_uint p) n e);
  get_text_string_in_map_n_lem = λ l p. (refl, λ s e. e);
  get_bool_in_map_n_lem = λ l p. (refl, λ b e. value_or-some false (as_bool (map_field l p)) b e);
  get_error_lem = error_of;
  finish_lem = finish_of;
}
