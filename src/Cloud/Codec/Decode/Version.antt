-- ===== src/Cloud/Codec/Decode/Version.antt =====
-- `decode_ota_version` against the reader.
use mathlib.Core.Option.{some_inj}
use mathlib.Core.Path.{ap₂}
use pyrinas_zephyr.Common.{
  bind_some, ◌>>=◌, ℕ, zero, suc, ◌≡◌, refl, sym, ap, ◌∙◌, arith, Option, none, some, List, ◌∷◌,
  map, pos, negsuc, Option-cases, inl, inr,
}
use pyrinas_zephyr.Cloud.Version.{OtaVersion, hash_size}
use pyrinas_zephyr.Cloud.Codec.{int, text, bool, array, map_of, Items, nil, cons, Fields}
use pyrinas_zephyr.Cloud.Codec.Qcbor.{
  field, Place, in_map, in_array, Places, map_field, as_uint, as_map, as_array, keep, enter,
  next_place, exit_array_place, exit_map_place, Decoder,
}
use pyrinas_zephyr.Cloud.Codec.Decode.{read_hash, decode_ota_version}
use pyrinas_zephyr.Cloud.Codec.Decode.Reader.{read_numbers, read_fields, in_bytes, byte_of}

-- Where `read_hash` gets to.
hash_places : ℕ → Places → Places
hash_places zero p = p
hash_places (suc n) p = hash_places n (next_place p)

hash_places-none : (n : ℕ) → hash_places n none ≡ none
unfolding hash_places
hash_places-none zero = refl
hash_places-none (suc n) = hash_places-none n

keep-rest :
    (a : ℕ) (o : Option (List ℕ)) (p : Places) → keep o p ≡ keep (o >>= (λ rest. some (a ∷ rest))) p
keep-rest a none p = refl
keep-rest a (some rest) p = refl

exit_array_place-hash_places :
    (n : ℕ) (xs : Items) (s : List Place)
    → exit_array_place (hash_places n (some (in_array xs ∷ s))) ≡ keep (read_numbers n xs) (some s)
unfolding hash_places
exit_array_place-hash_places zero xs s = refl
exit_array_place-hash_places (suc n) nil s = rw hash_places-none
exit_array_place-hash_places (suc n) (cons (int (pos a)) xs) s =
    exit_array_place-hash_places n xs s ∙ keep-rest a (read_numbers n xs) (some s)
exit_array_place-hash_places (suc n) (cons (int (negsuc a)) xs) s = rw hash_places-none
exit_array_place-hash_places (suc n) (cons (text a) xs) s = rw hash_places-none
exit_array_place-hash_places (suc n) (cons (bool a) xs) s = rw hash_places-none
exit_array_place-hash_places (suc n) (cons (array a) xs) s = rw hash_places-none
exit_array_place-hash_places (suc n) (cons (map_of a) xs) s = rw hash_places-none

-- Where `decode_ota_version` gets to.
number_places : ℕ → Places → Places
number_places l p = keep (as_uint (map_field l p)) p

pub version_places : ℕ → Places → Places
unfolding number_places
version_places l p =
    let p0 = enter in_map (as_map (map_field l p)) p in
    let p4 = number_places 3 (number_places 2 (number_places 1 (number_places 0 p0))) in
    exit_map_place
      (exit_array_place (hash_places hash_size (enter in_array (as_array (map_field 4 p4)) p4)))

pub version_places-none : (l : ℕ) → version_places l none ≡ none
unfolding version_places hash_places
version_places-none l = refl

-- A call after a failed one fails, so that a run of calls fails where its first one does.
keep-call :
    (T : Places → Places)
    → T none ≡ none
    → (o : Option ℕ) (p : Places) → T (keep o p) ≡ keep o (T p)
keep-call T h none p = h
keep-call T h (some n) p = refl

-- The way through the hash and out of the map, from within it.
tail_places : Places → Places
tail_places p =
    exit_map_place
      (exit_array_place (hash_places hash_size (enter in_array (as_array (map_field 4 p)) p)))

tail_places-none : tail_places none ≡ none
unfolding tail_places
tail_places-none = rw (hash_places-none hash_size)

exit-keep :
    (o : Option (List ℕ)) (f : List ℕ → OtaVersion) (m : Place) (s : List Place)
    → exit_map_place (keep o (some (m ∷ s)))
      ≡ keep (o >>= (λ hash. some (f hash))) (exit_map_place (some (m ∷ s)))
exit-keep none f m s = refl
exit-keep (some hash) f m s = refl

tail_places-in_map :
    (o : Option Items) (f : List ℕ → OtaVersion) (gs : Fields) (s : List Place)
    → as_array (field 4 gs) ≡ o
    → tail_places (some (in_map gs ∷ s))
      ≡ keep (o >>= (λ items. read_numbers hash_size items >>= (λ hash. some (f hash)))) (some s)
unfolding tail_places
tail_places-in_map none f gs s e = rw (e, hash_places-none hash_size)
tail_places-in_map (some items) f gs s e =
    rw (e, exit_array_place-hash_places hash_size items (in_map gs ∷ s))
      (exit-keep (read_numbers hash_size items) f (in_map gs) s)

number_places-in_map :
    (l : ℕ) (gs : Fields) (s : List Place)
    → number_places l (some (in_map gs ∷ s)) ≡ keep (as_uint (field l gs)) (some (in_map gs ∷ s))
unfolding number_places
number_places-in_map l gs s = refl

number_places-keep :
    (l : ℕ) (o : Option ℕ) (p : Places) → number_places l (keep o p) ≡ keep o (number_places l p)
unfolding number_places
number_places-keep l = keep-call (number_places l) refl

tail_places-keep : (o : Option ℕ) (p : Places) → tail_places (keep o p) ≡ keep o (tail_places p)
tail_places-keep = keep-call tail_places tail_places-none

version_of : ℕ → ℕ → ℕ → ℕ → List ℕ → OtaVersion
version_of a b c d hash = record { major = a; minor = b; patch = c; commit = d; hash = hash }

keep-four :
    (o0 o1 o2 o3 : Option ℕ) (f : ℕ → ℕ → ℕ → ℕ → Option OtaVersion) (p q : Places)
    → ((a b c d : ℕ) → q ≡ keep (f a b c d) p)
    → keep o0 (keep o1 (keep o2 (keep o3 q)))
      ≡ keep (o0 >>= (λ a. o1 >>= (λ b. o2 >>= (λ c. o3 >>= (λ d. f a b c d))))) p
keep-four none o1 o2 o3 f p q h = refl
keep-four (some a) none o2 o3 f p q h = refl
keep-four (some a) (some b) none o3 f p q h = refl
keep-four (some a) (some b) (some c) none f p q h = refl
keep-four (some a) (some b) (some c) (some d) f p q h = h a b c d

fields-places :
    (gs : Fields) (s : List Place)
    → tail_places (
        number_places 3
          (number_places 2 (number_places 1 (number_places 0 (some (in_map gs ∷ s))))))
      ≡ keep (read_fields gs) (some s)
unfolding version_of
fields-places gs s =
    simp (number_places-in_map, number_places-keep, tail_places-keep)
      (keep-four (as_uint (field 0 gs)) (as_uint (field 1 gs)) (as_uint (field 2 gs))
        (as_uint (field 3 gs)) _ (some s) _
        (λ a b c d. tail_places-in_map _ (version_of a b c d) gs s refl))

-- `decode_ota_version` comes back to the map that it started in exactly if the reader finds all
-- the fields.
pub version_places-in_map :
    (l : ℕ) (fs : Fields) (s : List Place)
    → version_places l (some (in_map fs ∷ s))
      ≡ keep (as_map (field l fs) >>= read_fields) (some (in_map fs ∷ s))
unfolding version_places tail_places
version_places-in_map l fs s = elim (Option-cases (as_map (field l fs))) [
  | inl e ↦ rw e (rw (hash_places-none hash_size))
  | inr (gs, e) ↦ rw e (fields-places gs (in_map fs ∷ s))
]

module _ {D : Type 0} (q : Decoder D) where
  open q use {places}

  places-uint :
      (l : ℕ) (dc : D)
      → places (q.get_uint64_convert_all_in_map_n l dc).1 ≡ number_places l (places dc)
  unfolding number_places
  places-uint l dc = (q.get_uint64_convert_all_in_map_n_lem l dc).0

  places-read_hash : (n : ℕ) (dc : D) → places (read_hash q n dc).1 ≡ hash_places n (places dc)
  unfolding read_hash hash_places
  places-read_hash zero dc = refl
  places-read_hash (suc n) dc =
      places-read_hash n (q.get_uint64 dc).1 ∙ ap (hash_places n) (q.get_uint64_lem dc).0

  pub places-decode_ota_version :
      (l : ℕ) (dc : D) → places (decode_ota_version q l dc).1 ≡ version_places l (places dc)
  unfolding decode_ota_version version_places
  places-decode_ota_version l dc = simp (
    q.places-exit_map, q.places-exit_array, places-read_hash, q.places-enter_array_from_map_n,
    places-uint, q.places-enter_map_from_map_n,
  )

  -- The numbers of the hash, each in a byte.
  read_hash-numbers :
      (n : ℕ) (xs : Items) (s : List Place) (dc : D)
      → places dc ≡ some (in_array xs ∷ s)
      → (r : List ℕ) → read_numbers n xs ≡ some r
      → (read_hash q n dc).0 ≡ map byte_of r
  unfolding read_hash
  read_hash-numbers zero xs s dc e r h = ap (map byte_of) (some_inj.0 h)
  read_hash-numbers (suc n) (cons (int (pos a)) xs) s dc e r h =
      let (t, ran, shape) = bind_some (read_numbers n xs) _ r h in
      rw (sym (some_inj.0 shape)) (
        ap₂ ◌∷◌ (ap byte_of ((q.get_uint64_lem dc).1 a (rw e)))
          (read_hash-numbers n xs s (q.get_uint64 dc).1 ((q.get_uint64_lem dc).0 ∙ rw e) t ran))
  read_hash-numbers (suc n) xs s dc e r h = absurd (ground arith)

  uint-reads :
      (l n : ℕ) (gs : Fields) (s : List Place) (dc : D)
      → places dc ≡ some (in_map gs ∷ s)
      → as_uint (field l gs) ≡ some n
      → ((q.get_uint64_convert_all_in_map_n l dc).0 ≡ n)
        × (places (q.get_uint64_convert_all_in_map_n l dc).1 ≡ some (in_map gs ∷ s))
  uint-reads l n gs s dc e h = (
    (q.get_uint64_convert_all_in_map_n_lem l dc).1 n (rw (e, map_field) h),
    (q.get_uint64_convert_all_in_map_n_lem l dc).0 ∙ rw (e, h) refl,
  )

  array-reads :
      (items : Items) (gs : Fields) (s : List Place) (dc : D)
      → places dc ≡ some (in_map gs ∷ s)
      → as_array (field 4 gs) ≡ some items
      → places (q.enter_array_from_map_n 4 dc) ≡ some (in_array items ∷ in_map gs ∷ s)
  array-reads items gs s dc e h = q.places-enter_array_from_map_n 4 dc ∙ rw (e, h) refl

  -- Where the reader finds all the fields, `decode_ota_version` stores them, each number in a byte.
  pub decode_ota_version-stores :
      (l : ℕ) (fs gs : Fields) (s : List Place) (v : OtaVersion) (dc : D)
      → places dc ≡ some (in_map fs ∷ s)
      → as_map (field l fs) ≡ some gs
      → read_fields gs ≡ some v
      → (decode_ota_version q l dc).0 ≡ in_bytes v
  unfolding decode_ota_version
  decode_ota_version-stores l fs gs s v dc e m h =
      let (a, ea, ha) = bind_some (as_uint (field 0 gs)) _ v h in
      let (b, eb, hb) = bind_some (as_uint (field 1 gs)) _ v ha in
      let (c, ec, hc) = bind_some (as_uint (field 2 gs)) _ v hb in
      let (d, ed, hd) = bind_some (as_uint (field 3 gs)) _ v hc in
      let (items, ei, hi) = bind_some (as_array (field 4 gs)) _ v hd in
      let (hash, eh, hh) = bind_some (read_numbers hash_size items) _ v hi in
      let entered = q.places-enter_map_from_map_n l dc ∙ rw (e, m) refl in
      let (a', ra) = uint-reads 0 a gs (in_map fs ∷ s) (q.enter_map_from_map_n l dc) entered ea in
      let (b', rb) = uint-reads 1 b gs (in_map fs ∷ s) _ ra eb in
      let (c', rc) = uint-reads 2 c gs (in_map fs ∷ s) _ rb ec in
      let (d', rd) = uint-reads 3 d gs (in_map fs ∷ s) _ rc ed in
      let stored =
        read_hash-numbers hash_size items (in_map gs ∷ in_map fs ∷ s) _
          (array-reads items gs (in_map fs ∷ s) _ rd ei) hash eh in
      rw (sym (some_inj.0 hh), a', b', c', d', stored)
