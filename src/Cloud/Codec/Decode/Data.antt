-- ===== src/Cloud/Codec/Decode/Data.antt =====
-- `decode_ota_data` against the reader.
use pyrinas_zephyr.Common.{
  ◌>>=◌, ℕ, ◌≡◌, ◌≢◌, refl, ap, ◌∙◌, arith, Bool, ◌&&◌, Option, none, some, List, [], ◌∷◌, ◌++◌,
  drop, length, leb, ==_iff, if◌then◌else◌, Bool-cases, inl, inr,
}
use pyrinas_zephyr.Cloud.Codec.{Fields, OtaData}
use pyrinas_zephyr.Cloud.Codec.Qcbor.{field, in_map, as_text, as_bool, keep, is_closed, Decoder}
use pyrinas_zephyr.Cloud.Codec.Decode.{
  copy_text, checked, read_force, with_file, read_file, with_host, read_host,
}
use pyrinas_zephyr.Cloud.Codec.Decode.Reader.{OtaMessage, in_bytes}

-- An array after a text was copied to its start.
abbrev pub over : List ℕ → List ℕ → List ℕ
over s old = s ++ drop (length s) old

-- The end of a decoding that must not be taken for a success: a fault, or an error.
abbrev pub IsRefused : Option (OtaData × ℕ) → Type 0
IsRefused none = Unit {0}
IsRefused (some (o, err)) = err ≢ 0

abbrev pub Reads : Option (Option (OtaData × ℕ)) → Option (OtaData × ℕ) → Type 0
Reads none r = IsRefused r
Reads (some r') r = r ≡ r'

-- What the message does to the structure that held `old`, `none` where a text is too long for its
-- array.
abbrev pub outcome : OtaData → OtaMessage → Option (OtaData × ℕ)
outcome old m =
    if leb (length m.host) (length old.host) && leb (length m.file) (length old.file)
    then some (
      record {
        version = in_bytes m.version;
        host = over m.host old.host;
        file = over m.file old.file;
        force = m.force;
      },
      0,
    )
    else none

-- What the reading of the last text and of the flag should end in.
abbrev file_outcome : Option Bool → OtaData → List ℕ → Option (Option (OtaData × ℕ))
file_outcome b o file = b >>= (λ force. some (
    if leb (length file) (length o.file)
    then some (record o { file = over file o.file; force = force }, 0)
    else none))

none-Reads : (b : Option Bool) → Reads (b >>= (λ force. some none)) none
none-Reads none = tt
none-Reads (some b) = refl

abbrev pub host_outcome :
    Option (List ℕ) → Option Bool → OtaData → List ℕ → Option (Option (OtaData × ℕ))
host_outcome t b o host = t >>= (λ file. b >>= (λ force. some (
    if leb (length host) (length o.host)
    then (if leb (length file) (length o.file)
        then some (record o { host = over host o.host; file = over file o.file; force = force }, 0)
        else none)
    else none)))

none-Reads_file :
    (t : Option (List ℕ)) (b : Option Bool)
    → Reads (t >>= (λ file. b >>= (λ force. some none))) none
none-Reads_file none b = tt
none-Reads_file (some file) b = none-Reads b

module _ {D : Type 0} (q : Decoder D) where
  open q use {places}

  pub checked-IsRefused :
      (o : OtaData) (dc : D) (next : D → Option (OtaData × ℕ))
      → places dc ≡ none
      → IsRefused (checked q o dc next)
  unfolding checked
  checked-IsRefused o dc next e = rw (q.get_error_lem, e) (λ h. ground (arith, q.finish_lem dc, e))

  closes : (dc : D) → places dc ≡ some [] → q.finish dc ≡ 0
  closes dc e = (==_iff (q.finish dc) 0).0 (q.finish_lem dc ∙ ap is_closed e)

  module _ (fs : Fields) where
    -- The context stands in the outer map, whose fields are `fs`.
    abbrev pub Inside : D → Type 0
    Inside dc = places dc ≡ some (in_map fs ∷ [])

    exits : (dc : D) → Inside dc → q.finish (q.exit_map dc) ≡ 0
    exits dc e = closes (q.exit_map dc) (q.places-exit_map dc ∙ rw e refl)

    text-places :
        (l : ℕ) (dc : D) (t : Option (List ℕ))
        → Inside dc
        → as_text (field l fs) ≡ t
        → places (q.get_text_string_in_map_n l dc).1 ≡ keep t (some (in_map fs ∷ []))
    text-places l dc t e h = (q.get_text_string_in_map_n_lem l dc).0 ∙ rw (e, h)

    bool-places :
        (l : ℕ) (dc : D) (b : Option Bool)
        → Inside dc
        → as_bool (field l fs) ≡ b
        → places (q.get_bool_in_map_n l dc).1 ≡ keep b (some (in_map fs ∷ []))
    bool-places l dc b e h = (q.get_bool_in_map_n_lem l dc).0 ∙ rw (e, h)

    read_force-next :
        (o : OtaData) (dc : D)
        → Inside (q.get_bool_in_map_n 3 dc).1
        → read_force q o dc
          ≡ some (
            record o { force = (q.get_bool_in_map_n 3 dc).0 },
            q.finish (q.exit_map (q.get_bool_in_map_n 3 dc).1),
          )
    unfolding read_force checked
    read_force-next o dc stay = rw (q.get_error_lem, stay)

    force-Reads :
        (o : OtaData) (dc : D)
        → Inside dc
        → (b : Option Bool) → as_bool (field 3 fs) ≡ b
        → Reads (b >>= (λ force. some (some (record o { force = force }, 0)))) (read_force q o dc)
    unfolding read_force
    force-Reads o dc e none h =
        let o' = record o { force = (q.get_bool_in_map_n 3 dc).0 } in
        checked-IsRefused o' (q.get_bool_in_map_n 3 dc).1 (λ c. some (o', q.finish (q.exit_map c)))
          (bool-places 3 dc none e h)
    force-Reads o dc e (some b) h =
        let stay = bool-places 3 dc (some b) e h in
        let got = (q.get_bool_in_map_n_lem 3 dc).1 b (rw e h) in
        rw (read_force-next o dc stay, got, exits _ stay)

    with_file-none : (o : OtaData) (dc : D) → with_file q o dc none ≡ none
    unfolding with_file
    with_file-none o dc = refl

    file-IsRefused :
        (o : OtaData) (dc : D) (copied : Option (List ℕ))
        → places dc ≡ none
        → IsRefused (with_file q o dc copied)
    unfolding with_file
    file-IsRefused o dc none e = tt
    file-IsRefused o dc (some file) e =
        checked-IsRefused (record o { file = file }) dc (read_force q (record o { file = file })) e

    with_file-next :
        (o : OtaData) (dc : D) (file : List ℕ)
        → Inside dc
        → with_file q o dc (some file) ≡ read_force q (record o { file = file }) dc
    unfolding with_file checked
    with_file-next o dc file e = rw (q.get_error_lem, e)

    file-copied :
        (o : OtaData) (dc : D) (file : List ℕ)
        → Inside dc
        → Reads
            (file_outcome (as_bool (field 3 fs)) o file)
            (with_file q o dc (copy_text (some file) o.file))
    unfolding copy_text
    file-copied o dc file e = elim (Bool-cases (leb (length file) (length o.file))) [
      | inl fits ↦
          rw (fits, with_file-next o dc (over file o.file) e)
            (force-Reads (record o { file = over file o.file }) dc e _ refl)
      | inr long ↦ rw (long, with_file-none) (none-Reads (as_bool (field 3 fs)))
    ]

    file-Reads :
        (o : OtaData) (dc : D)
        → Inside dc
        → (t : Option (List ℕ)) → as_text (field 2 fs) ≡ t
        → Reads (t >>= (λ file. file_outcome (as_bool (field 3 fs)) o file)) (read_file q o dc)
    unfolding read_file
    file-Reads o dc e none h =
        file-IsRefused o _ (copy_text (q.get_text_string_in_map_n 2 dc).0 o.file)
          (text-places 2 dc none e h)
    file-Reads o dc e (some file) h =
        let stay = text-places 2 dc (some file) e h in
        let got = (q.get_text_string_in_map_n_lem 2 dc).1 file (rw e h) in
        rw got (file-copied o _ file stay)

    host-IsRefused :
        (o : OtaData) (dc : D) (copied : Option (List ℕ))
        → places dc ≡ none
        → IsRefused (with_host q o dc copied)
    unfolding with_host
    host-IsRefused o dc none e = tt
    host-IsRefused o dc (some host) e =
        checked-IsRefused (record o { host = host }) dc (read_file q (record o { host = host })) e

    with_host-next :
        (o : OtaData) (dc : D) (host : List ℕ)
        → Inside dc
        → with_host q o dc (some host) ≡ read_file q (record o { host = host }) dc
    unfolding with_host checked
    with_host-next o dc host e = rw (q.get_error_lem, e)

    with_host-none : (o : OtaData) (dc : D) → with_host q o dc none ≡ none
    unfolding with_host
    with_host-none o dc = refl

    host-copied :
        (o : OtaData) (dc : D) (host : List ℕ)
        → Inside dc
        → Reads
            (host_outcome (as_text (field 2 fs)) (as_bool (field 3 fs)) o host)
            (with_host q o dc (copy_text (some host) o.host))
    unfolding copy_text
    host-copied o dc host e = elim (Bool-cases (leb (length host) (length o.host))) [
      | inl fits ↦
          rw (fits, with_host-next o dc (over host o.host) e)
            (file-Reads (record o { host = over host o.host }) dc e _ refl)
      | inr long ↦
          rw (long, with_host-none) (none-Reads_file (as_text (field 2 fs)) (as_bool (field 3 fs)))
    ]

    pub host-Reads :
        (o : OtaData) (dc : D)
        → Inside dc
        → (t : Option (List ℕ)) → as_text (field 1 fs) ≡ t
        → Reads
            (t >>= (λ host. host_outcome (as_text (field 2 fs)) (as_bool (field 3 fs)) o host))
            (read_host q o dc)
    unfolding read_host
    host-Reads o dc e none h =
        host-IsRefused o _ (copy_text (q.get_text_string_in_map_n 1 dc).0 o.host)
          (text-places 1 dc none e h)
    host-Reads o dc e (some host) h =
        let stay = text-places 1 dc (some host) e h in
        let got = (q.get_text_string_in_map_n_lem 1 dc).1 host (rw e h) in
        rw got (host-copied o _ host stay)
