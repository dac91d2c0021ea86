-- ===== src/Cloud/Codec/Decode/Messages.antt =====
-- `decode_ota_data` on whole messages: against the reader, on the messages that the server sends,
-- and on one after another.
use pyrinas_zephyr.Common.{
  ◌>>=◌, ℕ, ◌≡◌, refl, ◌∙◌, Bool, Option, none, some, List, [], ◌∷◌, length, leb, if◌then◌else◌,
  Bool-cases, inl, inr,
}
use pyrinas_zephyr.Cloud.Version.{OtaVersion}
use pyrinas_zephyr.Cloud.Codec.{Value, int, text, bool, array, map_of, Fields, OtaData}
use pyrinas_zephyr.Cloud.Codec.Qcbor.{
  field, before, in_map, enter_top, as_text, as_bool, as_map, keep, Decoder,
}
use pyrinas_zephyr.Cloud.Codec.Decode.{
  checked, read_host, read_version, decode_ota_data, decode_ota_version,
}
use pyrinas_zephyr.Cloud.Codec.Decode.Reader.{OtaMessage, read_fields, read_message, in_bytes}
use pyrinas_zephyr.Cloud.Codec.Decode.Version.{
  version_places-in_map, places-decode_ota_version, decode_ota_version-stores,
}
use pyrinas_zephyr.Cloud.Codec.Decode.Data.{
  over, IsRefused, Reads, outcome, host_outcome, Inside, checked-IsRefused, host-Reads,
}

message_of : OtaVersion → List ℕ → List ℕ → Bool → OtaMessage
message_of v host file force = record { version = v; host = host; file = file; force = force }

outcome-fits :
    (old : OtaData) (v : OtaVersion) (host file : List ℕ) (b : Bool)
    → (if leb (length host) (length old.host)
        then (if leb (length file) (length old.file)
            then some (
              record old {
                version = in_bytes v;
                host = over host old.host;
                file = over file old.file;
                force = b;
              },
              0,
            )
            else none)
        else none)
      ≡ outcome old (message_of v host file b)
unfolding message_of
outcome-fits old v host file b = elim (Bool-cases (leb (length host) (length old.host))) [
  | inl h ↦ rw h
  | inr h ↦ rw h
]

-- The parts that are read one by one make up the message.
parts-Reads :
    (old : OtaData) (v : OtaVersion) (h t : Option (List ℕ)) (b : Option Bool)
    (r : Option (OtaData × ℕ))
    → Reads (h >>= (λ host. host_outcome t b (record old { version = in_bytes v }) host)) r
    → Reads
        ((h >>= (λ host. t >>= (λ file. b >>= (λ force. some (message_of v host file force)))))
          >>= (λ m. some (outcome old m)))
        r
parts-Reads old v none t b r h = h
parts-Reads old v (some host) none b r h = h
parts-Reads old v (some host) (some file) none r h = h
parts-Reads old v (some host) (some file) (some force) r h = h ∙ outcome-fits old v host file force

module _ {D : Type 0} (q : Decoder D) where
  open q use {places}

  read_version-IsRefused :
      (old : OtaData) (dc : D)
      → places (decode_ota_version q 0 dc).1 ≡ none
      → IsRefused (read_version q old dc)
  unfolding read_version
  read_version-IsRefused old dc e =
      let o' = record old { version = (decode_ota_version q 0 dc).0 } in
      checked-IsRefused q o' (decode_ota_version q 0 dc).1 (read_host q o') e

  read_version-next :
      (old : OtaData) (dc : D) (fs : Fields)
      → Inside q fs (decode_ota_version q 0 dc).1
      → read_version q old dc
        ≡ read_host q
            (record old { version = (decode_ota_version q 0 dc).0 })
            (decode_ota_version q 0 dc).1
  unfolding read_version checked
  read_version-next old dc fs e = rw (q.get_error_lem, e)

  module _ (old : OtaData) (dc : D) (fs : Fields) where
    -- What is left of the message behind its version.
    abbrev behind : OtaVersion → Option OtaMessage
    behind v = as_text (field 1 fs) >>= (λ host.
        as_text (field 2 fs)
        >>= (λ file. as_bool (field 3 fs) >>= (λ force. some (message_of v host file force))))

    version-places :
        Inside q fs dc
        → places (decode_ota_version q 0 dc).1
          ≡ keep (as_map (field 0 fs) >>= read_fields) (some (in_map fs ∷ []))
    version-places e = places-decode_ota_version q 0 dc ∙ rw e (version_places-in_map 0 fs [])

    fields-Reads :
        (gs : Fields) (w : Option OtaVersion)
        → Inside q fs dc
        → as_map (field 0 fs) ≡ some gs
        → read_fields gs ≡ w
        → Reads ((w >>= behind) >>= (λ m. some (outcome old m))) (read_version q old dc)
    fields-Reads gs none e h r = read_version-IsRefused old dc (version-places e ∙ rw (h, ◌>>=◌, r))
    fields-Reads gs (some v) e h r =
        let stay : Inside q fs (decode_ota_version q 0 dc).1 =
          version-places e ∙ rw (h, ◌>>=◌, r) in
        rw (read_version-next old dc fs stay, decode_ota_version-stores q 0 fs gs [] v dc e h r)
          (parts-Reads old v _ (as_text (field 2 fs)) (as_bool (field 3 fs)) _
            (host-Reads q fs (record old { version = in_bytes v }) _ stay _ refl))

    version-Reads :
        (n : Option Fields)
        → Inside q fs dc
        → as_map (field 0 fs) ≡ n
        → Reads
            ((n >>= (λ gs. read_fields gs >>= behind)) >>= (λ m. some (outcome old m)))
            (read_version q old dc)
    version-Reads none e h = read_version-IsRefused old dc (version-places e ∙ rw h)
    version-Reads (some gs) e h = fields-Reads gs (read_fields gs) e h refl

  message-Reads :
      (old : OtaData) (dc : D) (v : Value)
      → places dc ≡ enter_top (some (before v ∷ []))
      → Reads
          (read_message v >>= (λ m. some (outcome old m)))
          (checked q old dc (read_version q old))
  unfolding message_of checked
  message-Reads old dc (map_of fs) e =
      rw (q.get_error_lem, e) (version-Reads old dc fs (as_map (field 0 fs)) e refl)
  message-Reads old dc (int n) e = checked-IsRefused q old dc (read_version q old) e
  message-Reads old dc (text s) e = checked-IsRefused q old dc (read_version q old) e
  message-Reads old dc (bool b) e = checked-IsRefused q old dc (read_version q old) e
  message-Reads old dc (array xs) e = checked-IsRefused q old dc (read_version q old) e

  -- For bytes that are the encoding of one item, `decode_ota_data` agrees with the reader of whole
  -- items: where that finds a version with its hash, two texts and a flag, the structure takes them,
  -- each number cut to a byte and each text at the start of its array, and the result is 0, or it is
  -- a fault if one of the texts is longer than its array; where it does not, the result is a fault
  -- or an error.
  pub decode_ota_data-Reads :
      (old : OtaData) (bytes : List ℕ) (v : Value)
      → q.parse bytes ≡ some v
      → Reads (read_message v >>= (λ m. some (outcome old m))) (decode_ota_data q old bytes)
  unfolding decode_ota_data
  decode_ota_data-Reads old bytes v e =
      message-Reads old (q.enter_map (q.init bytes)) v
        (q.places-enter_map (q.init bytes) ∙ rw (q.places-init bytes v e))
