-- ===== src/Cloud/Codec/Decode/Replies.antt =====
-- The messages that announce an update, decoded into the static structure `ota_data`, and what
-- `fota_start_fn` reads from it as C strings.
use mathlib.Core.Option
use mathlib.Core.Option.{some_inj}
use mathlib.Core.Path.{ap₂}
use pyrinas_zephyr.Common.{
  ◌>>=◌, ℕ, zero, suc, ◌≤◌, ◌<◌, ◌≡◌, refl, sym, ap, ◌∙◌, arith, false, Option, none, some, List,
  [], ◌∷◌, ◌++◌, map, drop, replicate, length, append-nil, IsText, pos, length-append, length-drop,
}
use pyrinas_zephyr.Cloud.Version.{OtaVersion, HasHash, hash_size}
use pyrinas_zephyr.Cloud.Codec.{
  Value, int, text, bool, array, map_of, Items, nil, cons, end, entry, OtaData,
}
use pyrinas_zephyr.Cloud.Codec.Qcbor.{Decoder, field}
use pyrinas_zephyr.Cloud.Codec.Decode.{decode_ota_data}
use pyrinas_zephyr.Cloud.Codec.Decode.Reader.{
  OtaMessage, read_message, read_numbers, in_bytes, byte_of,
}
use pyrinas_zephyr.Cloud.Codec.Decode.Data.{over, outcome, Reads}
use pyrinas_zephyr.Cloud.Codec.Decode.Messages.{decode_ota_data-Reads}

-- The item of a message, with the labels that the code looks for.
abbrev pub number_items : List ℕ → Items
number_items [] = nil
number_items (n ∷ ns) = cons (int (pos n)) (number_items ns)

abbrev pub version_item : OtaVersion → Value
version_item v = map_of (
    entry 0 (int (pos v.major)) (
      entry 1 (int (pos v.minor)) (
        entry 2 (int (pos v.patch))
          (entry 3 (int (pos v.commit)) (entry 4 (array (number_items v.hash)) end)))))

abbrev pub ota_item : OtaMessage → Value
ota_item m = map_of (
    entry 0 (version_item m.version)
      (entry 1 (text m.host) (entry 2 (text m.file) (entry 3 (bool m.force) end))))

abbrev pub AreBytes : List ℕ → Type 0
AreBytes [] = Unit {0}
AreBytes (b ∷ bs) = (b < 256) × AreBytes bs

-- A version that fits its structure, and a message with texts that fit their arrays with a terminator.
abbrev pub IsByteVersion : OtaVersion → Type 0
IsByteVersion v =
    (v.major < 256)
    × (v.minor < 256)
    × (v.patch < 256)
    × (v.commit < 256)
    × AreBytes v.hash
    × HasHash v

abbrev pub IsOta : OtaMessage → Type 0
IsOta m =
    IsByteVersion m.version
    × IsText m.host
    × (length m.host < 128)
    × IsText m.file
    × (length m.file < 128)

-- `ota_data` as the program starts.
abbrev pub zeroed : OtaVersion → OtaData
zeroed v = record { version = v; host = replicate 128 0; file = replicate 128 0; force = false }

read_numbers-number_items : (ns : List ℕ) → read_numbers (length ns) (number_items ns) ≡ some ns
read_numbers-number_items [] = refl
read_numbers-number_items (n ∷ ns) = rw (read_numbers-number_items ns)

hash_numbers :
    (hash : List ℕ)
    → length hash ≡ hash_size
    → read_numbers hash_size (number_items hash) ≡ some hash
hash_numbers hash h =
    ap (λ n. read_numbers n (number_items hash)) (sym h) ∙ read_numbers-number_items hash

pub read_message-ota_item :
    (m : OtaMessage) → HasHash m.version → read_message (ota_item m) ≡ some m
unfolding field
read_message-ota_item m h = rw (hash_numbers m.version.hash h)

byte-same : (b : ℕ) → b < 256 → byte_of b ≡ b
byte-same b h = omega arith

map-byte_of : (bs : List ℕ) → AreBytes bs → map byte_of bs ≡ bs
map-byte_of [] h = refl
map-byte_of (b ∷ bs) (h, hs) = ap₂ ◌∷◌ (byte-same b h) (map-byte_of bs hs)

-- What is read from an array as a C string; `none` where it has no terminator, so that the reading
-- goes on behind its end.
abbrev pub terminated : List ℕ → Option (List ℕ)
terminated [] = none
terminated (zero ∷ bs) = some []
terminated (suc b ∷ bs) = Option.map (◌∷◌ (suc b)) (terminated bs)

terminated-append :
    (s r t : List ℕ) → IsText s → terminated r ≡ some t → terminated (s ++ r) ≡ some (s ++ t)
terminated-append [] r t h e = e
terminated-append (zero ∷ s) r t (h, hs) e = absurd (omega arith)
terminated-append (suc b ∷ s) r t (h, hs) e =
    ap (Option.map (◌∷◌ (suc b))) (terminated-append s r t hs e)

terminated-zeros : (k n : ℕ) → k < n → terminated (drop k (replicate n 0)) ≡ some []
terminated-zeros k zero h = absurd (omega arith)
terminated-zeros zero (suc n) h = refl
terminated-zeros (suc k) (suc n) h = terminated-zeros k n (omega arith)

over-zeros :
    (s : List ℕ) (n : ℕ) → IsText s → length s < n → terminated (over s (replicate n 0)) ≡ some s
over-zeros s n h k =
    terminated-append s _ [] h (terminated-zeros (length s) n k) ∙ ap some (append-nil s)

in_bytes-same : (v : OtaVersion) → IsByteVersion v → in_bytes v ≡ v
in_bytes-same v (ma, mi, pa, co, ha, hh) = rw (
  byte-same v.major ma,
  byte-same v.minor mi,
  byte-same v.patch pa,
  byte-same v.commit co,
  map-byte_of v.hash ha,
)

-- The structure holds the message: its version, its two texts as C strings, and its flag.
abbrev pub Says : OtaData → OtaMessage → Type 0
Says o m =
    (o.version ≡ m.version)
    × (terminated o.host ≡ some m.host)
    × (terminated o.file ≡ some m.file)
    × (o.force ≡ m.force)

-- The structure that a decoding leaves.
abbrev pub left_by : OtaData → OtaMessage → OtaData
left_by old m = record {
  version = in_bytes m.version;
  host = over m.host old.host;
  file = over m.file old.file;
  force = m.force;
}

length-over : (s old : List ℕ) → length s ≤ length old → length (over s old) ≡ length old
length-over s old h = rw (length-append, length-drop) (omega arith)

outcome-left_by :
    (old : OtaData) (m : OtaMessage)
    → length m.host ≤ length old.host
    → length m.file ≤ length old.file
    → outcome old m ≡ some (left_by old m, 0)
outcome-left_by old m h f = ground arith

Reads-some :
    (o : Option OtaMessage) (old : OtaData) (m : OtaMessage) (r : Option (OtaData × ℕ))
    → o ≡ some m
    → Reads (o >>= (λ m. some (outcome old m))) r
    → r ≡ outcome old m
Reads-some none old m r e h = absurd (ground arith)
Reads-some (some m') old m r e h = h ∙ ap (outcome old) (some_inj.0 e)

IsText-drop : (n : ℕ) (s : List ℕ) → IsText s → IsText (drop n s)
IsText-drop zero s h = h
IsText-drop (suc n) [] h = h
IsText-drop (suc n) (b ∷ s) (h, hs) = IsText-drop n s hs

drop-of-append : (n : ℕ) (s r : List ℕ) → n ≤ length s → drop n (s ++ r) ≡ drop n s ++ r
drop-of-append zero s r h = refl
drop-of-append (suc n) [] r h = absurd (omega arith)
drop-of-append (suc n) (b ∷ s) r h = drop-of-append n s r (omega arith)

over-over :
    (s t : List ℕ) (n : ℕ)
    → IsText s
    → IsText t
    → length t ≤ length s
    → length s < n
    → terminated (over t (over s (replicate n 0))) ≡ some (t ++ drop (length t) s)
over-over s t n hs ht l k = terminated-append t _ (drop (length t) s) ht (
    ap terminated (drop-of-append (length t) s (drop (length s) (replicate n 0)) l)
    ∙ terminated-append (drop (length t) s) _ [] (IsText-drop (length t) s hs)
        (terminated-zeros (length s) n k)
    ∙ ap some (append-nil _))

module _ {D : Type 0} (q : Decoder D) where
  decodes :
      (old : OtaData) (bytes : List ℕ) (m : OtaMessage)
      → q.parse bytes ≡ some (ota_item m)
      → IsOta m
      → length old.host ≡ 128
      → length old.file ≡ 128
      → decode_ota_data q old bytes ≡ some (left_by old m, 0)
  decodes old bytes m e (v, th, lh, tf, lf) h f =
      let (ma, mi, pa, co, ha, hh) = v in
      Reads-some (read_message (ota_item m)) old m _ (read_message-ota_item m hh)
        (decode_ota_data-Reads q old bytes (ota_item m) e)
      ∙ outcome-left_by old m (omega arith) (omega arith)

  -- A message about an update that is decoded into the structure as it was at the start, all zeros,
  -- comes back from it: if the message has a hash of 8 bytes, numbers below 256, and texts of less
  -- than 128 bytes none of which is 0, the decoding succeeds and the version, the flag and the two
  -- arrays, each read as a C string up to a terminator in the array, are those of the message.
  pub decode_ota_data-ota_item :
      (w : OtaVersion) (bytes : List ℕ) (m : OtaMessage)
      → q.parse bytes ≡ some (ota_item m)
      → IsOta m
      → (o : OtaData) × (decode_ota_data q (zeroed w) bytes ≡ some (o, 0)) × Says o m
  decode_ota_data-ota_item w bytes m e (v, th, lh, tf, lf) = (
    left_by (zeroed w) m,
    decodes (zeroed w) bytes m e (v, th, lh, tf, lf) refl refl,
    (in_bytes-same m.version v, over-zeros m.host 128 th lh, over-zeros m.file 128 tf lf, refl),
  )

  -- A second message does not end its texts: where its host is no longer than that of the message
  -- before, which found the structure all zeros, both are decoded, and the host that is then read as a
  -- C string is the new one with the rest of the old one behind it. Both messages have a hash of 8
  -- bytes, numbers below 256, and texts of less than 128 bytes none of which is 0.
  pub decode_ota_data_again :
      (w : OtaVersion) (bytes bytes' : List ℕ) (m m' : OtaMessage)
      → q.parse bytes ≡ some (ota_item m)
      → q.parse bytes' ≡ some (ota_item m')
      → IsOta m
      → IsOta m'
      → length m'.host ≤ length m.host
      → (o o' : OtaData) × (decode_ota_data q (zeroed w) bytes ≡ some (o, 0))
        × (decode_ota_data q o bytes' ≡ some (o', 0))
        × (terminated o'.host ≡ some (m'.host ++ drop (length m'.host) m.host))
  decode_ota_data_again w bytes bytes' m m' e e' (v, th, lh, tf, lf) (v', th', lh', tf', lf') l = (
    left_by (zeroed w) m,
    left_by (left_by (zeroed w) m) m',
    decodes (zeroed w) bytes m e (v, th, lh, tf, lf) refl refl,
    decodes (left_by (zeroed w) m) bytes' m' e' (v', th', lh', tf', lf')
        (length-over m.host _ (omega arith)) (length-over m.file _ (omega arith)),
    over-over m.host m'.host 128 th th' l lh,
  )
