-- ===== src/Cloud/Codec/Decode/Tests.antt =====
-- Messages that are decoded.
use pyrinas_zephyr.Common.{
  ◌>>=◌, ℕ, ◌≡◌, refl, arith, true, false, Option, none, some, List, [], ◌∷◌, replicate, get_elem?,
}
use pyrinas_zephyr.Cloud.Version.{OtaVersion}
use pyrinas_zephyr.Cloud.Codec.{Value, OtaData, map_of, entry, end, text}
use pyrinas_zephyr.Cloud.Codec.Qcbor.{field}
use pyrinas_zephyr.Cloud.Codec.Decode.{decode_ota_data, read_host, read_file, read_force}
use pyrinas_zephyr.Cloud.Codec.Decode.Cursor.{cursor}
use pyrinas_zephyr.Cloud.Codec.Decode.Reader.{OtaMessage, read_message}
use pyrinas_zephyr.Cloud.Codec.Decode.Data.{outcome, Reads}
use pyrinas_zephyr.Cloud.Codec.Decode.Messages.{decode_ota_data-Reads}
use pyrinas_zephyr.Cloud.Codec.Decode.Replies.{
  ota_item, zeroed, Says, terminated, IsOta, decode_ota_data-ota_item, decode_ota_data_again,
}

abbrev version : ℕ → OtaVersion
version n = record { major = 1; minor = n; patch = 0; commit = 7; hash = replicate 8 97 }

abbrev first : OtaMessage
first = record {
  version = version 2;
  host = 104 ∷ 111 ∷ 115 ∷ 116 ∷ [];
  file = 102 ∷ [];
  force = true;
}

abbrev second : OtaMessage
second = record { version = version 3; host = 97 ∷ 98 ∷ []; file = 103 ∷ []; force = false }

-- A message whose host is longer than its array, and one with nothing but a host.
abbrev long : OtaMessage
long = record { version = version 2; host = replicate 129 65; file = []; force = true }

abbrev host_only : Value
host_only = map_of (entry 1 (text (97 ∷ [])) end)

-- The encoding of the `n`th of them is the byte `n`.
abbrev known : List ℕ → Option Value
known [] = none
known (b ∷ bs) = get_elem? (ota_item first ∷ ota_item second ∷ ota_item long ∷ host_only ∷ []) b

first-IsOta : IsOta first
first-IsOta = omega arith

second-IsOta : IsOta second
second-IsOta = omega arith

decode_first :
    decode_ota_data (cursor known) (zeroed (version 0)) (0 ∷ [])
    ≡ some (
      record {
        version = version 2;
        host = 104 ∷ 111 ∷ 115 ∷ 116 ∷ replicate 124 0;
        file = 102 ∷ replicate 127 0;
        force = true;
      },
      0,
    )
unfolding decode_ota_data field read_host read_file read_force
decode_first = refl

decode_long : decode_ota_data (cursor known) (zeroed (version 0)) (2 ∷ []) ≡ none
unfolding decode_ota_data field read_host
decode_long = refl

-- A message without its version is an error.
decode_host_only :
    decode_ota_data (cursor known) (zeroed (version 0)) (3 ∷ [])
    ≡ some (
      record (zeroed (version 0)) {
        version = record { major = 0; minor = 0; patch = 0; commit = 0; hash = replicate 8 0 };
      },
      1,
    )
unfolding decode_ota_data field
decode_host_only = refl

decode_ota_data-Reads_example :
    Reads
      (read_message (ota_item long) >>= (λ m. some (outcome (zeroed (version 0)) m)))
      (decode_ota_data (cursor known) (zeroed (version 0)) (2 ∷ []))
decode_ota_data-Reads_example =
    decode_ota_data-Reads (cursor known) (zeroed (version 0)) (2 ∷ []) (ota_item long) refl

decode_ota_data-ota_item_example :
    (o : OtaData) × (decode_ota_data (cursor known) (zeroed (version 0)) (0 ∷ []) ≡ some (o, 0))
    × Says o first
decode_ota_data-ota_item_example =
    decode_ota_data-ota_item (cursor known) (version 0) (0 ∷ []) first refl first-IsOta

-- The host "ab" behind the host "host" is read as "abst".
decode_ota_data_again_example :
    (o o' : OtaData) × (decode_ota_data (cursor known) (zeroed (version 0)) (0 ∷ []) ≡ some (o, 0))
    × (decode_ota_data (cursor known) o (1 ∷ []) ≡ some (o', 0))
    × (terminated o'.host ≡ some (97 ∷ 98 ∷ 115 ∷ 116 ∷ []))
decode_ota_data_again_example =
    decode_ota_data_again (cursor known) (version 0) (0 ∷ []) (1 ∷ []) first second refl refl
      first-IsOta second-IsOta (omega arith)
