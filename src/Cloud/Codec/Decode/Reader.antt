-- ===== src/Cloud/Codec/Decode/Reader.antt =====
-- A reader of the message about an update that `decode_ota_data` decodes, on the item as a whole.
use pyrinas_zephyr.Common.{
  ℕ, zero, suc, ◌%◌, Bool, Option, none, some, List, [], ◌∷◌, map, ◌>>=◌, pos,
}
use pyrinas_zephyr.Cloud.Version.{OtaVersion, hash_size}
use pyrinas_zephyr.Cloud.Codec.{
  Value, int, Items, cons, Fields, major_pos, minor_pos, patch_pos, commit_pos, hash_pos,
  version_pos, host_pos, file_pos, force_pos,
}
use pyrinas_zephyr.Cloud.Codec.Qcbor.{field, as_uint, as_text, as_bool, as_map, as_array}

-- What a message says, with numbers of any size and texts of any length.
pub record OtaMessage : Type 0 where
  pub version : OtaVersion
  pub host : List ℕ
  pub file : List ℕ
  pub force : Bool

-- The first `n` items, which are unsigned numbers.
abbrev pub read_numbers : ℕ → Items → Option (List ℕ)
read_numbers zero xs = some []
read_numbers (suc n) (cons (int (pos a)) xs) = do rest ← read_numbers n xs; some (a ∷ rest)
read_numbers (suc n) _ = none

abbrev pub read_fields : Fields → Option OtaVersion
read_fields fs = do
  major ← as_uint (field major_pos fs)
  minor ← as_uint (field minor_pos fs)
  patch ← as_uint (field patch_pos fs)
  commit ← as_uint (field commit_pos fs)
  items ← as_array (field hash_pos fs)
  hash ← read_numbers hash_size items
  some (record { major = major; minor = minor; patch = patch; commit = commit; hash = hash })

abbrev pub read_message : Value → Option OtaMessage
read_message v = do
  fs ← as_map (some v)
  numbers ← as_map (field version_pos fs)
  version ← read_fields numbers
  host ← as_text (field host_pos fs)
  file ← as_text (field file_pos fs)
  force ← as_bool (field force_pos fs)
  some (record { version = version; host = host; file = file; force = force })

-- A version in its `uint8_t` fields.
abbrev pub byte_of : ℕ → ℕ
byte_of n = n % 256

abbrev pub in_bytes : OtaVersion → OtaVersion
in_bytes v = record {
  major = v.major % 256;
  minor = v.minor % 256;
  patch = v.patch % 256;
  commit = v.commit % 256;
  hash = map byte_of v.hash;
}
