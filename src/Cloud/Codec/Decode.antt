-- ===== src/Cloud/Codec/Decode.antt =====
-- `decode_ota_version` and `decode_ota_data` of pyrinas_cloud_codec.c, with QCBOR's decoder as an
-- interface.
pub mod Reader
pub mod Version
pub mod Data
pub mod Messages
pub mod Replies
pub mod Cursor
mod Tests
use pyrinas_zephyr.Common.{
  ℕ, zero, suc, ◌+◌, ◌%◌, ◌≡◌, Bool, true, false, Option, none, some, List, [], ◌∷◌, ◌++◌, leb,
  ◌==◌, if◌then◌else◌, length, drop, is_some, ℤ, pos, negsuc,
}
use pyrinas_zephyr.Cloud.Codec.Qcbor.{Decoder}
use pyrinas_zephyr.Cloud.Version.{OtaVersion, hash_size}
use pyrinas_zephyr.Cloud.Codec.{
  Value, int, text, bool, array, map_of, Items, nil, cons, Fields, end, entry, OtaData, major_pos,
  minor_pos, patch_pos, commit_pos, hash_pos, version_pos, host_pos, file_pos, force_pos,
}

-- `memcpy` of a text to the array that holds `old`. `none` is a fault: the text is unset, or longer
-- than the array.
pub copy_text : Option (List ℕ) → List ℕ → Option (List ℕ)
copy_text none old = none
copy_text (some s) old =
    if leb (length s) (length old) then some (s ++ drop (length s) old) else none

module _ {D : Type 0} (q : Decoder D) where
  open q use {
    init, enter_map, enter_map_from_map_n, exit_map, enter_array_from_map_n, exit_array,
    get_uint64_convert_all_in_map_n, get_uint64, get_text_string_in_map_n, get_bool_in_map_n,
    get_error, finish,
  }

  -- The loop over the hash, with the rounds left. A number is kept in a `uint8_t`.
  pub read_hash : ℕ → D → List ℕ × D
  read_hash zero dc = ([], dc)
  read_hash (suc n) dc =
      let (temp, dc') = get_uint64 dc in
      let (rest, dc'') = read_hash n dc' in (temp % 256 ∷ rest, dc'')

  pub decode_ota_version : ℕ → D → OtaVersion × D
  unfolding read_hash
  decode_ota_version label dc =
      let dc0 = enter_map_from_map_n label dc in
      let (major, dc1) = get_uint64_convert_all_in_map_n major_pos dc0 in
      let (minor, dc2) = get_uint64_convert_all_in_map_n minor_pos dc1 in
      let (patch, dc3) = get_uint64_convert_all_in_map_n patch_pos dc2 in
      let (commit, dc4) = get_uint64_convert_all_in_map_n commit_pos dc3 in
      let (hash, dc5) = read_hash hash_size (enter_array_from_map_n hash_pos dc4) in
      (
        record {
          major = major % 256;
          minor = minor % 256;
          patch = patch % 256;
          commit = commit % 256;
          hash = hash;
        },
        exit_map (exit_array dc5),
      )

  -- `if (uErr != QCBOR_SUCCESS) goto Done;` with what stands between it and `Done`. `none` is a fault.
  pub checked : OtaData → D → (D → Option (OtaData × ℕ)) → Option (OtaData × ℕ)
  checked o dc next = if get_error dc == 0 then next dc else some (o, finish dc)

  pub read_force : OtaData → D → Option (OtaData × ℕ)
  unfolding checked
  read_force o dc =
      let (force, dc') = get_bool_in_map_n force_pos dc in
      let o' = record o { force = force } in checked o' dc' (λ c. some (o', finish (exit_map c)))

  pub with_file : OtaData → D → Option (List ℕ) → Option (OtaData × ℕ)
  unfolding checked
  with_file o dc none = none
  with_file o dc (some file) = let o' = record o { file = file } in checked o' dc (read_force o')

  pub read_file : OtaData → D → Option (OtaData × ℕ)
  unfolding with_file copy_text
  read_file o dc =
      let (file_data, dc') = get_text_string_in_map_n file_pos dc in
      with_file o dc' (copy_text file_data o.file)

  pub with_host : OtaData → D → Option (List ℕ) → Option (OtaData × ℕ)
  unfolding checked
  with_host o dc none = none
  with_host o dc (some host) = let o' = record o { host = host } in checked o' dc (read_file o')

  pub read_host : OtaData → D → Option (OtaData × ℕ)
  unfolding with_host copy_text
  read_host o dc =
      let (host_data, dc') = get_text_string_in_map_n host_pos dc in
      with_host o dc' (copy_text host_data o.host)

  pub read_version : OtaData → D → Option (OtaData × ℕ)
  unfolding checked decode_ota_version
  read_version o dc =
      let (version, dc') = decode_ota_version version_pos dc in
      let o' = record o { version = version } in checked o' dc' (read_host o')

  -- `old` is what `ota_data` held before.
  pub decode_ota_data : OtaData → List ℕ → Option (OtaData × ℕ)
  unfolding checked read_version
  decode_ota_data old bytes = let dc = enter_map (init bytes) in checked old dc (read_version old)
