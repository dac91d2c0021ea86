-- ===== src/Cloud/Client/Update.antt =====
-- A message about an update from its bytes to the state of the client: `publish_evt_handler` of
-- subsys/pyrinas_cloud/pyrinas_cloud.c with `decode_ota_data` inside, and what `fota_start_fn` is
-- then given to download.
mod Tests
use pyrinas_zephyr.Common.{
  ℕ, ◌≡◌, refl, sym, ap, ◌∙◌, ◌⊎◌, ◌≢◌, Bool, true, false, Option, none, some, List, [], ◌∷◌, ◌++◌,
  map, ◌==◌, if◌then◌else◌, length, strncmp_eq, pos, ◌==ℤ◌, arith,
}
use pyrinas_zephyr.Cloud.Version.{
  OtaVersion, ver_comp, HasHash, Older, SameNumbers, ver_comp_update,
}
use pyrinas_zephyr.Cloud.Topics.{dispatch}
use pyrinas_zephyr.Cloud.Codec.{OtaData}
use pyrinas_zephyr.Cloud.Codec.Qcbor.{Decoder}
use pyrinas_zephyr.Cloud.Codec.Decode.{decode_ota_data}
use pyrinas_zephyr.Cloud.Codec.Decode.Reader.{OtaMessage}
use pyrinas_zephyr.Cloud.Codec.Decode.Replies.{
  ota_item, IsOta, zeroed, Says, decode_ota_data-ota_item,
}
use pyrinas_zephyr.Cloud.Client.{
  Cloud, Config, Action, submit, fota, ota_callback, ota_state_started, app_call, ota_message,
  decide, set_ota_state, fota_download_start,
}

module _ (k : Config) where
  -- The end of the decoding, with the structure and the code that it left. `none` is its fault.
  pub decoded_message : Option (OtaData × ℕ) → ℕ → Cloud → Option (Cloud × OtaData × List Action)
  decoded_message none id c = none
  decoded_message (some (o, err)) id c =
      let c0 = record c { ota_version = o.version } in
      let (c', actions) = ota_message k (if err == 0 then some o.version else none) id c0 in
      some (c', o, actions)

  newer-starts :
      (v : OtaVersion) (id : ℕ) (c : Cloud)
      → ver_comp k.pyrinas_version v ≡ pos 1
      → ota_message k (some v) id c ≡ (
        record c { initial_ota_check = true; ota_version = v; ota_state = ota_state_started },
        (if c.has_ota_callback then ota_callback ota_state_started ∷ [] else [])
            ++ submit fota ∷ [],
      )
  unfolding ota_message decide set_ota_state
  newer-starts v id c h = rw h

  decoded-starts :
      (o : OtaData) (v : OtaVersion) (id : ℕ) (c : Cloud)
      → o.version ≡ v
      → ver_comp k.pyrinas_version v ≡ pos 1
      → decoded_message (some (o, 0)) id c
        ≡ some (
          record c { initial_ota_check = true; ota_version = v; ota_state = ota_state_started },
          o,
          (if c.has_ota_callback then ota_callback ota_state_started ∷ [] else [])
              ++ submit fota ∷ [],
        )
  unfolding decoded_message
  decoded-starts o v id c e h = rw (e, newer-starts v id (record c { ota_version = v }) h)

-- `old` is what `ota_data` held.
module _ {D : Type 0} (q : Decoder D) (k : Config) where
  pub decoding_evt_handler :
      List ℕ → ℕ → List ℕ → ℕ → OtaData → Cloud → Option (Cloud × OtaData × List Action)
  unfolding decoded_message
  decoding_evt_handler topic topic_len bytes id old c =
      if strncmp_eq (length k.ota_sub_topic) k.ota_sub_topic topic
      then decoded_message k (decode_ota_data q old bytes) id c
      else elim (dispatch topic topic_len bytes c.callbacks) [
        | none ↦ none
        | some calls ↦ some (c, old, map app_call calls)
      ]

  on_topic-decodes :
      (topic bytes : List ℕ) (topic_len id : ℕ) (old : OtaData) (c : Cloud)
      → strncmp_eq (length k.ota_sub_topic) k.ota_sub_topic topic ≡ true
      → decoding_evt_handler topic topic_len bytes id old c
        ≡ decoded_message k (decode_ota_data q old bytes) id c
  unfolding decoding_evt_handler
  on_topic-decodes topic bytes topic_len id old c h = rw h

  -- A message on the topic for updates that announces a newer version, one with greater numbers or
  -- with the same numbers and another hash, starts the update: the state becomes "started", the
  -- callback is called with it if there is one, the download is submitted, and the structure
  -- `ota_data`, all zeros before, then has the version and the flag of the message, and its
  -- host and its file as terminated C strings. Both hashes have 8 bytes, the message's numbers
  -- are below 256, and its texts have less than 128 bytes, none of which is 0.
  pub decoding_evt_handler-starts :
      (topic bytes : List ℕ) (topic_len id : ℕ) (m : OtaMessage) (w : OtaVersion) (c : Cloud)
      → q.parse bytes ≡ some (ota_item m)
      → IsOta m
      → HasHash k.pyrinas_version
      → strncmp_eq (length k.ota_sub_topic) k.ota_sub_topic topic ≡ true
      → Older k.pyrinas_version m.version
        ⊎ (SameNumbers k.pyrinas_version m.version × (k.pyrinas_version.hash ≢ m.version.hash))
      → (o : OtaData) × (decoding_evt_handler topic topic_len bytes id (zeroed w) c
          ≡ some (
            record c {
              initial_ota_check = true;
              ota_version = m.version;
              ota_state = ota_state_started;
            },
            o,
            (if c.has_ota_callback then ota_callback ota_state_started ∷ [] else [])
                ++ submit fota ∷ [],
          ))
        × Says o m
  decoding_evt_handler-starts topic bytes topic_len id m w c e h hv on_topic newer =
      let (o, decoded, says) = decode_ota_data-ota_item q w bytes m e h in
      let (v, th, lh, tf, lf) = h in
      let (ma, mi, pa, co, ha, hash) = v in
      (
        o,
        on_topic-decodes topic bytes topic_len id (zeroed w) c on_topic
            ∙ ap (λ r. decoded_message k r id c) decoded
            ∙ decoded-starts k o m.version id c says.0
                ((ver_comp_update k.pyrinas_version m.version hv hash).1 newer),
        says,
      )
