-- ===== src/Cloud/Client/Publish/Events.antt =====
-- What `pyrinas_cloud_publish_evt` sends for an event of a peripheral.
use pyrinas_zephyr.Common.{
  ℕ, ◌≡◌, refl, ap, ◌∙◌, Bool, true, false, Option, none, some, List, [], ◌∷◌, ◌++◌, if◌then◌else◌,
  take, c_string, ℤ, pos, negsuc, is_negative, enetdown, Bool-cases, inl, inr, append-nil,
}
use pyrinas_zephyr.Cloud.Codec.{Value, int, text, TelemetryData, ota_cmd_type_check}
use pyrinas_zephyr.Cloud.Codec.Encode.{Encoder, present, when}
use pyrinas_zephyr.Cloud.Codec.Encode.Fits.{IsSized, IsInt8, IsShort, encode-fits}
use pyrinas_zephyr.Cloud.Client.{
  Cloud, Config, Action, mqtt_evt_handler, set_cloud_state, timer_stop, state_callback,
  cloud_state_disconnected, publish, data_publish, is_connected,
}
use pyrinas_zephyr.Cloud.Client.Publish.{
  CloudEvent, event_record, uid_of, application_topic, telemetry_topic, pyrinas_cloud_publish_evt,
  pyrinas_cloud_publish_telemetry_evt, publish_encoded, after_publish, behind, with_telemetry,
}
use pyrinas_zephyr.Cloud.Client.Publish.Telemetry.{IsMemory}

IsInt8-if : (b : Bool) (n d : ℤ) → IsInt8 n → IsInt8 d → IsInt8 (if b then n else d)
IsInt8-if true n d hn hd = hn
IsInt8-if false n d hn hd = hd

event_record-IsSized :
    (stack : TelemetryData) (central peripheral : ℤ)
    → IsMemory stack
    → IsShort stack.has_version stack.version
    → IsInt8 central
    → IsInt8 peripheral
    → IsSized (event_record stack central peripheral)
unfolding event_record
event_record-IsSized stack central peripheral (r, c, p) h hc hp = (
  h,
  r,
  IsInt8-if (is_negative central) central _ hc c,
  IsInt8-if (is_negative peripheral) peripheral _ hp p,
)

-- The entries of an event's telemetry: what the record's memory held of the version and of the hub's
-- strength, and the two strengths of the event where they are negative, or else what the memory held.
abbrev pub rssi_entry : ℕ → ℤ → Bool → ℤ → List (ℕ × Value)
rssi_entry label (pos n) has held = when has label (int held)
rssi_entry label (negsuc n) has held = (label, int (negsuc n)) ∷ []

abbrev pub evt_entries : TelemetryData → ℤ → ℤ → List (ℕ × Value)
evt_entries stack central peripheral =
    when stack.has_version 0 (text stack.version)
    ++ when stack.has_rsrp 1 (int (pos stack.rsrp))
    ++ rssi_entry 2 central stack.has_central_rssi stack.central_rssi
    ++ rssi_entry 3 peripheral stack.has_peripheral_rssi stack.peripheral_rssi

present-evt_entries :
    (stack : TelemetryData) (central peripheral : ℤ)
    → present (event_record stack central peripheral) ≡ evt_entries stack central peripheral
unfolding event_record
present-evt_entries stack (pos m) (pos n) = refl
present-evt_entries stack (pos m) (negsuc n) = refl
present-evt_entries stack (negsuc m) (pos n) = refl
present-evt_entries stack (negsuc m) (negsuc n) = refl

-- The client after a publish that may have found the connection lost, and what is called then.
abbrev pub dropped : Option ℤ → Cloud → Cloud
dropped none c = c
dropped (some lost) c = record c { cloud_state = cloud_state_disconnected }

abbrev pub drop_calls : Option ℤ → Cloud → List Action
drop_calls none c = []
drop_calls (some lost) c =
    timer_stop ∷ (if c.has_state_callback then state_callback cloud_state_disconnected ∷ [] else [])

after_publish-sent :
    (k : Config) (lost : Option ℤ) (c : Cloud) (result : ℤ) (a : Action)
    → after_publish k lost c (result, a ∷ []) ≡ some (dropped lost c, result, a ∷ drop_calls lost c)
unfolding after_publish mqtt_evt_handler set_cloud_state
after_publish-sent k none c result a = refl
after_publish-sent k (some lost) c result a = refl

after_publish-none :
    (k : Config) (lost : Option ℤ) (c : Cloud) (result : ℤ)
    → after_publish k lost c (result, []) ≡ some (c, result, [])
unfolding after_publish
after_publish-none k none c result = refl
after_publish-none k (some lost) c result = refl

data_publish-up :
    (topic bytes : List ℕ) (err : ℤ) (c : Cloud)
    → is_connected c.cloud_state ≡ true
    → data_publish topic bytes err c ≡ (err, publish topic bytes ∷ [])
unfolding data_publish
data_publish-up topic bytes err c up = rw up refl

data_publish-down :
    (topic bytes : List ℕ) (err : ℤ) (c : Cloud)
    → is_connected c.cloud_state ≡ false
    → data_publish topic bytes err c ≡ (enetdown, [])
unfolding data_publish
data_publish-down topic bytes err c down = rw down refl

module _ {E : Type 0} (q : Encoder E) where
  abbrev pub evt_topic : CloudEvent → List ℕ
  evt_topic evt =
      application_topic (uid_of evt.peripheral_addr) (c_string (take evt.name.size evt.name.bytes))

  abbrev IsSizedEvt : TelemetryData → CloudEvent → Type 0
  IsSizedEvt stack evt =
      IsMemory stack
      × IsShort stack.has_version stack.version
      × IsInt8 evt.central_rssi
      × IsInt8 evt.peripheral_rssi

  telemetry_evt-encoded :
      (stack : TelemetryData) (qcbor_err err : ℤ) (evt : CloudEvent) (c : Cloud)
      → IsSizedEvt stack evt
      → pyrinas_cloud_publish_telemetry_evt q stack qcbor_err err evt c
        ≡ data_publish
            (telemetry_topic (uid_of evt.peripheral_addr))
            (q.encoding (evt_entries stack evt.central_rssi evt.peripheral_rssi))
            err
            c
  unfolding pyrinas_cloud_publish_telemetry_evt publish_encoded
  telemetry_evt-encoded stack qcbor_err err evt c (m, h, hc, hp) =
      rw
        (
          (encode-fits q (event_record stack evt.central_rssi evt.peripheral_rssi)
              ota_cmd_type_check
              (event_record-IsSized stack evt.central_rssi evt.peripheral_rssi m h hc hp)).0,
          present-evt_entries stack evt.central_rssi evt.peripheral_rssi,
        )
        refl

  -- What a connected client does with an event, by what the first publish finds.
  abbrev pub evt_sent :
      TelemetryData → ℤ → Option ℤ → Option ℤ → CloudEvent → Cloud → Cloud × ℤ × List Action
  evt_sent stack err' none lost' evt c = (
    dropped lost' c,
    err',
    publish (evt_topic evt) evt.content
        ∷ publish (telemetry_topic (uid_of evt.peripheral_addr))
            (q.encoding (evt_entries stack evt.central_rssi evt.peripheral_rssi))
        ∷ drop_calls lost' c,
  )
  evt_sent stack err' (some lost) lost' evt c = (
    dropped (some lost) c,
    enetdown,
    publish (evt_topic evt) evt.content ∷ drop_calls (some lost) c,
  )

  telemetry_evt-up :
      (k : Config) (stack : TelemetryData) (qcbor_err err : ℤ) (lost : Option ℤ) (evt : CloudEvent)
      (c : Cloud)
      → IsSizedEvt stack evt
      → is_connected c.cloud_state ≡ true
      → after_publish k lost c (pyrinas_cloud_publish_telemetry_evt q stack qcbor_err err evt c)
        ≡ some (
          dropped lost c,
          err,
          publish
                (telemetry_topic (uid_of evt.peripheral_addr))
                (q.encoding (evt_entries stack evt.central_rssi evt.peripheral_rssi))
              ∷ drop_calls lost c,
        )
  telemetry_evt-up k stack qcbor_err err lost evt c sized up =
      ap (after_publish k lost c)
        (telemetry_evt-encoded stack qcbor_err err evt c sized ∙ data_publish-up _ _ err c up)
      ∙ after_publish-sent k lost c err _

  telemetry_evt-down :
      (k : Config) (stack : TelemetryData) (qcbor_err err : ℤ) (lost : Option ℤ) (evt : CloudEvent)
      (c : Cloud)
      → IsSizedEvt stack evt
      → is_connected c.cloud_state ≡ false
      → after_publish k lost c (pyrinas_cloud_publish_telemetry_evt q stack qcbor_err err evt c)
        ≡ some (c, enetdown, [])
  telemetry_evt-down k stack qcbor_err err lost evt c sized down =
      ap (after_publish k lost c)
        (telemetry_evt-encoded stack qcbor_err err evt c sized ∙ data_publish-down _ _ err c down)
      ∙ after_publish-none k lost c enetdown

  evt_behind :
      (k : Config) (stack : TelemetryData) (qcbor_err err err' : ℤ) (lost lost' : Option ℤ)
      (evt : CloudEvent) (c c' : Cloud) (result : ℤ) (actions : List Action)
      → after_publish k lost c (data_publish (evt_topic evt) evt.content err c)
        ≡ some (c', result, actions)
      → pyrinas_cloud_publish_evt q k stack qcbor_err (err, lost) (err', lost') evt c
        ≡ behind actions (
            after_publish k lost' c'
              (pyrinas_cloud_publish_telemetry_evt q stack qcbor_err err' evt c'))
  unfolding pyrinas_cloud_publish_evt with_telemetry
  evt_behind k stack qcbor_err err err' lost lost' evt c c' result actions e =
      ap (with_telemetry q k stack qcbor_err (err', lost') evt) e

  first_up :
      (k : Config) (err : ℤ) (lost : Option ℤ) (evt : CloudEvent) (c : Cloud)
      → is_connected c.cloud_state ≡ true
      → after_publish k lost c (data_publish (evt_topic evt) evt.content err c)
        ≡ some (dropped lost c, err, publish (evt_topic evt) evt.content ∷ drop_calls lost c)
  first_up k err lost evt c up =
      ap (after_publish k lost c) (data_publish-up (evt_topic evt) evt.content err c up)
      ∙ after_publish-sent k lost c err (publish (evt_topic evt) evt.content)

  first_down :
      (k : Config) (err : ℤ) (lost : Option ℤ) (evt : CloudEvent) (c : Cloud)
      → is_connected c.cloud_state ≡ false
      → after_publish k lost c (data_publish (evt_topic evt) evt.content err c)
        ≡ some (c, enetdown, [])
  first_down k err lost evt c down =
      ap (after_publish k lost c) (data_publish-down (evt_topic evt) evt.content err c down)
      ∙ after_publish-none k lost c enetdown

  evt-up :
      (k : Config) (stack : TelemetryData) (qcbor_err err err' : ℤ) (lost lost' : Option ℤ)
      (evt : CloudEvent) (c : Cloud)
      → IsSizedEvt stack evt
      → is_connected c.cloud_state ≡ true
      → pyrinas_cloud_publish_evt q k stack qcbor_err (err, lost) (err', lost') evt c
        ≡ some (evt_sent stack err' lost lost' evt c)
  unfolding behind
  evt-up k stack qcbor_err err err' none lost' evt c sized up =
      evt_behind k stack qcbor_err err err' none lost' evt c c err _ (first_up k err none evt c up)
      ∙ ap (behind (publish (evt_topic evt) evt.content ∷ []))
          (telemetry_evt-up k stack qcbor_err err' lost' evt c sized up)
  evt-up k stack qcbor_err err err' (some lost) lost' evt c sized up =
      evt_behind k stack qcbor_err err err' (some lost) lost' evt c (dropped (some lost) c) err _
        (first_up k err (some lost) evt c up)
      ∙ ap (behind (publish (evt_topic evt) evt.content ∷ drop_calls (some lost) c))
          (telemetry_evt-down k stack qcbor_err err' lost' evt (dropped (some lost) c) sized refl)
      ∙ ap (λ calls. some (dropped (some lost) c, enetdown, calls)) (append-nil _)

  evt-down :
      (k : Config) (stack : TelemetryData) (qcbor_err err err' : ℤ) (lost lost' : Option ℤ)
      (evt : CloudEvent) (c : Cloud)
      → IsSizedEvt stack evt
      → is_connected c.cloud_state ≡ false
      → pyrinas_cloud_publish_evt q k stack qcbor_err (err, lost) (err', lost') evt c
        ≡ some (c, enetdown, [])
  unfolding behind
  evt-down k stack qcbor_err err err' lost lost' evt c sized down =
      evt_behind k stack qcbor_err err err' lost lost' evt c c enetdown []
        (first_down k err lost evt c down)
      ∙ ap (behind []) (telemetry_evt-down k stack qcbor_err err' lost' evt c sized down)

  -- For an event of a peripheral a connected client publishes the event's content; if the connection
  -- is still there it then publishes the telemetry, which is always encoded, with the
  -- strengths of the event that are negative and, for the rest, what the record's memory held, and the
  -- result is that of the second publish. Where a publish finds the connection lost the client
  -- is disconnected and its callback called; after the first publish the result is then
  -- -ENETDOWN and no telemetry is sent. A client that is not connected publishes nothing, with
  -- -ENETDOWN. The record's memory and the two strengths of the event are of their sizes, and the
  -- memory has no version, or one that is short enough.
  pub pyrinas_cloud_publish_evt-sends :
      (k : Config) (stack : TelemetryData) (qcbor_err err err' : ℤ) (lost lost' : Option ℤ)
      (evt : CloudEvent) (c : Cloud)
      → IsMemory stack
      → IsShort stack.has_version stack.version
      → IsInt8 evt.central_rssi
      → IsInt8 evt.peripheral_rssi
      → pyrinas_cloud_publish_evt q k stack qcbor_err (err, lost) (err', lost') evt c
        ≡ some (
            if is_connected c.cloud_state
            then evt_sent stack err' lost lost' evt c
            else (c, enetdown, []))
  pyrinas_cloud_publish_evt-sends k stack qcbor_err err err' lost lost' evt c m h hc hp =
      elim (Bool-cases (is_connected c.cloud_state)) [
        | inl up ↦ rw up (evt-up k stack qcbor_err err err' lost lost' evt c (m, h, hc, hp) up)
        | inr down ↦
            rw down (evt-down k stack qcbor_err err err' lost lost' evt c (m, h, hc, hp) down)
      ]
