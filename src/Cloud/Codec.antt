-- ===== src/Cloud/Codec.antt =====
-- The messages of subsys/pyrinas_cloud/pyrinas_cloud_codec.c in CBOR, which the library QCBOR reads
-- and writes: an item, what the code keeps of one, and the labels of pyrinas_cloud_codec.h and
-- include/pyrinas_cloud/pyrinas_cloud.h.
pub mod Qcbor
pub mod Encode
pub mod Decode
use pyrinas_zephyr.Common.{
  ℕ, zero, suc, ◌+◌, ◌%◌, Bool, Option, none, some, List, [], ◌∷◌, ◌==◌, if◌then◌else◌, ℤ, pos,
  negsuc,
}
use pyrinas_zephyr.Cloud.Version.{OtaVersion}

-- An item: an integer, a text, a truth value, an array, or a map with labels.
mutual
  pub data Value : Type 0 where
    int : ℤ → Value
    text : List ℕ → Value
    bool : Bool → Value
    array : Items → Value
    map_of : Fields → Value

  pub data Items : Type 0 where
    nil : Items
    cons : Value → Items → Items

  pub data Fields : Type 0 where
    end : Fields
    entry : ℕ → Value → Fields → Fields

-- `struct pyrinas_cloud_ota_data`: the version, two arrays of 128 bytes, and a flag.
pub record OtaData : Type 0 where
  pub version : OtaVersion
  pub host : List ℕ
  pub file : List ℕ
  pub force : Bool

-- `struct pyrinas_cloud_telemetry_data`; the version is a C string.
pub record TelemetryData : Type 0 where
  pub has_version : Bool
  pub version : List ℕ
  pub has_rsrp : Bool
  pub rsrp : ℕ
  pub has_central_rssi : Bool
  pub central_rssi : ℤ
  pub has_peripheral_rssi : Bool
  pub peripheral_rssi : ℤ

-- `pyrinas_cloud_ota_version_pos_t`
abbrev pub major_pos : ℕ
major_pos = 0

abbrev pub minor_pos : ℕ
minor_pos = 1

abbrev pub patch_pos : ℕ
patch_pos = 2

abbrev pub commit_pos : ℕ
commit_pos = 3

abbrev pub hash_pos : ℕ
hash_pos = 4

-- `pyrinas_cloud_ota_data_pos_t`
abbrev pub version_pos : ℕ
version_pos = 0

abbrev pub host_pos : ℕ
host_pos = 1

abbrev pub file_pos : ℕ
file_pos = 2

abbrev pub force_pos : ℕ
force_pos = 3

-- `enum pyrinas_cloud_telemetry_type`
abbrev pub tel_type_version : ℕ
tel_type_version = 0

abbrev pub tel_type_rsrp : ℕ
tel_type_rsrp = 1

abbrev pub tel_type_rssi_central : ℕ
tel_type_rssi_central = 2

abbrev pub tel_type_rssi_peripheral : ℕ
tel_type_rssi_peripheral = 3

-- `enum pyrinas_cloud_ota_cmd_type`
pub data OtaCmdType : Type 0 where
  ota_cmd_type_check ota_cmd_type_done : OtaCmdType

abbrev pub cmd_code : OtaCmdType → ℕ
cmd_code ota_cmd_type_check = 0
cmd_code ota_cmd_type_done = 1

-- The fields that an encoder was given one after the other.
pub to_fields : List (ℕ × Value) → Fields
to_fields [] = end
to_fields ((label, value) ∷ rest) = entry label value (to_fields rest)
