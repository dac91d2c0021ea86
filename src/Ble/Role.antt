-- ===== src/Ble/Role.antt =====
-- The role of the device in lib/ble/ble_m.c, which the build chooses: what `ble_publish` writes to, what
-- `ble_stack_init` sets up, and what `ble_ready` starts when the stack of Zephyr is up.
pub mod Queueing
pub mod Link
mod Tests
use pyrinas_zephyr.Common.{
  ℕ, Bool, true, false, not, ◌&&◌, Option, none, some, List, [], ◌∷◌, map, if◌then◌else◌, Msgq, ℤ,
  is_error,
}
use pyrinas_zephyr.Ble.Events.{Event, ble_publish}
use pyrinas_zephyr.Ble.Peripheral as Peripheral
use pyrinas_zephyr.Ble.Central as Central

pub data Call : Type 0 where
  of_peripheral : Peripheral.Action → Call
  of_central : Central.Action → Call

-- CONFIG_PYRINAS_PERIPH_ENABLED, which goes first, or CONFIG_PYRINAS_CENTRAL_ENABLED.
pub data Role (Q : Type 0) : Type 0 where
  peripheral : Peripheral.Peripheral Q → Role Q
  central : Central.Central Q → Role Q

-- The role and `m_init_complete`.
pub record Stack (Q : Type 0) : Type 0 where
  pub role : Role Q
  pub init_complete : Bool

abbrev pub from_peripheral :
    {Q : Type 0} → Peripheral.Peripheral Q × List Peripheral.Action → Role Q × List Call
from_peripheral (p, actions) = (peripheral p, map of_peripheral actions)

abbrev pub from_central :
    {Q : Type 0} → Central.Central Q × List Central.Action → Role Q × List Call
from_central (c, actions) = (central c, map of_central actions)

module _ {Q : Type 0} where
  unfoldable pub ble_is_connected : Role Q → Bool
  ble_is_connected (peripheral p) = Peripheral.ble_peripheral_is_connected p
  ble_is_connected (central c) = Central.ble_central_is_connected c.conns

  pub advertising_start : ℤ → ℤ → Role Q → Role Q × List Call
  advertising_start create_err set_err (peripheral p) =
      from_peripheral (Peripheral.ble_peripheral_advertising_start create_err set_err p)
  advertising_start create_err set_err (central c) = (central c, [])

  pub scan_start : ℤ → Role Q → Role Q × List Call
  scan_start err (peripheral p) = (peripheral p, [])
  scan_start err (central c) = from_central (Central.ble_central_scan_start err c)

  -- The start of either role, with the results of the calls that it makes.
  pub role_ready : ℤ → ℤ → (ℕ → ℤ) → ℤ → Role Q → Role Q × List Call
  role_ready create_err set_err nus_err scan_err (peripheral p) =
      from_peripheral (Peripheral.ble_peripheral_ready create_err set_err p)
  role_ready create_err set_err nus_err scan_err (central c) =
      from_central (Central.ble_central_ready nus_err scan_err c)

  -- `err` comes from the stack; `settings_enabled` is CONFIG_SETTINGS, and `settings_err` the result
  -- of `settings_load`.
  pub ble_ready : ℤ → Bool → ℤ → ℤ → ℤ → (ℕ → ℤ) → ℤ → Stack Q → Stack Q × List Call
  unfolding role_ready
  ble_ready err settings_enabled settings_err create_err set_err nus_err scan_err s =
      let (r, calls) = role_ready create_err set_err nus_err scan_err s.role in
      if is_error err
      then (s, [])
      else if settings_enabled && is_error settings_err
      then (s, [])
      else (record { role = r; init_complete = true }, calls)

module _ {Q : Type 0} (K : Msgq (List ℕ) Q) where
  -- `handler` is `ble_evt_handler`, `auth_err` the result of `bt_conn_auth_cb_register`, and
  -- `settings_enabled` is CONFIG_SETTINGS; the result of `ble_central_init` is not looked at.
  pub attach_and_init : ℕ → ℤ → Bool → Role Q → Role Q × List Call
  attach_and_init handler auth_err settings_enabled (peripheral p) = (
    peripheral
        (Peripheral.ble_peripheral_init (Peripheral.ble_peripheral_attach_handler handler p)),
    [],
  )
  attach_and_init handler auth_err settings_enabled (central c) =
      let (c', err, actions) =
        Central.ble_central_init K auth_err settings_enabled
          (Central.ble_central_attach_handler handler c) in
      (central c', map of_central actions)

  -- The end of `ble_stack_init`, behind `bt_enable`; the stack calls `ble_ready` in a thread of its
  -- own.
  pub ble_stack_init : ℕ → ℤ → Bool → Stack Q → Stack Q × List Call
  unfolding attach_and_init
  ble_stack_init handler auth_err settings_enabled s =
      let (r, calls) = attach_and_init handler auth_err settings_enabled s.role in
      (record s { role = r }, calls)

  pub role_write : ℕ → List ℕ → Role Q → Role Q × List Call
  role_write item_size packet (peripheral p) =
      from_peripheral (Peripheral.ble_peripheral_write K item_size packet p)
  role_write item_size packet (central c) =
      from_central (Central.ble_central_write K item_size packet c)

  -- `ble_publish` with the write at its end; an event that does not fit, or that the codec refuses,
  -- goes nowhere.
  pub publish :
      (Event → Option (List ℕ)) → ℕ → ℕ → ℕ → List ℕ → List ℕ → Role Q → Role Q × List Call
  unfolding role_write
  publish pb_encode name_bytes data_bytes item_size name content r =
      elim (ble_publish pb_encode name_bytes data_bytes name content) [
        | none ↦ (r, [])
        | some packet ↦ role_write item_size packet r
      ]

pub data LedCall : Type 0 where
  gpio_pin_toggle gpio_pin_set timer_start : LedCall

-- The LED flashes until there is a connection.
pub led_flash_handler : {Q : Type 0} → Role Q → List LedCall
led_flash_handler r =
    if not (ble_is_connected r) then gpio_pin_toggle ∷ timer_start ∷ [] else gpio_pin_set ∷ []
