-- ===== src/Ble/Peripheral/Advertising.antt =====
-- The advertising of lib/ble/ble_peripheral.c, over several calls of
-- `ble_peripheral_advertising_start`.
use pyrinas_zephyr.Common.{◌≡◌, true, false, List, [], ◌∷◌, ◌++◌, ℤ, arith, is_error, if◌then◌else◌}
use pyrinas_zephyr.Ble.Peripheral.{
  Peripheral, Action, adv_set_up, ble_peripheral_advertising_start, adv_create, adv_set_data,
  adv_start,
}

module _ {Q : Type 0} where
  abbrev pub both : ℤ → ℤ → ℤ → ℤ → Peripheral Q → List Action
  both create_err set_err create_err' set_err' p =
      let (p', actions) = ble_peripheral_advertising_start create_err set_err p in
      actions ++ (ble_peripheral_advertising_start create_err' set_err' p').1

  -- Where the first call creates the advertising set, a second call only starts it, whatever
  -- became of the advertising data: if the data could not be set, it is not set again.
  pub advertising_start_again :
      (create_err set_err create_err' set_err' : ℤ) (p : Peripheral Q)
      → p.has_adv ≡ false
      → is_error create_err ≡ false
      → both create_err set_err create_err' set_err' p ≡ (
          if is_error set_err
          then adv_create ∷ adv_set_data ∷ adv_start ∷ []
          else adv_create ∷ adv_set_data ∷ adv_start ∷ adv_start ∷ [])
  unfolding ble_peripheral_advertising_start adv_set_up
  advertising_start_again create_err set_err create_err' set_err' p fresh created = ground arith

  -- A call that cannot create the set leaves the peripheral as it was, and the next call tries again.
  pub advertising_start_retries :
      (create_err set_err create_err' set_err' : ℤ) (p : Peripheral Q)
      → p.has_adv ≡ false
      → is_error create_err ≡ true
      → let (p', actions) = ble_peripheral_advertising_start create_err set_err p in
        (p' ≡ p)
        × (both create_err set_err create_err' set_err' p
            ≡ adv_create ∷ (ble_peripheral_advertising_start create_err' set_err' p).1)
  unfolding ble_peripheral_advertising_start adv_set_up
  advertising_start_retries create_err set_err create_err' set_err' p fresh failed = ground arith
