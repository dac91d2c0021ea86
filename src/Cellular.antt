-- ===== src/Cellular.antt =====
-- subsys/cellular/cellular.c: the signal strength that the modem reports, and the calls that start the
-- modem, ask it for information and turn it on and off. What a call of the modem's libraries
-- returns is an argument.
pub mod Signal
mod Tests
use pyrinas_zephyr.Common.{
  ℕ, Bool, true, false, Option, none, some, List, [], ◌∷◌, ltb, if◌then◌else◌, ℤ, pos, is_error,
}

-- RSRP_THRESHOLD
abbrev pub rsrp_threshold : ℕ
rsrp_threshold = 97

-- `rsrp`, a `char` without a sign, and whether the modem has been given `modem_rsrp_handler`.
pub record Cellular : Type 0 where
  pub rsrp : ℕ
  pub has_rsrp_handler : Bool

abbrev pub started : Cellular
started = record { rsrp = 255; has_rsrp_handler = false }

pub data ModemCall : Type 0 where
  modem_info_init modem_info_params_init modem_info_rsrp_register : ModemCall
  lte_lc_init_and_connect lte_lc_register_handler : ModemCall

unfoldable pub cellular_get_signal_strength : Cellular → ℕ
cellular_get_signal_strength c = c.rsrp

unfoldable pub modem_rsrp_handler : ℕ → Cellular → Cellular
modem_rsrp_handler rsrp_value c =
    if ltb rsrp_threshold rsrp_value then c else record c { rsrp = rsrp_value }

-- The three errors are what the three calls return; a call after a failed one is not made.
pub register_rsrp : ℤ → Cellular → Cellular × ℤ × List ModemCall
register_rsrp err c =
    if is_error err
    then (c, err, modem_info_rsrp_register ∷ [])
    else (record c { has_rsrp_handler = true }, pos 0, modem_info_rsrp_register ∷ [])

pub init_params : ℤ → ℤ → Cellular → Cellular × ℤ × List ModemCall
unfolding register_rsrp
init_params params_err rsrp_err c =
    let (c', err, calls) = register_rsrp rsrp_err c in
    if is_error params_err
    then (c, params_err, modem_info_params_init ∷ [])
    else (c', err, modem_info_params_init ∷ calls)

pub cellular_info_init : ℤ → ℤ → ℤ → Cellular → Cellular × ℤ × List ModemCall
unfolding init_params
cellular_info_init init_err params_err rsrp_err c =
    let (c', err, calls) = init_params params_err rsrp_err c in
    if is_error init_err
    then (c, init_err, modem_info_init ∷ [])
    else (c', err, modem_info_init ∷ calls)

-- `err` is the result of `modem_info_params_get`; the pointer is the caller's, before and after the
-- call, since C passes it by value.
pub cellular_info_get : ℤ → Option ℕ → ℤ × Option ℕ
cellular_info_get err p_modem_info =
    if is_error err then (err, p_modem_info) else (pos 0, p_modem_info)

-- `lte_lc_normal` and `lte_lc_power_off`, whose results are logged and returned.
pub cellular_on : ℤ → ℤ
cellular_on err = err

pub cellular_off : ℤ → ℤ
cellular_off err = err

-- `auto` is CONFIG_LTE_AUTO_INIT_AND_CONNECT, in a build with the link control and without the carrier
-- library. `none` is the failed assertion.
pub cellular_configure : Bool → ℤ → Option (List ModemCall)
cellular_configure auto err =
    if auto
    then some []
    else if is_error err
    then none
    else some (lte_lc_init_and_connect ∷ lte_lc_register_handler ∷ [])
