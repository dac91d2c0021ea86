-- ===== src/Cellular/Tests.antt =====
-- Reports of the modem, and its start.
use pyrinas_zephyr.Common.{◌≡◌, refl, true, false, none, some, [], ◌∷◌, pos, eio}
use pyrinas_zephyr.Cellular.{
  modem_rsrp_handler, started, cellular_get_signal_strength, cellular_info_init, cellular_info_get,
  cellular_configure, modem_info_init, modem_info_params_init, modem_info_rsrp_register,
  lte_lc_init_and_connect, lte_lc_register_handler,
}

some_reports :
    cellular_get_signal_strength
      (modem_rsrp_handler 98 (modem_rsrp_handler 51 (modem_rsrp_handler 255 started)))
    ≡ 51
unfolding cellular_get_signal_strength modem_rsrp_handler
some_reports = refl

no_reports : cellular_get_signal_strength started ≡ 255
unfolding cellular_get_signal_strength
no_reports = refl

starts : cellular_info_init (pos 0) (pos 0) (pos 0) started ≡ (
  record started { has_rsrp_handler = true },
  pos 0,
  modem_info_init ∷ modem_info_params_init ∷ modem_info_rsrp_register ∷ [],
)
unfolding cellular_info_init
starts = refl

fails_to_start :
    cellular_info_init (pos 0) eio (pos 0) started
    ≡ (started, eio, modem_info_init ∷ modem_info_params_init ∷ [])
unfolding cellular_info_init
fails_to_start = refl

-- The caller's pointer stays NULL.
info_get : cellular_info_get (pos 0) none ≡ (pos 0, none)
unfolding cellular_info_get
info_get = refl

configures :
    cellular_configure false (pos 0) ≡ some (lte_lc_init_and_connect ∷ lte_lc_register_handler ∷ [])
unfolding cellular_configure
configures = refl
