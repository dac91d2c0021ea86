-- ===== src/Ble/Peripheral.antt =====
-- lib/ble/ble_peripheral.c: the one connection of a peripheral, its advertising and its send queue. A
-- `struct bt_conn *` stands here as a number. Each call of the Bluetooth stack is an `Action` in the
-- result, in the order of the calls, and what the call returns is an argument.
pub mod Clean
pub mod Fifo
pub mod Advertising
mod Tests
use pyrinas_zephyr.Common.{
  ℕ, zero, suc, Bool, true, false, not, Option, none, some, List, [], ◌∷◌, ◌++◌, ltb, ◌==◌, ◌||◌,
  if◌then◌else◌, length, Msgq, ℤ, is_error,
}

-- `current_conn`, `m_ready`, whether `adv` is set, `m_evt_cb`, `nus_max_send_len` and
-- `m_peripheral_event_queue`.
pub record Peripheral (Q : Type 0) : Type 0 where
  pub current_conn : Option ℕ
  pub ready : Bool
  pub has_adv : Bool
  pub evt_cb : Option ℕ
  pub nus_max_send_len : ℕ
  pub event_queue : Q

pub data Action : Type 0 where
  adv_create adv_set_data adv_start : Action
  nus_init conn_cb_register auth_cb_register smp_register : Action
  conn_ref conn_unref conn_disconnect exchange_mtu : ℕ → Action
  nus_send : ℕ → List ℕ → Action
  submit_send_work : Action
  evt_call : ℕ → List ℕ → Action

-- The calls of `ble_peripheral_advertising_start`.
pub adv_set_up : ℤ → ℤ → Bool → List Action
adv_set_up create_err set_err had_adv =
    if had_adv
    then adv_start ∷ []
    else if is_error create_err
    then adv_create ∷ []
    else if is_error set_err
    then adv_create ∷ adv_set_data ∷ []
    else adv_create ∷ adv_set_data ∷ adv_start ∷ []

pub unref_current : Option ℕ → List Action
unref_current none = []
unref_current (some conn) = conn_unref conn ∷ []

module _ {Q : Type 0} where
  -- The results are those of `bt_le_ext_adv_create` and `bt_le_ext_adv_set_data`; that of
  -- `bt_le_ext_adv_start` is only logged.
  unfoldable pub ble_peripheral_advertising_start :
      ℤ → ℤ → Peripheral Q → Peripheral Q × List Action
  unfolding adv_set_up
  ble_peripheral_advertising_start create_err set_err p = (
    (if p.has_adv || not (is_error create_err) then record p { has_adv = true } else p),
    adv_set_up create_err set_err p.has_adv,
  )

  -- `max_send` is the result of `bt_gatt_nus_max_send`.
  pub exchange_func : ℤ → ℕ → Peripheral Q → Peripheral Q
  exchange_func err max_send p =
      if is_error err then p else record p { nus_max_send_len = max_send }

  pub connected : ℕ → ℤ → Peripheral Q → Peripheral Q × List Action
  connected conn err p =
      if is_error err
      then (p, [])
      else (record p { current_conn = some conn }, conn_ref conn ∷ exchange_mtu conn ∷ [])

  pub security_changed : ℕ → ℤ → Peripheral Q → Peripheral Q × List Action
  security_changed conn err p =
      if is_error err then (p, conn_disconnect conn ∷ []) else (record p { ready = true }, [])

  pub bt_receive_cb : List ℕ → Peripheral Q → List Action
  bt_receive_cb bytes p = elim p.evt_cb [ none ↦ [] | some cb ↦ evt_call cb bytes ∷ [] ]

  unfoldable pub ble_peripheral_ready : ℤ → ℤ → Peripheral Q → Peripheral Q × List Action
  ble_peripheral_ready create_err set_err p =
      let (p', actions) = ble_peripheral_advertising_start create_err set_err p in
      (p', nus_init ∷ actions ++ conn_cb_register ∷ auth_cb_register ∷ smp_register ∷ [])

  unfoldable pub ble_peripheral_attach_handler : ℕ → Peripheral Q → Peripheral Q
  ble_peripheral_attach_handler cb p = record p { evt_cb = some cb }

  unfoldable pub ble_peripheral_init : Peripheral Q → Peripheral Q
  ble_peripheral_init p = record p { ready = false }

  unfoldable pub ble_peripheral_is_connected : Peripheral Q → Bool
  ble_peripheral_is_connected p = p.ready

module _ {Q : Type 0} (K : Msgq (List ℕ) Q) where
  -- The part of `disconnected` before the advertising starts again.
  pub drop_connection : Peripheral Q → Peripheral Q
  drop_connection p = record p {
    current_conn = none;
    ready = false;
    event_queue = K.purge p.event_queue;
  }

  pub disconnected : ℤ → ℤ → Peripheral Q → Peripheral Q × List Action
  unfolding unref_current
  disconnected create_err set_err p =
      let (p', actions) = ble_peripheral_advertising_start create_err set_err (drop_connection p) in
      (p', unref_current p.current_conn ++ actions)

  -- The result of `bt_gatt_nus_send` is only logged.
  pub bt_send_work_handler : Peripheral Q → Peripheral Q × List Action
  bt_send_work_handler p = elim p.current_conn [
    | none ↦ (p, [])
    | some conn ↦ elim (K.get p.event_queue) [
      | none ↦ (p, [])
      | some (payload, q) ↦ (record p { event_queue = q }, nus_send conn payload ∷ [])
    ]
  ]

  pub bt_sent_cb : Peripheral Q → List Action
  bt_sent_cb p = if K.num_used_get p.event_queue == 0 then [] else submit_send_work ∷ []

  -- `item_size` is BLE_QUEUE_ITEM_SIZE. A full queue drops the payload, and submits no work.
  unfoldable pub ble_peripheral_write : ℕ → List ℕ → Peripheral Q → Peripheral Q × List Action
  ble_peripheral_write item_size payload p = elim p.current_conn [
    | none ↦ (p, [])
    | some conn ↦
        if ltb item_size (length payload) then (p, []) else elim (K.put payload p.event_queue) [
          | none ↦ (p, [])
          | some q ↦ (record p { event_queue = q }, submit_send_work ∷ [])
        ]
  ]

-- The callbacks, the work and the calls, with their arguments and the results of the calls that they
-- make.
pub data Event : Type 0 where
  on_connected : ℕ → ℤ → Event
  on_disconnected : ℤ → ℤ → Event
  on_security_changed : ℕ → ℤ → Event
  on_exchange : ℤ → ℕ → Event
  on_write : List ℕ → Event
  on_send_work on_sent : Event
  on_receive : List ℕ → Event

module _ {Q : Type 0} (K : Msgq (List ℕ) Q) (item_size : ℕ) where
  pub step : Peripheral Q → Event → Peripheral Q × List Action
  step p (on_connected conn err) = connected conn err p
  step p (on_disconnected create_err set_err) = disconnected K create_err set_err p
  step p (on_security_changed conn err) = security_changed conn err p
  step p (on_exchange err max_send) = (exchange_func err max_send p, [])
  step p (on_write payload) = ble_peripheral_write K item_size payload p
  step p on_send_work = bt_send_work_handler K p
  step p on_sent = (p, bt_sent_cb K p)
  step p (on_receive bytes) = (p, bt_receive_cb bytes p)

  pub run : Peripheral Q → List Event → Peripheral Q × List Action
  run p [] = (p, [])
  run p (e ∷ es) =
      let (p', actions) = step p e in let (p'', more) = run p' es in (p'', actions ++ more)
