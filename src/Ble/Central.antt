-- ===== src/Ble/Central.antt =====
-- lib/ble/ble_central.c: the connection table of a hub, its callbacks and its send queues. A
-- `struct bt_conn *` stands here as a number. Each call of the Bluetooth stack is an `Action` in the
-- result, in the order of the calls, and what the call returns is an argument.
pub mod Invariant
pub mod Steps
pub mod Counter
pub mod Queues
mod Tests
use pyrinas_zephyr.Common.{
  ℕ, zero, suc, ◌+◌, ◌-◌, ◌%◌, ◌^◌, Bool, true, false, ◌&&◌, ◌||◌, not, Option, none, some, List,
  [], ◌∷◌, ◌++◌, ltb, ◌==◌, if◌then◌else◌, is_some, length, map, Msgq, ℤ, is_error, ◌==ℤ◌, ealready,
}

-- `struct ble_nus_c_connection`. The client `nus_c` is known by the index of its entry.
pub record Connection (Q : Type 0) : Type 0 where
  pub ready : Bool
  pub conn : Option ℕ
  pub q : Q

-- `m_conns`, `m_num_connected` (the bit pattern of an `atomic_t`), `scan_failure` and `m_evt_cb`.
pub record Central (Q : Type 0) : Type 0 where
  pub conns : List (Connection Q)
  pub num_connected : ℕ
  pub scan_failure : Bool
  pub evt_cb : Option ℕ

pub data Action : Type 0 where
  scan_start scan_stop schedule_scan submit_send_work : Action
  auth_cb_register settings_load send_work_init scan_work_init : Action
  conn_cb_register scan_init : Action  -- the latter for `ble_central_scan_init`
  conn_ref conn_unref conn_disconnect set_security conn_create : ℕ → Action
  nus_init : ℕ → Action
  dm_start : ℕ → ℕ → Action  -- the connection, and the index of its client
  nus_send : ℕ → List ℕ → Action
  evt_call : ℕ → List ℕ → Action

-- `atomic_inc`, `atomic_dec`, and `atomic_get(&a) < n` for a small `n`.
abbrev pub atomic_inc : ℕ → ℕ
atomic_inc a = (a + 1) % 2 ^ 32

abbrev pub atomic_dec : ℕ → ℕ
atomic_dec a = (a + 2 ^ 32 - 1) % 2 ^ 32

abbrev pub atomic_lt : ℕ → ℕ → Bool
atomic_lt a n = ltb a n || not (ltb a (2 ^ 31))

-- `m_conns[i].conn == conn`
abbrev pub holds : Option ℕ → ℕ → Bool
holds none conn = false
holds (some c) conn = c == conn

pub discovery_error_found : ℕ → List Action
discovery_error_found conn = conn_disconnect conn ∷ []

-- `bt_scan_stop`, `bt_conn_le_create`, whose result is `err`, and then `bt_conn_unref`. `none` is the
-- fault after an error: `conn` is not set then, and is given to `bt_conn_unref` all the same.
pub scan_filter_match : ℤ → ℕ → Option (List Action)
scan_filter_match err conn =
    if is_error err then none else some (scan_stop ∷ conn_create conn ∷ conn_unref conn ∷ [])

module _ {Q : Type 0} where
  -- `ble_central_scan_start`; `err` is the result of `bt_scan_start`.
  unfoldable pub ble_central_scan_start : ℤ → Central Q → Central Q × List Action
  ble_central_scan_start err c =
      if is_error err && not (err ==ℤ ealready)
      then (record c { scan_failure = true }, scan_start ∷ schedule_scan ∷ [])
      else (record c { scan_failure = false }, scan_start ∷ [])

  -- The loop of `connected`: the first unused entry takes the connection.
  pub occupy : ℕ → List (Connection Q) → List (Connection Q) × List Action
  occupy conn [] = ([], [])
  occupy conn (e ∷ es) =
      let (rest, actions) = occupy conn es in
      if is_some e.conn
      then (e ∷ rest, actions)
      else (record e { conn = some conn } ∷ es, conn_ref conn ∷ [])

  -- The loop of `discovery_completed`: the first entry of the connection is ready. `none` is "not
  -- found".
  pub make_ready : ℕ → List (Connection Q) → Option (List (Connection Q))
  make_ready conn [] = none
  make_ready conn (e ∷ es) =
      if holds e.conn conn
      then some (record e { ready = true } ∷ es)
      else elim (make_ready conn es) [ none ↦ none | some rest ↦ some (e ∷ rest) ]

  -- The loop of `gatt_discover`, which does not break: the last entry of the connection.
  pub last_index : ℕ → List (Connection Q) → ℕ → Option ℕ → Option ℕ
  last_index conn [] i found = found
  last_index conn (e ∷ es) i found =
      last_index conn es (suc i) (if holds e.conn conn then some i else found)

  pub gatt_discover : ℕ → Central Q → List Action
  unfolding last_index
  gatt_discover conn c = elim (last_index conn c.conns 0 none) [
    | none ↦ []
    | some i ↦ dm_start conn i ∷ []
  ]

  -- `atomic_get(&m_conns[i].ready) == 1` for some `i`.
  unfoldable pub ble_central_is_connected : List (Connection Q) → Bool
  ble_central_is_connected [] = false
  ble_central_is_connected (e ∷ es) = e.ready || ble_central_is_connected es

  pub is_known : ℕ → List (Connection Q) → Bool
  is_known conn [] = false
  is_known conn (e ∷ es) = holds e.conn conn || is_known conn es

  -- `err` is the argument of the callback.
  pub security_changed : ℕ → ℤ → Central Q → List Action
  unfolding is_known gatt_discover
  security_changed conn err c =
      if is_error err
      then conn_disconnect conn ∷ []
      else if is_known conn c.conns
      then gatt_discover conn c
      else []

  -- The end of `discovery_completed`, where the entry was found.
  pub found : ℕ → ℤ → List (Connection Q) → Central Q → Central Q × List Action
  found max scan_err conns c =
      let c' : Central Q = record c { conns = conns; num_connected = atomic_inc c.num_connected } in
      if atomic_lt c'.num_connected max then ble_central_scan_start scan_err c' else (c', [])

  -- The results are those of `bt_gatt_nus_c_handles_assign`, `bt_gatt_nus_c_tx_notif_enable` and
  -- `bt_scan_start`; `max` is CONFIG_BT_MAX_CONN, and `conn` is `nus_c->conn`.
  pub discovery_completed : ℕ → ℕ → ℤ → ℤ → ℤ → Central Q → Central Q × List Action
  discovery_completed max conn assign_err notif_err scan_err c =
      if is_error assign_err || is_error notif_err
      then (c, conn_disconnect conn ∷ [])
      else elim (make_ready conn c.conns) [
        | none ↦ (c, [])
        | some conns ↦ found max scan_err conns c
      ]

  unfoldable pub ble_data_received : List ℕ → Central Q → List Action
  ble_data_received bytes c = elim c.evt_cb [ none ↦ [] | some cb ↦ evt_call cb bytes ∷ [] ]

  unfoldable pub ble_central_attach_handler : ℕ → Central Q → Central Q
  ble_central_attach_handler cb c = record c { evt_cb = some cb }

  -- The loop of `ble_central_ready` from index `i`; the results of `bt_gatt_nus_c_init` are given by
  -- index.
  unfoldable pub init_clients : (ℕ → ℤ) → List (Connection Q) → ℕ → Bool × List Action
  init_clients err [] i = (true, [])
  init_clients err (e ∷ es) i =
      let (all, actions) = init_clients err es (suc i) in
      if is_error (err i) then (false, nus_init i ∷ []) else (all, nus_init i ∷ actions)

  unfoldable pub ble_central_ready : (ℕ → ℤ) → ℤ → Central Q → Central Q × List Action
  ble_central_ready nus_err scan_err c =
      let (all, actions) = init_clients nus_err c.conns 0 in
      let (c', more) = ble_central_scan_start scan_err c in
      if all then (c', actions ++ more) else (c, actions)

module _ {Q : Type 0} (K : Msgq (List ℕ) Q) where
  -- The loop of `disconnected`: the first entry of the connection is freed.
  pub release : ℕ → List (Connection Q) → Option (List (Connection Q))
  release conn [] = none
  release conn (e ∷ es) =
      if holds e.conn conn
      then some (record { ready = false; conn = none; q = K.purge e.q } ∷ es)
      else elim (release conn es) [ none ↦ none | some rest ↦ some (e ∷ rest) ]

  pub disconnected : ℕ → ℤ → Central Q → Central Q × List Action
  disconnected conn scan_err c = elim (release conn c.conns) [
    | none ↦ (c, [])
    | some conns ↦
        let (c', actions) =
          ble_central_scan_start scan_err
            (record c { conns = conns; num_connected = atomic_dec c.num_connected }) in
        (c', conn_unref conn ∷ actions)
  ]

  -- The two paths of `connected`.
  pub refuse : ℕ → ℤ → ℤ → Central Q → Central Q × List Action
  refuse conn scan_err scan_err' c =
      let (c', actions) = disconnected conn scan_err c in
      let (c'', more) = ble_central_scan_start scan_err' c' in (c'', actions ++ more)

  pub accept : ℕ → ℤ → Central Q → Central Q × List Action
  accept conn security_err c =
      let (conns, actions) = occupy conn c.conns in
      let c' : Central Q = record c { conns = conns } in
      (
        c',
        actions
            ++ set_security conn
              ∷ ((if is_error security_err then gatt_discover conn c' else []) ++ scan_stop ∷ []),
      )

  -- The results are the argument `conn_err` of the callback, that of `bt_conn_set_security`, and
  -- those of the two calls of `bt_scan_start` of the error path.
  pub connected : ℕ → ℤ → ℤ → ℤ → ℤ → Central Q → Central Q × List Action
  connected conn conn_err security_err scan_err scan_err' c =
      if is_error conn_err then refuse conn scan_err scan_err' c else accept conn security_err c

  -- The loop of `bt_send_work_handler` from index `i`: each connection that is ready sends the oldest
  -- entry of its queue.
  pub send_one : Connection Q → ℕ → Connection Q × List Action
  send_one e i =
      if not e.ready || not (is_some e.conn) || K.num_used_get e.q == 0
      then (e, [])
      else elim (K.get e.q) [
        | none ↦ (e, [])
        | some (payload, q) ↦ (record e { q = q }, nus_send i payload ∷ [])
      ]

  pub bt_send_work_handler : List (Connection Q) → ℕ → List (Connection Q) × List Action
  bt_send_work_handler [] i = ([], [])
  bt_send_work_handler (e ∷ es) i =
      let (e', actions) = send_one e i in
      let (rest, more) = bt_send_work_handler es (suc i) in (e' ∷ rest, actions ++ more)

  -- The queueing loop of `ble_central_write`; a full queue drops the payload.
  pub put_one : List ℕ → Connection Q → Connection Q
  put_one payload e =
      if e.ready then elim (K.put payload e.q) [ none ↦ e | some q ↦ record e { q = q } ] else e

  -- `item_size` is BLE_QUEUE_ITEM_SIZE.
  pub ble_central_write : ℕ → List ℕ → Central Q → Central Q × List Action
  ble_central_write item_size payload c =
      if not (ble_central_is_connected c.conns)
      then (c, [])
      else if ltb item_size (length payload)
      then (c, [])
      else (record c { conns = map (put_one payload) c.conns }, submit_send_work ∷ [])

  -- `ble_data_sent` for the client at index `i`.
  pub has_work : List (Connection Q) → ℕ → Bool
  has_work [] i = false
  has_work (e ∷ es) zero = not (K.num_used_get e.q == 0)
  has_work (e ∷ es) (suc i) = has_work es i

  pub ble_data_sent : ℕ → Central Q → List Action
  unfolding has_work
  ble_data_sent i c = if has_work c.conns i then submit_send_work ∷ [] else []

  -- The loop of `ble_central_init`: no entry is ready, and the queues are empty.
  unfoldable pub init_entry : Connection Q → Connection Q
  init_entry e = record e { ready = false; q = K.init }

  -- `err` is the result of `bt_conn_auth_cb_register`, and `settings_enabled` is CONFIG_SETTINGS.
  unfoldable pub ble_central_init : ℤ → Bool → Central Q → Central Q × ℤ × List Action
  unfolding init_entry
  ble_central_init err settings_enabled c =
      if is_error err then (c, err, auth_cb_register ∷ []) else (
        record c { conns = map init_entry c.conns; num_connected = 0; scan_failure = false },
        ℤ.pos 0,
        auth_cb_register ∷ (if settings_enabled then settings_load ∷ [] else [])
            ++ send_work_init ∷ scan_work_init ∷ conn_cb_register ∷ scan_init ∷ [],
      )

-- The callbacks and calls that change the table, with their arguments and the results of the calls
-- that they make.
pub data Event : Type 0 where
  on_connected : ℕ → ℤ → ℤ → ℤ → ℤ → Event
  on_disconnected : ℕ → ℤ → Event
  on_discovery_completed : ℕ → ℤ → ℤ → ℤ → Event
  on_write : List ℕ → Event
  on_send_work : Event

module _ {Q : Type 0} (K : Msgq (List ℕ) Q) (max item_size : ℕ) where
  pub send_work : Central Q → Central Q × List Action
  send_work c =
      let (conns, actions) = bt_send_work_handler K c.conns 0 in
      (record c { conns = conns }, actions)

  pub step : Central Q → Event → Central Q × List Action
  step c (on_connected conn err security_err scan_err scan_err') =
      connected K conn err security_err scan_err scan_err' c
  step c (on_disconnected conn scan_err) = disconnected K conn scan_err c
  step c (on_discovery_completed conn assign_err notif_err scan_err) =
      discovery_completed max conn assign_err notif_err scan_err c
  step c (on_write payload) = ble_central_write K item_size payload c
  step c on_send_work = send_work c

  pub run : Central Q → List Event → Central Q
  run c [] = c
  run c (e ∷ es) = run (step c e).0 es
