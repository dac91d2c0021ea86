-- ===== src/Comms/Uart.antt =====
-- The UART side of subsys/comms/comms.c: the ring buffers, the blocks of the receiver, and the driver's
-- events. The ring buffers are an interface; what the other calls of Zephyr return is an argument.
pub mod Sending
pub mod Busy
pub mod Receiving
pub mod Blocks
mod Tests
use pyrinas_zephyr.Common.{
  ℕ, zero, suc, ◌-◌, ◌+◌, Bool, true, false, not, ◌||◌, Option, none, some, List, [], ◌∷◌, ◌++◌,
  ◌==◌, if◌then◌else◌, length, ℤ, pos, is_error, is_negative, enomem, einval, RingBuf, is_some,
}

-- UART_RINGBUF_SIZE, UART_SLAB_BUF_SIZE, UART_SLAB_BUF_COUNT, and the size of `buf` in `struct uart_buf`,
-- which is an array of UART_RINGBUF_SIZE words.
abbrev pub uart_ringbuf_size : ℕ
uart_ringbuf_size = 512

abbrev pub uart_slab_buf_size : ℕ
uart_slab_buf_size = 128

abbrev pub uart_slab_buf_count : ℕ
uart_slab_buf_count = 12

-- The two ring buffers, the blocks of `uart_slab` that are free, and `callback`.
pub record Comms (R : Type 0) : Type 0 where
  pub tx : R
  pub rx : R
  pub slab_free : ℕ
  pub callback : Option ℕ

pub data UartCall : Type 0 where
  uart_tx : List ℕ → UartCall  -- the bytes of the block
  uart_rx_enable uart_rx_buf_rsp : ℕ → UartCall  -- the size of the block
  uart_callback_set sem_give : UartCall

pub data UartEvent : Type 0 where
  uart_tx_done uart_tx_aborted : ℕ → UartEvent
  uart_rx_rdy : List ℕ → UartEvent
  uart_rx_buf_request uart_rx_buf_released uart_rx_disabled uart_rx_stopped : UartEvent

-- `k_mem_slab_alloc` with K_NO_WAIT; `none` is -ENOMEM.
pub slab_alloc : {R : Type 0} → Comms R → Option (Comms R)
slab_alloc s = if s.slab_free == 0 then none else some (record s { slab_free = s.slab_free - 1 })

-- `err` is the result of `uart_rx_enable`. A block that it refuses is not given back.
pub with_block : {R : Type 0} → ℤ → Option (Comms R) → Comms R → Comms R × ℤ × List UartCall
with_block err none s = (s, enomem, [])
with_block err (some s') s =
    (s', if is_error err then err else pos 0, uart_rx_enable uart_slab_buf_size ∷ [])

unfoldable pub uart_start_rx : {R : Type 0} → ℤ → Comms R → Comms R × ℤ × List UartCall
unfolding slab_alloc with_block
uart_start_rx err s = with_block err (slab_alloc s) s

-- UART_RX_BUF_REQUEST with the result of `uart_rx_buf_rsp`. `none` is a failed assertion.
pub buf_request : {R : Type 0} → ℤ → Option (Comms R) → Option (Comms R × List UartCall)
buf_request err none = none
buf_request err (some s) =
    if is_error err then none else some (s, uart_rx_buf_rsp uart_slab_buf_size ∷ [])

-- `has_uart` is the result of `device_get_binding` and `set_err` that of `uart_callback_set`. `none` is a
-- failed assertion.
pub comms_init :
    {R : Type 0} → Option ℕ → Bool → ℤ → ℤ → Comms R → Option (Comms R × ℤ × List UartCall)
unfolding uart_start_rx
comms_init none has_uart set_err enable_err s = some (s, einval, [])
comms_init (some cb) has_uart set_err enable_err s =
    let (s', err, calls) = uart_start_rx enable_err (record s { callback = some cb }) in
    if not has_uart || is_error set_err || is_error err
    then none
    else some (s', pos 0, uart_callback_set ∷ calls)

module _ {R : Type 0} (b : RingBuf R) where
  open b use {put, get_claim, get_finish, is_empty}

  -- `err` is the result of `uart_tx`. On an error the code returns that of `ring_buf_get_finish`, which
  -- it has put into the same variable.
  pub uart_start_tx : ℤ → Comms R → Comms R × ℤ × List UartCall
  uart_start_tx err s =
      let (bytes, rb) = get_claim uart_ringbuf_size s.tx in
      let (finish_err, rb') = get_finish (length bytes) rb in
      if length bytes == 0
      then (record s { tx = rb }, pos 0, [])
      else if is_error err
      then (
        record s { tx = rb' },
        if is_error finish_err then finish_err else pos 0,
        uart_tx bytes ∷ [],
      )
      else (record s { tx = rb }, pos 0, uart_tx bytes ∷ [])

  pub comms_write : ℤ → List ℕ → Comms R → Comms R × ℤ × List UartCall
  unfolding uart_start_tx
  comms_write err bytes s =
      let (written, rb) = put bytes s.tx in
      let started = uart_start_tx err (record s { tx = rb }) in
      if written == 0 then (record s { tx = rb }, enomem, []) else started

  -- UART_TX_DONE
  pub tx_done : ℤ → ℕ → Comms R → Comms R × List UartCall
  unfolding uart_start_tx
  tx_done tx_err len s =
      let s' = record s { tx = (get_finish len s.tx).1 } in
      let (s'', err, calls) = uart_start_tx tx_err s' in
      if is_empty s'.tx then (s', []) else (s'', calls)

  -- UART_RX_RDY
  pub rx_rdy : List ℕ → Comms R → Comms R × List UartCall
  rx_rdy bytes s = (record s { rx = (put bytes s.rx).1 }, sem_give ∷ [])

  -- The three results are those of `uart_tx`, `uart_rx_buf_rsp` and `uart_rx_enable`.
  pub uart_callback : ℤ → ℤ → ℤ → UartEvent → Comms R → Option (Comms R × List UartCall)
  unfolding tx_done rx_rdy buf_request uart_start_rx slab_alloc
  uart_callback tx_err rsp_err enable_err (uart_tx_done len) s = some (tx_done tx_err len s)
  uart_callback tx_err rsp_err enable_err (uart_tx_aborted len) s =
      some (record s { tx = (get_finish len s.tx).1 }, [])
  uart_callback tx_err rsp_err enable_err (uart_rx_rdy bytes) s = some (rx_rdy bytes s)
  uart_callback tx_err rsp_err enable_err uart_rx_buf_request s = buf_request rsp_err (slab_alloc s)
  uart_callback tx_err rsp_err enable_err uart_rx_buf_released s =
      some (record s { slab_free = s.slab_free + 1 }, [])
  uart_callback tx_err rsp_err enable_err uart_rx_disabled s =
      let (s', err, calls) = uart_start_rx enable_err s in some (s', calls)
  uart_callback tx_err rsp_err enable_err uart_rx_stopped s = some (s, [])

  -- One turn of `comms_rx_thread` as far as the ring buffer goes: the claim, which the loop reads, and
  -- the end of it. Where there is nothing it only waits again.
  pub take_chunk : Comms R → Comms R × List ℕ
  take_chunk s =
      let (bytes, rb) = get_claim uart_ringbuf_size s.rx in
      let (err, rb') = get_finish (length bytes) rb in
      if length bytes == 0 then (record s { rx = rb }, []) else (record s { rx = rb' }, bytes)
