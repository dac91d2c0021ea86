-- ===== src/Comms/Uart/Blocks.antt =====
-- From the driver's events to its blocks of memory: those that are free, those that the driver holds, and
-- those that nobody holds.
use pyrinas_zephyr.Common.{
  ℕ, ◌-◌, ◌+◌, Option, none, some, List, [], ◌∷◌, ◌==◌, if◌then◌else◌, ℤ, is_error,
}
use pyrinas_zephyr.Comms.Uart.{Comms, uart_start_rx, slab_alloc}

-- The receiver has stopped and is started with that result of `uart_rx_enable`; the driver asks for a
-- block; the driver gives one back, if it holds one.
pub data BlockStep : Type 0 where
  restart : ℤ → BlockStep
  request release : BlockStep

pub record Blocks (R : Type 0) : Type 0 where
  pub comms : Comms R
  pub held : ℕ
  pub lost : ℕ

unfoldable pub with_request : {R : Type 0} → Option (Comms R) → Blocks R → Blocks R
with_request none k = k
with_request (some s) k = record k { comms = s; held = k.held + 1 }

unfoldable pub block_step : {R : Type 0} → BlockStep → Blocks R → Blocks R
unfolding with_request
block_step (restart err) k =
    let (s, result, calls) = uart_start_rx err k.comms in
    if k.comms.slab_free == 0
    then record k { comms = s }
    else if is_error err
    then record k { comms = s; lost = k.lost + 1 }
    else record k { comms = s; held = k.held + 1 }
block_step request k = with_request (slab_alloc k.comms) k
block_step release k = if k.held == 0 then k else record k {
  comms = record (k.comms) { slab_free = k.comms.slab_free + 1 };
  held = k.held - 1;
}

unfoldable pub after : {R : Type 0} → List BlockStep → Blocks R → Blocks R
after [] k = k
after (e ∷ es) k = after es (block_step e k)

abbrev pub total : {R : Type 0} → Blocks R → ℕ
total k = k.comms.slab_free + k.held + k.lost
