-- ===== src/Comms.antt =====
-- subsys/comms/comms.c: length-prefixed messages over a UART.
pub mod Rx
pub mod Uart
