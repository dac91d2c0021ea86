-- ===== src/Ble.antt =====
-- lib/ble: the Bluetooth side of the library.
pub mod Subscriptions
pub mod Events
pub mod Central
pub mod Peripheral
pub mod Role
