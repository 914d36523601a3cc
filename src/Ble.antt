-- ===== src/Ble.antt =====
-- MQTT-SN over Bluetooth Low Energy, Implementation/Ble. Devices, adapters and connections of libBLE,
-- a git submodule, are values that the definitions take.
pub mod Statistic
pub mod Mac
pub mod Addresses
pub mod Socket
pub mod Connection
pub mod Acceptor
pub mod Endings
pub mod Life
pub mod Faulty
pub mod Lookup
pub mod Sightings
pub mod Delivery
pub mod Replies
