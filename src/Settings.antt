-- ===== src/Settings.antt =====
-- The configuration files of `LinuxPersistent` (Implementation/LinuxPersistent.{h,cpp}): MQTT.CON,
-- MQTTSN.CON and TOPICS.PRE, lines of a key and its value behind a space.
pub mod Lines
pub mod Parse
pub mod Getters
pub mod Values
pub mod Decimal
pub mod Entries
pub mod Turns
pub mod Broker
pub mod Topics
