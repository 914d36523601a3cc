-- ===== src/Persistent.antt =====
-- `LinuxPersistent` (Implementation/LinuxPersistent.{h,cpp}): the gateway's persistent store of
-- clients, their subscriptions, registrations, wills and waiting messages. One module for each
-- group of methods, whose children hold the proofs; Errors is about all of them.
pub mod State
pub mod Scan
pub mod Unique
pub mod Subscriptions
pub mod GlobalCounts
pub mod Registrations
pub mod Publishes
pub mod Wills
pub mod Clients
pub mod Attributes
pub mod Errors
