-- ===== src/Tcp.antt =====
-- MQTT-SN over TCP, Implementation/Tcp: the two listening sockets of the gateway.
pub mod Descriptors
pub mod Single
pub mod Client
pub mod Messages
pub mod Threads
pub mod Interleavings
pub mod Heap
pub mod Senders
