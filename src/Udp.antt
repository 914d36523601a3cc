-- ===== src/Udp.antt =====
-- MQTT-SN over UDP, Implementation/Udp/LinuxUdpSocket.{h,cpp}.
pub mod Address
pub mod Socket
pub mod Reply
pub mod Reopen
pub mod Interfaces
