-- ===== src/Telnet.antt =====
-- The bridge over Telnet, Implementation/Telnet/LinuxTelnetSocket.{h,cpp}: the protocol of the serial
-- bridge, with commands that end in CR and LF.
pub mod Commands
pub mod Session
