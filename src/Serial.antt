-- ===== src/Serial.antt =====
-- The bridge to a microcontroller on a serial line, src/Implementation/Serial/LinuxSerialSocket.cpp: a
-- protocol of text lines.
pub mod Numbers
pub mod State
pub mod Lines
pub mod Read
pub mod Commands
pub mod Waiting
pub mod Words
pub mod RoundTrip
pub mod Session
pub mod Configuration
pub mod Start
