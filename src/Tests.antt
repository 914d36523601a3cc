-- ===== src/Tests.antt =====
-- Theorems of the library applied to concrete cards, files and calls.
mod Layouts
mod Board
mod Samples
mod SubscriptionRuns
mod CountRuns
mod PublishRuns
mod ClientRuns
mod RemoveRuns
mod DeleteRuns
mod NameRuns
mod WillRuns
mod SerialRuns
mod SettingsRuns
mod UdpRuns
mod TcpRuns
mod BleRuns
mod ThreadRuns
mod LoggerRuns
mod ErrorRuns
