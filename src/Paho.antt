-- ===== src/Paho.antt =====
-- The connection to the MQTT broker, Implementation/paho/PahoMqttMessageHandler.{h,cpp}, over the
-- Paho client library.
pub mod Library
pub mod Handler
pub mod Connect
pub mod Broker
