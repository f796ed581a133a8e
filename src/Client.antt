-- ===== src/Client.antt =====
-- The MQTT client, paho_mqtt_embedded_c/MQTTClient-C/src.
pub mod Run
pub mod Platform
pub mod State
pub mod Network
pub mod Topics
pub mod Handlers
pub mod Cycle
pub mod Commands
pub mod Invariant
pub mod Closed
pub mod Stream
pub mod Send
mod Tests
