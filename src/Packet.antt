-- ===== src/Packet.antt =====
-- The MQTT packet library, paho_mqtt_embedded_c/MQTTPacket/src.
pub mod Writer
pub mod Reader
pub mod Length
pub mod Memory
pub mod Transport
pub mod MsgType
pub mod Header
pub mod Strings
pub mod Frame
pub mod Publish
pub mod Ack
pub mod Subscribe
pub mod Suback
pub mod Unsubscribe
pub mod Connect
pub mod ConnectServer
pub mod Connack
mod Tests
mod Sessions
