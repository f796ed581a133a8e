-- ===== src/Sn.antt =====
-- paho_mqtt-sn_embedded_c/MQTTSNPacket/src: the packets of MQTT-SN as bytes.
pub mod Flags
pub mod Frame
pub mod Length
pub mod MsgType
pub mod Topic
pub mod Opening
pub mod Publish
pub mod Ack
pub mod Register
pub mod Subscribe
pub mod Connect
pub mod Answers
pub mod RoundTrip
mod Tests
mod Sessions
