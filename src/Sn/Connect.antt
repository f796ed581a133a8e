-- ===== src/Sn/Connect.antt =====
-- MQTTSNConnectClient.c: CONNECT, DISCONNECT, PINGREQ and the will packets, and the answers to
-- them.
pub mod Laws
use mbed_mqtt.Common.{
  ℕ, ◌+◌, ◌-◌, Bool, true, false, Bytes, Option, none, some, ltb, ◌==◌, if◌then◌else◌, ℤ, pos,
  negsuc,
}
use mbed_mqtt.Packet.Strings.{MqttString}
use mbed_mqtt.Packet.Writer.{Writer, ◌>>◌, skip, write_char, write_int, checked}
use mbed_mqtt.Sn.Flags.{Flags, no_flags, flags_byte}
use mbed_mqtt.Sn.Length.{sn_packet_len, sn_packet_encode}
use mbed_mqtt.Sn.MsgType
use mbed_mqtt.Sn.Topic.{sn_strlen, write_sn_string}

-- MQTTSNPacket_connectData, without the eyecatcher that no code reads.
pub record ConnectData : Type 0 where
  pub client_id : MqttString
  pub duration : ℕ
  pub cleansession : ℕ
  pub will_flag : ℕ

unfoldable pub sn_serialize_connect_length : ConnectData → ℕ
sn_serialize_connect_length options = 5 + sn_strlen options.client_id

unfoldable pub sn_serialize_connect : Bytes → ℕ → ConnectData → Option (ℤ × Bytes)
sn_serialize_connect buf buflen options =
    let len = sn_packet_len (sn_serialize_connect_length options) in
    let flags : Flags = record no_flags {
      clean_session = options.cleansession;
      will = options.will_flag;
    } in
    checked len buflen
      (sn_packet_encode len
        >> write_char MsgType.connect
        >> write_char (flags_byte flags)
        >> write_char 1
        >> write_int options.duration
        >> write_sn_string options.client_id)
      buf

-- A duration that is 0 or less is no duration; it is given as 0.
unfoldable pub sn_serialize_disconnect_length : ℕ → ℕ
sn_serialize_disconnect_length duration = if ltb 0 duration then 3 else 1

unfoldable pub sn_serialize_disconnect : Bytes → ℕ → ℕ → Option (ℤ × Bytes)
sn_serialize_disconnect buf buflen duration =
    let len = sn_packet_len (sn_serialize_disconnect_length duration) in
    checked len buflen
      (sn_packet_encode len
        >> write_char MsgType.disconnect
        >> (if ltb 0 duration then write_int duration else skip))
      buf

unfoldable pub sn_serialize_pingreq : Bytes → ℕ → MqttString → Option (ℤ × Bytes)
sn_serialize_pingreq buf buflen clientid =
    let len = sn_packet_len (sn_strlen clientid + 1) in
    checked len buflen
      (sn_packet_encode len >> write_char MsgType.pingreq >> write_sn_string clientid) buf

unfoldable pub sn_serialize_willtopic1 : Bytes → ℕ → ℕ → ℕ → MqttString → ℕ → Option (ℤ × Bytes)
sn_serialize_willtopic1 buf buflen will_qos will_retain will_topic packet_type =
    let len = sn_packet_len (sn_strlen will_topic + 2) in
    let flags : Flags = record no_flags { qos = will_qos; retain = will_retain } in
    checked len buflen
      (sn_packet_encode len
        >> write_char packet_type
        >> write_char (flags_byte flags)
        >> write_sn_string will_topic)
      buf

unfoldable pub sn_serialize_willtopic : Bytes → ℕ → ℕ → ℕ → MqttString → Option (ℤ × Bytes)
sn_serialize_willtopic buf buflen will_qos will_retain will_topic =
    sn_serialize_willtopic1 buf buflen will_qos will_retain will_topic MsgType.willtopic

unfoldable pub sn_serialize_willtopicupd : Bytes → ℕ → ℕ → ℕ → MqttString → Option (ℤ × Bytes)
sn_serialize_willtopicupd buf buflen will_qos will_retain will_topic =
    sn_serialize_willtopic1 buf buflen will_qos will_retain will_topic MsgType.willtopicupd

unfoldable pub sn_serialize_willmsg1 : Bytes → ℕ → MqttString → ℕ → Option (ℤ × Bytes)
sn_serialize_willmsg1 buf buflen will_msg packet_type =
    let len = sn_packet_len (sn_strlen will_msg + 1) in
    checked len buflen (sn_packet_encode len >> write_char packet_type >> write_sn_string will_msg)
      buf

unfoldable pub sn_serialize_willmsg : Bytes → ℕ → MqttString → Option (ℤ × Bytes)
sn_serialize_willmsg buf buflen will_msg = sn_serialize_willmsg1 buf buflen will_msg MsgType.willmsg

unfoldable pub sn_serialize_willmsgupd : Bytes → ℕ → MqttString → Option (ℤ × Bytes)
sn_serialize_willmsgupd buf buflen will_msg =
    sn_serialize_willmsg1 buf buflen will_msg MsgType.willmsgupd
