-- ===== src/Packet/Unsubscribe.antt =====
-- MQTTUnsubscribeClient.c and MQTTUnsubscribeServer.c: UNSUBSCRIBE and UNSUBACK.
pub mod Laws
pub mod Unsuback
use mbed_mqtt.Common.{
  ℕ, zero, suc, ◌+◌, Bool, true, false, Bytes, List, [], ◌∷◌, ◌++◌, Option, none, some, length, ltb,
  ◌==◌, not, and_then, if◌then◌else◌, ℤ, pos,
}
use mbed_mqtt.Packet.Ack.{Ack, deserialize_ack}
use mbed_mqtt.Packet.Header.{Header, header_byte, header_bits}
use mbed_mqtt.Packet.Length.{packet_encode, packet_len, read_remaining}
use mbed_mqtt.Packet.MsgType
use mbed_mqtt.Packet.Reader.{
  Cursor, Reader, then_read, ◌>>=◌, pure, here, read_char, read_int, on_buffer,
}
use mbed_mqtt.Packet.Strings.{MqttString, mqtt_strlen, write_mqtt_string, read_mqtt_len_string}
use mbed_mqtt.Packet.Writer.{Writer, ◌>>◌, skip, write_char, write_int, checked}

topic_lengths : List MqttString → ℕ
topic_lengths [] = 0
topic_lengths (topic ∷ fs) = 2 + mqtt_strlen topic + topic_lengths fs

-- The list is `topicFilters`, of `count` entries.
unfoldable pub serialize_unsubscribe_length : List MqttString → ℕ
unfolding topic_lengths
serialize_unsubscribe_length filters = 2 + topic_lengths filters

unfoldable pub write_topics : List MqttString → Writer
write_topics [] = skip
write_topics (topic ∷ fs) = write_mqtt_string topic >> write_topics fs

unfoldable pub serialize_unsubscribe : Bytes → ℕ → ℕ → ℕ → List MqttString → Option (ℤ × Bytes)
unfolding write_topics
serialize_unsubscribe buf buflen dup packetid filters =
    let rem_len = serialize_unsubscribe_length filters in
    let header : Header = record { type = MsgType.unsubscribe; dup = dup; qos = 1; retain = 0 } in
    checked (packet_len rem_len) buflen
      (write_char (header_byte header)
        >> packet_encode rem_len
        >> write_int packetid
        >> write_topics filters)
      buf

-- The output parameters of MQTTDeserialize_unsubscribe; `filters` holds what was stored at the
-- indices below `count`.
pub record Unsubscribe : Type 0 where
  pub dup : ℕ
  pub packetid : ℕ
  pub filters : List MqttString

-- Rounds of `while (curdata < enddata)`. Each takes at least two bytes, so as many rounds as there
-- are bytes end it; with none left the model faults. `old` gives the array's old entries.
read_topics : ℕ → ℕ → ℕ → (ℕ → MqttString) → List MqttString → Reader (ℤ × List MqttString)
read_topics zero rc enddata old fs c = none
read_topics (suc rounds) rc enddata old fs c =
    let round = then_read (read_mqtt_len_string enddata (old (length fs)) c) (λ r c'.
      let more = read_topics rounds rc enddata old (fs ++ r.1 ∷ []) c' in
      if r.0 then more else some ((pos rc, fs), c')) in
    if ltb c.at enddata then round else some ((pos 1, fs), c)

after_header : ℕ → (ℕ → MqttString) → Unsubscribe → Bytes → Reader (ℤ × Unsubscribe)
unfolding read_topics
after_header byte array old buf =
    let header = header_bits byte in
    let s = record old { dup = header.dup } in
    let parse = read_remaining >>= λ r. here >>= λ curdata. read_int >>= λ n.
    read_topics (suc (length buf)) r.0 (curdata + r.1) array [] >>= λ f.
    pure (f.0, record s { packetid = n; filters = f.1 }) in
    if header.type == MsgType.unsubscribe then parse else pure (pos 0, old)

-- `array` gives the old entries of `topicFilters`; nothing depends on `maxcount`.
unfoldable pub deserialize_unsubscribe :
    ℕ → (ℕ → MqttString) → Unsubscribe → Bytes → Option (ℤ × Unsubscribe)
unfolding after_header
deserialize_unsubscribe maxcount array old buf =
    on_buffer (read_char >>= λ byte. after_header byte array old buf) buf

unfoldable pub serialize_unsuback : Bytes → ℕ → ℕ → Option (ℤ × Bytes)
serialize_unsuback buf buflen packetid =
    let header : Header = record { type = MsgType.unsuback; dup = 0; qos = 0; retain = 0 } in
    checked 2 buflen (write_char (header_byte header) >> packet_encode 2 >> write_int packetid) buf

-- The result is `rc` and the packet identifier, whose old value is passed in.
unfoldable pub deserialize_unsuback : ℕ → Bytes → Option (ℤ × ℕ)
deserialize_unsuback packetid buf =
    and_then (deserialize_ack (record { packettype = 0; dup = 0; packetid = packetid }) buf)
      (λ r. some (if (r.1).packettype == MsgType.unsuback then pos 1 else r.0, (r.1).packetid))
