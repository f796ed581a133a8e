-- ===== src/Sn/Ack/Laws.antt =====
-- The MQTT-SN acknowledgements: what is written is read back.
use mbed_mqtt.Common.{
  ℕ, ◌%◌, ◌<◌, ◌≤◌, ◌^◌, Bytes, [], ◌∷◌, ◌++◌, append_assoc, some, true, false, and_then, length,
  ◌≡◌, refl, arith, ge→ltb, ◌==◌, pos,
}
use mbed_mqtt.Packet.Reader.{on_buffer, read_char}
use mbed_mqtt.Packet.Strings.Laws.{read_int-int_image}
use mbed_mqtt.Packet.Writer.Emits.{
  Emits, Emits-write_char, Emits-write_int, Emits->>, int_image, length-int_image,
}
use mbed_mqtt.Packet.Writer.{◌>>◌, write_int, write_char}
use mbed_mqtt.Sn.Ack.{
  sn_serialize_puback, sn_serialize_regack, sn_serialize_suback, sn_serialize_unsuback,
  sn_serialize_ack, TopicAck, read_topic_ack, read_suback, read_packetid, is_ack,
  sn_deserialize_puback, sn_deserialize_regack, Suback, sn_deserialize_suback,
  sn_deserialize_unsuback, Ack, sn_deserialize_ack,
}
use mbed_mqtt.Sn.Flags.{no_flags, flags_byte, flags_bits-flags_byte}
use mbed_mqtt.Sn.Frame.{len_image, packet_image, serialized_small, Emits-write_flags}
use mbed_mqtt.Sn.Length.{sn_packet_len, sn_packet_decode}
use mbed_mqtt.Sn.MsgType
use mbed_mqtt.Sn.Opening.{and_then-serialized}
use mbed_mqtt.Sn.RoundTrip.{round_trip}

-- Two numbers of two bytes, and a byte.
unfoldable pub topic_ack_body : ℕ → ℕ → ℕ → Bytes
topic_ack_body topicid packetid code = int_image topicid ++ (int_image packetid ++ code ∷ [])

length-topic_ack_body :
    (topicid packetid code : ℕ) → length (topic_ack_body topicid packetid code) ≡ 5
unfolding topic_ack_body int_image
length-topic_ack_body topicid packetid code = refl

module _ (topicid packetid code : ℕ) (small : code < 256) where
  Emits-topic_ack :
      Emits
        (write_int topicid >> write_int packetid >> write_char code)
        (topic_ack_body topicid packetid code)
  unfolding topic_ack_body
  Emits-topic_ack =
      let same : code % 256 ≡ code = omega arith in
      rw same at (
        Emits->> (int_image topicid) (int_image packetid ++ code % 256 ∷ [])
          (Emits-write_int topicid)
          (Emits->> (int_image packetid) (code % 256 ∷ []) (Emits-write_int packetid)
            (Emits-write_char code)))

reads_topic_ack :
    (topicid packetid code : ℕ) (rest : Bytes)
    → topicid < 2 ^ 16
    → packetid < 2 ^ 16
    → and_then
        (read_topic_ack (record { rest = topic_ack_body topicid packetid code ++ rest; at = 2 }))
        (λ r. some r.0)
      ≡ some (pos 1, record { topicid = topicid; packetid = packetid; return_code = code })
unfolding topic_ack_body read_char
reads_topic_ack topicid packetid code rest topic id =
    rw (append_assoc (int_image topicid), append_assoc (int_image packetid))
      (rw (read_int-int_image topicid (int_image packetid ++ code ∷ rest) 2 topic)
        (rw (read_int-int_image packetid (code ∷ rest) 4 id) refl))

-- With room for 7 bytes, MQTTSNDeserialize_puback reads back what MQTTSNSerialize_puback wrote: it
-- returns 1, with the topic id, the packet identifier and the return code.
pub sn_deserialize_puback-sn_serialize_puback :
    (old : TopicAck) (topicid packetid code : ℕ) (buf : Bytes) (buflen : ℕ)
    → topicid < 2 ^ 16
    → packetid < 2 ^ 16
    → code < 256
    → 7 ≤ buflen
    → buflen ≤ length buf
    → and_then
        (sn_serialize_puback buf buflen topicid packetid code)
        (λ r. sn_deserialize_puback old r.1 buflen)
      ≡ some (pos 1, record { topicid = topicid; packetid = packetid; return_code = code })
unfolding sn_serialize_puback sn_packet_len sn_deserialize_puback
sn_deserialize_puback-sn_serialize_puback old topicid packetid code buf buflen topic id small room
      fits =
    round_trip MsgType.puback (topic_ack_body topicid packetid code) 5 (pos 0, old)
      (λ enddata. read_topic_ack) _ (Emits-topic_ack topicid packetid code small)
      (λ rest. reads_topic_ack topicid packetid code rest topic id) (omega arith)
      (length-topic_ack_body topicid packetid code) (omega arith) buf buflen room fits

-- With room for 7 bytes, MQTTSNDeserialize_regack reads back what MQTTSNSerialize_regack wrote: it
-- returns 1, with the topic id, the packet identifier and the return code.
pub sn_deserialize_regack-sn_serialize_regack :
    (old : TopicAck) (topicid packetid code : ℕ) (buf : Bytes) (buflen : ℕ)
    → topicid < 2 ^ 16
    → packetid < 2 ^ 16
    → code < 256
    → 7 ≤ buflen
    → buflen ≤ length buf
    → and_then
        (sn_serialize_regack buf buflen topicid packetid code)
        (λ r. sn_deserialize_regack old r.1 buflen)
      ≡ some (pos 1, record { topicid = topicid; packetid = packetid; return_code = code })
unfolding sn_serialize_regack sn_packet_len sn_deserialize_regack
sn_deserialize_regack-sn_serialize_regack old topicid packetid code buf buflen topic id small room
      fits =
    round_trip MsgType.regack (topic_ack_body topicid packetid code) 5 (pos 0, old)
      (λ enddata. read_topic_ack) _ (Emits-topic_ack topicid packetid code small)
      (λ rest. reads_topic_ack topicid packetid code rest topic id) (omega arith)
      (length-topic_ack_body topicid packetid code) (omega arith) buf buflen room fits

suback_body : ℕ → ℕ → ℕ → ℕ → Bytes
suback_body qos topicid packetid code =
    flags_byte (record no_flags { qos = qos }) ∷ topic_ack_body topicid packetid code

length-suback_body :
    (qos topicid packetid code : ℕ) → length (suback_body qos topicid packetid code) ≡ 6
unfolding suback_body
length-suback_body qos topicid packetid code = rw (length-topic_ack_body topicid packetid code) refl

reads_suback :
    (qos topicid packetid code : ℕ) (rest : Bytes)
    → qos < 4
    → topicid < 2 ^ 16
    → packetid < 2 ^ 16
    → and_then
        (read_suback (record { rest = suback_body qos topicid packetid code ++ rest; at = 2 }))
        (λ r. some r.0)
      ≡ some
          (pos 1, record { qos = qos; topicid = topicid; packetid = packetid; returncode = code })
unfolding suback_body topic_ack_body read_char
reads_suback qos topicid packetid code rest q topic id =
    let bits = flags_bits-flags_byte (record no_flags { qos = qos }) (ground arith) in
    rw (append_assoc (int_image topicid), append_assoc (int_image packetid))
      (rw (read_int-int_image topicid (int_image packetid ++ code ∷ rest) 3 topic)
        (rw (read_int-int_image packetid (code ∷ rest) 5 id, bits) refl))

-- With room for 8 bytes, MQTTSNDeserialize_suback reads back what MQTTSNSerialize_suback wrote: it
-- returns 1, with the granted QoS, the topic id, the packet identifier and the return code.
pub sn_deserialize_suback-sn_serialize_suback :
    (old : Suback) (qos topicid packetid code : ℕ) (buf : Bytes) (buflen : ℕ)
    → qos < 4
    → topicid < 2 ^ 16
    → packetid < 2 ^ 16
    → code < 256
    → 8 ≤ buflen
    → buflen ≤ length buf
    → and_then
        (sn_serialize_suback buf buflen qos topicid packetid code)
        (λ r. sn_deserialize_suback old r.1 buflen)
      ≡ some
          (pos 1, record { qos = qos; topicid = topicid; packetid = packetid; returncode = code })
unfolding sn_serialize_suback sn_packet_len sn_deserialize_suback suback_body
sn_deserialize_suback-sn_serialize_suback old qos topicid packetid code buf buflen q topic id small
      room fits =
    round_trip MsgType.suback (suback_body qos topicid packetid code) 6 (pos 0, old)
      (λ enddata. read_suback) _
      (Emits->> (flags_byte (record no_flags { qos = qos }) ∷ [])
        (topic_ack_body topicid packetid code) (Emits-write_flags (record no_flags { qos = qos }))
        (Emits-topic_ack topicid packetid code small))
      (λ rest. reads_suback qos topicid packetid code rest q topic id) (omega arith)
      (length-suback_body qos topicid packetid code) (omega arith) buf buflen room fits

reads_packetid :
    (packetid : ℕ) (rest : Bytes)
    → packetid < 2 ^ 16
    → and_then
        (read_packetid (record { rest = int_image packetid ++ rest; at = 2 }))
        (λ r. some r.0)
      ≡ some (pos 1, packetid)
reads_packetid packetid rest id = rw (read_int-int_image packetid rest 2 id) refl

-- With room for 4 bytes, MQTTSNDeserialize_unsuback reads back what MQTTSNSerialize_unsuback wrote:
-- it returns 1, with the packet identifier.
pub sn_deserialize_unsuback-sn_serialize_unsuback :
    (old packetid : ℕ) (buf : Bytes) (buflen : ℕ)
    → packetid < 2 ^ 16
    → 4 ≤ buflen
    → buflen ≤ length buf
    → and_then
        (sn_serialize_unsuback buf buflen packetid)
        (λ r. sn_deserialize_unsuback old r.1 buflen)
      ≡ some (pos 1, packetid)
unfolding sn_serialize_unsuback sn_packet_len sn_deserialize_unsuback
sn_deserialize_unsuback-sn_serialize_unsuback old packetid buf buflen id room fits =
    round_trip MsgType.unsuback (int_image packetid) 2 (pos 0, old) (λ enddata. read_packetid) _
      (Emits-write_int packetid) (λ rest. reads_packetid packetid rest id) (omega arith)
      (length-int_image packetid) (omega arith) buf buflen room fits

sn_deserialize_ack_lem :
    (old : Ack) (type packetid : ℕ) (rest : Bytes) (buflen : ℕ)
    → is_ack type ≡ true
    → packetid < 2 ^ 16
    → 4 ≤ buflen
    → sn_deserialize_ack old (4 ∷ type ∷ (int_image packetid ++ rest)) buflen
      ≡ some (pos 1, record { type = type; packetid = packetid })
unfolding sn_deserialize_ack sn_packet_decode read_char on_buffer
sn_deserialize_ack_lem old type packetid rest buflen acks id room =
    let wide : (buflen == 0) ≡ false = ground arith in
    rw (wide, ge→ltb buflen 3 (omega arith))
      (rw acks (rw (read_int-int_image packetid rest 2 id) refl))

-- With room for 4 bytes, MQTTSNDeserialize_ack reads back what MQTTSNSerialize_ack wrote for a
-- PUBREL, a PUBREC or a PUBCOMP: it returns 1, with the packet type and the packet identifier.
pub sn_deserialize_ack-sn_serialize_ack :
    (old : Ack) (type packetid : ℕ) (buf : Bytes) (buflen : ℕ)
    → is_ack type ≡ true
    → type < 256
    → packetid < 2 ^ 16
    → 4 ≤ buflen
    → buflen ≤ length buf
    → and_then (sn_serialize_ack buf buflen type packetid) (λ r. sn_deserialize_ack old r.1 buflen)
      ≡ some (pos 1, record { type = type; packetid = packetid })
unfolding sn_serialize_ack packet_image len_image int_image
sn_deserialize_ack-sn_serialize_ack old type packetid buf buflen acks small id room fits =
    let n = length-int_image packetid in
    rw
      (serialized_small type (int_image packetid) 2 buflen buf (Emits-write_int packetid) small n
        (omega arith) fits)
      (rw
        (and_then-serialized 4 buflen (packet_image type (int_image packetid)) buf
          (λ r. sn_deserialize_ack old r.1 buflen) room)
        (sn_deserialize_ack_lem old type packetid _ buflen acks id room))
