-- ===== src/Sn/Subscribe/Laws.antt =====
-- SUBSCRIBE and UNSUBSCRIBE of MQTT-SN: what is written, and that it is read back.
use mbed_mqtt.Common.{
  ℕ, ◌+◌, ◌<◌, ◌≤◌, ◌≢◌, ◌^◌, Bool, Bytes, ◌++◌, some, length, append_assoc, ◌≡◌, arith, pos,
}
use mbed_mqtt.Packet.Reader.{on_buffer, read_char}
use mbed_mqtt.Packet.Strings.Laws.{read_int-int_image}
use mbed_mqtt.Packet.Writer.Emits.{int_image, serialized}
use mbed_mqtt.Sn.Flags.{Flags, no_flags, flags_bits-flags_byte, Fits, dup_value}
use mbed_mqtt.Sn.Frame.{len_image, packet_image, serialized_frame}
use mbed_mqtt.Sn.Length.{sn_packet_len}
use mbed_mqtt.Sn.MsgType
use mbed_mqtt.Sn.Opening.{Bounded, in_packet-packet_image}
use mbed_mqtt.Sn.Subscribe.{
  sn_serialize_subscribe, sn_serialize_unsubscribe, Subscribe, Unsubscribe, read_subscribe,
  read_unsubscribe, sn_deserialize_subscribe, sn_deserialize_unsubscribe,
}
use mbed_mqtt.Sn.Subscribe.Filters.{
  Filter, named, predefined, characters, type_of, topic_of, InRange, filter_image,
  sn_serialize_subscribe_length_lem, sn_serialize_unsubscribe_length_lem, read_filter-filter_image,
  filter_body, length-filter_body, Emits-filter_body,
}

abbrev pub subscribe_flags : ℕ → ℕ → Filter → Flags
subscribe_flags dup qos f = record no_flags { dup = dup; qos = qos; topic_id_type = type_of f }

abbrev pub unsubscribe_flags : Filter → Flags
unsubscribe_flags f = record no_flags { topic_id_type = type_of f }

unsubscribe_flags-Fits : (f : Filter) → Fits (unsubscribe_flags f)
unsubscribe_flags-Fits (named name) = ground arith
unsubscribe_flags-Fits (predefined n) = ground arith
unsubscribe_flags-Fits (characters a b) = ground arith

-- MQTTSNSerialize_subscribe with a topic of any of the three forms, when `buflen` is no more than
-- the real size of the buffer and a name does not have 251 bytes: below the size of the packet it
-- returns MQTTSNPACKET_BUFFER_TOO_SHORT and leaves the buffer, otherwise it returns the size and
-- writes the packet at the front.
pub sn_serialize_subscribe_lem :
    (buf : Bytes) (buflen dup qos packetid : ℕ) (f : Filter) (more : Bytes)
    → InRange f
    → length (filter_image f) ≢ 251
    → buflen ≤ length buf
    → sn_serialize_subscribe buf buflen dup qos packetid (topic_of f more)
      ≡ serialized
          (sn_packet_len (4 + length (filter_image f)))
          buflen
          (packet_image MsgType.subscribe (filter_body (subscribe_flags dup qos f) packetid f))
          buf
unfolding sn_serialize_subscribe
sn_serialize_subscribe_lem buf buflen dup qos packetid f more h other fits =
    let flags = subscribe_flags dup qos f in
    let body = filter_body flags packetid f in
    let size = length-filter_body flags packetid f in
    let total : length body + 1 ≡ 4 + length (filter_image f) = omega (arith, size) in
    rw (sn_serialize_subscribe_length_lem f more) (
      rw total at (
        serialized_frame MsgType.subscribe body buflen buf
          (Emits-filter_body flags packetid f more h) (omega arith)
          (λ e. other (omega (arith, size, e))) fits))

-- MQTTSNSerialize_unsubscribe with a topic of any of the three forms, when `buflen` is no more than
-- the real size of the buffer and a name does not have 251 bytes: below the size of the packet it
-- returns MQTTSNPACKET_BUFFER_TOO_SHORT and leaves the buffer, otherwise it returns the size and
-- writes the packet at the front.
pub sn_serialize_unsubscribe_lem :
    (buf : Bytes) (buflen packetid : ℕ) (f : Filter) (more : Bytes)
    → InRange f
    → length (filter_image f) ≢ 251
    → buflen ≤ length buf
    → sn_serialize_unsubscribe buf buflen packetid (topic_of f more)
      ≡ serialized
          (sn_packet_len (4 + length (filter_image f)))
          buflen
          (packet_image MsgType.unsubscribe (filter_body (unsubscribe_flags f) packetid f))
          buf
unfolding sn_serialize_unsubscribe
sn_serialize_unsubscribe_lem buf buflen packetid f more h other fits =
    let flags = unsubscribe_flags f in
    let body = filter_body flags packetid f in
    let size = length-filter_body flags packetid f in
    let total : length body + 1 ≡ 4 + length (filter_image f) = omega (arith, size) in
    rw (sn_serialize_unsubscribe_length_lem f more) (
      rw total at (
        serialized_frame MsgType.unsubscribe body buflen buf
          (Emits-filter_body flags packetid f more h) (omega arith)
          (λ e. other (omega (arith, size, e))) fits))

-- MQTTSNDeserialize_subscribe, given the size of the packet or more as `buflen`, returns 1 on every
-- well-formed SUBSCRIBE, whatever follows it: with the QoS, the packet identifier and the topic in
-- its form. A set DUP flag becomes 1, or 255 where the compiler takes the one-bit field as signed.
pub sn_deserialize_subscribe-packet_image :
    (signed : Bool) (old : Subscribe) (dup qos packetid : ℕ) (f : Filter) (rest : Bytes)
    (buflen : ℕ)
    → Fits (subscribe_flags dup qos f)
    → InRange f
    → packetid < 2 ^ 16
    → Bounded (filter_body (subscribe_flags dup qos f) packetid f)
    → length (packet_image MsgType.subscribe (filter_body (subscribe_flags dup qos f) packetid f))
      ≤ buflen
    → sn_deserialize_subscribe signed old
        (packet_image MsgType.subscribe (filter_body (subscribe_flags dup qos f) packetid f)
          ++ rest)
        buflen
      ≡ some (
        pos 1,
        record {
          dup = dup_value signed dup;
          qos = qos;
          packetid = packetid;
          topic_filter = topic_of f rest;
        },
      )
unfolding sn_deserialize_subscribe on_buffer read_subscribe read_char filter_body
sn_deserialize_subscribe-packet_image signed old dup qos packetid f rest buflen fits h id small
      room =
    let flags = subscribe_flags dup qos f in
    let body = filter_body flags packetid f in
    let start = length (len_image body) + 1 in
    let end_ : start + length body ≡ start + 1 + 2 + length (filter_image f) =
      omega (arith, length-filter_body flags packetid f) in
    rw
      (in_packet-packet_image MsgType.subscribe body rest buflen (pos 0, old)
        (read_subscribe signed old) small room)
      (rw (flags_bits-flags_byte flags fits, append_assoc (int_image packetid))
        (rw (read_int-int_image packetid (filter_image f ++ rest) (start + 1) id) (
          rw end_ (
            read_filter-filter_image f rest (start + 1 + 2) old.topic_filter.data_
              (λ d. (
                pos 1,
                record {
                  dup = dup_value signed dup;
                  qos = qos;
                  packetid = packetid;
                  topic_filter = record { type = type_of f; data_ = d };
                },
              ))
              h))))

-- MQTTSNDeserialize_unsubscribe, given the size of the packet or more as `buflen`, returns 1 on
-- every well-formed UNSUBSCRIBE, whatever follows it, with the packet identifier and the topic in
-- its form.
pub sn_deserialize_unsubscribe-packet_image :
    (old : Unsubscribe) (packetid : ℕ) (f : Filter) (rest : Bytes) (buflen : ℕ)
    → InRange f
    → packetid < 2 ^ 16
    → Bounded (filter_body (unsubscribe_flags f) packetid f)
    → length (packet_image MsgType.unsubscribe (filter_body (unsubscribe_flags f) packetid f))
      ≤ buflen
    → sn_deserialize_unsubscribe old
        (packet_image MsgType.unsubscribe (filter_body (unsubscribe_flags f) packetid f) ++ rest)
        buflen
      ≡ some (pos 1, record { packetid = packetid; topic_filter = topic_of f rest })
unfolding sn_deserialize_unsubscribe on_buffer read_unsubscribe read_char filter_body
sn_deserialize_unsubscribe-packet_image old packetid f rest buflen h id small room =
    let flags = unsubscribe_flags f in
    let body = filter_body flags packetid f in
    let start = length (len_image body) + 1 in
    let end_ : start + length body ≡ start + 1 + 2 + length (filter_image f) =
      omega (arith, length-filter_body flags packetid f) in
    rw
      (in_packet-packet_image MsgType.unsubscribe body rest buflen (pos 0, old)
        (read_unsubscribe old) small room)
      (rw
        (flags_bits-flags_byte flags (unsubscribe_flags-Fits f), append_assoc (int_image packetid))
        (rw (read_int-int_image packetid (filter_image f ++ rest) (start + 1) id) (
          rw end_ (
            read_filter-filter_image f rest (start + 1 + 2) old.topic_filter.data_
              (λ d. (
                pos 1,
                record {
                  packetid = packetid;
                  topic_filter = record { type = type_of f; data_ = d };
                },
              ))
              h))))
