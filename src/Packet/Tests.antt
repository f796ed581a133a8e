-- ===== src/Packet/Tests.antt =====
-- Runs of the packet library on concrete packets, and its theorems at concrete inputs.
use mbed_mqtt.Common.{
  ℕ, ◌^◌, ◌<◌, ◌≤◌, Bytes, [], ◌∷◌, ◌++◌, none, some, length, drop, ◌≡◌, refl, arith, inl, pos,
  negsuc,
}
use mbed_mqtt.Packet.Ack.Laws.{ack_header, serialize_ack_lem, deserialize_ack-packet_image}
use mbed_mqtt.Packet.Ack.{Ack, serialize_ack, deserialize_ack}
use mbed_mqtt.Packet.Connack.Laws.{
  serialize_connack_overruns, deserialize_connack-serialize_connack,
}
use mbed_mqtt.Packet.Connack.{serialize_connack, deserialize_connack}
use mbed_mqtt.Packet.Frame.{packet_image}
use mbed_mqtt.Packet.Header.{header_byte}
use mbed_mqtt.Packet.Length.Bounds.{packet_decode_buf-packet_encode, packet_decode_bounds}
use mbed_mqtt.Packet.Length.{
  encode_loop, packet_encode, packet_len, decode_loop, packet_decode, bufchar, packet_decode_buf,
}
use mbed_mqtt.Packet.Length.Laws.{length-rem_image}
use mbed_mqtt.Packet.MsgType
use mbed_mqtt.Packet.Publish.Laws.{
  publish_header, publish_body, serialize_publish_lem, deserialize_publish-packet_image,
}
use mbed_mqtt.Packet.Publish.Malformed.{deserialize_publish_without_packetid}
use mbed_mqtt.Packet.Publish.{
  Publish, serialize_publish, serialize_publish_length, deserialize_publish,
}
use mbed_mqtt.Packet.Strings.Laws.{c_string, len_string, null_string, string_image}
use mbed_mqtt.Packet.Strings.{mqtt_strlen, write_mqtt_string}
use mbed_mqtt.Packet.Writer.Emits.{serialized, int_image}
use mbed_mqtt.Packet.Writer.{store, write_char, write_int, memcpy, write_cstring, fill}

abbrev room : Bytes
room = 9 ∷ 9 ∷ 9 ∷ 9 ∷ 9 ∷ 9 ∷ 9 ∷ 9 ∷ 9 ∷ 9 ∷ 9 ∷ 9 ∷ []

abbrev topic : Bytes
topic = b'a' ∷ b'/' ∷ b'b' ∷ []

abbrev payload : Bytes
payload = 1 ∷ 2 ∷ []

abbrev no_publish : Publish
no_publish = record {
  dup = 0;
  qos = 0;
  retained = 0;
  packetid = 7;
  topic_name = null_string;
  payload = [];
  payloadlen = pos 0;
}

-- A PUBLISH packet with QoS 1, byte for byte.
publish_run :
    serialize_publish room 12 0 1 1 258 (c_string topic) payload 2
    ≡ some (pos 11, 51 ∷ 9 ∷ 0 ∷ 3 ∷ b'a' ∷ b'/' ∷ b'b' ∷ 1 ∷ 2 ∷ 1 ∷ 2 ∷ 9 ∷ [])
unfolding serialize_publish serialize_publish_length mqtt_strlen packet_len fill write_char store
    header_byte packet_encode encode_loop write_mqtt_string write_cstring write_int memcpy
publish_run = refl

serialize_publish_example :
    serialize_publish room 12 0 1 1 258 (c_string topic) (payload ++ 5 ∷ []) 2
    ≡ serialized
        (packet_len (length (publish_body 1 258 topic payload)))
        12
        (packet_image (publish_header 0 1 1) (publish_body 1 258 topic payload))
        room
unfolding publish_body string_image int_image
serialize_publish_example =
    serialize_publish_lem room 12 0 1 1 258 (c_string topic) topic payload (5 ∷ []) (inl refl)
      (omega arith) (omega arith) (omega arith) (omega arith) (omega arith) (omega arith)
      (omega arith)

deserialize_publish_example :
    deserialize_publish no_publish
      (packet_image (publish_header 0 1 1) (publish_body 1 258 topic payload) ++ 6 ∷ [])
    ≡ some (
      pos 1,
      record {
        dup = 0;
        qos = 1;
        retained = 1;
        packetid = 258;
        topic_name = len_string topic (int_image 258 ++ (payload ++ 6 ∷ []));
        payload = payload ++ 6 ∷ [];
        payloadlen = pos 2;
      },
    )
unfolding publish_body string_image int_image
deserialize_publish_example =
    deserialize_publish-packet_image no_publish 0 1 1 258 topic payload (6 ∷ []) (omega arith)
      (omega arith) (omega arith) (omega arith)

deserialize_publish_without_packetid_example :
    deserialize_publish no_publish
      (packet_image (publish_header 0 2 0) (string_image topic) ++ (int_image 258 ++ 6 ∷ []))
    ≡ some (
      pos 1,
      record {
        dup = 0;
        qos = 2;
        retained = 0;
        packetid = 258;
        topic_name = len_string topic (int_image 258 ++ 6 ∷ []);
        payload = 6 ∷ [];
        payloadlen = negsuc 1;
      },
    )
deserialize_publish_without_packetid_example =
    deserialize_publish_without_packetid no_publish 0 2 0 258 topic (6 ∷ []) (omega arith)
      (omega arith) (omega arith) (omega arith)

abbrev no_ack : Ack
no_ack = record { packettype = 0; dup = 0; packetid = 77 }

serialize_ack_example :
    serialize_ack room 12 MsgType.pubrel 1 300
    ≡ serialized 4 12 (packet_image (ack_header MsgType.pubrel 1) (int_image 300)) room
serialize_ack_example = serialize_ack_lem room 12 MsgType.pubrel 1 300 (omega arith)

deserialize_ack_example :
    deserialize_ack no_ack (packet_image (ack_header MsgType.pubrel 1) (int_image 300) ++ 5 ∷ [])
    ≡ some (pos 1, record { packettype = MsgType.pubrel; dup = 1; packetid = 300 })
deserialize_ack_example =
    deserialize_ack-packet_image no_ack (ack_header MsgType.pubrel 1) 300 (5 ∷ []) (omega arith)
      (omega arith)

serialize_connack_overruns_example : serialize_connack (0 ∷ 0 ∷ 0 ∷ []) 3 0 1 ≡ none
serialize_connack_overruns_example =
    serialize_connack_overruns (0 ∷ 0 ∷ 0 ∷ []) 0 1 (omega arith) (omega arith)

deserialize_connack-serialize_connack_example :
    (buf' : Bytes) × (serialize_connack room 12 5 1 ≡ some (pos 4, buf'))
    × (deserialize_connack (record { session_present = 0; connack_rc = 0 }) buf'
        ≡ some (pos 1, record { session_present = 1; connack_rc = 5 }))
deserialize_connack-serialize_connack_example =
    deserialize_connack-serialize_connack room 5 1 (record { session_present = 0; connack_rc = 0 })
      (omega arith) (omega arith)

packet_decode_buf-packet_encode_example :
    (k : ℕ) × (buf' : Bytes) × (fill (packet_encode 300) room ≡ some (pos k, buf'))
    × (packet_decode_buf buf' ≡ some (record { len = k; value = 300; state = drop k room }))
packet_decode_buf-packet_encode_example =
    packet_decode_buf-packet_encode 300 room (omega arith) (omega (arith, length-rem_image 300))

packet_decode_bounds_example : (321 < 2 ^ 28) × (1 ≤ 2) × (2 ≤ 5)
unfolding packet_decode decode_loop bufchar
packet_decode_bounds_example =
    packet_decode_bounds bufchar (193 ∷ 2 ∷ 9 ∷ [])
      (record { len = 2; value = 321; state = 9 ∷ [] }) refl
