-- ===== src/Sn/Register/Laws.antt =====
-- REGISTER: what is written, and that it is read back.
use mbed_mqtt.Common.{
  ℕ, ◌+◌, ◌<◌, ◌≤◌, ◌≢◌, ◌^◌, Bytes, [], ◌++◌, none, some, length, length-append, append_assoc,
  append-nil, ◌≡◌, refl, arith, inl, inr, pos, ℤ, sub_ℕ,
}
use mbed_mqtt.Packet.Reader.{on_buffer}
use mbed_mqtt.Packet.Strings.{MqttString}
use mbed_mqtt.Packet.Strings.Laws.{Holds, read_int-int_image}
use mbed_mqtt.Packet.Writer.{◌>>◌, write_int}
use mbed_mqtt.Packet.Writer.Emits.{
  Emits, Emits-memcpy, Emits-write_int, Emits->>, int_image, length-int_image, serialized,
}
use mbed_mqtt.Sn.Frame.{len_image, packet_image, serialized_frame}
use mbed_mqtt.Sn.Length.{sn_packet_len}
use mbed_mqtt.Sn.MsgType
use mbed_mqtt.Sn.Opening.{Bounded, in_packet-packet_image}
use mbed_mqtt.Sn.Register.{
  sn_serialize_register_length, name_bytes, sn_serialize_register, Register, set_name,
  sn_deserialize_register,
}
use mbed_mqtt.Sn.Topic.{sn_strlen, copy_data}

-- The topic id, the packet identifier, and the name without a length.
unfoldable pub register_body : ℕ → ℕ → Bytes → Bytes
register_body topicid packetid name = int_image topicid ++ (int_image packetid ++ name)

length-register_body :
    (topicid packetid : ℕ) (name : Bytes)
    → length (register_body topicid packetid name) ≡ length name + 4
unfolding register_body
length-register_body topicid packetid name = omega (
  arith,
  length-append (int_image topicid) (int_image packetid ++ name),
  length-append (int_image packetid) name,
  length-int_image topicid,
  length-int_image packetid,
)

sn_strlen-Holds : (s : MqttString) (t : Bytes) → Holds s t → sn_strlen s ≡ length t
unfolding sn_strlen
sn_strlen-Holds s t (inl e) = rw e refl
sn_strlen-Holds s t (inr (more, e)) = rw e refl

Emits-copy_data :
    (s : MqttString) (t : Bytes) → Holds s t → Emits (copy_data (length t) (name_bytes s)) t
Emits-copy_data s t (inl e) = rw e (rw (append-nil t) at (Emits-memcpy t []))
Emits-copy_data s t (inr (more, e)) = rw e (Emits-memcpy t more)

Emits-register :
    (topicid packetid : ℕ) (s : MqttString) (name : Bytes)
    → Holds s name
    → Emits
        (write_int topicid >> write_int packetid >> copy_data (length name) (name_bytes s))
        (register_body topicid packetid name)
unfolding register_body
Emits-register topicid packetid s name h =
    Emits->> (int_image topicid) (int_image packetid ++ name) (Emits-write_int topicid)
      (Emits->> (int_image packetid) name (Emits-write_int packetid) (Emits-copy_data s name h))

-- MQTTSNSerialize_register, for a topic name given in either way, when `buflen` is no more than the
-- real size of the buffer and the name does not have 250 bytes: below the size of the packet it
-- returns MQTTSNPACKET_BUFFER_TOO_SHORT and leaves the buffer, otherwise it returns the size and
-- writes the packet at the front.
pub sn_serialize_register_lem :
    (buf : Bytes) (buflen topicid packetid : ℕ) (s : MqttString) (name : Bytes)
    → Holds s name
    → length name ≢ 250
    → buflen ≤ length buf
    → sn_serialize_register buf buflen topicid packetid s
      ≡ serialized
          (sn_packet_len (length name + 5))
          buflen
          (packet_image MsgType.register (register_body topicid packetid name))
          buf
unfolding sn_serialize_register sn_serialize_register_length
sn_serialize_register_lem buf buflen topicid packetid s name h other fits =
    let body = register_body topicid packetid name in
    let size = length-register_body topicid packetid name in
    let total : length body + 1 ≡ length name + 5 = omega (arith, size) in
    rw (sn_strlen-Holds s name h) (
      rw total at (
        serialized_frame MsgType.register body buflen buf (Emits-register topicid packetid s name h)
          (omega arith) (λ e. other (omega (arith, size, e))) fits))

length_left : (at n : ℕ) → sub_ℕ (at + n) at ≡ pos n
length_left at n = ground arith

-- MQTTSNDeserialize_register, given the size of the packet or more as `buflen`, returns 1 on every
-- well-formed REGISTER, whatever follows it, with the topic id, the packet identifier, and the name
-- as a pointer and a length.
pub sn_deserialize_register-packet_image :
    (old : Register) (topicid packetid : ℕ) (name rest : Bytes) (buflen : ℕ)
    → topicid < 2 ^ 16
    → packetid < 2 ^ 16
    → Bounded (register_body topicid packetid name)
    → length (packet_image MsgType.register (register_body topicid packetid name)) ≤ buflen
    → sn_deserialize_register old
        (packet_image MsgType.register (register_body topicid packetid name) ++ rest)
        buflen
      ≡ some (
        pos 1,
        record {
          topicid = topicid;
          packetid = packetid;
          cstring = none;
          data_ = some (name ++ rest);
          len = pos (length name);
        },
      )
unfolding sn_deserialize_register on_buffer register_body set_name
sn_deserialize_register-packet_image old topicid packetid name rest buflen topic id small room =
    let body = register_body topicid packetid name in
    let start = length (len_image body) + 1 in
    let end_ : start + length body ≡ start + 2 + 2 + length name =
      omega (arith, length-register_body topicid packetid name) in
    rw
      (in_packet-packet_image {A = ℤ × Register} MsgType.register body rest buflen (pos 0, old) _
        small room)
      (rw (append_assoc (int_image topicid), append_assoc (int_image packetid))
        (rw (read_int-int_image topicid (int_image packetid ++ (name ++ rest)) start topic) (
          rw (read_int-int_image packetid (name ++ rest) (start + 2) id)
            (rw (end_, length_left (start + 2 + 2) (length name)) refl))))
