-- ===== src/Sn/Publish/Laws.antt =====
-- The MQTT-SN PUBLISH packet: what is written, and that it is read back.
use mbed_mqtt.Common.{
  ℕ, ◌+◌, ◌<◌, ◌≤◌, ◌≢◌, ◌^◌, Bool, Bytes, [], ◌∷◌, ◌++◌, some, and_then, length, length-append,
  append_assoc, ◌≡◌, ap, Option, ℤ, refl, arith, pos, sub_ℕ,
}
use mbed_mqtt.Packet.Reader.{Cursor, on_buffer, read_char}
use mbed_mqtt.Packet.Strings.Laws.{read_int-int_image}
use mbed_mqtt.Packet.Writer.{◌>>◌, write_char, write_int, memcpy}
use mbed_mqtt.Packet.Writer.Emits.{
  Emits, Emits-memcpy, Emits-write_int, Emits->>, int_image, length-int_image, serialized,
}
use mbed_mqtt.Sn.Flags.{Flags, no_flags, flags_byte, flags_bits-flags_byte, Fits, dup_value}
use mbed_mqtt.Sn.Frame.{len_image, packet_image, serialized_frame, Emits-write_flags}
use mbed_mqtt.Sn.Length.{sn_packet_len}
use mbed_mqtt.Sn.MsgType
use mbed_mqtt.Sn.Opening.{Bounded, in_packet-packet_image}
use mbed_mqtt.Sn.Publish.{
  sn_serialize_publish_length, sn_serialize_publish, write_topic, write_name, Publish, set_payload,
  read_publish, sn_deserialize_publish,
}
use mbed_mqtt.Sn.Publish.Forms.{
  Form, named, registered, predefined, characters, type_of, topic_of, Allowed, field_image,
  name_image, length-field_image, Emits-write_topic, Emits-write_name, read_topic-field_image,
  set_name-name_image,
}

abbrev pub publish_flags : ℕ → ℕ → ℕ → Form → Flags
publish_flags dup qos retained form = record no_flags {
  dup = dup;
  qos = qos;
  retain = retained;
  topic_id_type = type_of form;
}

-- The flags, the topic field, the packet identifier, the topic name if there is one, the payload.
unfoldable pub publish_body : Flags → ℕ → Form → Bytes → Bytes
publish_body flags packetid form payload =
    flags_byte flags ∷ (field_image form ++ (int_image packetid ++ (name_image form ++ payload)))

length-publish_body :
    (flags : Flags) (packetid : ℕ) (form : Form) (payload : Bytes)
    → length (publish_body flags packetid form payload)
      ≡ length (name_image form) + length payload + 5
unfolding publish_body
length-publish_body flags packetid form payload = omega (
  arith,
  length-append (field_image form) (int_image packetid ++ (name_image form ++ payload)),
  length-append (int_image packetid) (name_image form ++ payload),
  length-append (name_image form) payload,
  length-field_image form,
  length-int_image packetid,
)

sn_serialize_publish_length_lem :
    (qos : ℕ) (form : Form) (more : Bytes) (n : ℕ)
    → Allowed qos form
    → sn_serialize_publish_length n (topic_of form more) qos
      ≡ some (length (name_image form) + n + 5 + 1)
unfolding sn_serialize_publish_length
sn_serialize_publish_length_lem qos (named name) more n h =
    let sum : n + (6 + length name) ≡ length name + n + 5 + 1 = omega arith in
    rw (h.0) (rw sum refl)
sn_serialize_publish_length_lem qos (registered i) more n h =
    let sum : n + 6 ≡ 0 + n + 5 + 1 = omega arith in rw (h.0) (rw sum refl)
sn_serialize_publish_length_lem qos (predefined i) more n h =
    let sum : n + 6 ≡ 0 + n + 5 + 1 = omega arith in rw sum refl
sn_serialize_publish_length_lem qos (characters a b) more n h =
    let sum : n + 6 ≡ 0 + n + 5 + 1 = omega arith in rw sum refl

Emits-body :
    (flags : Flags) (qos packetid : ℕ) (form : Form) (payload more after : Bytes)
    → Allowed qos form
    → Emits
        (write_char (flags_byte flags)
          >> write_topic (topic_of form more) qos
          >> write_int packetid
          >> write_name (topic_of form more) qos
          >> memcpy (length payload) (payload ++ after))
        (publish_body flags packetid form payload)
unfolding publish_body
Emits-body flags qos packetid form payload more after h =
    Emits->> (flags_byte flags ∷ [])
      (field_image form ++ (int_image packetid ++ (name_image form ++ payload)))
      (Emits-write_flags flags)
      (Emits->> (field_image form) (int_image packetid ++ (name_image form ++ payload))
        (Emits-write_topic qos form more h)
        (Emits->> (int_image packetid) (name_image form ++ payload) (Emits-write_int packetid) (
          Emits->> (name_image form) payload (Emits-write_name qos form more h)
            (Emits-memcpy payload after))))

-- MQTTSNSerialize_publish with a topic of any of the four forms that its QoS allows, when `buflen`
-- is no more than the real size of the buffer and the body does not have 254 bytes: below the size
-- of the packet it returns MQTTSNPACKET_BUFFER_TOO_SHORT and leaves the buffer, otherwise it
-- returns the size and writes the packet at the front.
pub sn_serialize_publish_lem :
    (buf : Bytes) (buflen dup qos retained packetid : ℕ) (form : Form) (payload more after : Bytes)
    → Allowed qos form
    → length (name_image form) + length payload ≢ 249
    → buflen ≤ length buf
    → sn_serialize_publish buf buflen dup qos retained packetid
        (topic_of form more)
        (payload ++ after)
        (length payload)
      ≡ serialized
          (sn_packet_len (length (name_image form) + length payload + 6))
          buflen
          (packet_image MsgType.publish
            (publish_body (publish_flags dup qos retained form) packetid form payload))
          buf
unfolding sn_serialize_publish
sn_serialize_publish_lem buf buflen dup qos retained packetid form payload more after h other fits =
    let flags = publish_flags dup qos retained form in
    let body = publish_body flags packetid form payload in
    let size = length-publish_body flags packetid form payload in
    let total : length (name_image form) + length payload + 6
        ≡ length (name_image form) + length payload + 5 + 1 =
      omega arith in
    rw (sn_serialize_publish_length_lem qos form more (length payload) h, total)
      (rw size at (
        serialized_frame MsgType.publish body buflen buf
          (Emits-body flags qos packetid form payload more after h) (omega arith)
          (λ e. other (omega (arith, size, e))) fits))

length_left : (at n : ℕ) → sub_ℕ (at + n) at ≡ pos n
length_left at n = ground arith

set_payload_lem :
    (enddata at n : ℕ) (p : Publish) (rest : Bytes)
    → enddata ≡ at + n
    → set_payload enddata p (record { rest = rest; at = at })
      ≡ some (
        (pos 1, record p { payload = rest; payloadlen = pos n }),
        record { rest = rest; at = at },
      )
unfolding set_payload
set_payload_lem enddata at n p rest e = rw (e, length_left at n) refl

-- MQTTSNDeserialize_publish, given the size of the packet or more as `buflen`, returns 1 on every
-- well-formed PUBLISH, whatever follows it: with the QoS, the retain flag, the packet identifier,
-- the topic in its form, the payload and its length. A set DUP flag becomes 1, or 255 where the
-- compiler takes the one-bit field as signed.
pub sn_deserialize_publish-packet_image :
    (signed : Bool) (old : Publish) (dup qos retained packetid : ℕ) (form : Form)
    (payload rest : Bytes) (buflen : ℕ)
    → Fits (publish_flags dup qos retained form)
    → Allowed qos form
    → packetid < 2 ^ 16
    → Bounded (publish_body (publish_flags dup qos retained form) packetid form payload)
    → length (
        packet_image MsgType.publish
          (publish_body (publish_flags dup qos retained form) packetid form payload))
      ≤ buflen
    → sn_deserialize_publish signed old
        (packet_image MsgType.publish
            (publish_body (publish_flags dup qos retained form) packetid form payload)
          ++ rest)
        buflen
      ≡ some (
        pos 1,
        record {
          dup = dup_value signed dup;
          qos = qos;
          retained = retained;
          packetid = packetid;
          topic = topic_of form (payload ++ rest);
          payload = payload ++ rest;
          payloadlen = pos (length payload);
        },
      )
unfolding sn_deserialize_publish on_buffer read_publish read_char publish_body
sn_deserialize_publish-packet_image signed old dup qos retained packetid form payload rest buflen
      fits allowed id small room =
    let flags = publish_flags dup qos retained form in
    let body = publish_body flags packetid form payload in
    let start = length (len_image body) + 1 in
    let p : Publish = record old {
      dup = dup_value signed dup;
      qos = qos;
      retained = retained;
      packetid = packetid;
      topic = topic_of form (payload ++ rest);
    } in
    rw
      (in_packet-packet_image MsgType.publish body rest buflen (pos 0, old)
        (read_publish signed old) small room)
      (rw
        (
          flags_bits-flags_byte flags fits,
          append_assoc (field_image form),
          append_assoc (int_image packetid),
          append_assoc (name_image form),
        )
        (rw
          (read_topic-field_image qos form
            (int_image packetid ++ (name_image form ++ (payload ++ rest))) (start + 1) allowed)
          (rw
            (read_int-int_image packetid (name_image form ++ (payload ++ rest)) (start + 1 + 2) id)
            (rw (set_name-name_image form (payload ++ rest) (start + 1 + 2 + 2)) (
              ap (λ (m : Option ((ℤ × Publish) × Cursor)). and_then m (λ r. some r.0))
                (set_payload_lem (length (len_image body) + 1 + length body)
                  (start + 1 + 2 + 2 + length (name_image form)) (length payload) p
                  (payload ++ rest)
                  (omega (arith, length-publish_body flags packetid form payload))))))))
