-- ===== src/Packet/Publish/Laws.antt =====
-- The PUBLISH packet: what the serializer writes, and that the deserializer reads it back.
use mbed_mqtt.Common.{
  ℕ, ◌+◌, ◌≤◌, ◌<◌, ◌^◌, Bytes, [], ◌++◌, some, length, length-append, ◌≡◌, refl, arith, ltb,
  if◌then◌else◌, ge→ltb, pos, sub_ℕ, append_assoc, Bool-cases, inl, inr,
}
use mbed_mqtt.Packet.Frame.{packet_image, serialized_frame, read_remaining-rem_image}
use mbed_mqtt.Packet.Header.{Header, header_bits-header_image, Fits}
use mbed_mqtt.Packet.Length.{packet_len}
use mbed_mqtt.Packet.Length.Laws.{rem_image}
use mbed_mqtt.Packet.MsgType
use mbed_mqtt.Packet.Reader.{on_buffer, read_char}
use mbed_mqtt.Packet.Strings.{MqttString, write_mqtt_string}
use mbed_mqtt.Packet.Writer.{◌>>◌, memcpy}
use mbed_mqtt.Packet.Strings.Laws.{
  Holds, mqtt_strlen-Holds, string_image, length-string_image, Emits-write_mqtt_string, len_string,
  read_mqtt_len_string-string_image, read_int-int_image,
}
use mbed_mqtt.Packet.Writer.Emits.{
  Emits, Emits-skip, Emits-write_int, Emits-memcpy, Emits->>, int_image, length-int_image,
  serialized,
}
use mbed_mqtt.Packet.Publish.{
  serialize_publish_length, write_packetid, serialize_publish, Publish, set_payload, set_packetid,
  set_topic, deserialize_publish,
}

abbrev pub packetid_image : ℕ → ℕ → Bytes
packetid_image qos packetid = if ltb 0 qos then int_image packetid else []

abbrev pub publish_header : ℕ → ℕ → ℕ → Header
publish_header dup qos retained = record {
  type = MsgType.publish;
  dup = dup;
  qos = qos;
  retain = retained;
}

-- Behind the frame: the topic, the packet identifier if the QoS has one, and the payload.
unfoldable pub publish_body : ℕ → ℕ → Bytes → Bytes → Bytes
publish_body qos packetid topic payload =
    string_image topic ++ (packetid_image qos packetid ++ payload)

length-packetid_image :
    (qos packetid : ℕ) → length (packetid_image qos packetid) ≡ (if ltb 0 qos then 2 else 0)
unfolding int_image
length-packetid_image qos packetid = ground arith

Emits-write_packetid :
    (qos packetid : ℕ) → Emits (write_packetid qos packetid) (packetid_image qos packetid)
Emits-write_packetid qos packetid = elim (Bool-cases (ltb 0 qos)) [
  | inl e ↦ rw e (Emits-write_int packetid)
  | inr e ↦ rw e Emits-skip
]

serialize_publish_length-body :
    (qos packetid : ℕ) (s : MqttString) (topic payload : Bytes)
    → Holds s topic
    → serialize_publish_length qos s (length payload)
      ≡ length (publish_body qos packetid topic payload)
unfolding serialize_publish_length publish_body
serialize_publish_length-body qos packetid s topic payload h =
    rw
      (
        mqtt_strlen-Holds s topic h,
        length-append,
        length-append,
        length-string_image,
        length-packetid_image,
      )
      (omega arith)

Emits-body :
    (qos packetid : ℕ) (s : MqttString) (topic payload more : Bytes)
    → Holds s topic
    → Emits
        (write_mqtt_string s
          >> write_packetid qos packetid
          >> memcpy (length payload) (payload ++ more))
        (publish_body qos packetid topic payload)
unfolding publish_body
Emits-body qos packetid s topic payload more h =
    Emits->> (string_image topic) (packetid_image qos packetid ++ payload)
      (Emits-write_mqtt_string s topic h)
      (Emits->> (packetid_image qos packetid) payload (Emits-write_packetid qos packetid)
        (Emits-memcpy payload more))

-- MQTTSerialize_publish, when `buflen` is no more than the real size of the buffer, the topic holds
-- a text of at most 65535 bytes, DUP and RETAIN are 0 or 1, the QoS is 0, 1 or 2, the packet
-- identifier is below 2^16 and the packet is below 2^28 bytes: it never writes outside the buffer; if `buflen` is less
-- than MQTTPacket_len of the body it returns MQTTPACKET_BUFFER_TOO_SHORT and leaves the buffer;
-- otherwise it returns the length of the packet that has these fields in the layout of the standard,
-- writes that packet at the front, and
-- leaves the memory behind it.
pub serialize_publish_lem :
    (buf : Bytes) (buflen dup qos retained packetid : ℕ) (s : MqttString)
    (topic payload more : Bytes)
    → Holds s topic
    → length topic < 2 ^ 16
    → dup < 2
    → qos < 3
    → retained < 2
    → packetid < 2 ^ 16
    → length (publish_body qos packetid topic payload) < 2 ^ 28
    → buflen ≤ length buf
    → serialize_publish buf buflen dup qos retained packetid s (payload ++ more) (length payload)
      ≡ serialized
          (packet_len (length (publish_body qos packetid topic payload)))
          buflen
          (packet_image (publish_header dup qos retained) (publish_body qos packetid topic payload))
          buf
unfolding serialize_publish
serialize_publish_lem buf buflen dup qos retained packetid s topic payload more h short _ _ _ _
      small fits =
    rw (serialize_publish_length-body qos packetid s topic payload h) (
      serialized_frame (publish_header dup qos retained) (publish_body qos packetid topic payload)
        buflen buf (Emits-body qos packetid s topic payload more h) small fits)

length_left : (at n : ℕ) → sub_ℕ (at + n) at ≡ pos n
length_left at n = ground arith

set_payload_lem :
    (enddata at n : ℕ) (p : Publish) (rest : Bytes)
    → enddata ≡ at + n
    → set_payload enddata p (record { rest = rest; at = at })
      ≡ some (
        (pos 1, record p { payload = rest; payloadlen = pos n }),
        record { rest = rest; at = at },
      )
unfolding set_payload
set_payload_lem enddata at n p rest e = rw (e, length_left at n)

set_packetid-packetid_image :
    (enddata at packetid : ℕ) (p : Publish) (payload rest : Bytes)
    → packetid < 2 ^ 16
    → enddata ≡ at + length (packetid_image p.qos packetid) + length payload
    → set_packetid enddata p
        (record { rest = packetid_image p.qos packetid ++ (payload ++ rest); at = at })
      ≡ some (
        (
          pos 1,
          record p {
            packetid = if ltb 0 p.qos then packetid else p.packetid;
            payload = payload ++ rest;
            payloadlen = pos (length payload);
          },
        ),
        record { rest = payload ++ rest; at = at + length (packetid_image p.qos packetid) },
      )
unfolding set_packetid
set_packetid-packetid_image enddata at packetid p payload rest small e =
    elim (Bool-cases (ltb 0 p.qos)) [
      | inl q ↦
          let e' : enddata ≡ at + 2 + length payload = rw (q, length-int_image packetid) at e in
          rw (q, length-int_image packetid)
            (rw (read_int-int_image packetid (payload ++ rest) at small) (
              set_payload_lem enddata (at + 2) (length payload) (record p { packetid = packetid })
                (payload ++ rest) e'))
      | inr q ↦
          let e' : enddata ≡ at + 0 + length payload = rw q at e in
          let same : at + 0 ≡ at = omega arith in
          rw (q, same)
            (set_payload_lem enddata at (length payload) p (payload ++ rest) (rw same at e'))
    ]

set_topic-publish_body :
    (enddata at packetid : ℕ) (p : Publish) (topic payload rest : Bytes)
    → packetid < 2 ^ 16
    → length topic < 2 ^ 16
    → enddata ≡ at + length (publish_body p.qos packetid topic payload)
    → set_topic enddata p
        (record { rest = publish_body p.qos packetid topic payload ++ rest; at = at })
      ≡ some (
        (
          pos 1,
          record p {
            packetid = if ltb 0 p.qos then packetid else p.packetid;
            topic_name = len_string topic (packetid_image p.qos packetid ++ (payload ++ rest));
            payload = payload ++ rest;
            payloadlen = pos (length payload);
          },
        ),
        record {
          rest = payload ++ rest;
          at = at + 2 + length topic + length (packetid_image p.qos packetid);
        },
      )
unfolding set_topic publish_body
set_topic-publish_body enddata at packetid p topic payload rest small short e =
    let after = packetid_image p.qos packetid ++ (payload ++ rest) in
    let size : enddata
        ≡ at + 2 + length topic + length (packetid_image p.qos packetid) + length payload =
      omega (
        arith,
        e,
        length-append (string_image topic) (packetid_image p.qos packetid ++ payload),
        length-append (packetid_image p.qos packetid) payload,
        length-string_image topic,
      ) in
    rw (append_assoc (string_image topic), append_assoc (packetid_image p.qos packetid))
      (rw
        (read_mqtt_len_string-string_image topic after at enddata p.topic_name short
          (omega (arith, size)))
        (rw (ge→ltb enddata (at + 2 + length topic) (omega (arith, size))) (
          set_packetid-packetid_image enddata (at + 2 + length topic) packetid
            (record p { topic_name = len_string topic after }) payload rest small size)))

-- MQTTDeserialize_publish returns 1 on every well-formed packet, whatever follows it in the buffer,
-- with the fields of its header, the topic as a pointer and length, the payload and its length, and
-- the packet identifier if the QoS is above 0 (else the old value of that parameter).
pub deserialize_publish-packet_image :
    (old : Publish) (dup qos retained packetid : ℕ) (topic payload rest : Bytes)
    → Fits (publish_header dup qos retained)
    → packetid < 2 ^ 16
    → length topic < 2 ^ 16
    → length (publish_body qos packetid topic payload) < 2 ^ 28
    → deserialize_publish old (
        packet_image (publish_header dup qos retained) (publish_body qos packetid topic payload)
        ++ rest)
      ≡ some (
        pos 1,
        record {
          dup = dup;
          qos = qos;
          retained = retained;
          packetid = if ltb 0 qos then packetid else old.packetid;
          topic_name = len_string topic (packetid_image qos packetid ++ (payload ++ rest));
          payload = payload ++ rest;
          payloadlen = pos (length payload);
        },
      )
unfolding deserialize_publish on_buffer packet_image read_char
deserialize_publish-packet_image old dup qos retained packetid topic payload rest fits id short
      small =
    rw (header_bits-header_image (publish_header dup qos retained) fits) (
      rw (append_assoc (rem_image (length (publish_body qos packetid topic payload)))) (
        rw (read_remaining-rem_image _ _ _ small) (
          rw (
            set_topic-publish_body _
              (1 + length (rem_image (length (publish_body qos packetid topic payload)))) packetid
              (record old { dup = dup; qos = qos; retained = retained }) topic payload rest id short
              refl))))
