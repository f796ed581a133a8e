-- ===== src/Packet/Connect/Laws.antt =====
-- The bytes that MQTTSerialize_connect writes, from the options that describe a CONNECT packet.
use mbed_mqtt.Common.{
  ℕ, ◌+◌, ◌%◌, ◌<◌, ◌≤◌, ◌^◌, Bytes, [], ◌∷◌, ◌++◌, Option, none, some, length, length-append, ◌≡◌,
  ◌⊎◌, inl, inr, ap, arith, ◌==◌, Bool-cases,
}
use mbed_mqtt.Packet.Connect.{
  flags_byte, ConnectData, given_length, version_length, will_length, serialize_connect_length,
  connect_flags, name_mqtt, name_mqisdp, write_protocol, write_will, write_given, serialize_connect,
}
use mbed_mqtt.Packet.Frame.{packet_image, serialized_frame}
use mbed_mqtt.Packet.Length.{packet_len}
use mbed_mqtt.Packet.Strings.Laws.{
  mqtt_strlen-Holds, string_image, length-string_image, Emits-write_cstring,
  Emits-write_mqtt_string,
}
use mbed_mqtt.Packet.Strings.{MqttString, write_mqtt_string}
use mbed_mqtt.Packet.Writer.{◌>>◌, write_char, write_int}
use mbed_mqtt.Packet.Writer.Emits.{
  Emits, Emits-skip, Emits-write_char, Emits-write_int, Emits->>, int_image, serialized,
}
use mbed_mqtt.Packet.Connect.Image.{
  Connect, flags_image, flags_image-lt, given_image, will_image, protocol_image, payload_image,
  connect_body, connect_header, length-payload_image, length-connect_body,
}
use mbed_mqtt.Packet.Connect.Describes.{
  Given, HasWill, Describes, IsWritable, is_given-Holds, flags_byte-connect_flags,
}

Emits-write_given :
    (s : MqttString) (o : Option Bytes) → Given s o → Emits (write_given s) (given_image o)
unfolding given_image
Emits-write_given s none h = rw h Emits-skip
Emits-write_given s (some t) h = rw (is_given-Holds s t h) (Emits-write_mqtt_string s t h)

given_length-Given :
    (s : MqttString) (o : Option Bytes) → Given s o → given_length s ≡ length (given_image o)
unfolding given_length given_image
given_length-Given s none h = rw h
given_length-Given s (some t) h =
    rw (is_given-Holds s t h) (omega (arith, mqtt_strlen-Holds s t h, length-string_image t))

Emits-write_will :
    (options : ConnectData) (w : Option (Bytes × Bytes))
    → HasWill options w
    → Emits (write_will options) (will_image w)
unfolding will_image
Emits-write_will options none h = rw h Emits-skip
Emits-write_will options (some (t, m)) (e, ht, hm) = rw e (
    Emits->> (string_image t) (string_image m)
      (Emits-write_mqtt_string options.will.topic_name t ht)
      (Emits-write_mqtt_string options.will.message m hm))

Emits-write_protocol : (v : ℕ) → Emits (write_protocol v) (protocol_image v)
Emits-write_protocol v = elim (Bool-cases (v == 4)) [
  | inl e ↦ rw e (
      Emits->> (string_image name_mqtt) (4 ∷ []) (Emits-write_cstring name_mqtt)
        (Emits-write_char 4))
  | inr e ↦ rw e (
      Emits->> (string_image name_mqisdp) (3 ∷ []) (Emits-write_cstring name_mqisdp)
        (Emits-write_char 3))
]

-- The flags byte and the two bytes of the interval stand behind the protocol name and level.
version_length-protocol_image :
    (v : ℕ) → (v ≡ 3) ⊎ (v ≡ 4) → version_length v ≡ length (protocol_image v) + 3
unfolding version_length
version_length-protocol_image v (inl e) = rw e (
    omega
      (arith, length-append (string_image name_mqisdp) (3 ∷ []), length-string_image name_mqisdp))
version_length-protocol_image v (inr e) =
    rw e (
      omega (arith, length-append (string_image name_mqtt) (4 ∷ []), length-string_image name_mqtt))

will_length-HasWill :
    (options : ConnectData) (w : Option (Bytes × Bytes))
    → HasWill options w
    → will_length options ≡ length (will_image w)
unfolding will_length will_image
will_length-HasWill options none h = rw h
will_length-HasWill options (some (t, m)) (e, ht, hm) = rw e (
    omega (
      arith,
      mqtt_strlen-Holds options.will.topic_name t ht,
      mqtt_strlen-Holds options.will.message m hm,
      length-append (string_image t) (string_image m),
      length-string_image t,
      length-string_image m,
    ))

serialize_connect_length-body :
    (c : Connect) (options : ConnectData)
    → Describes options c
    → IsWritable c
    → serialize_connect_length options ≡ length (connect_body c)
unfolding serialize_connect_length
serialize_connect_length-body c options d ok = omega (
  arith,
  ap version_length d.version_is,
  version_length-protocol_image c.version ok.version_known,
  mqtt_strlen-Holds options.client_id c.client d.client_is,
  will_length-HasWill options c.will d.will_is,
  given_length-Given options.username c.user d.user_is,
  given_length-Given options.password c.pass d.pass_is,
  length-payload_image c,
  length-connect_body c,
)

Emits-body :
    (c : Connect) (options : ConnectData)
    → Describes options c
    → IsWritable c
    → Emits
        (write_protocol options.mqtt_version
          >> write_char (flags_byte (connect_flags options))
          >> write_int options.keep_alive_interval
          >> write_mqtt_string options.client_id
          >> write_will options
          >> write_given options.username
          >> write_given options.password)
        (connect_body c)
unfolding connect_body payload_image
Emits-body c options d ok =
    let small : flags_image c.flags % 256 ≡ flags_image c.flags =
      omega (arith, flags_image-lt c.flags ok.flags_fit) in
    rw (d.version_is, flags_byte-connect_flags c options d ok.flags_fit, d.interval_is)
      (Emits->> (protocol_image c.version)
        (flags_image c.flags ∷ (int_image c.interval ++ payload_image c))
        (Emits-write_protocol c.version)
        (Emits->> (flags_image c.flags ∷ []) (int_image c.interval ++ payload_image c)
          (rw small at (Emits-write_char (flags_image c.flags)))
          (Emits->> (int_image c.interval) (payload_image c) (Emits-write_int c.interval) (
            Emits->> (string_image c.client) _
              (Emits-write_mqtt_string options.client_id c.client d.client_is)
              (Emits->> (will_image c.will) _ (Emits-write_will options c.will d.will_is) (
                Emits->> (given_image c.user) (given_image c.pass)
                  (Emits-write_given options.username c.user d.user_is)
                  (Emits-write_given options.password c.pass d.pass_is)))))))

-- MQTTSerialize_connect, when `buflen` is no more than the real size of the buffer, the options
-- describe the packet `c` of MQTT 3.1 or 3.1.1 (its version, interval, client identifier, clean
-- session flag, will with its QoS and retain flag, user name and password, where the flags of `c`
-- say which of these parts are there), its texts have at most 65535 bytes, its numbers fit their
-- fields and the packet is below 2^28 bytes: it never writes outside the buffer; if `buflen` is less
-- than MQTTPacket_len of the body it returns MQTTPACKET_BUFFER_TOO_SHORT and leaves the buffer;
-- otherwise it returns the length of `c` in the layout of the standard, writes those bytes at the
-- front, and leaves the memory behind them.
pub serialize_connect_lem :
    (buf : Bytes) (buflen : ℕ) (options : ConnectData) (c : Connect)
    → Describes options c
    → IsWritable c
    → length (connect_body c) < 2 ^ 28
    → buflen ≤ length buf
    → serialize_connect buf buflen options
      ≡ serialized
          (packet_len (length (connect_body c)))
          buflen
          (packet_image connect_header (connect_body c))
          buf
unfolding serialize_connect
serialize_connect_lem buf buflen options c d ok small fits =
    rw (serialize_connect_length-body c options d ok) (
      serialized_frame connect_header (connect_body c) buflen buf (Emits-body c options d ok) small
        fits)
