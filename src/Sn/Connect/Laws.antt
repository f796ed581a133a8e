-- ===== src/Sn/Connect/Laws.antt =====
-- The packets of MQTTSNConnectClient.c: what is written, and where it runs out of the buffer.
use mbed_mqtt.Common.{
  ℕ, suc, ◌+◌, ◌<◌, ◌≤◌, ◌≢◌, ◌%◌, Bytes, [], ◌∷◌, ◌++◌, none, length, length-append, ◌≡◌, arith,
  ge→ltb,
}
use mbed_mqtt.Packet.Strings.Laws.{c_string, len_string, string_image, length-string_image}
use mbed_mqtt.Packet.Writer.{◌>>◌, write_char, write_int}
use mbed_mqtt.Packet.Writer.Emits.{
  Emits, Emits-store, Emits-write_char, Emits-write_int, Emits->>, int_image, length-int_image,
  serialized, fill_overruns,
}
use mbed_mqtt.Sn.Connect.{
  sn_serialize_connect_length, sn_serialize_connect, sn_serialize_pingreq, sn_serialize_willtopic1,
  sn_serialize_willmsg1,
}
use mbed_mqtt.Sn.Flags.{Flags, no_flags, flags_byte}
use mbed_mqtt.Sn.Frame.{packet_image, serialized_frame, checked_overruns, Emits-write_flags}
use mbed_mqtt.Sn.Length.{sn_packet_len, sn_packet_encode}
use mbed_mqtt.Sn.MsgType
use mbed_mqtt.Sn.Topic.{sn_strlen, write_sn_string}
use mbed_mqtt.Sn.Topic.Laws.{Emits-write_sn_string, Emits-write_sn_string-c_string}

abbrev pub sn_connect_flags : ℕ → ℕ → Flags
sn_connect_flags cleansession will_flag = record no_flags {
  clean_session = cleansession;
  will = will_flag;
}

-- The flags, the protocol id, the duration, and the client id without a length.
unfoldable pub connect_body : ℕ → ℕ → ℕ → Bytes → Bytes
connect_body cleansession will_flag duration text =
    flags_byte (sn_connect_flags cleansession will_flag) ∷ 1 ∷ (int_image duration ++ text)

length-connect_body :
    (cleansession will_flag duration : ℕ) (text : Bytes)
    → length (connect_body cleansession will_flag duration text) ≡ length text + 4
unfolding connect_body
length-connect_body cleansession will_flag duration text =
    omega (arith, length-append (int_image duration) text, length-int_image duration)

Emits-connect :
    (cleansession will_flag duration : ℕ) (text more : Bytes)
    → Emits
        (write_char (flags_byte (sn_connect_flags cleansession will_flag))
          >> write_char 1
          >> write_int duration
          >> write_sn_string (len_string text more))
        (connect_body cleansession will_flag duration text)
unfolding connect_body
Emits-connect cleansession will_flag duration text more =
    let flags = flags_byte (sn_connect_flags cleansession will_flag) in
    Emits->> (flags ∷ []) (1 ∷ (int_image duration ++ text))
      (Emits-write_flags (sn_connect_flags cleansession will_flag))
      (Emits->> (1 ∷ []) (int_image duration ++ text) (Emits-write_char 1) (
        Emits->> (int_image duration) text (Emits-write_int duration)
          (Emits-write_sn_string text more)))

-- MQTTSNSerialize_connect, when `buflen` is no more than the real size of the buffer and the client
-- id is a pointer with a length, which is not 250: below the size of the standard's CONNECT packet
-- it returns MQTTSNPACKET_BUFFER_TOO_SHORT and leaves the buffer, otherwise it returns that size and
-- writes the packet at the front.
pub sn_serialize_connect_lem :
    (buf : Bytes) (buflen duration cleansession will_flag : ℕ) (text more : Bytes)
    → length text ≢ 250
    → buflen ≤ length buf
    → sn_serialize_connect buf buflen (record {
      client_id = len_string text more;
      duration = duration;
      cleansession = cleansession;
      will_flag = will_flag;
    })
      ≡ serialized
          (sn_packet_len (5 + length text))
          buflen
          (packet_image MsgType.connect (connect_body cleansession will_flag duration text))
          buf
unfolding sn_serialize_connect sn_serialize_connect_length sn_strlen
sn_serialize_connect_lem buf buflen duration cleansession will_flag text more other fits =
    let body = connect_body cleansession will_flag duration text in
    let size = length-connect_body cleansession will_flag duration text in
    let total : length body + 1 ≡ 5 + length text = omega (arith, size) in
    rw total at (
      serialized_frame MsgType.connect body buflen buf
        (Emits-connect cleansession will_flag duration text more) (omega arith)
        (λ e. other (omega (arith, size, e))) fits)

-- MQTTSNSerialize_pingreq with a client id that is a C string of less than 253 characters, and a
-- buffer of just the size that its guard asks for, writes outside the buffer: writeCString puts two
-- bytes of length in front of the text, which MQTTSNstrlen does not count.
pub sn_serialize_pingreq_overruns :
    (buf text : Bytes)
    → length text < 253
    → length buf ≡ length text + 2
    → sn_serialize_pingreq buf (length buf) (c_string text) ≡ none
unfolding sn_serialize_pingreq sn_strlen sn_packet_len sn_packet_encode
sn_serialize_pingreq_overruns buf text short exact =
    let n : length text + 1 + 1 ≡ length buf = omega (arith, exact) in
    rw
      (
        ge→ltb 255 (length text + 1) (omega arith),
        n,
        ge→ltb 255 (length buf) (omega arith),
        ge→ltb (length buf) (length buf) (omega arith),
      )
      (fill_overruns (length buf % 256 ∷ (22 ∷ string_image text))
        (Emits->> (length buf % 256 ∷ []) (22 ∷ string_image text) (Emits-store (length buf % 256))
          (Emits->> (22 ∷ []) (string_image text) (Emits-write_char 22)
            (Emits-write_sn_string-c_string text)))
        buf (omega (arith, length-string_image text, exact)))

-- MQTTSNSerialize_willmsg and MQTTSNSerialize_willmsgupd (and their common function, for any packet
-- type) with a will message of 254 bytes, given with its length, and a buffer of the 256 bytes that
-- their guard asks for, write outside the buffer.
pub sn_serialize_willmsg1_overruns :
    (buf text more : Bytes) (packet_type : ℕ)
    → length text ≡ 254
    → length buf ≡ 256
    → sn_serialize_willmsg1 buf 256 (len_string text more) packet_type ≡ none
unfolding sn_serialize_willmsg1 sn_strlen sn_packet_len
sn_serialize_willmsg1_overruns buf text more packet_type size exact = rw size (
    checked_overruns packet_type text buf (rw size at (Emits-write_sn_string text more)) size exact)

-- MQTTSNSerialize_willtopic and MQTTSNSerialize_willtopicupd, as their common function: when
-- `buflen` is no more than the real size of the buffer and the topic is a pointer with a length,
-- which is not 253, it returns MQTTSNPACKET_BUFFER_TOO_SHORT and leaves the buffer, or it writes
-- the packet type, the flags with the will's QoS and retain bits, and the topic.
pub sn_serialize_willtopic1_lem :
    (buf : Bytes) (buflen will_qos will_retain : ℕ) (text more : Bytes) (packet_type : ℕ)
    → packet_type < 256
    → length text ≢ 253
    → buflen ≤ length buf
    → sn_serialize_willtopic1 buf buflen will_qos will_retain (len_string text more) packet_type
      ≡ serialized
          (sn_packet_len (length text + 2))
          buflen
          (packet_image packet_type
            (flags_byte (record no_flags { qos = will_qos; retain = will_retain }) ∷ text))
          buf
unfolding sn_serialize_willtopic1 sn_strlen
sn_serialize_willtopic1_lem buf buflen will_qos will_retain text more packet_type small other fits =
    let flags : Flags = record no_flags { qos = will_qos; retain = will_retain } in
    let total : suc (length text) + 1 ≡ length text + 2 = omega arith in
    rw total at (
      serialized_frame packet_type (flags_byte flags ∷ text) buflen buf
        (Emits->> (flags_byte flags ∷ []) text (Emits-write_flags flags)
          (Emits-write_sn_string text more))
        small (λ e. other (omega (arith, e))) fits)
