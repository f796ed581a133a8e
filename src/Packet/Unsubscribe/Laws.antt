-- ===== src/Packet/Unsubscribe/Laws.antt =====
-- UNSUBSCRIBE: what is written, and what is read back.
use mbed_mqtt.Common.{
  ℕ, zero, suc, ◌+◌, ◌<◌, ◌≤◌, ◌^◌, Bytes, List, [], ◌∷◌, ◌++◌, some, length, length-append,
  append_assoc, append-nil, ◌≡◌, refl, ◌∙◌, arith, lt→ltb, ge→ltb, pos,
}
use mbed_mqtt.Packet.Frame.{packet_image, serialized_frame, read_remaining-rem_image}
use mbed_mqtt.Packet.Header.{Header, header_bits-header_image, Fits}
use mbed_mqtt.Packet.Length.{packet_len}
use mbed_mqtt.Packet.Length.Laws.{rem_image}
use mbed_mqtt.Packet.MsgType
use mbed_mqtt.Packet.Reader.{read_char, on_buffer}
use mbed_mqtt.Packet.Strings.Laws.{
  Holds, mqtt_strlen-Holds, string_image, length-string_image, Emits-write_mqtt_string, len_string,
  read_mqtt_len_string-string_image, read_int-int_image,
}
use mbed_mqtt.Packet.Strings.{MqttString}
use mbed_mqtt.Packet.Unsubscribe.{
  topic_lengths, write_topics, read_topics, serialize_unsubscribe_length, serialize_unsubscribe,
  Unsubscribe, deserialize_unsubscribe,
}
use mbed_mqtt.Packet.Writer.Emits.{
  Emits, Emits-skip, Emits-write_int, Emits->>, int_image, length-int_image, serialized,
}

abbrev pub HoldTopics : List MqttString → List Bytes → Type 0
HoldTopics [] [] = Unit
HoldTopics [] (t ∷ ts) = ⊥
HoldTopics (s ∷ ss) [] = ⊥
HoldTopics (s ∷ ss) (t ∷ ts) = Holds s t × HoldTopics ss ts

unfoldable pub topics_image : List Bytes → Bytes
topics_image [] = []
topics_image (t ∷ ts) = string_image t ++ topics_image ts

topic_lengths-HoldTopics :
    (ss : List MqttString) (ts : List Bytes)
    → HoldTopics ss ts
    → topic_lengths ss ≡ length (topics_image ts)
unfolding topic_lengths topics_image
topic_lengths-HoldTopics [] [] h = refl
topic_lengths-HoldTopics [] (t ∷ ts) h = elim h [ ]
topic_lengths-HoldTopics (s ∷ ss) [] h = elim h [ ]
topic_lengths-HoldTopics (s ∷ ss) (t ∷ ts) (hs, h) = omega (
  arith,
  mqtt_strlen-Holds s t hs,
  length-append (string_image t) (topics_image ts),
  length-string_image t,
  topic_lengths-HoldTopics ss ts h,
)

Emits-write_topics :
    (ss : List MqttString) (ts : List Bytes)
    → HoldTopics ss ts
    → Emits (write_topics ss) (topics_image ts)
unfolding write_topics topics_image
Emits-write_topics [] [] h = Emits-skip
Emits-write_topics [] (t ∷ ts) h = elim h [ ]
Emits-write_topics (s ∷ ss) [] h = elim h [ ]
Emits-write_topics (s ∷ ss) (t ∷ ts) (hs, h) =
    Emits->> (string_image t) (topics_image ts) (Emits-write_mqtt_string s t hs)
      (Emits-write_topics ss ts h)

abbrev pub AllShort : List Bytes → Type 0
AllShort [] = Unit
AllShort (t ∷ ts) = (length t < 2 ^ 16) × AllShort ts

-- The topics as pointers into the buffer, where `rest` follows the packet.
unfoldable pub topic_views : List Bytes → Bytes → List MqttString
topic_views [] rest = []
topic_views (t ∷ ts) rest = len_string t (topics_image ts ++ rest) ∷ topic_views ts rest

read_topics-topics_image :
    (rounds rc enddata : ℕ) (old : ℕ → MqttString) (fs : List MqttString) (ts : List Bytes)
    (rest : Bytes) (at : ℕ)
    → AllShort ts
    → length ts < rounds
    → enddata ≡ at + length (topics_image ts)
    → read_topics rounds rc enddata old fs (record { rest = topics_image ts ++ rest; at = at })
      ≡ some ((pos 1, fs ++ topic_views ts rest), record { rest = rest; at = enddata })
unfolding read_topics topics_image topic_views
read_topics-topics_image zero rc enddata old fs ts rest at fit enough e = absurd (omega arith)
read_topics-topics_image (suc rounds) rc enddata old fs [] rest at fit enough e =
    let same : enddata ≡ at = omega (arith, e) in rw (same, ge→ltb at at (omega arith), append-nil)
read_topics-topics_image (suc rounds) rc enddata old fs (t ∷ ts) rest at (short, fit) enough e =
    let size : enddata ≡ at + 2 + length t + length (topics_image ts) =
      omega (arith, e, length-append (string_image t) (topics_image ts), length-string_image t) in
    rw (append_assoc (string_image t), lt→ltb at enddata (omega (arith, size)))
      (rw
        (read_mqtt_len_string-string_image t (topics_image ts ++ rest) at enddata (old (length fs))
          short (omega (arith, size)))
        (read_topics-topics_image rounds rc enddata old _ ts rest (at + 2 + length t) fit
            (omega arith) size
          ∙ rw append_assoc))

abbrev pub unsubscribe_header : ℕ → Header
unsubscribe_header dup = record { type = MsgType.unsubscribe; dup = dup; qos = 1; retain = 0 }

-- Behind the frame: the packet identifier, and the topic filters.
unfoldable pub unsubscribe_body : ℕ → List Bytes → Bytes
unsubscribe_body packetid ts = int_image packetid ++ topics_image ts

length-unsubscribe_body :
    (packetid : ℕ) (ts : List Bytes)
    → length (unsubscribe_body packetid ts) ≡ 2 + length (topics_image ts)
unfolding unsubscribe_body
length-unsubscribe_body packetid ts =
    omega (arith, length-append (int_image packetid) (topics_image ts), length-int_image packetid)

-- MQTTSerialize_unsubscribe, when `buflen` is no more than the real size of the buffer, the filters
-- hold texts and the packet is below 2^28 bytes: it never writes outside the buffer; if `buflen` is
-- less than MQTTPacket_len of the body it returns MQTTPACKET_BUFFER_TOO_SHORT and leaves the buffer;
-- otherwise it returns the length of the packet image and writes that image at the front. For texts
-- of at most 65535 bytes, a DUP flag of 0 or 1 and a packet identifier below 2^16 that is the packet in
-- the layout of the standard; beyond these the fields are cut to their width.
pub serialize_unsubscribe_lem :
    (buf : Bytes) (buflen dup packetid : ℕ) (ss : List MqttString) (ts : List Bytes)
    → HoldTopics ss ts
    → length (unsubscribe_body packetid ts) < 2 ^ 28
    → buflen ≤ length buf
    → serialize_unsubscribe buf buflen dup packetid ss
      ≡ serialized
          (packet_len (length (unsubscribe_body packetid ts)))
          buflen
          (packet_image (unsubscribe_header dup) (unsubscribe_body packetid ts))
          buf
unfolding serialize_unsubscribe serialize_unsubscribe_length
serialize_unsubscribe_lem buf buflen dup packetid ss ts h small fits =
    let size : 2 + length (topics_image ts) ≡ length (unsubscribe_body packetid ts) =
      omega (arith, length-unsubscribe_body packetid ts) in
    rw (topic_lengths-HoldTopics ss ts h, size)
      (serialized_frame (unsubscribe_header dup) (unsubscribe_body packetid ts) buflen buf
        (unfold unsubscribe_body in
          Emits->> (int_image packetid) (topics_image ts) (Emits-write_int packetid)
            (Emits-write_topics ss ts h))
        small fits)

length-topics : (ts : List Bytes) → length ts ≤ length (topics_image ts)
unfolding topics_image
length-topics [] = omega arith
length-topics (t ∷ ts) = omega (
  arith,
  length-topics ts,
  length-append (string_image t) (topics_image ts),
  length-string_image t,
)

-- MQTTDeserialize_unsubscribe returns 1 on every well-formed packet, whatever follows it, with the
-- DUP flag, the packet identifier and every topic filter, in order, however large their number is
-- against `maxcount`.
pub deserialize_unsubscribe-packet_image :
    (maxcount dup packetid : ℕ) (array : ℕ → MqttString) (old : Unsubscribe) (ts : List Bytes)
    (rest : Bytes)
    → dup < 2
    → packetid < 2 ^ 16
    → AllShort ts
    → length (unsubscribe_body packetid ts) < 2 ^ 28
    → deserialize_unsubscribe maxcount array old
        (packet_image (unsubscribe_header dup) (unsubscribe_body packetid ts) ++ rest)
      ≡ some (pos 1, record { dup = dup; packetid = packetid; filters = topic_views ts rest })
unfolding deserialize_unsubscribe on_buffer packet_image read_char
deserialize_unsubscribe-packet_image maxcount dup packetid array old ts rest d small fit size =
    let body = unsubscribe_body packetid ts in
    let fits : Fits (unsubscribe_header dup) = record {
      type_fits = omega arith;
      dup_fits = d;
      qos_fits = omega arith;
      retain_fits = omega arith;
    } in
    let at = 1 + length (rem_image (length body)) in
    let n = length-unsubscribe_body packetid ts in
    let behind = int_image packetid ++ (topics_image ts ++ rest) in
    let enough : length ts ≤ length (rem_image (length body) ++ behind) = omega (
      arith,
      length-topics ts,
      length-append (topics_image ts) rest,
      length-append (int_image packetid) (topics_image ts ++ rest),
      length-append (rem_image (length body)) behind,
    ) in
    rw (header_bits-header_image (unsubscribe_header dup) fits) (
      rw (append_assoc (rem_image (length body)) body rest) (
        rw (read_remaining-rem_image (length body) (body ++ rest) 1 size) (
          unfold unsubscribe_body in
          rw (append_assoc (int_image packetid) (topics_image ts) rest) (
            rw (read_int-int_image packetid (topics_image ts ++ rest) at small) (
              rw (
                read_topics-topics_image (suc (suc (length (rem_image (length body) ++ behind))))
                  (length (rem_image (length body))) (at + length body) array [] ts rest (at + 2)
                  fit (omega (arith, enough)) (omega (arith, n))))))))
