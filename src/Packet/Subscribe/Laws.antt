-- ===== src/Packet/Subscribe/Laws.antt =====
-- SUBSCRIBE: what is written, what is read back, and what a truncated packet is taken for.
use mbed_mqtt.Common.{
  ℕ, suc, ◌+◌, ◌%◌, ◌<◌, ◌≤◌, ◌^◌, Bool, Bytes, [], ◌∷◌, ◌++◌, some, length, length-append,
  append_assoc, ◌≡◌, arith, pos,
}
use mbed_mqtt.Packet.Frame.{packet_image, serialized_frame, read_remaining-rem_image}
use mbed_mqtt.Packet.Header.{Header, header_bits-header_image, Fits}
use mbed_mqtt.Packet.Length.{packet_len}
use mbed_mqtt.Packet.Length.Laws.{rem_image}
use mbed_mqtt.Packet.MsgType
use mbed_mqtt.Packet.Reader.{read_char, on_buffer}
use mbed_mqtt.Packet.Strings.Laws.{string_image, length-string_image, read_int-int_image}
use mbed_mqtt.Packet.Strings.{MqttString}
use mbed_mqtt.Packet.Subscribe.Filters.{
  Texts, HoldAll, filters_image, filter_lengths-HoldAll, Emits-write_filters, AllFit, views,
  read_filters-filters_image,
}
use mbed_mqtt.Packet.Subscribe.{
  Filters, serialize_subscribe_length, serialize_subscribe, Subscribe, deserialize_subscribe,
}
use mbed_mqtt.Packet.Writer.Emits.{
  Emits-write_int, Emits->>, int_image, length-int_image, serialized,
}

abbrev pub subscribe_header : ℕ → Header
subscribe_header dup = record { type = MsgType.subscribe; dup = dup; qos = 1; retain = 0 }

-- Behind the frame: the packet identifier, and each topic filter with its requested QoS.
unfoldable pub subscribe_body : ℕ → Texts → Bytes
subscribe_body packetid ts = int_image packetid ++ filters_image ts

length-subscribe_body :
    (packetid : ℕ) (ts : Texts)
    → length (subscribe_body packetid ts) ≡ 2 + length (filters_image ts)
unfolding subscribe_body
length-subscribe_body packetid ts =
    omega (arith, length-append (int_image packetid) (filters_image ts), length-int_image packetid)

-- MQTTSerialize_subscribe, when `buflen` is no more than the real size of the buffer, the filters
-- hold texts of at most 65535 bytes with QoS values below 256, DUP is 0 or 1, the packet identifier
-- is below 2^16 and the packet is below 2^28 bytes: it never writes outside the buffer; if `buflen` is
-- less than MQTTPacket_len of the body it returns MQTTPACKET_BUFFER_TOO_SHORT and leaves the buffer;
-- otherwise it returns the length of the packet that has these fields in the layout of the
-- standard, and writes that packet at the front.
pub serialize_subscribe_lem :
    (buf : Bytes) (buflen dup packetid : ℕ) (fs : Filters) (ts : Texts)
    → HoldAll fs ts
    → AllFit ts
    → dup < 2
    → packetid < 2 ^ 16
    → length (subscribe_body packetid ts) < 2 ^ 28
    → buflen ≤ length buf
    → serialize_subscribe buf buflen dup packetid fs
      ≡ serialized
          (packet_len (length (subscribe_body packetid ts)))
          buflen
          (packet_image (subscribe_header dup) (subscribe_body packetid ts))
          buf
unfolding serialize_subscribe serialize_subscribe_length
serialize_subscribe_lem buf buflen dup packetid fs ts h _ _ _ small fits =
    let size : 2 + length (filters_image ts) ≡ length (subscribe_body packetid ts) =
      omega (arith, length-subscribe_body packetid ts) in
    rw (filter_lengths-HoldAll fs ts h, size)
      (serialized_frame (subscribe_header dup) (subscribe_body packetid ts) buflen buf
        (unfold subscribe_body in
          Emits->> (int_image packetid) (filters_image ts) (Emits-write_int packetid)
            (Emits-write_filters fs ts h))
        small fits)

length-filters : (ts : Texts) → length ts ≤ length (filters_image ts)
unfolding filters_image
length-filters [] = omega arith
length-filters ((t, q) ∷ ts) = omega (
  arith,
  length-filters ts,
  length-append (string_image t) (q % 256 ∷ filters_image ts),
  length-string_image t,
)

-- MQTTDeserialize_subscribe returns 1 on every well-formed packet, whatever follows it, with the DUP
-- flag, the packet identifier, and every topic filter with its requested QoS, in order. It stores
-- all the entries, however large their number is against `maxcount`.
pub deserialize_subscribe-packet_image :
    (signed : Bool) (maxcount dup packetid : ℕ) (array : ℕ → MqttString) (old : Subscribe)
    (ts : Texts) (rest : Bytes)
    → dup < 2
    → packetid < 2 ^ 16
    → AllFit ts
    → length (subscribe_body packetid ts) < 2 ^ 28
    → deserialize_subscribe signed maxcount array old
        (packet_image (subscribe_header dup) (subscribe_body packetid ts) ++ rest)
      ≡ some (pos 1, record { dup = dup; packetid = packetid; filters = views signed ts rest })
unfolding deserialize_subscribe on_buffer packet_image read_char
deserialize_subscribe-packet_image signed maxcount dup packetid array old ts rest d small fit size =
    let body = subscribe_body packetid ts in
    let fits : Fits (subscribe_header dup) = record {
      type_fits = omega arith;
      dup_fits = d;
      qos_fits = omega arith;
      retain_fits = omega arith;
    } in
    let at = 1 + length (rem_image (length body)) in
    let n = length-subscribe_body packetid ts in
    let enough : length ts
        ≤ length (rem_image (length body) ++ (int_image packetid ++ (filters_image ts ++ rest))) =
      omega (
        arith,
        length-filters ts,
        length-append (filters_image ts) rest,
        length-append (int_image packetid) (filters_image ts ++ rest),
        length-append (rem_image (length body)) (int_image packetid ++ (filters_image ts ++ rest)),
      ) in
    rw (header_bits-header_image (subscribe_header dup) fits) (
      rw (append_assoc (rem_image (length body)) body rest) (
        rw (read_remaining-rem_image (length body) (body ++ rest) 1 size) (
          unfold subscribe_body in
          rw (append_assoc (int_image packetid) (filters_image ts) rest) (
            rw (read_int-int_image packetid (filters_image ts ++ rest) at small) (
              rw (
                read_filters-filters_image signed
                  (suc (
                    suc (
                      length (
                        rem_image (length body)
                        ++ (int_image packetid ++ (filters_image ts ++ rest))))))
                  (length (rem_image (length body))) (at + length body) array [] ts rest (at + 2)
                  fit (omega (arith, enough)) (omega (arith, n))))))))
