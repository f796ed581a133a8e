-- ===== src/Packet/Ack/Laws.antt =====
-- Acknowledgements: what is written, what is read back, and what a truncated one is taken for.
use mbed_mqtt.Common.{
  ℕ, ◌+◌, ◌<◌, ◌≤◌, ◌^◌, Bytes, [], ◌∷◌, ◌++◌, some, length, append_assoc, ◌≡◌, refl, arith, lt→ltb,
  ge→ltb, ◌==◌, if◌then◌else◌, pos,
}
use mbed_mqtt.Packet.Ack.{Ack, serialize_ack, serialize_zero, deserialize_ack}
use mbed_mqtt.Packet.Frame.{
  packet_image, length-packet_image, Emits-frame, read_remaining-rem_image, read_remaining_small,
  Emits-write_header, Emits-packet_encode_small,
}
use mbed_mqtt.Packet.Header.{Header, header_image, header_bits, header_bits-header_image, Fits}
use mbed_mqtt.Packet.Length.Laws.{rem_image, rem_image_small}
use mbed_mqtt.Packet.MsgType
use mbed_mqtt.Packet.Reader.{on_buffer, read_char}
use mbed_mqtt.Packet.Strings.Laws.{read_int-int_image}
use mbed_mqtt.Packet.Writer.Emits.{
  Emits-write_int, Emits->>, int_image, length-int_image, serialized, checked_lem,
}

abbrev pub ack_header : ℕ → ℕ → Header
ack_header packettype dup = record {
  type = packettype;
  dup = dup;
  qos = if packettype == MsgType.pubrel then 1 else 0;
  retain = 0;
}

pub length-ack_image :
    (h : Header) (packetid : ℕ) → length (packet_image h (int_image packetid)) ≡ 4
length-ack_image h packetid =
    rw (length-packet_image, length-int_image packetid, rem_image_small 2 (omega arith)) refl

-- MQTTSerialize_ack, when `buflen` is no more than the real size of the buffer: below 4 bytes it
-- returns MQTTPACKET_BUFFER_TOO_SHORT and leaves the buffer, otherwise it returns 4 and writes the
-- four bytes of the acknowledgement at the front of it.
pub serialize_ack_lem :
    (buf : Bytes) (buflen packettype dup packetid : ℕ)
    → buflen ≤ length buf
    → serialize_ack buf buflen packettype dup packetid
      ≡ serialized 4 buflen (packet_image (ack_header packettype dup) (int_image packetid)) buf
unfolding serialize_ack
serialize_ack_lem buf buflen packettype dup packetid fits =
    let h = ack_header packettype dup in
    let body = int_image packetid in
    checked_lem (packet_image h body)
      (rw (length-int_image packetid) at
        (Emits-frame h body (Emits-write_int packetid) (omega (arith, length-int_image packetid))))
      4 buflen buf (omega (arith, length-ack_image h packetid)) fits

-- MQTTDeserialize_ack returns 1 on every well-formed acknowledgement, whatever follows it, with its
-- packet type, its DUP flag and its packet identifier.
pub deserialize_ack-packet_image :
    (old : Ack) (h : Header) (packetid : ℕ) (rest : Bytes)
    → Fits h
    → packetid < 2 ^ 16
    → deserialize_ack old (packet_image h (int_image packetid) ++ rest)
      ≡ some (pos 1, record { packettype = h.type; dup = h.dup; packetid = packetid })
unfolding deserialize_ack on_buffer packet_image read_char
deserialize_ack-packet_image old h packetid rest fits small =
    let n = length (int_image packetid) in
    let at = 1 + length (rem_image n) in
    rw (header_bits-header_image h fits, append_assoc (rem_image n))
      (rw
        (read_remaining-rem_image n (int_image packetid ++ rest) 1
          (omega (arith, length-int_image packetid)))
        (rw (ge→ltb (at + n) (at + 2) (omega (arith, length-int_image packetid)))
          (rw (read_int-int_image packetid rest at small))))

-- An acknowledgement whose remaining length is 0 or 1, too short for a packet identifier, is taken
-- as a success: the call returns 1, because `rc` still holds the one byte that the remaining length
-- took, and the packet identifier keeps its old value.
pub deserialize_ack_truncated :
    (old : Ack) (byte n : ℕ) (rest : Bytes)
    → n < 2
    → deserialize_ack old (byte ∷ n ∷ rest)
      ≡ some (
        pos 1,
        record {
          packettype = (header_bits byte).type;
          dup = (header_bits byte).dup;
          packetid = old.packetid;
        },
      )
unfolding deserialize_ack on_buffer read_char
deserialize_ack_truncated old byte n rest h =
    rw (read_remaining_small n rest 1 (omega arith)) (rw (lt→ltb (2 + n) (2 + 2) (omega arith)))

-- MQTTSerialize_zero, when `buflen` is no more than the real size of the buffer: below 2 bytes it
-- returns MQTTPACKET_BUFFER_TOO_SHORT and leaves the buffer, otherwise it returns 2 and writes the
-- header with that packet type and the remaining length 0.
pub serialize_zero_lem :
    (buf : Bytes) (buflen packettype : ℕ)
    → buflen ≤ length buf
    → serialize_zero buf buflen packettype
      ≡ serialized 2 buflen
          (header_image (record { type = packettype; dup = 0; qos = 0; retain = 0 }) ∷ 0 ∷ [])
          buf
unfolding serialize_zero
serialize_zero_lem buf buflen packettype fits =
    let image : Bytes =
      header_image (record { type = packettype; dup = 0; qos = 0; retain = 0 }) ∷ [] in
    checked_lem (image ++ 0 ∷ [])
      (Emits->> image (0 ∷ []) (Emits-write_header _) (Emits-packet_encode_small 0 (omega arith))) 2
      buflen buf (omega arith) fits
