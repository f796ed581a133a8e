-- ===== src/Packet/Unsubscribe/Unsuback.antt =====
-- UNSUBACK: a guard that is too weak, and an answer to another request that is accepted.
use mbed_mqtt.Common.{ℕ, ◌<◌, ◌≤◌, ◌^◌, Bytes, ◌++◌, none, some, length, ◌≡◌, arith, ge→ltb, pos}
use mbed_mqtt.Packet.Ack.Laws.{deserialize_ack-packet_image, length-ack_image}
use mbed_mqtt.Packet.Frame.{packet_image, Emits-frame}
use mbed_mqtt.Packet.Header.{Header, Fits}
use mbed_mqtt.Packet.MsgType
use mbed_mqtt.Packet.Unsubscribe.{serialize_unsuback, deserialize_unsuback}
use mbed_mqtt.Packet.Writer.Emits.{Emits-write_int, int_image, length-int_image, fill_overruns}

abbrev unsuback_header : Header
unsuback_header = record { type = MsgType.unsuback; dup = 0; qos = 0; retain = 0 }

-- MQTTSerialize_unsuback tests `buflen` against 2, but writes four bytes: on a buffer of 2 or 3
-- bytes, which passes the test, it writes outside the buffer.
pub serialize_unsuback_overruns :
    (buf : Bytes) (packetid : ℕ)
    → 2 ≤ length buf
    → length buf < 4
    → serialize_unsuback buf (length buf) packetid ≡ none
unfolding serialize_unsuback
serialize_unsuback_overruns buf packetid low high =
    let two = length-int_image packetid in
    let emits =
      Emits-frame unsuback_header (int_image packetid) (Emits-write_int packetid)
        (omega (arith, two)) in
    rw (ge→ltb (length buf) 2 low) (
      fill_overruns (packet_image unsuback_header (int_image packetid)) (rw two at emits) buf
        (omega (arith, length-ack_image unsuback_header packetid)))

-- MQTTDeserialize_unsuback returns 1 on a well-formed acknowledgement of any packet type, not only
-- on UNSUBACK, with its packet identifier.
pub deserialize_unsuback_any :
    (old : ℕ) (h : Header) (packetid : ℕ) (rest : Bytes)
    → Fits h
    → packetid < 2 ^ 16
    → deserialize_unsuback old (packet_image h (int_image packetid) ++ rest)
      ≡ some (pos 1, packetid)
unfolding deserialize_unsuback
deserialize_unsuback_any old h packetid rest fits small =
    rw (deserialize_ack-packet_image _ h packetid rest fits small) (ground arith)
