-- ===== src/Packet/Connack/Laws.antt =====
-- CONNACK: a guard that is too weak, what is read back, and what a truncated one is taken for.
use mbed_mqtt.Common.{
  ℕ, ◌%◌, ◌<◌, ◌≤◌, Bytes, [], ◌∷◌, ◌++◌, none, some, length, drop, ◌≡◌, arith, lt→ltb, ge→ltb, pos,
}
use mbed_mqtt.Packet.Connack.{serialize_connack, ConnackData, read_connack, deserialize_connack}
use mbed_mqtt.Packet.Frame.{Emits-write_header, Emits-packet_encode_small, read_remaining_small}
use mbed_mqtt.Packet.Header.{Header, header_byte, header_image, header_bits}
use mbed_mqtt.Packet.MsgType
use mbed_mqtt.Packet.Reader.{read_char, on_buffer}
use mbed_mqtt.Packet.Writer.Emits.{Emits, Emits-write_char, Emits->>, fill_fits, fill_overruns}
use mbed_mqtt.Packet.Writer.{◌>>◌, write_char}
use mbed_mqtt.Packet.Length.{packet_encode}

abbrev connack_header : Header
connack_header = record { type = MsgType.connack; dup = 0; qos = 0; retain = 0 }

-- The four bytes of the packet.
abbrev pub connack_image : ℕ → ℕ → Bytes
connack_image code session = 32 ∷ 2 ∷ session % 2 ∷ code % 256 ∷ []

Emits-connack :
    (code session : ℕ)
    → Emits
        (write_char (header_byte connack_header)
          >> packet_encode 2
          >> write_char (session % 2)
          >> write_char code)
        (connack_image code session)
unfolding header_image header_byte
Emits-connack code session =
    let small : session % 2 % 256 ≡ session % 2 = omega arith in
    Emits->> (32 ∷ []) (2 ∷ session % 2 ∷ code % 256 ∷ []) (Emits-write_header connack_header) (
      Emits->> (2 ∷ []) (session % 2 ∷ code % 256 ∷ []) (Emits-packet_encode_small 2 (omega arith))
        (Emits->> (session % 2 ∷ []) (code % 256 ∷ [])
          (rw small at (Emits-write_char (session % 2))) (Emits-write_char code)))

-- MQTTSerialize_connack tests `buflen` against 2, but writes four bytes: on a buffer of 2 or 3
-- bytes, which passes the test, it writes outside the buffer.
pub serialize_connack_overruns :
    (buf : Bytes) (code session : ℕ)
    → 2 ≤ length buf
    → length buf < 4
    → serialize_connack buf (length buf) code session ≡ none
unfolding serialize_connack
serialize_connack_overruns buf code session low high =
    rw (ge→ltb (length buf) 2 low)
      (fill_overruns (connack_image code session) (Emits-connack code session) buf high)

-- On a buffer of four bytes or more MQTTSerialize_connack returns 4, and MQTTDeserialize_connack
-- reads from that buffer 1, the return code and whether the session is present.
pub deserialize_connack-serialize_connack :
    (buf : Bytes) (code session : ℕ) (old : ConnackData)
    → 4 ≤ length buf
    → code < 256
    → (buf' : Bytes) × (serialize_connack buf (length buf) code session ≡ some (pos 4, buf'))
      × (deserialize_connack old buf'
          ≡ some (pos 1, record { session_present = session % 2; connack_rc = code }))
unfolding serialize_connack deserialize_connack on_buffer read_char header_bits read_connack
deserialize_connack-serialize_connack buf code session old room small = (
  connack_image code session ++ drop 4 buf,
  rw (ge→ltb (length buf) 2 (omega arith))
      (fill_fits (connack_image code session) (Emits-connack code session) buf room),
  rw (read_remaining_small 2 (session % 2 ∷ code % 256 ∷ drop 4 buf) 1 (omega arith))
      (ground arith),
)

-- A CONNACK packet whose remaining length is 0 or 1 is taken as a success: the call returns 1, and
-- the return code and the session flag keep their old values.
pub deserialize_connack_truncated :
    (old : ConnackData) (byte n : ℕ) (rest : Bytes)
    → (header_bits byte).type ≡ MsgType.connack
    → n < 2
    → deserialize_connack old (byte ∷ n ∷ rest) ≡ some (pos 1, old)
unfolding deserialize_connack on_buffer read_char read_connack
deserialize_connack_truncated old byte n rest t h =
    rw t (rw (read_remaining_small n rest 1 (omega arith)) (rw (lt→ltb n 2 h)))
