-- ===== src/Packet/Frame.antt =====
-- The frame that all packets share: the header byte, the remaining length, and the body.
use mbed_mqtt.Common.{
  ℕ, ◌+◌, ◌%◌, ◌<◌, ◌≤◌, ◌^◌, Bytes, ◌∷◌, ◌++◌, some, length, length-append, drop-append, ◌≡◌,
  arith, [],
}
use mbed_mqtt.Packet.Header.{
  Header, header_byte, header_image, header_byte-header_image, header_image-lt,
}
use mbed_mqtt.Packet.Length.{packet_encode, packet_len, read_remaining}
use mbed_mqtt.Packet.Length.Laws.{
  rem_image, Emits-packet_encode, packet_len-covers, packet_decode_buf-rem_image, rem_image_small,
}
use mbed_mqtt.Packet.Writer.{Writer, ◌>>◌, write_char, checked}
use mbed_mqtt.Packet.Writer.Emits.{Emits, Emits-write_char, Emits->>, serialized, checked_lem}

-- A packet as the standard lays it out.
unfoldable pub packet_image : Header → Bytes → Bytes
packet_image h body = header_image h ∷ (rem_image (length body) ++ body)

pub length-packet_image :
    (h : Header) (body : Bytes)
    → length (packet_image h body) ≡ 1 + length (rem_image (length body)) + length body
unfolding packet_image
length-packet_image h body = omega (arith, length-append (rem_image (length body)) body)

pub Emits-write_header : (h : Header) → Emits (write_char (header_byte h)) (header_image h ∷ [])
Emits-write_header h =
    let byte = header_image-lt h in
    let same : header_image h % 256 ≡ header_image h = omega arith in
    rw (header_byte-header_image h) (rw same at (Emits-write_char (header_image h)))

pub Emits-frame :
    {w : Writer} (h : Header) (body : Bytes)
    → Emits w body
    → length body < 2 ^ 31
    → Emits (write_char (header_byte h) >> packet_encode (length body) >> w) (packet_image h body)
unfolding packet_image
Emits-frame h body emits small =
    Emits->> (header_image h ∷ []) (rem_image (length body) ++ body) (Emits-write_header h)
      (Emits->> (rem_image (length body)) body (Emits-packet_encode (length body) small) emits)

-- A serializer whose guard is `MQTTPacket_len(n) > buflen`, for `n` the length of its body.
pub serialized_frame :
    {w : Writer} (h : Header) (body : Bytes) (buflen : ℕ) (buf : Bytes)
    → Emits w body
    → length body < 2 ^ 28
    → buflen ≤ length buf
    → checked
        (packet_len (length body))
        buflen
        (write_char (header_byte h) >> packet_encode (length body) >> w)
        buf
      ≡ serialized (packet_len (length body)) buflen (packet_image h body) buf
serialized_frame h body buflen buf emits small fits =
    checked_lem (packet_image h body) (Emits-frame h body emits (omega arith)) _ buflen buf
      (omega (arith, length-packet_image h body, packet_len-covers (length body) small)) fits

-- The remaining length is read back, and the pointer stands on the body.
pub read_remaining-rem_image :
    (n : ℕ) (rest : Bytes) (at : ℕ)
    → n < 2 ^ 28
    → read_remaining (record { rest = rem_image n ++ rest; at = at })
      ≡ some ((length (rem_image n), n), record { rest = rest; at = at + length (rem_image n) })
unfolding read_remaining
read_remaining-rem_image n rest at h =
    rw (packet_decode_buf-rem_image n rest h) (rw (drop-append (rem_image n) rest))

pub read_remaining_small :
    (n : ℕ) (rest : Bytes) (at : ℕ)
    → n < 128
    → read_remaining (record { rest = n ∷ rest; at = at })
      ≡ some ((1, n), record { rest = rest; at = at + 1 })
read_remaining_small n rest at h =
    rw (rem_image_small n h) at (read_remaining-rem_image n rest at (omega arith))

pub Emits-packet_encode_small : (n : ℕ) → n < 128 → Emits (packet_encode n) (n ∷ [])
Emits-packet_encode_small n h = rw (rem_image_small n h) at (Emits-packet_encode n (omega arith))
