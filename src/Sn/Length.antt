-- ===== src/Sn/Length.antt =====
-- MQTTSNPacket_len, MQTTSNPacket_encode and MQTTSNPacket_decode of MQTTSNPacket.c, and the start
-- that the MQTTSNDeserialize functions share.
use mbed_mqtt.Common.{
  ℕ, ◌+◌, ◌-◌, ◌%◌, Bytes, Option, none, some, and_then, ltb, ◌==◌, if◌then◌else◌, ℤ, pos, negsuc,
}
use mbed_mqtt.Packet.Reader.{Cursor, Reader, ◌>>=◌, pure, advance, read_char, read_int}
use mbed_mqtt.Packet.Writer.{Writer, ◌>>◌, write_char, write_int, store}

unfoldable pub sn_packet_len : ℕ → ℕ
sn_packet_len length = if ltb 255 length then length + 3 else length + 1

-- The callers write `ptr += MQTTSNPacket_encode(ptr, len)`.
unfoldable pub sn_packet_encode : ℕ → Writer
sn_packet_encode length =
    if ltb 255 length then write_char 1 >> write_int length else store (length % 256)

-- MQTTSNPACKET_READ_ERROR
abbrev pub read_error : ℤ
read_error = negsuc 0

-- The result with `*value`, whose old value is passed in.
unfoldable pub sn_packet_decode : Bytes → ℕ → ℕ → Option (ℤ × ℕ)
sn_packet_decode buf buflen value =
    let first = read_char (record { rest = buf; at = 0 }) in
    let decoded = and_then first (λ b.
      let long = and_then (read_int b.1) (λ n. some (pos 3, n.0)) in
      if b.0 == 1
      then (if ltb buflen 3 then some (read_error, value) else long)
      else some (pos 1, b.0)) in
    if buflen == 0 then some (read_error, value) else decoded

-- `curdata += len; enddata = buf + mylen; if (enddata - curdata > buflen) goto exit;`
-- A negative `len` moves `curdata` before the buffer, where the next read is a fault.
abbrev pub opened :
    {A : Type 0} → ℕ → A → (ℕ → Reader A) → Cursor → Option (ℤ × ℕ) → Option (A × Cursor)
opened buflen failed k c none = none
opened buflen failed k c (some (pos n, mylen)) =
    if ltb buflen (mylen - n) then some (failed, c) else k mylen (advance n c)
opened buflen failed k c (some (negsuc m, mylen)) =
    if ltb buflen (mylen + (m + 1)) then some (failed, c) else none

-- The start of a deserializer for packets of one type: the length, the check of it against
-- `buflen`, and the packet type. `failed` is what it returns at `goto exit`; the rest of it is
-- given the offset `enddata`.
unfoldable pub in_packet : {A : Type 0} → ℕ → ℕ → A → (ℕ → Reader A) → Reader A
in_packet buflen type failed k c =
    opened buflen failed
      (λ enddata. read_char >>= λ b. if b == type then k enddata else pure failed) c
      (sn_packet_decode c.rest buflen 0)
