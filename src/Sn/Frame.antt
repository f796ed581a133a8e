-- ===== src/Sn/Frame.antt =====
-- The frame that the MQTT-SN packets share: length, packet type, body.
use mbed_mqtt.Common.{
  none, ℕ, ◌+◌, ◌%◌, ◌<◌, ◌≤◌, ◌≢◌, Bool-cases, inl, inr, Bytes, [], ◌∷◌, ◌++◌, length,
  length-append, ◌≡◌, refl, arith, ltb, lt→ltb, ge→ltb, ltb→lt, ltb→ge, if◌then◌else◌,
}
use mbed_mqtt.Packet.Writer.{Writer, ◌>>◌, write_char, checked}
use mbed_mqtt.Packet.Writer.Emits.{
  Emits, Emits-store, Emits-write_char, Emits-write_int, Emits->>, int_image, length-int_image,
  serialized, checked_lem, fill_overruns,
}
use mbed_mqtt.Sn.Flags.{Flags, flags_byte, flags_byte-lt}
use mbed_mqtt.Sn.Length.{sn_packet_len, sn_packet_encode}

-- The length field for a body: one byte, or the byte 1 and two bytes.
unfoldable pub len_image : Bytes → Bytes
len_image body =
    if ltb (length body) 254 then (length body + 2) ∷ [] else 1 ∷ int_image (length body + 4)

-- A packet as the standard lays it out.
unfoldable pub packet_image : ℕ → Bytes → Bytes
packet_image type body = len_image body ++ type ∷ body

pub length-len_image :
    (body : Bytes) → length (len_image body) ≡ (if ltb (length body) 254 then 1 else 3)
unfolding len_image
length-len_image body = elim (Bool-cases (ltb (length body) 254)) [
  | inl e ↦ rw e refl
  | inr e ↦ rw (e, length-int_image (length body + 4)) refl
]

pub length-packet_image :
    (type : ℕ) (body : Bytes)
    → length body ≢ 254
    → length (packet_image type body) ≡ sn_packet_len (length body + 1)
unfolding packet_image sn_packet_len
length-packet_image type body n =
    rw (length-append (len_image body), length-len_image body) (ground arith)

Emits-sn_packet_encode :
    (body : Bytes)
    → length body ≢ 254
    → Emits (sn_packet_encode (sn_packet_len (length body + 1))) (len_image body)
unfolding sn_packet_encode sn_packet_len len_image
Emits-sn_packet_encode body n = elim (Bool-cases (ltb (length body) 254)) [
  | inl e ↦
      let small : length body < 254 = ltb→lt _ _ e in
      let same : (length body + 1 + 1) % 256 ≡ length body + 2 = omega arith in
      rw
        (
          e,
          ge→ltb 255 (length body + 1) (omega arith),
          ge→ltb 255 (length body + 1 + 1) (omega arith),
          same,
        )
        (Emits-store (length body + 2))
  | inr e ↦
      let big : 254 ≤ length body = ltb→ge _ _ e in
      let same : length body + 1 + 3 ≡ length body + 4 = omega arith in
      rw
        (
          e,
          lt→ltb 255 (length body + 1) (omega arith),
          same,
          lt→ltb 255 (length body + 4) (omega arith),
        )
        (Emits->> (1 ∷ []) (int_image (length body + 4)) (Emits-write_char 1)
          (Emits-write_int (length body + 4)))
]

-- A serializer whose guard is `MQTTSNPacket_len(n) > buflen`, for `n` the length of its packet type
-- and its body.
pub serialized_frame :
    {w : Writer} (type : ℕ) (body : Bytes) (buflen : ℕ) (buf : Bytes)
    → Emits w body
    → type < 256
    → length body ≢ 254
    → buflen ≤ length buf
    → checked
        (sn_packet_len (length body + 1))
        buflen
        (sn_packet_encode (sn_packet_len (length body + 1)) >> write_char type >> w)
        buf
      ≡ serialized (sn_packet_len (length body + 1)) buflen (packet_image type body) buf
unfolding packet_image
serialized_frame type body buflen buf emits small n fits =
    let same : type % 256 ≡ type = omega arith in
    checked_lem (packet_image type body)
      (Emits->> (len_image body) (type ∷ body) (Emits-sn_packet_encode body n)
        (rw same at (Emits->> (type % 256 ∷ []) body (Emits-write_char type) emits)))
      _ buflen buf (omega (arith, length-packet_image type body n)) fits

-- The same for a body of known size, with a length field of one byte.
pub serialized_small :
    {w : Writer} (type : ℕ) (body : Bytes) (n buflen : ℕ) (buf : Bytes)
    → Emits w body
    → type < 256
    → length body ≡ n
    → n < 254
    → buflen ≤ length buf
    → checked (n + 2) buflen (sn_packet_encode (n + 2) >> write_char type >> w) buf
      ≡ serialized (n + 2) buflen (packet_image type body) buf
unfolding sn_packet_len
serialized_small type body n buflen buf emits small size short fits =
    let len : sn_packet_len (length body + 1) ≡ n + 2 = ground (arith, size) in
    rw len at (
      serialized_frame type body buflen buf emits small (λ e. absurd (omega (arith, size, e))) fits)

-- A body of 254 bytes makes a packet that is two bytes longer than the code counts: the serializer
-- writes behind a buffer of the size that it asks for.
pub checked_overruns :
    {w : Writer} (type : ℕ) (body : Bytes) (buf : Bytes)
    → Emits w body
    → length body ≡ 254
    → length buf ≡ 256
    → checked 256 256 (sn_packet_encode 256 >> write_char type >> w) buf ≡ none
unfolding sn_packet_encode
checked_overruns type body buf emits size exact =
    fill_overruns (1 ∷ (int_image 256 ++ type % 256 ∷ body))
      (Emits->> (1 ∷ int_image 256) (type % 256 ∷ body)
        (Emits->> (1 ∷ []) (int_image 256) (Emits-write_char 1) (Emits-write_int 256))
        (Emits->> (type % 256 ∷ []) body (Emits-write_char type) emits))
      buf
      (omega (
        arith,
        length-append (int_image 256) (type % 256 ∷ body),
        length-int_image 256,
        size,
        exact,
      ))

pub Emits-write_flags : (f : Flags) → Emits (write_char (flags_byte f)) (flags_byte f ∷ [])
Emits-write_flags f =
    let small = flags_byte-lt f in
    let same : flags_byte f % 256 ≡ flags_byte f = omega arith in
    rw same at (Emits-write_char (flags_byte f))
