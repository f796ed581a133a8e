-- ===== src/Sn/Opening.antt =====
-- The start of the MQTT-SN deserializers on a well-formed packet.
use mbed_mqtt.Common.{
  ℕ, ◌+◌, ◌-◌, ◌<◌, ◌≤◌, ◌^◌, Bool-cases, inl, inr, Bytes, ◌∷◌, ◌++◌, some, length, length-append,
  append_assoc, drop-append, drop, and_then, ◌≡◌, refl, arith, ltb, lt→ltb, ge→ltb, ◌==◌, pos,
  Option, ℤ, false, eq→==,
}
use mbed_mqtt.Packet.Reader.{Reader, read_char}
use mbed_mqtt.Packet.Strings.Laws.{read_int-int_image}
use mbed_mqtt.Packet.Writer.Emits.{length-int_image, serialized}
use mbed_mqtt.Sn.Frame.{len_image, length-len_image, packet_image}
use mbed_mqtt.Sn.Length.{sn_packet_decode, in_packet}

-- The size that the length field can hold.
abbrev pub Bounded : Bytes → Type 0
Bounded body = length body + 4 < 2 ^ 16

pub sn_packet_decode-len_image :
    (body rest : Bytes) (buflen value : ℕ)
    → Bounded body
    → length (len_image body) + length body < buflen
    → sn_packet_decode (len_image body ++ rest) buflen value
      ≡ some (pos (length (len_image body)), length (len_image body) + 1 + length body)
unfolding sn_packet_decode read_char len_image
sn_packet_decode-len_image body rest buflen value small fits =
    elim (Bool-cases (ltb (length body) 254)) [
      | inl e ↦
          let room : 1 + length body < buflen = rw (length-len_image body, e) at fits in
          let total : length body + 2 ≡ 1 + 1 + length body = omega arith in
          let first : (length body + 2 == 1) ≡ false = ground arith in
          let wide : (buflen == 0) ≡ false = ground arith in rw (e, wide) (rw first (rw total refl))
      | inr e ↦
          let room : 3 + length body < buflen = rw (length-len_image body, e) at fits in
          let total : length body + 4 ≡ 3 + 1 + length body = omega arith in
          let wide : (buflen == 0) ≡ false = ground arith in
          rw (e, wide, ge→ltb buflen 3 (omega arith))
            (rw (read_int-int_image (length body + 4) rest 1 small)
              (rw (length-int_image (length body + 4)) (rw total refl)))
    ]

module _ {A : Type 0} (type : ℕ) (body rest : Bytes) (buflen : ℕ) (failed : A)
    (k : ℕ → Reader A) where
  -- The check of the length passes, and the rest of the deserializer starts at the body.
  pub in_packet-packet_image :
      Bounded body
      → length (packet_image type body) ≤ buflen
      → in_packet buflen type failed k (record { rest = packet_image type body ++ rest; at = 0 })
        ≡ k
            (length (len_image body) + 1 + length body)
            (record { rest = body ++ rest; at = length (len_image body) + 1 })
  unfolding in_packet packet_image read_char
  in_packet-packet_image small fits =
      let size : length (len_image body) + 1 + length body ≤ buflen =
        omega (arith, length-append (len_image body) (type ∷ body)) in
      let start : 0 + length (len_image body) + 1 ≡ length (len_image body) + 1 = omega arith in
      rw (append_assoc (len_image body)) (
        rw (sn_packet_decode-len_image body (type ∷ (body ++ rest)) buflen 0 small (omega arith)) (
          rw
            (ge→ltb buflen (length (len_image body) + 1 + length body - length (len_image body))
              (omega arith))
            (rw (drop-append (len_image body)) (rw (eq→== type type refl, start) refl))))

-- A guarded call with enough room goes on with the bytes that it wrote.
pub and_then-serialized :
    {B : Type 0} (need buflen : ℕ) (bs buf : Bytes) (f : ℤ × Bytes → Option B)
    → need ≤ buflen
    → and_then (serialized need buflen bs buf) f ≡ f (pos (length bs), bs ++ drop (length bs) buf)
and_then-serialized need buflen bs buf f h = rw (ge→ltb buflen need h) refl

-- The start of a deserializer on a packet of known size, with a length field of one byte.
pub in_packet_small :
    {A : Type 0} (type : ℕ) (body rest : Bytes) (n buflen : ℕ) (failed : A) (k : ℕ → Reader A)
    → length body ≡ n
    → n < 254
    → n + 2 ≤ buflen
    → in_packet buflen type failed k (record { rest = packet_image type body ++ rest; at = 0 })
      ≡ k (n + 2) (record { rest = body ++ rest; at = 2 })
unfolding packet_image
in_packet_small type body rest n buflen failed k size short fits =
    let one : length (len_image body) ≡ 1 =
      rw (length-len_image body, lt→ltb (length body) 254 (omega (arith, size))) refl in
    let total : 1 + 1 + n ≡ n + 2 = omega arith in
    rw (one, size, total) at
      (in_packet-packet_image type body rest buflen failed k (omega (arith, size))
        (omega (arith, length-append (len_image body) (type ∷ body), one, size)))
