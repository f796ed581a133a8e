-- ===== src/Packet/Suback/Laws.antt =====
-- SUBACK: what is written, what is read back, and the two guards that are too weak.
use mbed_mqtt.Common.{
  ℕ, zero, suc, ◌+◌, ◌-◌, ◌<◌, ◌≤◌, ◌%◌, ◌^◌, Bool, Bytes, List, [], ◌∷◌, ◌++◌, none, some, length,
  length-append, append_assoc, append-nil, ◌≡◌, ◌∙◌, arith, ltb, lt→ltb, ge→ltb, ℤ, pos, negsuc,
  All, and_then, take, Bool-cases, inl, inr, ltb→ge, ltb→lt, if◌then◌else◌,
}
use mbed_mqtt.Packet.Frame.{
  packet_image, length-packet_image, Emits-frame, read_remaining-rem_image,
}
use mbed_mqtt.Packet.Header.{Header, header_bits-header_image, Fits}
use mbed_mqtt.Packet.Length.Laws.{rem_image, length-rem_image}
use mbed_mqtt.Packet.MsgType
use mbed_mqtt.Packet.Reader.{read_char, as_int, on_buffer, returned_cursor}
use mbed_mqtt.Packet.Strings.Laws.{read_int-int_image}
use mbed_mqtt.Packet.Suback.{
  serialize_suback, write_chars, SubackData, read_granted, read_suback, deserialize_suback,
}
use mbed_mqtt.Packet.Writer.Emits.{
  Emits, Emits-skip, Emits-write_char, Emits-write_int, Emits->>, int_image, length-int_image,
  fill_overruns,
}
use mathlib.Core.List.{map}

abbrev pub suback_header : Header
suback_header = record { type = MsgType.suback; dup = 0; qos = 0; retain = 0 }

abbrev IsByte : ℕ → Type 0
IsByte b = b < 256

Emits-write_chars : (qs : List ℕ) → All IsByte qs → Emits (write_chars qs) qs
unfolding write_chars
Emits-write_chars [] h = Emits-skip
Emits-write_chars (q ∷ qs) (hq, h) =
    let same : q % 256 ≡ q = omega arith in
    Emits->> (q ∷ []) qs (rw same at (Emits-write_char q)) (Emits-write_chars qs h)

abbrev pub suback_body : ℕ → List ℕ → Bytes
suback_body packetid qs = int_image packetid ++ qs

length-suback_body : (packetid : ℕ) (qs : List ℕ) → length (suback_body packetid qs) ≡ 2 + length qs
length-suback_body packetid qs =
    omega (arith, length-append (int_image packetid) qs, length-int_image packetid)

-- MQTTSerialize_suback tests `buflen` against 2 + count, but the packet takes two bytes more at
-- least: on a buffer of exactly 2 + count bytes, which passes the test, it writes outside the buffer.
pub serialize_suback_overruns :
    (buf : Bytes) (packetid : ℕ) (granted : List ℕ)
    → All IsByte granted
    → 2 + length granted < 2 ^ 31
    → length buf ≡ 2 + length granted
    → serialize_suback buf (length buf) packetid granted ≡ none
unfolding serialize_suback
serialize_suback_overruns buf packetid granted bytes small e =
    let body = suback_body packetid granted in
    let size = length-suback_body packetid granted in
    rw (e, ge→ltb (2 + length granted) (2 + length granted) (omega arith))
      (fill_overruns (packet_image suback_header body)
        (rw size at (
          Emits-frame suback_header body
            (Emits->> (int_image packetid) granted (Emits-write_int packetid)
              (Emits-write_chars granted bytes))
            (omega (arith, size))))
        buf
        (omega
          (arith, length-packet_image suback_header body, length-rem_image (length body), size)))

read_granted-bytes :
    (signed : Bool) (maxcount : ℕ) (qs : List ℕ) (acc : List ℤ) (rest : Bytes) (at : ℕ)
    → length acc + length qs ≤ maxcount + 1
    → read_granted signed maxcount (length qs) acc (record { rest = qs ++ rest; at = at })
      ≡ some ((pos 1, acc ++ map (as_int signed) qs), record { rest = rest; at = at + length qs })
unfolding read_granted read_char
read_granted-bytes signed maxcount [] acc rest at h =
    let end : at + 0 ≡ at = omega arith in rw (append-nil, end)
read_granted-bytes signed maxcount (q ∷ qs) acc rest at h =
    let more =
      read_granted-bytes signed maxcount qs (acc ++ as_int signed q ∷ []) rest (at + 1)
        (omega (arith, length-append acc (as_int signed q ∷ []))) in
    let end : at + 1 + length qs ≡ at + suc (length qs) = omega arith in
    rw (ge→ltb maxcount (length acc) (omega arith)) (more ∙ rw (append_assoc, end))

-- With too many entries the loop stops at the index maxcount + 1.
read_granted_too_many :
    (signed : Bool) (maxcount n : ℕ) (qs : List ℕ) (acc : List ℤ) (rest : Bytes) (at : ℕ)
    → length acc + n ≡ maxcount + 1
    → n < length qs
    → and_then
        (read_granted signed maxcount (length qs) acc (record { rest = qs ++ rest; at = at }))
        (λ r. some r.0)
      ≡ some (negsuc 0, acc ++ map (as_int signed) (take n qs))
unfolding read_granted read_char
read_granted_too_many signed maxcount n [] acc rest at e k = absurd (omega arith)
read_granted_too_many signed maxcount zero (q ∷ qs) acc rest at e k =
    rw (lt→ltb maxcount (length acc) (omega arith), append-nil)
read_granted_too_many signed maxcount (suc n) (q ∷ qs) acc rest at e k =
    let more =
      read_granted_too_many signed maxcount n qs (acc ++ as_int signed q ∷ []) rest (at + 1)
        (omega (arith, length-append acc (as_int signed q ∷ []))) (omega arith) in
    rw (ge→ltb maxcount (length acc) (omega arith)) (more ∙ rw append_assoc)

-- MQTTDeserialize_suback on a well-formed SUBACK, whatever follows it: up to maxcount + 1 entries it
-- returns 1 with the packet identifier and all the entries; above, it returns -1 and has stored the
-- first maxcount + 1 of them. Either way it may store one entry more than `maxcount`.
pub deserialize_suback-packet_image :
    (signed : Bool) (maxcount packetid : ℕ) (old : SubackData) (qs : List ℕ) (rest : Bytes)
    → packetid < 2 ^ 16
    → 2 + length qs < 2 ^ 28
    → deserialize_suback signed maxcount old
        (packet_image suback_header (suback_body packetid qs) ++ rest)
      ≡ some (
        if ltb (maxcount + 1) (length qs) then negsuc 0 else pos 1,
        record {
          packetid = packetid;
          granted =
              map
                (as_int signed)
                (if ltb (maxcount + 1) (length qs) then take (maxcount + 1) qs else qs);
        },
      )
unfolding deserialize_suback read_suback on_buffer packet_image read_char
deserialize_suback-packet_image signed maxcount packetid old qs rest small size =
    let body = suback_body packetid qs in
    let n = length-suback_body packetid qs in
    let left : length body - 2 ≡ length qs = omega (arith, n) in
    let fits : Fits suback_header = record {
      type_fits = omega arith;
      dup_fits = omega arith;
      qos_fits = omega arith;
      retain_fits = omega arith;
    } in
    let at = 1 + length (rem_image (length body)) in
    rw (header_bits-header_image suback_header fits, append_assoc (rem_image (length body)))
      (rw (read_remaining-rem_image (length body) (body ++ rest) 1 (omega (arith, n))) (
        rw (ge→ltb (length body) 2 (omega (arith, n)), append_assoc (int_image packetid) qs rest)
          (rw (read_int-int_image packetid (qs ++ rest) at small) (
            rw left (elim (Bool-cases (ltb (maxcount + 1) (length qs))) [
              | inl many ↦
                  let (c, stop) = returned_cursor _ _ (
                    read_granted_too_many signed maxcount (maxcount + 1) qs [] rest (at + 2)
                      (omega arith) (ltb→lt _ _ many)) in
                  rw many (rw stop)
              | inr few ↦ rw few (
                  rw (
                    read_granted-bytes signed maxcount qs [] rest (at + 2)
                      (omega (arith, ltb→ge _ _ few))))
            ])))))
