-- ===== src/Packet/Transport.antt =====
-- MQTTPacket_readnb and MQTTPacket_decodenb of MQTTPacket.c: a packet read piece by piece from a
-- transport through a callback of the application.
pub mod Laws
pub mod Pieces
mod Tests
use mbed_mqtt.Common.{
  ℕ, zero, suc, ◌+◌, ◌-◌, ◌*◌, ◌/◌, ◌%◌, Bool, true, false, Bytes, [], ◌∷◌, Option, none, some,
  and_then, length, ltb, ◌==◌, if◌then◌else◌, ℤ, pos, negsuc,
}
use mbed_mqtt.Packet.Header.{header_bits}
use mbed_mqtt.Packet.Memory.{overwrite, readable, encode_at_1}

-- What `getfn` returns: -1, 0 for call again, or the number of bytes read, here the bytes that it
-- stored, one at least and no more than it was asked for. `S` is the state behind `sck`.
pub data Answer (S : Type 0) : Type 0 where
  failed : S → Answer S
  again : S → Answer S
  got : ℕ → Bytes → S → Answer S

-- MQTTTransport.
pub record Transport (S : Type 0) : Type 0 where
  pub sck : S
  pub multiplier : ℕ
  pub rem_len : ℕ
  pub len : ℕ
  pub state : ℕ

-- MQTTPACKET_READ_ERROR
abbrev pub packet_read_error : ℤ
packet_read_error = negsuc 0

-- The result of a call with the buffer and the transport; `none` is a write outside the buffer.
abbrev pub Reading : Type 0 → Type 0
Reading S = Option (ℤ × Bytes × Transport S)

abbrev pub is_error : ℤ → Bool
is_error (pos n) = false
is_error (negsuc n) = n == 0

abbrev pub is_again : ℤ → Bool
is_again (pos n) = n == 0
is_again (negsuc n) = false

module _ {S : Type 0} where
  abbrev pub with_digit :
      Answer S → Transport S → (ℕ → Transport S → ℤ × Transport S) → ℤ × Transport S
  with_digit (failed s) t next = (packet_read_error, record t { sck = s })
  with_digit (again s) t next = (pos 0, record t { sck = s })
  with_digit (got c cs s) t next = next c (record t {
    sck = s;
    len = t.len + 1;
    rem_len = t.rem_len + c % 128 * t.multiplier;
    multiplier = t.multiplier * 128;
  })

  -- The answer for a number of bytes at `buf + at`: errors end the call, and with bytes it goes on.
  abbrev pub with_bytes :
      Answer S → ℕ → Bytes → Transport S → (ℕ → Bytes → S → Reading S) → Reading S
  with_bytes (failed s) at buf t next =
      some (packet_read_error, buf, record t { sck = s; state = 0 })
  with_bytes (again s) at buf t next = some (pos 0, buf, record t { sck = s })
  with_bytes (got c cs s) at buf t next =
      and_then (overwrite at (c ∷ cs) buf) (λ buf'. next (suc (length cs)) buf' s)

  -- `rc = header.bits.type`, and the state at `exit`.
  unfoldable pub finish : Bytes → Transport S → Reading S
  finish buf t = and_then (readable 0 1 buf) (λ header. some (
    pos (elim header [ [] ↦ 0 | byte ∷ _ ↦ (header_bits byte).type ]),
    buf,
    record t { state = 0 },
  ))

module _ {S : Type 0} (getfn : ℕ → S → Answer S) where
  -- The loop of MQTTPacket_decodenb; the first argument is what `len` still lacks to the four bytes.
  unfoldable pub decode_nb_loop : ℕ → Transport S → ℤ × Transport S
  decode_nb_loop zero t = (packet_read_error, t)
  decode_nb_loop (suc left) t = with_digit (getfn 1 t.sck) t (λ c t'.
      let more = decode_nb_loop left t' in if c / 128 % 2 == 1 then more else (pos t'.len, t'))

  unfoldable pub packet_decode_nb : Transport S → ℤ × Transport S
  unfolding decode_nb_loop
  packet_decode_nb t =
      let t0 = if t.len == 0 then record t { multiplier = 1; rem_len = 0 } else t in
      decode_nb_loop (4 - t0.len) t0

  -- case 2
  unfoldable pub read_content : Bytes → Transport S → Reading S
  unfolding finish
  read_content buf t =
      let read = with_bytes (getfn t.rem_len t.sck) t.len buf t (λ frc buf' s.
        let t' : Transport S = record t { sck = s; rem_len = t.rem_len - frc; len = t.len + frc } in
        if t'.rem_len == 0 then finish buf' t' else some (pos 0, buf', t')) in
      if t.rem_len == 0 then finish buf t else read

  -- case 1, behind MQTTPacket_decodenb
  unfoldable pub put_length : ℕ → Bytes → Transport S → Reading S
  unfolding read_content
  put_length buflen buf t = and_then (encode_at_1 t.rem_len buf) (λ encoded.
      let t' : Transport S = record t { len = 1 + encoded.0 } in
      let on = read_content encoded.1 (record t' { state = 2 }) in
      if ltb buflen (t'.rem_len + t'.len)
      then some (negsuc 0, encoded.1, record t' { state = 0 })
      else on)

  -- case 1
  unfoldable pub read_length : ℕ → Bytes → Transport S → Reading S
  unfolding packet_decode_nb put_length
  read_length buflen buf t =
      let r = packet_decode_nb t in
      if is_error r.0
      then some (negsuc 0, buf, record (r.1) { state = 0 })
      else (if is_again r.0 then some (pos 0, buf, r.1) else put_length buflen buf r.1)

  -- case 0
  unfoldable pub read_header : ℕ → Bytes → Transport S → Reading S
  unfolding read_length
  read_header buflen buf t =
      with_bytes (getfn 1 t.sck) 0 buf t
        (λ frc buf' s. read_length buflen buf' (record t { sck = s; len = 0; state = 1 }))

  -- The `switch` of MQTTPacket_readnb.
  unfoldable pub packet_read_nb : ℕ → Bytes → Transport S → Reading S
  unfolding read_header
  packet_read_nb buflen buf t =
      if t.state == 1
      then read_length buflen buf t
      else (if t.state == 2
          then read_content buf t
          else read_header buflen buf (record t { state = 0 }))
