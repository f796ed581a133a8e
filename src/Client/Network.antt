-- ===== src/Client/Network.antt =====
-- Packets on the network, of MQTTClient.c: getNextPacketId, sendPacket, decodePacket, readPacket.
use mbed_mqtt.Common.{
  ℕ, zero, suc, ◌+◌, ◌-◌, Bool, true, false, not, ◌&&◌, Bytes, [], ◌∷◌, Option, none, some,
  and_then, length, ltb, leb, ◌==◌, if◌then◌else◌, ℤ, pos, negsuc,
}
use mbed_mqtt.Client.Platform.{Platform}
use mbed_mqtt.Client.Run.{ok, hung, pure, or_fault, then_run, ◌>>=◌, ◌>>◌}
use mbed_mqtt.Client.State.{
  Call, get, update, on_world, max_packet_id, buffer_overflow, failure, success,
}
use mbed_mqtt.Packet.Header.{header_bits}
use mbed_mqtt.Packet.Memory.{overwrite, readable, encode_at_1}
use mbed_mqtt.Packet.Length.{packet_decode, is_one}

-- `sent += rc` for an `rc` that is not negative.
abbrev pub is_negative : ℤ → Bool
is_negative (pos n) = false
is_negative (negsuc n) = true

abbrev pub to_ℕ : ℤ → ℕ
to_ℕ (pos n) = n
to_ℕ (negsuc n) = 0

abbrev pub is_success : ℤ → Bool
is_success (pos n) = n == 0
is_success (negsuc n) = false

-- The digits that decodePacket reads, one byte for each call of mqttread.
abbrev pub first_char : ℤ → Bytes → Option ℕ
first_char rc (b ∷ bs) = some b
first_char rc [] = if is_one rc then none else some 0

module _ (p : Platform) where
  unfoldable pub get_next_packet_id : Call p ℕ
  get_next_packet_id s =
      let c = s.client in
      let next = if c.next_packetid == max_packet_id then 1 else c.next_packetid + 1 in
      ok next (record s { client = record c { next_packetid = next } })

  -- TimerIsExpired, TimerLeftMS, TimerCountdown on `last_sent` and on `last_received`
  abbrev pub is_expired : p.Timer → Call p Bool
  is_expired timer = on_world p (p.is_expired timer)

  abbrev pub left_ms : p.Timer → Call p ℤ
  left_ms timer = on_world p (p.left_ms timer)

  abbrev pub countdown_last_sent : Call p (Unit {0})
  countdown_last_sent = do
    c ← get p (λ c. c)
    t ← on_world p (p.countdown c.last_sent c.keep_alive_interval)
    update p (λ c'. record c' { last_sent = t })

  abbrev pub countdown_last_received : Call p (Unit {0})
  countdown_last_received = do
    c ← get p (λ c. c)
    t ← on_world p (p.countdown c.last_received c.keep_alive_interval)
    update p (λ c'. record c' { last_received = t })

  -- One round: `mqttwrite(ipstack, &c->buf[sent], length, TimerLeftMS(timer))`. It asks for `length`
  -- bytes whatever `sent` is.
  unfoldable pub write_from : p.Timer → ℕ → ℕ → Call p ℤ
  write_from timer length sent = do
    left ← left_ms timer
    buf ← get p (λ c. c.buf)
    bytes ← or_fault (readable sent length buf)
    on_world p (p.mqttwrite bytes left)

  -- The rounds of the loop of sendPacket; the result is `sent`.
  unfoldable pub send_loop : ℕ → p.Timer → ℕ → ℕ → Call p ℕ
  unfolding write_from
  send_loop zero timer length sent = λ s. hung
  send_loop (suc rounds) timer length sent =
      let round = is_expired timer >>= λ expired.
      let go_on = write_from timer length sent >>= λ rc.
      let more = send_loop rounds timer length (sent + to_ℕ rc) in
      if is_negative rc then pure sent else more in
      if expired then pure sent else go_on in
      if ltb sent length then round else pure sent

  unfoldable pub send_packet : ℕ → ℕ → p.Timer → Call p ℤ
  unfolding send_loop
  send_packet rounds length timer = do
    sent ← send_loop rounds timer length 0
    if sent == length then countdown_last_sent >> pure success else pure failure

  -- `mqttread(ipstack, &i, 1, timeout)`
  abbrev pub get_char : ℤ → p.World → Option (ℤ × ℕ × p.World)
  get_char timeout w =
      let r = p.mqttread 1 timeout w in and_then (first_char r.0 r.1) (λ i. some (r.0, i, r.2))

  -- The code is that of MQTTPacket_decode. The result is `*value`; the length is not used.
  unfoldable pub decode_packet : ℤ → Call p ℕ
  decode_packet timeout s =
      then_run (or_fault (packet_decode (get_char timeout) s.world) s)
        (λ d s'. ok d.value (record s' { world = d.state }))

  -- A call of mqttread, with its result and the bytes that it stored.
  abbrev pub read_bytes : ℕ → ℤ → p.World → (ℤ × Bytes) × p.World
  read_bytes n timeout w = let r = p.mqttread n timeout w in ((r.0, r.1), r.2)

  -- `mqttread(ipstack, c->readbuf + at, n, TimerLeftMS(timer))`
  unfoldable pub read_into : p.Timer → ℕ → ℕ → Call p ℤ
  read_into timer at n = do
    left ← left_ms timer
    r ← on_world p (read_bytes n left)
    readbuf ← get p (λ c. c.readbuf)
    readbuf' ← or_fault (overwrite at r.1 readbuf)
    update p (λ c. record c { readbuf = readbuf' })
    pure r.0

  -- `rem_len > (c->readbuf_size - len)`, where the right side is a `size_t` that wraps around below 0.
  abbrev pub is_too_long : ℕ → ℕ → ℕ → Bool
  is_too_long rem_len readbuf_size len =
      if leb len readbuf_size then ltb (readbuf_size - len) rem_len else false

  -- `header.bits.type`, with the countdown before it.
  unfoldable pub packet_type : Call p ℤ
  packet_type = do
    c ← get p (λ c. c)
    header ← or_fault (readable 0 1 c.readbuf)
    (if ltb 0 c.keep_alive_interval then countdown_last_received else pure tt)
    pure (elim header [ [] ↦ pos 0 | byte ∷ _ ↦ pos (header_bits byte).type ])

  -- `len` bytes of the header stand in the buffer.
  unfoldable pub read_rest : p.Timer → ℕ → ℕ → Call p ℤ
  unfolding read_into packet_type
  read_rest timer rem_len len = do
    size ← get p (λ c. c.readbuf_size)
    let body = read_into timer len rem_len >>= λ rc.
        if not (is_negative rc) && to_ℕ rc == rem_len then packet_type else pure (pos 0)
    if is_too_long rem_len size len
        then pure buffer_overflow
        else (if ltb 0 rem_len then body else packet_type)

  unfoldable pub read_body : p.Timer → ℕ → Call p ℤ
  unfolding read_rest
  read_body timer rem_len = do
    mem ← get p (λ c. c.readbuf)
    encoded ← or_fault (encode_at_1 rem_len mem)
    update p (λ c. record c { readbuf = encoded.1 })
    read_rest timer rem_len (1 + encoded.0)

  unfoldable pub read_packet : p.Timer → Call p ℤ
  unfolding read_body decode_packet
  read_packet timer = do
    rc ← read_into timer 0 1
    let rest = left_ms timer >>= λ left. decode_packet left >>= λ rem_len. read_body timer rem_len
    if is_one rc then rest else pure rc
