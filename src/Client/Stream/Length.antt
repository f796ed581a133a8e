-- ===== src/Client/Stream/Length.antt =====
-- decodePacket on a stream that begins with a remaining length.
use mbed_mqtt.Common.{
  ℕ, zero, suc, ◌+◌, ◌*◌, ◌/◌, ◌%◌, ◌^◌, ◌≤◌, ◌<◌, Bool, true, false, Bytes, [], ◌∷◌, ◌++◌, Option,
  none, some, length, ◌==◌, if◌then◌else◌, ℤ, pos, ◌≡◌, refl, ◌∙◌, arith,
}
use mbed_mqtt.Client.Network.{get_char, decode_packet}
use mbed_mqtt.Client.Platform.{Platform}
use mbed_mqtt.Client.Run.{ok, or_fault, then_run}
use mbed_mqtt.Client.State.{State, MqttClient}
use mbed_mqtt.Client.Stream.{Delivers, Gives, Holds}
use mbed_mqtt.Packet.Length.{Decoded, decode_loop, packet_decode, bufchar, packet_decode_buf}
use mbed_mqtt.Packet.Length.Laws.{rem_image, packet_decode_buf-rem_image}

module _ (p : Platform) (d : Delivers p) where
  -- The same number, and the same bytes left.
  abbrev Agrees : Option (Decoded Bytes) → Option (Decoded p.World) → Type 0
  Agrees none o = Unit
  Agrees (some a) none = ⊥
  Agrees (some a) (some b) = (b.value ≡ a.value) × (d.pending b.state ≡ a.state)

  get_char_lem :
      (timeout : ℤ) (w : p.World) (b : ℕ) (bs : Bytes)
      → d.pending w ≡ b ∷ bs
      → (get_char p timeout w ≡ some (pos 1, b, (p.mqttread 1 timeout w).2))
        × (d.pending (p.mqttread 1 timeout w).2 ≡ bs)
  get_char_lem timeout w b bs h =
      let there : 1 ≤ length (d.pending w) = rw h (omega arith) in
      let e : (p.mqttread 1 timeout w).1 ≡ b ∷ [] = d.bytes 1 timeout w there ∙ rw h refl in
      (rw (e, d.result 1 timeout w there) refl, d.left 1 timeout w there ∙ rw h refl)

  Agrees-if :
      (b : Bool) (x y : Option (Decoded Bytes)) (u v : Option (Decoded p.World))
      → Agrees x u
      → Agrees y v
      → Agrees (if b then x else y) (if b then u else v)
  Agrees-if true x y u v h k = h
  Agrees-if false x y u v h k = k

  decode_loop-Agrees :
      (timeout : ℤ) (left : ℕ) (w : p.World) (bs : Bytes) (value multiplier len : ℕ)
      → d.pending w ≡ bs
      → Agrees
          (decode_loop bufchar left bs value multiplier len)
          (decode_loop (get_char p timeout) left w value multiplier len)
  unfolding decode_loop bufchar
  decode_loop-Agrees timeout zero w bs value multiplier len h = (refl, h)
  decode_loop-Agrees timeout (suc left) w [] value multiplier len h = tt
  decode_loop-Agrees timeout (suc left) w (b ∷ bs) value multiplier len h =
      let (e, k) = get_char_lem timeout w b bs h in
      let w' = (p.mqttread 1 timeout w).2 in
      rw (decode_loop, e)
        (Agrees-if (b / 128 % 2 == 1) _ _ _ _
          (decode_loop-Agrees timeout left w' bs (value + b % 128 * multiplier) (multiplier * 128)
            (len + 1) k)
          (refl, k))

  decoded :
      (o : Option (Decoded Bytes)) (u : Option (Decoded p.World)) (s : State p) (mem : Bytes)
      (from : MqttClient p) (n : ℕ) (rest : Bytes) (digits : ℕ) (bs0 : Bytes)
      → Agrees o u
      → o ≡ some (record { len = digits; value = n; state = rest })
      → Holds p d mem from bs0 s
      → Gives
          (λ v s'. (v ≡ n) × Holds p d mem from rest s')
          (then_run (or_fault u s) (λ x s'. ok x.value (record s' { world = x.state })))
  decoded none u s mem from n rest digits bs0 a e h = cc
  decoded (some o) none s mem from n rest digits bs0 a e h = a
  decoded (some o) (some u) s mem from n rest digits bs0 a e h = (
    ground (arith, a.0),
    record {
      readbuf = h.readbuf;
      readbuf_size = h.readbuf_size;
      handlers = h.handlers;
      default_handler = h.default_handler;
      keep_alive = h.keep_alive;
      pending = a.1 ∙ ground arith;
    },
  )

  -- On a stream that begins with the digits of a number below 2^28, decodePacket returns the number
  -- and stops behind its digits.
  pub decode_packet_lem :
      (timeout : ℤ) (mem : Bytes) (from : MqttClient p) (n : ℕ) (rest : Bytes) (s : State p)
      → n < 2 ^ 28
      → Holds p d mem from (rem_image n ++ rest) s
      → Gives (λ v s'. (v ≡ n) × Holds p d mem from rest s') (decode_packet p timeout s)
  unfolding decode_packet packet_decode packet_decode_buf
  decode_packet_lem timeout mem from n rest s small h =
      decoded (packet_decode_buf (rem_image n ++ rest)) (packet_decode (get_char p timeout) s.world)
        s mem from n rest (length (rem_image n)) (rem_image n ++ rest)
        (decode_loop-Agrees timeout 4 s.world (rem_image n ++ rest) 0 1 0 h.pending)
        (packet_decode_buf-rem_image n rest small) h
