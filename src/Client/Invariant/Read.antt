-- ===== src/Client/Invariant/Read.antt =====
-- Reading a packet: it ends, and keeps the client in shape.
use mbed_mqtt.Common.{
  ℕ, zero, suc, ◌+◌, ◌*◌, ◌/◌, ◌%◌, ◌≤◌, Bool, true, false, not, ◌&&◌, Option, none, some, ltb,
  ◌==◌, if◌then◌else◌, ℤ, pos, refl, arith, Option-cases, inl, inr,
}
use mbed_mqtt.Client.Invariant.{
  Good-read, Runs-or_fault, Runs-update, Kept-bytes, Kept-same, Proceeds, Good, Good-pure,
  Good-or_fault, Good-if, Good-bind, Good-next, Good-on_world, Good-get,
}
use mbed_mqtt.Client.Invariant.Network.{Good-left_ms, Good-countdown_last_received}
use mbed_mqtt.Client.Network.{
  get_char, first_char, decode_packet, read_bytes, read_into, is_too_long, packet_type, read_rest,
  read_body, read_packet, is_negative, to_ℕ,
}
use mbed_mqtt.Packet.Memory.{overwrite, readable, encode_at_1}
use mbed_mqtt.Packet.Memory.Laws.{length-overwrite, length-encode_at_1}
use mbed_mqtt.Client.Platform.{Platform, Expires}
use mbed_mqtt.Client.Run.{ok, or_fault, then_run}
use mbed_mqtt.Client.Run.Ensures.{Returns}
use mbed_mqtt.Client.State.{State, buffer_overflow}
use mbed_mqtt.Packet.Length.{GetChar, Decoded, packet_decode, decode_loop, is_one}

module _ {S : Type 0} (m : S → ℕ) where
  -- No character, or a state that is not higher.
  abbrev NextBelow : ℕ → Option (ℤ × ℕ × S) → Type 0
  NextBelow n none = Unit
  NextBelow n (some r) = m r.2 ≤ n

  abbrev DecodedBelow : ℕ → Option (Decoded S) → Type 0
  DecodedBelow n none = Unit
  DecodedBelow n (some d) = m d.state ≤ n

  DecodedBelow-trans :
      (n k : ℕ) (o : Option (Decoded S)) → DecodedBelow n o → n ≤ k → DecodedBelow k o
  DecodedBelow-trans n k none h le = tt
  DecodedBelow-trans n k (some d) h le = omega (arith, h)

  DecodedBelow-if :
      (n : ℕ) (b : Bool) (o u : Option (Decoded S))
      → DecodedBelow n o
      → DecodedBelow n u
      → DecodedBelow n (if b then o else u)
  DecodedBelow-if n true o u h k = h
  DecodedBelow-if n false o u h k = k

  decode_loop-DecodedBelow :
      (getchar : GetChar S) (left : ℕ) (s : S) (value multiplier len : ℕ)
      → ((u : S) → NextBelow (m u) (getchar u))
      → DecodedBelow (m s) (decode_loop getchar left s value multiplier len)
  unfolding decode_loop
  decode_loop-DecodedBelow getchar zero s value multiplier len h = omega arith
  decode_loop-DecodedBelow getchar (suc left) s value multiplier len h =
      elim (Option-cases (getchar s)) [
        | inl e ↦ rw (decode_loop, e) tt
        | inr ((rc, c, s'), e) ↦
            let below : m s' ≤ m s = rw e at (h s) in
            rw (decode_loop, e)
              (DecodedBelow-if (m s) (is_one rc) _ _
                (DecodedBelow-if (m s) (c / 128 % 2 == 1) _ _
                  (DecodedBelow-trans (m s') (m s) _
                    (decode_loop-DecodedBelow getchar left s' (value + c % 128 * multiplier)
                      (multiplier * 128) (len + 1) h)
                    below)
                  below)
                below)
      ]

module _ (p : Platform) (rounds : ℕ) (e : Expires p rounds) where
  get_char-NextBelow :
      (t : p.Timer) (timeout : ℤ) (w : p.World)
      → NextBelow (e.checks t) (e.checks t w) (get_char p timeout w)
  get_char-NextBelow t timeout w =
      elim (Option-cases (first_char (p.mqttread 1 timeout w).0 (p.mqttread 1 timeout w).1)) [
        | inl none_ ↦ rw none_ tt
        | inr (c, some_) ↦ rw some_ (e.on_read t 1 timeout w)
      ]

  decoded :
      (s : State p) (o : Option (Decoded p.World))
      → ((t : p.Timer) → DecodedBelow (e.checks t) (e.checks t s.world) o)
      → Returns
          (λ a s'. Proceeds p rounds e s s')
          (then_run (or_fault o s) (λ d s'. ok d.value (record s' { world = d.state })))
  decoded s none h = tt
  decoded s (some d) h = record { kept = Kept-same s.client; later = h }

  Good-decode_packet : (timeout : ℤ) → Good p rounds e (decode_packet p timeout)
  unfolding decode_packet packet_decode
  Good-decode_packet timeout = record {
    at = λ s. decoded s (packet_decode (get_char p timeout) s.world) (λ t.
        decode_loop-DecodedBelow (e.checks t) (get_char p timeout) 4 s.world 0 1 0
          (get_char-NextBelow t timeout));
  }

  Good-read_into : (timer : p.Timer) (at n : ℕ) → Good p rounds e (read_into p timer at n)
  unfolding read_into
  Good-read_into timer at n = Good-bind p rounds e _ _ (Good-left_ms p rounds e timer) (λ left.
      Good-bind p rounds e _ _
        (Good-on_world p rounds e (read_bytes p n left) (λ t w. e.on_read t n left w))
        (λ r.
          Good-read p rounds e (λ c. c.readbuf) _
            (λ s. Runs-or_fault p rounds e (overwrite at r.1 s.client.readbuf) _ s (λ readbuf h.
              Runs-update p rounds e (λ c. record c { readbuf = readbuf }) _ s
                (Kept-bytes s.client s.client.buf readbuf refl
                  (length-overwrite at r.1 _ readbuf h))
                (Good-pure p rounds e r.0)))))

  Good-packet_type : Good p rounds e (packet_type p)
  unfolding packet_type
  Good-packet_type = Good-bind p rounds e _ _ (Good-get p rounds e (λ c. c)) (λ c.
      Good-bind p rounds e _ _ (Good-or_fault p rounds e (readable 0 1 c.readbuf)) (λ header.
        Good-next p rounds e _ _
          (Good-if p rounds e _ _ _ (Good-countdown_last_received p rounds e)
            (Good-pure p rounds e tt))
          (Good-pure p rounds e _)))

  Good-read_rest : (timer : p.Timer) (n len : ℕ) → Good p rounds e (read_rest p timer n len)
  unfolding read_rest
  Good-read_rest timer n len =
      Good-bind p rounds e _ _ (Good-get p rounds e (λ c. c.readbuf_size)) (λ size.
        Good-if p rounds e (is_too_long p n size len) _ _ (Good-pure p rounds e buffer_overflow) (
          Good-if p rounds e (ltb 0 n) _ _
            (Good-bind p rounds e _ _ (Good-read_into timer len n) (λ rc.
              Good-if p rounds e (not (is_negative rc) && to_ℕ rc == n) _ _ Good-packet_type
                (Good-pure p rounds e (pos 0))))
            Good-packet_type))

  Good-read_body : (timer : p.Timer) (n : ℕ) → Good p rounds e (read_body p timer n)
  unfolding read_body
  Good-read_body timer n =
      Good-read p rounds e (λ c. c.readbuf) _
        (λ s. Runs-or_fault p rounds e (encode_at_1 n s.client.readbuf) _ s (λ encoded h.
          Runs-update p rounds e (λ c. record c { readbuf = encoded.1 })
            (read_rest p timer n (1 + encoded.0)) s
            (Kept-bytes s.client s.client.buf encoded.1 refl (length-encode_at_1 n _ encoded h))
            (Good-read_rest timer n (1 + encoded.0))))

  pub Good-read_packet : (timer : p.Timer) → Good p rounds e (read_packet p timer)
  unfolding read_packet
  Good-read_packet timer = Good-bind p rounds e _ _ (Good-read_into timer 0 1) (λ rc.
      Good-if p rounds e _ _ _
        (Good-bind p rounds e _ _ (Good-left_ms p rounds e timer) (λ left.
          Good-bind p rounds e _ _ (Good-decode_packet left) (λ n. Good-read_body timer n)))
        (Good-pure p rounds e rc))
