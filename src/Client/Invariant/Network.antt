-- ===== src/Client/Invariant/Network.antt =====
-- The packets on the network: every call ends, and keeps the client in shape.
use mbed_mqtt.Common.{
  ℕ, zero, suc, ◌+◌, ◌<◌, ltb, ◌==◌, if◌then◌else◌, refl, arith, Bool-cases, inl, inr,
}
use mbed_mqtt.Client.Invariant.{
  Runs, Runs-Good, Runs-if, Runs-bind, Kept-link, Proceeds, Proceeds-steps, IsPacketId, Good,
  Good-pure, Good-or_fault, Good-if, Good-bind, Good-next, Good-on_world, Good-update, Good-get,
}
use mbed_mqtt.Client.Handlers.Unique.{Keeps-same}
use mbed_mqtt.Client.Network.{
  get_next_packet_id, is_expired, left_ms, write_from, send_loop, send_packet, is_negative, to_ℕ,
  countdown_last_sent, countdown_last_received,
}
use mbed_mqtt.Packet.Memory.{readable}
use mbed_mqtt.Client.Platform.{Platform, Expires}
use mbed_mqtt.Client.Run.{◌>>=◌}
use mbed_mqtt.Client.Run.Ensures.{Returns-after}
use mbed_mqtt.Client.State.{State, Call, max_packet_id, success, failure}

module _ (p : Platform) (rounds : ℕ) (e : Expires p rounds) where
  pub Good-is_expired : (timer : p.Timer) → Good p rounds e (is_expired p timer)
  Good-is_expired timer =
      Good-on_world p rounds e (p.is_expired timer) (λ t w. e.on_check t timer w)

  pub Good-left_ms : (timer : p.Timer) → Good p rounds e (left_ms p timer)
  Good-left_ms timer = Good-on_world p rounds e (p.left_ms timer) (λ t w. e.on_left t timer w)

  -- A field that `Kept` does not speak about.
  pub Good-countdown_last_sent : Good p rounds e (countdown_last_sent p)
  Good-countdown_last_sent = Good-bind p rounds e _ _ (Good-get p rounds e (λ c. c)) (λ c.
      Good-bind p rounds e _ _
        (Good-on_world p rounds e (p.countdown c.last_sent c.keep_alive_interval)
          (λ t w. e.on_countdown t _ _ w))
        (λ t.
          Good-update p rounds e (λ c'. record c' { last_sent = t })
            (λ c. Kept-link c _ _ _ _ _ _)))

  pub Good-countdown_last_received : Good p rounds e (countdown_last_received p)
  Good-countdown_last_received = Good-bind p rounds e _ _ (Good-get p rounds e (λ c. c)) (λ c.
      Good-bind p rounds e _ _
        (Good-on_world p rounds e (p.countdown c.last_received c.keep_alive_interval)
          (λ t w. e.on_countdown t _ _ w))
        (λ t.
          Good-update p rounds e (λ c'. record c' { last_received = t })
            (λ c. Kept-link c _ _ _ _ _ _)))

  next_id : (n : ℕ) → IsPacketId n → IsPacketId (if n == max_packet_id then 1 else n + 1)
  next_id n h = ground arith

  pub Good-get_next_packet_id : Good p rounds e (get_next_packet_id p)
  unfolding get_next_packet_id
  Good-get_next_packet_id = record {
    at = λ s. record {
      kept = record {
        buf_size = refl;
        readbuf_size = refl;
        buf = refl;
        readbuf = refl;
        handlers = Keeps-same s.client.message_handlers;
        packetid = next_id s.client.next_packetid;
      };
      later = λ t. omega arith;
    };
  }

  Good-write_from : (timer : p.Timer) (n sent : ℕ) → Good p rounds e (write_from p timer n sent)
  unfolding write_from
  Good-write_from timer n sent = Good-bind p rounds e _ _ (Good-left_ms timer) (λ left.
      Good-bind p rounds e _ _ (Good-get p rounds e (λ c. c.buf)) (λ buf.
        Good-bind p rounds e _ _ (Good-or_fault p rounds e (readable sent n buf)) (λ bytes.
          Good-on_world p rounds e (p.mqttwrite bytes left) (λ t w. e.on_write t bytes left w))))

  -- TimerIsExpired, with the two ways to go on; a running timer has a check less left.
  pub Runs-is_expired :
      {A : Type 0} (timer : p.Timer) (m n : Call p A) (s : State p)
      → ((s' : State p) → Runs p rounds e m s')
      → ((s' : State p) → e.checks timer s'.world < e.checks timer s.world → Runs p rounds e n s')
      → Runs p rounds e (is_expired p timer >>= λ expired. if expired then m else n) s
  Runs-is_expired timer m n s over still =
      let s1 : State p = record s { world = (p.is_expired timer s.world).1 } in
      let h = (Good-is_expired timer).at s in
      elim (Bool-cases (p.is_expired timer s.world).0) [
        | inl b ↦ record {
          at = rw b (
              Returns-after (Proceeds p rounds e) (Proceeds-steps p rounds e) s s1 (m s1) h
                (over s1).at);
        }
        | inr b ↦ record {
          at = rw b (
              Returns-after (Proceeds p rounds e) (Proceeds-steps p rounds e) s s1 (n s1) h
                (still s1 (e.running timer s.world b)).at);
        }
      ]

  Runs-send_loop :
      (left : ℕ) (timer : p.Timer) (n sent : ℕ) (s : State p)
      → e.checks timer s.world < left
      → Runs p rounds e (send_loop p left timer n sent) s
  unfolding send_loop
  Runs-send_loop zero timer n sent s h = absurd (omega arith)
  Runs-send_loop (suc left) timer n sent s h =
      Runs-if p rounds e (ltb sent n) _ _ s
        (Runs-is_expired timer _ _ s (λ s'. Runs-Good p rounds e _ s' (Good-pure p rounds e sent))
          (λ s' less.
            Runs-bind p rounds e (write_from p timer n sent) _ s' (Good-write_from timer n sent)
              (λ rc u g.
                Runs-if p rounds e (is_negative rc) _ _ u
                  (Runs-Good p rounds e _ u (Good-pure p rounds e sent))
                  (Runs-send_loop left timer n (sent + to_ℕ rc) u (omega (arith, g.later timer))))))
        (Runs-Good p rounds e _ s (Good-pure p rounds e sent))

  pub Good-send_packet : (n : ℕ) (timer : p.Timer) → Good p rounds e (send_packet p rounds n timer)
  unfolding send_packet
  Good-send_packet n timer =
      Good-bind p rounds e _ _
        (record { at = λ s. (Runs-send_loop rounds timer n 0 s (e.bounded timer s.world)).at })
        (λ sent.
          Good-if p rounds e _ _ _
            (Good-next p rounds e _ _ Good-countdown_last_sent (Good-pure p rounds e success))
            (Good-pure p rounds e failure))
