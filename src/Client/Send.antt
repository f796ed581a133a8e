-- ===== src/Client/Send.antt =====
-- What sendPacket puts on the network.
use mbed_mqtt.Common.{
  ℕ, suc, ◌+◌, ◌≤◌, ◌<◌, false, Bytes, ◌++◌, some, length, length-take, take, ltb, ℤ, pos, ◌≡◌,
  refl, ap, ◌∙◌, arith, eq→==, lt→ltb, ge→ltb, le→leb, lt→leb,
}
use mbed_mqtt.Client.Network.{write_from, send_loop, send_packet}
use mbed_mqtt.Packet.Memory.{readable}
use mbed_mqtt.Client.Platform.{Platform}
use mbed_mqtt.Client.Run.{fault}
use mbed_mqtt.Client.State.{State, success}
use mbed_mqtt.Client.Stream.{Gives, Gives-then}

-- A network that takes every byte that it is given. `sent` are the bytes taken so far.
pub record Accepts (p : Platform) : Type 0 where
  pub sent : p.World → Bytes
  pub result :
      (bs : Bytes) (timeout : ℤ) (w : p.World) → (p.mqttwrite bs timeout w).0 ≡ pos (length bs)
  pub taken :
      (bs : Bytes) (timeout : ℤ) (w : p.World) → sent (p.mqttwrite bs timeout w).1 ≡ sent w ++ bs
  pub on_check : (t : p.Timer) (w : p.World) → sent (p.is_expired t w).1 ≡ sent w
  pub on_left : (t : p.Timer) (w : p.World) → sent (p.left_ms t w).1 ≡ sent w
  pub on_countdown : (t : p.Timer) (n : ℕ) (w : p.World) → sent (p.countdown t n w).1 ≡ sent w

readable_first : (n : ℕ) (mem : Bytes) → n ≤ length mem → readable 0 n mem ≡ some (take n mem)
unfolding readable
readable_first n mem h = rw (le→leb (0 + n) (length mem) (omega arith)) refl

module _ (p : Platform) (a : Accepts p) where
  -- `bs` were put on the network, and the buffer is as it was.
  pub record Sent (bs : Bytes) (s s' : State p) : Type 0 where
    pub taken : a.sent s'.world ≡ a.sent s.world ++ bs
    pub buf : s'.client.buf ≡ s.client.buf

  write_from_lem :
      (timer : p.Timer) (n : ℕ) (s : State p)
      → n ≤ length s.client.buf
      → Gives (λ rc s'. (rc ≡ pos n) × Sent (take n s.client.buf) s s') (write_from p timer n 0 s)
  unfolding write_from
  write_from_lem timer n s h =
      let w = (p.left_ms timer s.world).1 in
      let left = (p.left_ms timer s.world).0 in
      rw (readable_first n s.client.buf h) (
        a.result (take n s.client.buf) left w ∙ ap pos (length-take n s.client.buf h),
        record {
          taken = a.taken (take n s.client.buf) left w ∙ rw (a.on_left timer s.world) refl;
          buf = refl;
        },
      )

  send_loop_lem :
      (rounds n : ℕ) (timer : p.Timer) (s : State p)
      → (p.is_expired timer s.world).0 ≡ false
      → 0 < n
      → n ≤ length s.client.buf
      → Gives
          (λ sent s'. (sent ≡ n) × Sent (take n s.client.buf) s s')
          (send_loop p (suc (suc rounds)) timer n 0 s)
  unfolding send_loop
  send_loop_lem rounds n timer s running some_ fits =
      let s1 : State p = record s { world = (p.is_expired timer s.world).1 } in
      let full : ltb (0 + n) n ≡ false = ge→ltb (0 + n) n (omega arith) in
      rw (lt→ltb 0 n some_, running)
        (Gives-then _ _ (write_from p timer n 0 s1) _ (write_from_lem timer n s1 fits) (λ rc s2 k.
          rw (k.0, full)
            (
              omega arith,
              record { taken = k.1.taken ∙ rw (a.on_check timer s.world) refl; buf = k.1.buf },
            )))

  -- On a network that takes what it is given, and with a timer that has not expired, sendPacket puts
  -- on the network the first `length` bytes of the send buffer, once and nothing else, and returns
  -- SUCCESS.
  pub send_packet_lem :
      (rounds n : ℕ) (timer : p.Timer) (s : State p)
      → (p.is_expired timer s.world).0 ≡ false
      → 0 < n
      → n ≤ length s.client.buf
      → Gives
          (λ rc s'. (rc ≡ success) × Sent (take n s.client.buf) s s')
          (send_packet p (suc (suc rounds)) n timer s)
  unfolding send_packet send_loop
  send_packet_lem rounds n timer s running some_ fits =
      Gives-then _ _ (send_loop p (suc (suc rounds)) timer n 0 s) _
        (send_loop_lem rounds n timer s running some_ fits)
        (λ sent s1 k.
          rw (k.0, eq→== n n refl)
            (refl, record { taken = a.on_countdown _ _ s1.world ∙ k.1.taken; buf = k.1.buf }))

module _ (p : Platform) where
  -- The first call of mqttwrite, for the first `n` bytes of the send buffer.
  abbrev pub first_write : p.Timer → ℕ → State p → ℤ × p.World
  first_write timer n s =
      let left = p.left_ms timer (p.is_expired timer s.world).1 in
      p.mqttwrite (take n s.client.buf) left.0 left.1

  -- When the first call of mqttwrite takes a part of the packet, and the send buffer ends before as
  -- many bytes again behind that part, sendPacket goes on to read behind the buffer, if its timer
  -- has not expired: it asks for `length` bytes from `sent` on.
  pub send_packet_overreads :
      (rounds n k : ℕ) (timer : p.Timer) (s : State p)
      → n ≤ length s.client.buf
      → length s.client.buf < k + n
      → k < n
      → (p.is_expired timer s.world).0 ≡ false
      → (first_write timer n s).0 ≡ pos k
      → (p.is_expired timer (first_write timer n s).1).0 ≡ false
      → send_packet p (suc (suc rounds)) n timer s ≡ fault
  unfolding send_packet send_loop write_from readable
  send_packet_overreads rounds n k timer s fits short part running partly still =
      rw
        (
          lt→ltb 0 n (omega arith),
          running,
          le→leb (0 + n) (length s.client.buf) (omega arith),
          partly,
          lt→ltb (0 + k) n (omega arith),
          still,
          lt→leb (length s.client.buf) (0 + k + n) (omega arith),
        )
        refl
