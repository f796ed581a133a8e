-- ===== src/Client/Stream/Packet.antt =====
-- readPacket on a stream that begins with a packet.
use mbed_mqtt.Common.{
  ℕ, ◌+◌, ◌^◌, ◌≤◌, ◌<◌, true, false, not, ◌&&◌, Bytes, [], ◌∷◌, ◌++◌, some, length, length-append,
  take, drop, take-append, drop-append, take-append-drop, length-take, length-drop, append_assoc,
  ltb, ◌==◌, pos, ◌≡◌, refl, sym, ap, ◌∙◌, arith, inl, inr, Bool-cases, eq→==,
}
use mbed_mqtt.Packet.Memory.{readable, encode_at_1}
use mbed_mqtt.Packet.Memory.Laws.{first_byte, overwrite_lem, encode_at_1_lem}
use mbed_mqtt.Client.Network.{
  is_negative, to_ℕ, left_ms, read_into, is_too_long, packet_type, read_rest, read_body,
  read_packet, decode_packet,
}
use mbed_mqtt.Client.Platform.{Platform}
use mbed_mqtt.Client.Run.{◌>>=◌}
use mbed_mqtt.Client.State.{State, MqttClient}
use mbed_mqtt.Client.Stream.{Delivers, Gives, Gives-then, Holds}
use mbed_mqtt.Client.Stream.Length.{decode_packet_lem}
use mbed_mqtt.Packet.Header.{Header, header_image, header_bits}
use mbed_mqtt.Packet.Frame.{packet_image}
use mbed_mqtt.Packet.Length.{is_one}
use mbed_mqtt.Packet.Length.Laws.{rem_image}

module _ (p : Platform) (d : Delivers p) where
  read_into_lem :
      (timer : p.Timer) (a b c bs rest : Bytes) (from : MqttClient p) (s : State p)
      → Holds p d (a ++ (b ++ c)) from (bs ++ rest) s
      → length bs ≡ length b
      → Gives
          (λ rc s'. (rc ≡ pos (length bs)) × Holds p d (a ++ (bs ++ c)) from rest s')
          (read_into p timer (length a) (length bs) s)
  unfolding read_into
  read_into_lem timer a b c bs rest from s h fits =
      let w = (p.left_ms timer s.world).1 in
      let left = (p.left_ms timer s.world).0 in
      let n = length bs in
      let there : d.pending w ≡ bs ++ rest = d.on_left timer s.world ∙ h.pending in
      let enough : n ≤ length (d.pending w) = rw there (omega (arith, length-append bs rest)) in
      let got : (p.mqttread n left w).1 ≡ bs =
        d.bytes n left w enough ∙ rw there (take-append bs rest) in
      let left_over : d.pending (p.mqttread n left w).2 ≡ rest =
        d.left n left w enough ∙ rw there (drop-append bs rest) in
      rw (got, h.readbuf, overwrite_lem a b c bs fits)
        (
          d.result n left w enough,
          record {
            readbuf = refl;
            readbuf_size = h.readbuf_size;
            handlers = h.handlers;
            default_handler = h.default_handler;
            keep_alive = h.keep_alive;
            pending = left_over;
          },
        )

  packet_type_lem :
      (x : ℕ) (m : Bytes) (from : MqttClient p) (bs : Bytes) (s : State p)
      → Holds p d (x ∷ m) from bs s
      → Gives
          (λ rc s'. (rc ≡ pos (header_bits x).type) × Holds p d (x ∷ m) from bs s')
          (packet_type p s)
  unfolding packet_type
  packet_type_lem x m from bs s h =
      let head : readable 0 1 s.client.readbuf ≡ some (x ∷ []) = rw h.readbuf (first_byte x m) in
      elim (Bool-cases (ltb 0 s.client.keep_alive_interval)) [
        | inl b ↦
            rw (head, b)
              (
                refl,
                record {
                  readbuf = h.readbuf;
                  readbuf_size = h.readbuf_size;
                  handlers = h.handlers;
                  default_handler = h.default_handler;
                  keep_alive = h.keep_alive;
                  pending = d.on_countdown _ _ s.world ∙ h.pending;
                },
              )
        | inr b ↦ rw (head, b) (refl, h)
      ]

  read_rest_lem :
      (timer : p.Timer) (x : ℕ) (m o c body rest : Bytes) (from : MqttClient p) (s : State p)
      → Holds p d (x ∷ m ++ (o ++ c)) from (body ++ rest) s
      → length body ≡ length o
      → length (x ∷ m) + length body ≤ from.readbuf_size
      → Gives
          (λ rc s'. (rc ≡ pos (header_bits x).type) × Holds p d (x ∷ m ++ (body ++ c)) from rest s')
          (read_rest p timer (length body) (length (x ∷ m)) s)
  unfolding read_rest
  read_rest_lem timer x m [] c [] rest from s h fits room =
      let ok_ : is_too_long p 0 s.client.readbuf_size (length (x ∷ m)) ≡ false =
        ground (arith, h.readbuf_size) in
      rw ok_ (packet_type_lem x (m ++ c) from rest s h)
  read_rest_lem timer x m (y ∷ o) c [] rest from s h fits room = absurd (omega arith)
  read_rest_lem timer x m o c (b ∷ body) rest from s h fits room =
      let ok_ : is_too_long p (length (b ∷ body)) s.client.readbuf_size (length (x ∷ m)) ≡ false =
        ground (arith, h.readbuf_size) in
      let some_ : ltb 0 (length (b ∷ body)) ≡ true = ground arith in
      rw (ok_, some_)
        (Gives-then _ _ (read_into p timer (length (x ∷ m)) (length (b ∷ body)) s) _
          (read_into_lem timer (x ∷ m) o c (b ∷ body) rest from s h fits)
          (λ rc s' k.
            let all_ : (not (is_negative rc) && to_ℕ rc == length (b ∷ body)) ≡ true =
              rw (k.0) (eq→== (length (b ∷ body)) (length (b ∷ body)) refl) in
            rw all_ (packet_type_lem x (m ++ ((b ∷ body) ++ c)) from rest s' k.1)))

  read_body_lem :
      (timer : p.Timer) (x : ℕ) (o1 o2 c body rest : Bytes) (from : MqttClient p) (s : State p)
      → Holds p d (x ∷ (o1 ++ (o2 ++ c))) from (body ++ rest) s
      → length body < 2 ^ 28
      → length o1 ≡ length (rem_image (length body))
      → length body ≡ length o2
      → 1 + length (rem_image (length body)) + length body ≤ from.readbuf_size
      → Gives
          (λ rc s'.
            (rc ≡ pos (header_bits x).type)
            × Holds p d (x ∷ (rem_image (length body) ++ (body ++ c))) from rest s')
          (read_body p timer (length body) s)
  unfolding read_body
  read_body_lem timer x o1 o2 c body rest from s h small digits fits room =
      let ri = rem_image (length body) in
      let encoded : encode_at_1 (length body) s.client.readbuf
          ≡ some (length ri, x ∷ (ri ++ (o2 ++ c))) =
        rw h.readbuf (encode_at_1_lem x (length body) o1 (o2 ++ c) small digits) in
      let at : 1 + length ri ≡ length (x ∷ ri) = omega arith in
      rw (encoded, at)
        (read_rest_lem timer x ri o2 c body rest from _
          (record {
            readbuf = refl;
            readbuf_size = h.readbuf_size;
            handlers = h.handlers;
            default_handler = h.default_handler;
            keep_alive = h.keep_alive;
            pending = h.pending;
          })
          fits (omega (arith, room)))

  parts : (x k : ℕ) (o c : Bytes) → x ∷ (o ++ c) ≡ x ∷ (take k o ++ (drop k o ++ c))
  parts x k o c =
      let whole : (take k o ++ drop k o) ++ c ≡ o ++ c = rw (take-append-drop k o) refl in
      ap (λ t. x ∷ t) (sym whole ∙ rw append_assoc refl)

  read_behind_header :
      (timer : p.Timer) (x : ℕ) (body rest o behind : Bytes) (from : MqttClient p) (s : State p)
      → Holds p d (x ∷ (o ++ behind)) from ((rem_image (length body) ++ body) ++ rest) s
      → length body < 2 ^ 28
      → length o ≡ length (rem_image (length body)) + length body
      → 1 + length o ≤ from.readbuf_size
      → Gives
          (λ rc s'.
            (rc ≡ pos (header_bits x).type)
            × Holds p d (x ∷ (rem_image (length body) ++ (body ++ behind))) from rest s')
          ((left_ms p timer >>= λ left. decode_packet p left >>= λ n. read_body p timer n) s)
  read_behind_header timer x body rest o behind from s h small fits room =
      let n = length body in
      let k = length (rem_image n) in
      let s1 : State p = record s { world = (p.left_ms timer s.world).1 } in
      Gives-then _ _ (decode_packet p (p.left_ms timer s.world).0 s1) _
        (decode_packet_lem p d _ (x ∷ (o ++ behind)) from n (body ++ rest) s1 small (record {
          readbuf = h.readbuf;
          readbuf_size = h.readbuf_size;
          handlers = h.handlers;
          default_handler = h.default_handler;
          keep_alive = h.keep_alive;
          pending = d.on_left timer s.world ∙ h.pending ∙ rw append_assoc refl;
        }))
        (λ v s2 g. rw (g.0) (
          read_body_lem timer x (take k o) (drop k o) behind body rest from s2
            (record {
              readbuf = g.1.readbuf ∙ parts x k o behind;
              readbuf_size = g.1.readbuf_size;
              handlers = g.1.handlers;
              default_handler = g.1.default_handler;
              keep_alive = g.1.keep_alive;
              pending = g.1.pending;
            })
            small (length-take k o (omega (arith, fits))) (omega (arith, length-drop k o, fits))
            (omega (arith, fits, room))))

  -- A packet that the network delivers, with a body below 2^28 bytes and not longer than the read
  -- buffer, is read whole: readPacket returns its type, the buffer begins with exactly its bytes
  -- and is unchanged behind them, and the network goes on with what follows the packet.
  pub read_packet_lem :
      (timer : p.Timer) (header : Header) (body rest old behind : Bytes) (from : MqttClient p)
      (s : State p)
      → Holds p d (old ++ behind) from (packet_image header body ++ rest) s
      → length body < 2 ^ 28
      → length old ≡ length (packet_image header body)
      → length old ≤ from.readbuf_size
      → Gives
          (λ rc s'.
            (rc ≡ pos (header_bits (header_image header)).type)
            × Holds p d (packet_image header body ++ behind) from rest s')
          (read_packet p timer s)
  unfolding read_packet packet_image
  read_packet_lem timer header body rest [] behind from s h small fits room = absurd (omega arith)
  read_packet_lem timer header body rest (x ∷ o) behind from s h small fits room =
      let hb = header_image header in
      let ri = rem_image (length body) in
      Gives-then _ _ (read_into p timer 0 1 s) _
        (read_into_lem timer [] (x ∷ []) (o ++ behind) (hb ∷ []) ((ri ++ body) ++ rest) from s h
          refl)
        (λ rc s1 k.
          let one : is_one rc ≡ true = rw (k.0) (eq→== 1 1 refl) in
          rw (one, append_assoc)
            (read_behind_header timer hb body rest o behind from s1 k.1 small
              (omega (arith, length-append ri body, fits))
              (omega (arith, room, length-append ri body, fits))))
