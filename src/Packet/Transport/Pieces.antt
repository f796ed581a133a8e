-- ===== src/Packet/Transport/Pieces.antt =====
-- MQTTPacket_readnb on a packet that comes in pieces of any size.
use mbed_mqtt.Common.{
  ℕ, ◌+◌, ◌-◌, ◌^◌, ◌≤◌, ◌<◌, false, Bytes, [], ◌∷◌, ◌++◌, none, some, length, length-append,
  length-take, length-drop, take, drop, take-append-drop, append_assoc, append-nil, ltb, ◌==◌,
  if◌then◌else◌, ℤ, pos, negsuc, ◌≡◌, refl, sym, ap, ◌∙◌, arith, ◌⊎◌, inl, inr, eq→==,
}
use mbed_mqtt.Packet.Header.{header_bits}
use mbed_mqtt.Packet.Length.{Decoded, decode_loop, bufchar, packet_decode, packet_decode_buf}
use mbed_mqtt.Packet.Length.Laws.{
  rem_image, length-rem_image, length-rem_image_four, packet_decode_buf-rem_image,
}
use mbed_mqtt.Packet.Memory.{overwrite, readable, encode_at_1}
use mbed_mqtt.Packet.Memory.Laws.{first_byte, overwrite_lem, encode_at_1_lem}
use mbed_mqtt.Packet.Transport.{
  Answer, failed, again, got, Transport, Reading, is_error, is_again, with_bytes, finish,
  packet_decode_nb, read_content, put_length, read_length, read_header, packet_read_nb,
}
use mbed_mqtt.Packet.Transport.Laws.{
  Fed, Feeds, Undecoded, DigitsRead, packet_decode_nb_first, packet_decode_nb_later,
  state-packet_decode_nb,
}

cons_eq : (x y : ℕ) (a b : Bytes) → x ∷ a ≡ y ∷ b → (x ≡ y) × (a ≡ b)
cons_eq x y a b h = (cc, cc)

append_split :
    (a b c d : Bytes)
    → a ++ b ≡ c ++ d
    → length c ≤ length a
    → (e : Bytes) × (a ≡ c ++ e) × (d ≡ e ++ b)
append_split a b [] d h short = (a, refl, sym h)
append_split [] b (y ∷ c) d h short = absurd (omega arith)
append_split (x ∷ a) b (y ∷ c) d h short =
    let (same, tails) = cons_eq x y (a ++ b) (c ++ d) h in
    let (e, p, q) = append_split a b c d tails (omega arith) in (e, rw (same, p) refl, q)

module _ {S : Type 0} (getfn : ℕ → S → Answer S) (f : Feeds getfn) (x : ℕ)
    (body rest behind : Bytes) where
  abbrev digits : Bytes
  digits = rem_image (length body)

  -- The packet is whole: its type, its bytes in the buffer, and the stream behind it.
  pub record Whole (rc : ℤ) (buf : Bytes) (t : Transport S) : Type 0 where
    pub type : rc ≡ pos (header_bits x).type
    pub memory : buf ≡ x ∷ (rem_image (length body) ++ (body ++ behind))
    pub pending : f.pending t.sck ≡ rest
    pub state : t.state ≡ 0

  -- Between two calls inside the body: `done` of it is in the buffer, and `left` is to come.
  pub record Content (done left old buf : Bytes) (t : Transport S) : Type 0 where
    pub parts : done ++ left ≡ body
    pub len : t.len ≡ length (x ∷ (rem_image (length body) ++ done))
    pub rem_len : t.rem_len ≡ length left
    pub room : length old ≡ length left
    pub memory : buf ≡ (x ∷ (rem_image (length body) ++ done)) ++ (old ++ behind)
    pub pending : f.pending t.sck ≡ left ++ rest

  abbrev number : Decoded Bytes
  number = record {
    len = length (rem_image (length body));
    value = length body;
    state = body ++ rest;
  }

  -- Where a call may leave the reader: before the header, inside the remaining length, inside the
  -- body. The `o`s are what the buffer holds at the places that are not read yet.
  pub data Midway (buf : Bytes) (t : Transport S) : Type 0 where
    at_header :
        (o0 : ℕ) (o1 o2 : Bytes)
        → t.state ≡ 0
        → buf ≡ o0 ∷ (o1 ++ (o2 ++ behind))
        → length o1 ≡ length (rem_image (length body))
        → length o2 ≡ length body
        → f.pending t.sck ≡ x ∷ (rem_image (length body) ++ (body ++ rest))
        → Midway buf t
    at_length :
        (o1 o2 : Bytes)
        → t.state ≡ 1
        → buf ≡ x ∷ (o1 ++ (o2 ++ behind))
        → length o1 ≡ length (rem_image (length body))
        → length o2 ≡ length body
        → Undecoded getfn f number t
        → Midway buf t
    at_content : (done left old : Bytes) → t.state ≡ 2 → Content done left old buf t → Midway buf t

  -- A call returns 0 from inside the packet, or it has the whole packet.
  abbrev pub Moves : Reading S → Type 0
  Moves none = ⊥
  Moves (some r) = ((r.0 ≡ pos 0) × Midway r.1 r.2) ⊎ Whole r.0 r.1 r.2

  finish_lem :
      (done old buf : Bytes) (t : Transport S) → Content done [] old buf t → Moves (finish buf t)
  unfolding finish
  finish_lem done (o ∷ old) buf t c = absurd (omega (arith, c.room))
  finish_lem done [] buf t c =
      let all_ : done ≡ body = sym (append-nil done) ∙ c.parts in
      let mem : buf ≡ x ∷ (digits ++ (body ++ behind)) = c.memory ∙ rw (all_, append_assoc) refl in
      let head : readable 0 1 buf ≡ some (x ∷ []) = rw mem (first_byte x _) in
      rw head (inr (record { type = refl; memory = mem; pending = c.pending; state = refl }))

  after_bytes :
      (done left old buf : Bytes) (t : Transport S)
      → t.state ≡ 2
      → Content done left old buf t
      → Moves (if t.rem_len == 0 then finish buf t else some (pos 0, buf, t))
  after_bytes done [] old buf t two c =
      rw (eq→== t.rem_len 0 c.rem_len) (finish_lem done old buf t c)
  after_bytes done (y ∷ left) old buf t two c =
      let more : (t.rem_len == 0) ≡ false = ground (arith, c.rem_len) in
      rw more (inl (refl, at_content done (y ∷ left) old two c))

  with_bytes_lem :
      (done left old buf : Bytes) (t : Transport S) (a : Answer S)
      → t.state ≡ 2
      → Content done left old buf t
      → Fed f.pending t.rem_len (f.pending t.sck) a
      → Moves (
          with_bytes a t.len buf t (λ frc buf' s.
            let t' : Transport S = record t {
              sck = s;
              rem_len = t.rem_len - frc;
              len = t.len + frc;
            } in
            if t'.rem_len == 0 then finish buf' t' else some (pos 0, buf', t')))
  with_bytes_lem done left old buf t (failed s) two c fed = absurd fed
  with_bytes_lem done left old buf t (again s) two c fed = inl (
    refl,
    at_content done left old two (record {
      parts = c.parts;
      len = c.len;
      rem_len = c.rem_len;
      room = c.room;
      memory = c.memory;
      pending = fed ∙ c.pending;
    }),
  )
  with_bytes_lem done left old buf t (got b bs s) two c fed =
      let piece = b ∷ bs in
      let n = length piece in
      let (left', p, q) =
        append_split left rest piece (f.pending s) (sym c.pending ∙ fed.1)
          (omega (arith, fed.0, c.rem_len)) in
      let short : n ≤ length old = omega (arith, fed.0, c.rem_len, c.room) in
      let o1 = take n old in
      let o2 = drop n old in
      let front = x ∷ (digits ++ done) in
      let mem : buf ≡ front ++ (o1 ++ (o2 ++ behind)) =
        c.memory
        ∙ ap (λ z. front ++ z)
            (sym (ap (λ z. z ++ behind) (take-append-drop n old)) ∙ append_assoc o1 o2 behind) in
      let size = ap (λ z. length z) p ∙ length-append piece left' in
      let put : overwrite t.len piece buf ≡ some (front ++ (piece ++ (o2 ++ behind))) =
        rw (c.len, mem)
          (overwrite_lem front o1 (o2 ++ behind) piece (sym (length-take n old short))) in
      rw put (
        after_bytes (done ++ piece) left' o2 _ _ two (record {
          parts = append_assoc done piece left' ∙ ap (λ z. done ++ z) (sym p) ∙ c.parts;
          len = omega (
            arith,
            c.len,
            length-append digits (done ++ piece),
            length-append done piece,
            length-append digits done,
          );
          rem_len = omega (arith, c.rem_len, size);
          room = omega (arith, length-drop n old, c.room, size);
          memory =
              sym (append_assoc front piece (o2 ++ behind))
              ∙ ap (λ z. (x ∷ z) ++ (o2 ++ behind)) (append_assoc digits done piece);
          pending = q;
        }))

  read_content_lem :
      (done left old buf : Bytes) (t : Transport S)
      → t.state ≡ 2
      → Content done left old buf t
      → Moves (read_content getfn buf t)
  unfolding read_content
  read_content_lem done [] old buf t two c =
      rw (eq→== t.rem_len 0 c.rem_len) (finish_lem done old buf t c)
  read_content_lem done (y ∷ left) old buf t two c =
      let more : (t.rem_len == 0) ≡ false = ground (arith, c.rem_len) in
      rw more (
        with_bytes_lem done (y ∷ left) old buf t (getfn t.rem_len t.sck) two c
          (f.answers t.rem_len t.sck))

  after_digits :
      (buflen : ℕ) (o1 o2 buf : Bytes) (r : ℤ × Transport S)
      → length body < 2 ^ 28
      → 1 + length (rem_image (length body)) + length body ≤ buflen
      → buf ≡ x ∷ (o1 ++ (o2 ++ behind))
      → length o1 ≡ length (rem_image (length body))
      → length o2 ≡ length body
      → DigitsRead getfn f number r
      → r.1.state ≡ 1
      → Moves (
          if is_error r.0
          then some (negsuc 0, buf, record (r.1) { state = 0 })
          else (if is_again r.0 then some (pos 0, buf, r.1) else put_length getfn buflen buf r.1))
  unfolding put_length
  after_digits buflen o1 o2 buf r small room mem l1 l2 (inl (zero_, u)) one =
      rw zero_ (inl (refl, at_length o1 o2 one mem l1 l2 u))
  after_digits buflen o1 o2 buf r small room mem l1 l2 (inr (len, value, state)) one =
      let go_on : (length digits == 0) ≡ false =
        ground (arith, (length-rem_image (length body)).0) in
      let encoded : encode_at_1 r.1.rem_len buf
          ≡ some (length digits, x ∷ (digits ++ (o2 ++ behind))) =
        rw (value, mem) (encode_at_1_lem x (length body) o1 (o2 ++ behind) small l1) in
      let fits : ltb buflen (r.1.rem_len + (1 + length digits)) ≡ false = ground (arith, value) in
      rw (len, go_on, encoded, fits)
        (read_content_lem [] body o2 _ _ refl (record {
          parts = refl;
          len = omega (arith, length-append digits []);
          rem_len = value;
          room = l2;
          memory = ap (λ z. x ∷ (z ++ (o2 ++ behind))) (sym (append-nil digits));
          pending = state;
        }))

  after_header :
      (buflen o0 : ℕ) (o1 o2 buf : Bytes) (t : Transport S) (a : Answer S)
      → length body < 2 ^ 28
      → 1 + length (rem_image (length body)) + length body ≤ buflen
      → t.state ≡ 0
      → buf ≡ o0 ∷ (o1 ++ (o2 ++ behind))
      → length o1 ≡ length (rem_image (length body))
      → length o2 ≡ length body
      → f.pending t.sck ≡ x ∷ (rem_image (length body) ++ (body ++ rest))
      → Fed f.pending 1 (f.pending t.sck) a
      → Moves (
          with_bytes a 0 buf t (λ frc buf' s.
            read_length getfn buflen buf' (record t { sck = s; len = 0; state = 1 })))
  unfolding read_length packet_decode_buf packet_decode
  after_header buflen o0 o1 o2 buf t (failed s) small room start mem l1 l2 stream fed = absurd fed
  after_header buflen o0 o1 o2 buf t (again s) small room start mem l1 l2 stream fed =
      inl (refl, at_header o0 o1 o2 start mem l1 l2 (fed ∙ stream))
  after_header buflen o0 o1 o2 buf t (got c (y ∷ cs) s) small room start mem l1 l2 stream fed =
      absurd (omega (arith, fed.0))
  after_header buflen o0 o1 o2 buf t (got c [] s) small room start mem l1 l2 stream fed =
      let behind_header = digits ++ (body ++ rest) in
      let (same, next) = cons_eq c x (f.pending s) behind_header (sym (fed.1) ∙ stream) in
      let t1 : Transport S = record t { sck = s; len = 0; state = 1 } in
      let after = c ∷ (o1 ++ (o2 ++ behind)) in
      let put : overwrite 0 (c ∷ []) buf ≡ some after =
        rw mem (overwrite_lem [] (o0 ∷ []) (o1 ++ (o2 ++ behind)) (c ∷ []) refl) in
      let track : decode_loop bufchar 4 (f.pending s) 0 1 0 ≡ some number =
        rw next (packet_decode_buf-rem_image (length body) (body ++ rest) small) in
      rw put (
        after_digits buflen o1 o2 after (packet_decode_nb getfn t1) small room
          (ap (λ z. z ∷ (o1 ++ (o2 ++ behind))) same) l1 l2
          (packet_decode_nb_first getfn f t1 number (length-rem_image_four (length body) small) refl
            track)
          (state-packet_decode_nb getfn t1))

  -- However a transport splits the bytes of a packet with a body below 2^28 bytes, that fits into
  -- the buffer: every call of MQTTPacket_readnb, from the start or from where the call before left
  -- it, returns 0 and stands inside the packet with all bytes so far in their place, or returns the
  -- type of the packet with exactly its bytes in the buffer, nothing changed behind them, and the
  -- transport behind the packet.
  pub packet_read_nb_lem :
      (buflen : ℕ) (buf : Bytes) (t : Transport S)
      → length body < 2 ^ 28
      → 1 + length (rem_image (length body)) + length body ≤ buflen
      → Midway buf t
      → Moves (packet_read_nb getfn buflen buf t)
  unfolding packet_read_nb read_header read_length
  packet_read_nb_lem buflen buf t small room (at_header o0 o1 o2 start mem l1 l2 stream) =
      let not_one : (t.state == 1) ≡ false = ground (arith, start) in
      let not_two : (t.state == 2) ≡ false = ground (arith, start) in
      rw (not_one, not_two)
        (after_header buflen o0 o1 o2 buf (record t { state = 0 }) (getfn 1 t.sck) small room refl
          mem l1 l2 stream (f.answers 1 t.sck))
  packet_read_nb_lem buflen buf t small room (at_length o1 o2 one mem l1 l2 u) =
      rw (eq→== t.state 1 one) (
        after_digits buflen o1 o2 buf (packet_decode_nb getfn t) small room mem l1 l2
          (packet_decode_nb_later getfn f t number (length-rem_image_four (length body) small) u)
          (state-packet_decode_nb getfn t ∙ one))
  packet_read_nb_lem buflen buf t small room (at_content done left old two c) =
      let not_one : (t.state == 1) ≡ false = ground (arith, two) in
      rw (not_one, eq→== t.state 2 two) (read_content_lem done left old buf t two c)
