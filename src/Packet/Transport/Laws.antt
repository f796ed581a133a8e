-- ===== src/Packet/Transport/Laws.antt =====
-- The reader that can be called again, on a transport that gives a stream in pieces of any size.
use mbed_mqtt.Common.{
  ℕ, zero, suc, ◌+◌, ◌-◌, ◌*◌, ◌/◌, ◌%◌, ◌≤◌, Bool, true, false, Bytes, [], ◌∷◌, ◌++◌, some, length,
  ◌==◌, if◌then◌else◌, ℤ, pos, ◌≡◌, refl, ap, arith, ◌⊎◌, inl, inr, Bool-cases, eq→==,
}
use mbed_mqtt.Packet.Length.{Decoded, decode_loop, bufchar}
use mbed_mqtt.Packet.Transport.{
  Answer, failed, again, got, Transport, with_digit, decode_nb_loop, packet_decode_nb,
}

module _ {S : Type 0} where
  -- An answer for `n` bytes of the stream `bs`: nothing yet, or some bytes of its front.
  abbrev pub Fed : (S → Bytes) → ℕ → Bytes → Answer S → Type 0
  Fed pending n bs (failed s) = ⊥
  Fed pending n bs (again s) = pending s ≡ bs
  Fed pending n bs (got c cs s) = (length (c ∷ cs) ≤ n) × (bs ≡ (c ∷ cs) ++ pending s)

  -- `pending` is what the transport has still to give.
  pub record Feeds (getfn : ℕ → S → Answer S) : Type 0 where
    pub pending : S → Bytes
    pub answers : (n : ℕ) (s : S) → Fed pending n (pending s) (getfn n s)

some_eq : (a b : Decoded Bytes) → some a ≡ some b → a ≡ b
some_eq a b e = cc

module _ {S : Type 0} (getfn : ℕ → S → Answer S) (f : Feeds getfn) where
  -- The digits that are still to be read lead to `d`, from the number so far.
  pub record Undecoded (d : Decoded Bytes) (t : Transport S) : Type 0 where
    pub on_track :
        decode_loop bufchar (4 - t.len) (f.pending t.sck) t.rem_len t.multiplier t.len ≡ some d
    pub within : t.len ≤ 4
    pub fresh : t.len ≡ 0 → (t.rem_len ≡ 0) × (t.multiplier ≡ 1)

  -- What MQTTPacket_decodenb leaves: call again, or the number.
  abbrev pub DigitsRead : Decoded Bytes → ℤ × Transport S → Type 0
  DigitsRead d r =
      ((r.0 ≡ pos 0) × Undecoded d r.1)
      ⊎ ((r.0 ≡ pos d.len) × (r.1.rem_len ≡ d.value) × (f.pending r.1.sck ≡ d.state))

  -- The number is read by the digits from here on.
  abbrev Leads : ℕ → Decoded Bytes → Transport S → Type 0
  Leads left d t =
      (t.len + left ≡ 4)
      × (decode_loop bufchar left (f.pending t.sck) t.rem_len t.multiplier t.len ≡ some d)
      × (t.len ≡ 0 → (t.rem_len ≡ 0) × (t.multiplier ≡ 1))

  Leads-Undecoded :
      (left : ℕ) (d : Decoded Bytes) (t : Transport S) → Leads left d t → Undecoded d t
  Leads-Undecoded left d t h =
      let e : 4 - t.len ≡ left = omega (arith, h.0) in
      record { on_track = rw e h.1; within = omega (arith, h.0); fresh = h.2 }

  with_answer :
      (left : ℕ) (t : Transport S) (d : Decoded Bytes) (a : Answer S)
      → Leads (suc left) d t
      → Fed f.pending 1 (f.pending t.sck) a
      → ((t' : Transport S) → Leads left d t' → DigitsRead d (decode_nb_loop getfn left t'))
      → DigitsRead d (
          with_digit a t
            (λ c t'. if c / 128 % 2 == 1 then decode_nb_loop getfn left t' else (pos t'.len, t')))
  unfolding decode_loop bufchar
  with_answer left t d (failed s) h fed ih = absurd fed
  with_answer left t d (again s) h fed ih =
      inl (refl, Leads-Undecoded (suc left) d (record t { sck = s }) (h.0, rw fed h.1, h.2))
  with_answer left t d (got c (x ∷ cs) s) h fed ih = absurd (omega (arith, fed.0))
  with_answer left t d (got c [] s) h fed ih =
      let t' : Transport S = record t {
        sck = s;
        len = t.len + 1;
        rem_len = t.rem_len + c % 128 * t.multiplier;
        multiplier = t.multiplier * 128;
      } in
      let step = rw (fed.1) at (h.1) in
      elim (Bool-cases (c / 128 % 2 == 1)) [
        | inl b ↦ rw b (ih t' (omega (arith, h.0), rw b at step, λ z. absurd (omega arith)))
        | inr b ↦
            let e = some_eq _ d (rw b at step) in
            rw b (inr (ap (λ x. pos x.len) e, ap (λ x. x.value) e, ap (λ x. x.state) e))
      ]

  decode_nb_loop_lem :
      (left : ℕ) (t : Transport S) (d : Decoded Bytes)
      → d.len ≤ 4
      → Leads left d t
      → DigitsRead d (decode_nb_loop getfn left t)
  unfolding decode_nb_loop decode_loop
  decode_nb_loop_lem zero t d short h =
      let e = ap (λ x. x.len) (some_eq _ d h.1) in absurd (omega (arith, h.0, e))
  decode_nb_loop_lem (suc left) t d short h =
      with_answer left t d (getfn 1 t.sck) h (f.answers 1 t.sck)
        (λ t' k. decode_nb_loop_lem left t' d short k)

  -- A first call, whatever `rem_len` and `multiplier` are, and a later one.
  pub packet_decode_nb_first :
      (t : Transport S) (d : Decoded Bytes)
      → d.len ≤ 4
      → t.len ≡ 0
      → decode_loop bufchar 4 (f.pending t.sck) 0 1 0 ≡ some d
      → DigitsRead d (packet_decode_nb getfn t)
  unfolding packet_decode_nb
  packet_decode_nb_first t d short zero_ h =
      let t0 : Transport S = record t { multiplier = 1; rem_len = 0 } in
      let first : (t.len == 0) ≡ true = eq→== t.len 0 zero_ in
      let four : 4 - t.len ≡ 4 = omega (arith, zero_) in
      let track : decode_loop bufchar 4 (f.pending t.sck) 0 1 t.len ≡ some d = rw zero_ h in
      rw (first, four)
        (decode_nb_loop_lem 4 t0 d short (omega (arith, zero_), track, λ z. (refl, refl)))

  pub packet_decode_nb_later :
      (t : Transport S) (d : Decoded Bytes)
      → d.len ≤ 4
      → Undecoded d t
      → DigitsRead d (packet_decode_nb getfn t)
  unfolding packet_decode_nb
  packet_decode_nb_later t d short u = elim (Bool-cases (t.len == 0)) [
    | inl b ↦
        let zero_ : t.len ≡ 0 = ground (arith, b) in
        let (r, m) = u.fresh zero_ in
        let four : 4 - t.len ≡ 4 = omega (arith, zero_) in
        packet_decode_nb_first t d short zero_ (rw (four, r, m, zero_) at u.on_track)
    | inr b ↦
        rw b
          (decode_nb_loop_lem (4 - t.len) t d short (omega (arith, u.within), u.on_track, u.fresh))
  ]

state-with_digit :
    {S : Type 0} (a : Answer S) (t : Transport S) (next : ℕ → Transport S → ℤ × Transport S)
    → ((c : ℕ) (t' : Transport S) → (next c t').1.state ≡ t'.state)
    → (with_digit a t next).1.state ≡ t.state
state-with_digit (failed s) t next h = refl
state-with_digit (again s) t next h = refl
state-with_digit (got c cs s) t next h = h c _

module _ {S : Type 0} (getfn : ℕ → S → Answer S) where
  state-if :
      (b : Bool) (k : ℕ) (t : Transport S) (r : ℤ × Transport S)
      → r.1.state ≡ t.state
      → (if b then r else (pos k, t)).1.state ≡ t.state
  state-if true k t r h = h
  state-if false k t r h = refl

  state-decode_nb_loop :
      (left : ℕ) (t : Transport S) → (decode_nb_loop getfn left t).1.state ≡ t.state
  unfolding decode_nb_loop
  state-decode_nb_loop zero t = refl
  state-decode_nb_loop (suc left) t =
      state-with_digit (getfn 1 t.sck) t _
        (λ c t'. state-if (c / 128 % 2 == 1) t'.len t' _ (state-decode_nb_loop left t'))

  pub state-packet_decode_nb : (t : Transport S) → (packet_decode_nb getfn t).1.state ≡ t.state
  unfolding packet_decode_nb
  state-packet_decode_nb t = elim (Bool-cases (t.len == 0)) [
    | inl b ↦ rw b (state-decode_nb_loop (4 - t.len) (record t { multiplier = 1; rem_len = 0 }))
    | inr b ↦ rw b (state-decode_nb_loop (4 - t.len) t)
  ]
