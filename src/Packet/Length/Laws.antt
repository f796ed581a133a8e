-- ===== src/Packet/Length/Laws.antt =====
-- The remaining length: what the encoder writes, and that the decoder reads it back.
use mbed_mqtt.Common.{
  ℕ, zero, suc, ◌+◌, ◌*◌, ◌/◌, ◌%◌, ◌^◌, ◌≤◌, ◌<◌, Bytes, [], ◌∷◌, ◌++◌, Option, some, length, ltb,
  ltb→lt, ltb→ge, lt→ltb, ge→ltb, Bool-cases, inl, inr, if◌then◌else◌, ◌≡◌, sym, ap, ◌∙◌, arith,
}
use native.Mathlib.Nat.{div-add-mod}
use native.Mathlib.Numerals.{unary_clauses}
use mbed_mqtt.Packet.Writer.Emits.{Emits, Emits-store, Emits->>}
use mbed_mqtt.Packet.Writer.{store, ◌>>◌}
use mbed_mqtt.Packet.Length.{
  encode_loop, packet_encode, Decoded, decode_loop, packet_decode, bufchar, packet_decode_buf,
  packet_len,
}

-- The base-128 digits of `n`, lowest first, all but the last with the top bit set;
-- `k` bounds their number.
unfoldable pub digits : ℕ → ℕ → Bytes
digits zero n = []
digits (suc k) n =
    let rest = digits k (n / 128) in if ltb n 128 then n ∷ [] else (n % 128 + 128) ∷ rest

pub rem_image : ℕ → Bytes
rem_image n = digits 5 n

-- One round of each loop, on the last digit and on a digit that others follow.
digits_last : (k n : ℕ) → n < 128 → digits (suc k) n ≡ n ∷ []
unfolding digits
digits_last k n h = rw (lt→ltb n 128 h)

digits_more : (k n : ℕ) → 128 ≤ n → digits (suc k) n ≡ (n % 128 + 128) ∷ digits k (n / 128)
unfolding digits
digits_more k n h = rw (ge→ltb n 128 h)

encode_last : (k n : ℕ) → n < 128 → encode_loop (suc k) n ≡ store n
unfolding encode_loop
encode_last k n h =
    let small : n / 128 ≤ 0 = omega arith in
    let same : n % 128 ≡ n = omega arith in rw (ge→ltb 0 (n / 128) small) (ap store same)

encode_more :
    (k n : ℕ) → 128 ≤ n → encode_loop (suc k) n ≡ store (n % 128 + 128) >> encode_loop k (n / 128)
unfolding encode_loop
encode_more k n h = let big : 0 < n / 128 = omega arith in rw (lt→ltb 0 (n / 128) big)

quotient_bound : (k n : ℕ) → n < 128 ^ suc (suc k) → n / 128 < 128 ^ suc k
quotient_bound k n h =
    let e : 128 ^ suc (suc k) ≡ 128 ^ suc k * 128 = simp unary_clauses (omega arith) in
    omega (arith, e)

encode_loop-digits : (k n : ℕ) → n < 128 ^ suc k → Emits (encode_loop (suc k) n) (digits (suc k) n)
encode_loop-digits zero n h =
    rw (encode_last 0 n (omega arith), digits_last 0 n (omega arith)) (Emits-store n)
encode_loop-digits (suc k) n h = elim (Bool-cases (ltb n 128)) [
  | inl last ↦
      rw (encode_last (suc k) n (ltb→lt _ _ last), digits_last (suc k) n (ltb→lt _ _ last))
        (Emits-store n)
  | inr more ↦
      rw (encode_more (suc k) n (ltb→ge _ _ more), digits_more (suc k) n (ltb→ge _ _ more))
        (Emits->> ((n % 128 + 128) ∷ []) (digits (suc k) (n / 128)) (Emits-store _)
          (encode_loop-digits k (n / 128) (quotient_bound k n h)))
]

-- Every `int` is encoded: the writer emits its digits and does nothing else.
pub Emits-packet_encode : (n : ℕ) → n < 2 ^ 31 → Emits (packet_encode n) (rem_image n)
unfolding packet_encode rem_image
Emits-packet_encode n h = encode_loop-digits 4 n (omega arith)

pub length-rem_image : (n : ℕ) → (1 ≤ length (rem_image n)) × (length (rem_image n) ≤ 5)
unfolding rem_image digits
length-rem_image n = ground arith

-- Four digits are enough below 2^28.
pub length-rem_image_four : (n : ℕ) → n < 2 ^ 28 → length (rem_image n) ≤ 4
unfolding rem_image digits
length-rem_image_four n h = ground arith

pub rem_image_small : (n : ℕ) → n < 128 → rem_image n ≡ n ∷ []
unfolding rem_image
rem_image_small n h = digits_last 4 n h

-- For a remaining length below 2^28 MQTTPacket_len is at least the real size of the packet: its
-- header byte, the digits of the remaining length, and the body.
pub packet_len-covers : (n : ℕ) → n < 2 ^ 28 → 1 + length (rem_image n) + n ≤ packet_len n
unfolding rem_image digits packet_len
packet_len-covers n h = ground arith

decode_last :
    (k n value multiplier len : ℕ) (rest : Bytes)
    → n < 128
    → decode_loop bufchar (suc k) (n ∷ rest) value multiplier len
      ≡ some (record { len = len + 1; value = value + n * multiplier; state = rest })
unfolding decode_loop bufchar
decode_last k n value multiplier len rest h =
    let low : n % 128 ≡ n = omega arith in let top : n / 128 % 2 ≡ 0 = omega arith in rw (low, top)

decode_more :
    (k d value multiplier len : ℕ) (rest : Bytes)
    → d < 128
    → decode_loop bufchar (suc k) ((d + 128) ∷ rest) value multiplier len
      ≡ decode_loop bufchar k rest (value + d * multiplier) (multiplier * 128) (len + 1)
unfolding decode_loop bufchar
decode_more k d value multiplier len rest h =
    let low : (d + 128) % 128 ≡ d = omega arith in
    let top : (d + 128) / 128 % 2 ≡ 1 = omega arith in rw (low, top)

value_sum :
    (n value multiplier len l : ℕ) (rest : Bytes)
    → ◌≡◌ {A = Option (Decoded Bytes)}
        (some (record {
          len = len + 1 + l;
          value = value + n % 128 * multiplier + n / 128 * (multiplier * 128);
          state = rest;
        }))
        (some (record { len = len + suc l; value = value + n * multiplier; state = rest }))
value_sum n value multiplier len l rest =
    let split = ap (λ (t : ℕ). t * multiplier) (div-add-mod n 128) in ground (arith, split)

decode_loop-digits :
    (k n value multiplier len : ℕ) (rest : Bytes)
    → n < 128 ^ suc k
    → decode_loop bufchar (suc k) (digits (suc k) n ++ rest) value multiplier len
      ≡ some (record {
        len = len + length (digits (suc k) n);
        value = value + n * multiplier;
        state = rest;
      })
decode_loop-digits zero n value multiplier len rest h =
    rw (digits_last 0 n (omega arith)) (decode_last 0 n value multiplier len rest (omega arith))
decode_loop-digits (suc k) n value multiplier len rest h = elim (Bool-cases (ltb n 128)) [
  | inl last ↦
      rw (digits_last (suc k) n (ltb→lt _ _ last))
        (decode_last (suc k) n value multiplier len rest (ltb→lt _ _ last))
  | inr more ↦ rw (digits_more (suc k) n (ltb→ge _ _ more)) (
      decode_more (suc k) (n % 128) value multiplier len (digits (suc k) (n / 128) ++ rest)
        (omega arith)
      ∙ decode_loop-digits k (n / 128) (value + n % 128 * multiplier) (multiplier * 128) (len + 1)
          rest (quotient_bound k n h)
      ∙ value_sum n value multiplier len _ rest)
]

digits_enough : (k n : ℕ) → n < 128 ^ suc k → digits (suc (suc k)) n ≡ digits (suc k) n
digits_enough zero n h = digits_last 1 n (omega arith) ∙ sym (digits_last 0 n (omega arith))
digits_enough (suc k) n h = elim (Bool-cases (ltb n 128)) [
  | inl last ↦
      digits_last (suc (suc k)) n (ltb→lt _ _ last) ∙ sym (digits_last (suc k) n (ltb→lt _ _ last))
  | inr more ↦
      digits_more (suc (suc k)) n (ltb→ge _ _ more)
      ∙ ap (◌∷◌ (n % 128 + 128)) (digits_enough k (n / 128) (quotient_bound k n h))
      ∙ sym (digits_more (suc k) n (ltb→ge _ _ more))
]

-- The decoder reads back what the encoder wrote, and stops right behind it.
pub packet_decode_buf-rem_image :
    (n : ℕ) (rest : Bytes)
    → n < 2 ^ 28
    → packet_decode_buf (rem_image n ++ rest)
      ≡ some (record { len = length (rem_image n); value = n; state = rest })
unfolding packet_decode_buf packet_decode rem_image
packet_decode_buf-rem_image n rest h =
    rw (digits_enough 3 n (omega arith))
      (decode_loop-digits 3 n 0 1 0 rest (omega arith) ∙ ground arith)
