-- ===== src/Packet/Length/Bounds.antt =====
-- The remaining length through a buffer, and the bounds of what any source of characters can give.
use mbed_mqtt.Common.{
  ℕ, zero, suc, ◌+◌, ◌*◌, ◌%◌, ◌^◌, ◌<◌, ◌≤◌, Bytes, ◌++◌, Option, none, some, length, drop, ◌≡◌,
  refl, arith, pos, ℤ,
}
use mbed_mqtt.Packet.Length.Laws.{rem_image, Emits-packet_encode, packet_decode_buf-rem_image}
use mbed_mqtt.Packet.Length.{
  packet_encode, GetChar, Decoded, decode_loop, packet_decode, packet_decode_buf,
}
use native.Mathlib.Nat.{pow-suc}
use mbed_mqtt.Packet.Writer.Emits.{fill_fits}
use mbed_mqtt.Packet.Writer.{fill}

-- What MQTTPacket_encode writes for a length below 2^28 into a buffer that has room for the 1 to 4
-- bytes of it, MQTTPacket_decodeBuf reads back from that buffer: the same length, in as many bytes as the
-- encoder returned, and the memory behind them is unchanged.
pub packet_decode_buf-packet_encode :
    (n : ℕ) (buf : Bytes)
    → n < 2 ^ 28
    → length (rem_image n) ≤ length buf
    → (k : ℕ) × (buf' : Bytes) × (fill (packet_encode n) buf ≡ some (pos k, buf'))
      × (packet_decode_buf buf' ≡ some (record { len = k; value = n; state = drop k buf }))
packet_decode_buf-packet_encode n buf small room = (
  length (rem_image n),
  rem_image n ++ drop (length (rem_image n)) buf,
  fill_fits (rem_image n) (Emits-packet_encode n (omega arith)) buf room,
  packet_decode_buf-rem_image n _ small,
)

times_base : (m k : ℕ) → m * 128 * 128 ^ k ≡ m * 128 ^ suc k
times_base m k = rw pow-suc (omega arith)

-- A power of the base, as a factor that loses nothing.
le-mul_power : (m k : ℕ) → m ≤ m * 128 ^ k
le-mul_power m zero = omega arith
le-mul_power m (suc k) = omega (arith, le-mul_power m k, times_base m k)

digit_bound :
    (value multiplier c : ℕ) → value < multiplier → value + c % 128 * multiplier < multiplier * 128
digit_bound value multiplier c h = grind arith

module _ {S : Type 0} (getchar : GetChar S) where
  decode_loop_bounds :
      (left : ℕ) (s : S) (value multiplier len : ℕ) (d : Decoded S)
      → decode_loop getchar left s value multiplier len ≡ some d
      → value < multiplier
      → (d.value < multiplier * 128 ^ left) × (len + 1 ≤ d.len) × (d.len ≤ len + left + 1)
  unfolding decode_loop
  decode_loop_bounds zero s value multiplier len d e h = ground arith
  decode_loop_bounds (suc left) s value multiplier len d e h =
      go (getchar s) refl (λ s' v m l. decode_loop_bounds left s' v m l d)
    where
      go :
          (r : Option (ℤ × ℕ × S))
          → getchar s ≡ r
          → ((s' : S) (v m l : ℕ)
              → decode_loop getchar left s' v m l ≡ some d
              → v < m
              → (d.value < m * 128 ^ left) × (l + 1 ≤ d.len) × (d.len ≤ l + left + 1))
          → (d.value < multiplier * 128 ^ suc left)
            × (len + 1 ≤ d.len)
            × (d.len ≤ len + suc left + 1)
      go none q ih = ground arith
      go (some (rc, c, s')) q ih = ground (
        arith,
        ih s' (value + c % 128 * multiplier) (multiplier * 128) (len + 1),
        digit_bound value multiplier c h,
        times_base multiplier left,
        le-mul_power (multiplier * 128) left,
      )

  -- Whatever the source of characters gives, MQTTPacket_decode counts 1 to 5 characters, and its
  -- value is below 2^28: it never overflows an `int`.
  pub packet_decode_bounds :
      (s : S) (d : Decoded S)
      → packet_decode getchar s ≡ some d
      → (d.value < 2 ^ 28) × (1 ≤ d.len) × (d.len ≤ 5)
  unfolding packet_decode
  packet_decode_bounds s d e = decode_loop_bounds 4 s 0 1 0 d e (omega arith)
