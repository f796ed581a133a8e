-- ===== src/Packet/Length.antt =====
-- The remaining length of MQTTPacket.c: base-128 digits, lowest first, at most four of them.
pub mod Laws
pub mod Bounds
use mbed_mqtt.Common.{
  ℕ, zero, suc, ◌+◌, ◌*◌, ◌/◌, ◌%◌, Bool, true, false, ◌&&◌, Bytes, List, [], ◌∷◌, Option, none,
  some, and_then, ltb, ◌==◌, if◌then◌else◌, ℤ, pos, negsuc,
}
use mbed_mqtt.Packet.Writer.{Writer, ◌>>◌, skip, store}
use mbed_mqtt.Packet.Reader.{Reader, advance}

-- Rounds of the `do` loop of MQTTPacket_encode. An `int` has at most five digits, so five rounds
-- always end the loop; with none left the model faults.
unfoldable pub encode_loop : ℕ → ℕ → Writer
encode_loop zero length = λ o. none
encode_loop (suc rounds) length =
    let d = length % 128 in
    let length' = length / 128 in
    let more = store (d + 128) >> encode_loop rounds length' in
    if ltb 0 length' then more else store d

unfoldable pub packet_encode : ℕ → Writer
packet_encode length = encode_loop 5 length

-- The source of characters: it returns its `int` result, the character and its next state.
-- `none` is a read outside the memory.
abbrev pub GetChar : Type 0 → Type 0
GetChar S = S → Option (ℤ × ℕ × S)

abbrev pub is_one : ℤ → Bool
is_one (pos n) = n == 1
is_one (negsuc n) = false

pub record Decoded (S : Type 0) : Type 0 where
  pub len : ℕ
  pub value : ℕ
  pub state : S

-- The first argument counts the rounds that MAX_NO_OF_REMAINING_LENGTH_BYTES still allows.
unfoldable pub decode_loop : {S : Type 0} → GetChar S → ℕ → S → ℕ → ℕ → ℕ → Option (Decoded S)
decode_loop getchar zero s value multiplier len =
    some (record { len = len + 1; value = value; state = s })
decode_loop getchar (suc left) s value multiplier len = elim (getchar s) [
  | none ↦ none
  | some (rc, c, s') ↦
      let value' = value + c % 128 * multiplier in
      let more = decode_loop getchar left s' value' (multiplier * 128) (len + 1) in
      let stop : Option (Decoded _) = some (record { len = len + 1; value = value'; state = s' }) in
      let bad : Option (Decoded _) = some (record { len = len + 1; value = value; state = s' }) in
      if is_one rc then (if c / 128 % 2 == 1 then more else stop) else bad
]

unfoldable pub packet_decode : {S : Type 0} → GetChar S → S → Option (Decoded S)
packet_decode getchar s = decode_loop getchar 4 s 0 1 0

-- The next character of the memory that the static `bufptr` walks over.
unfoldable pub bufchar : GetChar Bytes
bufchar [] = none
bufchar (b ∷ bufptr) = some (pos 1, b, bufptr)

unfoldable pub packet_decode_buf : Bytes → Option (Decoded Bytes)
packet_decode_buf buf = packet_decode bufchar buf

-- `curdata += (rc = MQTTPacket_decodeBuf(curdata, &mylen))`, with the results `rc` and `mylen`.
unfoldable pub read_remaining : Reader (ℕ × ℕ)
read_remaining c =
    and_then (packet_decode_buf c.rest) (λ d. some ((d.len, d.value), advance d.len c))

-- The size of a whole packet with this remaining length, or somewhat more.
unfoldable pub packet_len : ℕ → ℕ
packet_len rem_len =
    let rem_len' = rem_len + 1 in
    if ltb rem_len' 128
    then rem_len' + 1
    else if ltb rem_len' 16384
    then rem_len' + 2
    else if ltb rem_len' 2097151
    then rem_len' + 3
    else rem_len' + 4
