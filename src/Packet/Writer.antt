-- ===== src/Packet/Writer.antt =====
-- The output side of MQTTPacket.c: writing through `unsigned char** pptr` into the caller's buffer.
-- An `Out` is the buffer with the write pointer in it. A write at the end of the memory is a fault.
pub mod Emits
pub mod Conserves
pub mod Sizes
use mbed_mqtt.Common.{
  ℕ, zero, suc, ◌+◌, ◌/◌, ◌%◌, if◌then◌else◌, ltb, Bytes, List, [], ◌∷◌, ◌++◌, Option, none, some,
  length, ℤ, pos, negsuc,
}

-- `done` is what stands between `buf` and `*pptr`, `room` the memory from `*pptr` on.
pub record Out : Type 0 where
  pub done : Bytes
  pub room : Bytes

abbrev pub Writer : Type 0
Writer = Out → Option Out

abbrev pub then_write : Option Out → Writer → Option Out
then_write none w = none
then_write (some o) w = w o

infixr 5 ◌>>◌
abbrev pub ◌>>◌ : Writer → Writer → Writer
◌>>◌ v w o = then_write (v o) w

-- No code: an empty statement.
abbrev pub skip : Writer
skip o = some o

-- `**pptr = b; (*pptr)++`
unfoldable pub store : ℕ → Writer
store b o = elim o.room [ [] ↦ none | _ ∷ r ↦ some (record { done = o.done ++ b ∷ []; room = r }) ]

-- The argument is a `char`: it is cut to eight bits.
unfoldable pub write_char : ℕ → Writer
write_char c = store (c % 256)

unfoldable pub write_int : ℕ → Writer
write_int n = store (n / 256 % 256) >> store (n % 256 % 256)

-- memcpy of `n` bytes from the memory `src`; reading past the end of `src` is a fault too.
unfoldable pub memcpy : ℕ → Bytes → Writer
memcpy zero src = skip
memcpy (suc n) [] = λ o. none
memcpy (suc n) (b ∷ src) = store b >> memcpy n src

-- A C string is given without its terminator, so that `strlen` is its length.
unfoldable pub write_cstring : Bytes → Writer
write_cstring string = write_int (length string) >> memcpy (length string) string

abbrev pub returned : Option Out → Option (ℤ × Bytes)
returned none = none
returned (some o) = some (pos (length o.done), o.done ++ o.room)

-- A whole call that starts at `ptr = buf` and returns `ptr - buf`; the memory comes back changed.
unfoldable pub fill : Writer → Bytes → Option (ℤ × Bytes)
fill w buf = returned (w (record { done = []; room = buf }))

-- MQTTPACKET_BUFFER_TOO_SHORT
abbrev pub buffer_too_short : ℤ
buffer_too_short = negsuc 1

-- The frame of the MQTTSerialize functions: the guard on `buflen`, then the writes.
abbrev pub checked : ℕ → ℕ → Writer → Bytes → Option (ℤ × Bytes)
checked need buflen w buf = if ltb buflen need then some (buffer_too_short, buf) else fill w buf
