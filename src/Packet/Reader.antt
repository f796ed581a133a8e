-- ===== src/Packet/Reader.antt =====
-- The input side of MQTTPacket.c: reading through `unsigned char** pptr`.
-- A pointer is a cursor: the memory from it on, and its offset from the start of the buffer.
-- Reading at the end of the memory is a fault, `none`.
use mbed_mqtt.Common.{
  ℕ, ◌+◌, ◌*◌, Bytes, [], ◌∷◌, Option, none, some, drop, and_then, Bool, ltb, if◌then◌else◌, ◌-◌, ℤ,
  pos, negsuc, ◌≡◌,
}

pub record Cursor : Type 0 where
  pub rest : Bytes
  pub at : ℕ

abbrev pub Reader : Type 0 → Type 0
Reader A = Cursor → Option (A × Cursor)

abbrev pub then_read : {A B : Type 0} → Option (A × Cursor) → (A → Reader B) → Option (B × Cursor)
then_read none f = none
then_read (some (a, c)) f = f a c

infixl 5 ◌>>=◌
abbrev pub ◌>>=◌ : {A B : Type 0} → Reader A → (A → Reader B) → Reader B
◌>>=◌ m f c = then_read (m c) f

abbrev pub pure : {A : Type 0} → A → Reader A
pure a c = some (a, c)

-- The offset of the pointer, for comparisons with `enddata`.
abbrev pub here : Reader ℕ
here c = some (c.at, c)

-- `ptr += n`
abbrev pub advance : ℕ → Cursor → Cursor
advance n c = record { rest = drop n c.rest; at = c.at + n }

unfoldable pub read_char : Reader ℕ
read_char c = elim c.rest [ [] ↦ none | b ∷ r ↦ some (b, record { rest = r; at = c.at + 1 }) ]

unfoldable pub read_int : Reader ℕ
read_int = read_char >>= λ hi. read_char >>= λ lo. pure (256 * hi + lo)

-- A call on a buffer, with the pointer at its start; the pointer is local to the call.
unfoldable pub on_buffer : {A : Type 0} → Reader A → Bytes → Option A
on_buffer m buf = and_then (m (record { rest = buf; at = 0 })) (λ r. some r.0)

-- `readChar` returns a `char`, which the platform may take as signed or as unsigned.
unfoldable pub as_int : Bool → ℕ → ℤ
as_int signed c = if signed then (if ltb c 128 then pos c else negsuc (255 - c)) else pos c

-- What a reader returned, and the cursor that it left.
pub returned_cursor :
    {A : Type 0} (m : Option (A × Cursor)) (a : A)
    → and_then m (λ r. some r.0) ≡ some a
    → (c : Cursor) × (m ≡ some (a, c))
returned_cursor none a e = absurd (cc)
returned_cursor (some (b, c)) a e = (c, cc)
