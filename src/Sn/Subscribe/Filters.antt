-- ===== src/Sn/Subscribe/Filters.antt =====
-- The three forms of the topic in SUBSCRIBE and UNSUBSCRIBE, and their bytes.
use mbed_mqtt.Common.{
  ℕ, ◌+◌, ◌%◌, ◌<◌, ◌^◌, Bytes, [], ◌∷◌, ◌++◌, some, and_then, length, length-append, ◌≡◌, refl,
  arith, pos, sub_ℕ,
}
use mbed_mqtt.Packet.Reader.{read_char, then_read, pure}
use mbed_mqtt.Packet.Strings.Laws.{read_int-int_image}
use mbed_mqtt.Packet.Writer.{◌>>◌, write_char, write_int}
use mbed_mqtt.Packet.Writer.Emits.{
  Emits, Emits-memcpy, Emits-write_char, Emits-write_int, Emits->>, int_image, length-int_image,
}
use mbed_mqtt.Sn.Flags.{Flags, flags_byte}
use mbed_mqtt.Sn.Frame.{Emits-write_flags}
use mbed_mqtt.Sn.Subscribe.{
  sn_serialize_subscribe_length, sn_serialize_unsubscribe_length, write_filter, read_filter,
}
use mbed_mqtt.Sn.Topic.{TopicId, TopicData, id, short_name, long_name}

-- A name, a predefined id, or two characters.
pub data Filter : Type 0 where
  named : Bytes → Filter
  predefined : ℕ → Filter
  characters : ℕ → ℕ → Filter

abbrev pub type_of : Filter → ℕ
type_of (named name) = 0
type_of (predefined n) = 1
type_of (characters a b) = 2

-- The union, with the memory `more` behind a name.
abbrev pub data_of : Filter → Bytes → TopicData
data_of (named name) more = long_name (name ++ more) (pos (length name))
data_of (predefined n) more = id n
data_of (characters a b) more = short_name a b

abbrev pub topic_of : Filter → Bytes → TopicId
topic_of f more = record { type = type_of f; data_ = data_of f more }

-- The numbers fit their bytes.
abbrev pub InRange : Filter → Type 0
InRange (named name) = length name < 2 ^ 16
InRange (predefined n) = n < 2 ^ 16
InRange (characters a b) = (a < 256) × (b < 256)

abbrev pub filter_image : Filter → Bytes
filter_image (named name) = name
filter_image (predefined n) = int_image n
filter_image (characters a b) = a ∷ b ∷ []

pub sn_serialize_subscribe_length_lem :
    (f : Filter) (more : Bytes)
    → sn_serialize_subscribe_length (topic_of f more) ≡ some (4 + length (filter_image f))
unfolding sn_serialize_subscribe_length int_image
sn_serialize_subscribe_length_lem (named name) more = refl
sn_serialize_subscribe_length_lem (predefined n) more = refl
sn_serialize_subscribe_length_lem (characters a b) more = refl

pub sn_serialize_unsubscribe_length_lem :
    (f : Filter) (more : Bytes)
    → sn_serialize_unsubscribe_length (topic_of f more) ≡ some (4 + length (filter_image f))
unfolding sn_serialize_unsubscribe_length int_image
sn_serialize_unsubscribe_length_lem (named name) more = refl
sn_serialize_unsubscribe_length_lem (predefined n) more = refl
sn_serialize_unsubscribe_length_lem (characters a b) more = refl

Emits-write_filter :
    (f : Filter) (more : Bytes)
    → InRange f
    → Emits (write_filter (topic_of f more)) (filter_image f)
Emits-write_filter (named name) more h = Emits-memcpy name more
Emits-write_filter (predefined n) more h = Emits-write_int n
Emits-write_filter (characters a b) more h =
    let same_a : a % 256 ≡ a = omega (arith, h.0) in
    let same_b : b % 256 ≡ b = omega (arith, h.1) in
    rw (same_a, same_b) at
      (Emits->> (a % 256 ∷ []) (b % 256 ∷ []) (Emits-write_char a) (Emits-write_char b))

length_left : (at n : ℕ) → sub_ℕ (at + n) at ≡ pos n
length_left at n = ground arith

-- The union is read back; where the pointer stands behind it does not matter.
pub read_filter-filter_image :
    {B : Type 0} (f : Filter) (rest : Bytes) (at : ℕ) (old : TopicData) (k : TopicData → B)
    → InRange f
    → and_then
        (then_read
          (read_filter
            (at + length (filter_image f))
            (type_of f)
            old
            (record { rest = filter_image f ++ rest; at = at }))
          (λ d. pure (k d)))
        (λ r. some r.0)
      ≡ some (k (data_of f rest))
unfolding read_filter read_char
read_filter-filter_image (named name) rest at old k h = rw (length_left at (length name)) refl
read_filter-filter_image (predefined n) rest at old k h = rw (read_int-int_image n rest at h) refl
read_filter-filter_image (characters a b) rest at old k h = refl

-- The flags, the packet identifier, the filter.
unfoldable pub filter_body : Flags → ℕ → Filter → Bytes
filter_body flags packetid f = flags_byte flags ∷ (int_image packetid ++ filter_image f)

pub length-filter_body :
    (flags : Flags) (packetid : ℕ) (f : Filter)
    → length (filter_body flags packetid f) ≡ length (filter_image f) + 3
unfolding filter_body
length-filter_body flags packetid f =
    omega (arith, length-append (int_image packetid) (filter_image f), length-int_image packetid)

pub Emits-filter_body :
    (flags : Flags) (packetid : ℕ) (f : Filter) (more : Bytes)
    → InRange f
    → Emits
        (write_char (flags_byte flags) >> write_int packetid >> write_filter (topic_of f more))
        (filter_body flags packetid f)
unfolding filter_body
Emits-filter_body flags packetid f more h =
    Emits->> (flags_byte flags ∷ []) (int_image packetid ++ filter_image f)
      (Emits-write_flags flags)
      (Emits->> (int_image packetid) (filter_image f) (Emits-write_int packetid)
        (Emits-write_filter f more h))
