-- ===== src/Sn/Publish/Forms.antt =====
-- The four forms of the topic in an MQTT-SN PUBLISH, and their bytes.
use mbed_mqtt.Common.{
  ℕ, ◌+◌, ◌%◌, ◌<◌, ◌^◌, true, false, Bytes, [], ◌∷◌, ◌++◌, some, length, drop-append, ◌≡◌, refl,
  arith, ◌==◌, pos,
}
use mbed_mqtt.Packet.Reader.{read_char}
use mbed_mqtt.Packet.Strings.Laws.{read_int-int_image}
use mbed_mqtt.Packet.Writer.Emits.{
  Emits, Emits-skip, Emits-memcpy, Emits-write_char, Emits-write_int, Emits->>, int_image,
  length-int_image,
}
use mbed_mqtt.Sn.Publish.{write_topic, write_name, read_topic, set_name}
use mbed_mqtt.Sn.Topic.{TopicId, TopicData, id, short_name, long_name}

-- A name (with QoS 3 only), a registered id, a predefined id, or two characters.
pub data Form : Type 0 where
  named : Bytes → Form
  registered : ℕ → Form
  predefined : ℕ → Form
  characters : ℕ → ℕ → Form

abbrev pub type_of : Form → ℕ
type_of (named name) = 0
type_of (registered n) = 0
type_of (predefined n) = 1
type_of (characters a b) = 2

-- The union, with the memory `more` behind a name.
abbrev pub data_of : Form → Bytes → TopicData
data_of (named name) more = long_name (name ++ more) (pos (length name))
data_of (registered n) more = id n
data_of (predefined n) more = id n
data_of (characters a b) more = short_name a b

abbrev pub topic_of : Form → Bytes → TopicId
topic_of form more = record { type = type_of form; data_ = data_of form more }

-- The form goes with the QoS, and its numbers fit their bytes.
abbrev pub Allowed : ℕ → Form → Type 0
Allowed qos (named name) = ((qos == 3) ≡ true) × (length name < 2 ^ 16)
Allowed qos (registered n) = ((qos == 3) ≡ false) × (n < 2 ^ 16)
Allowed qos (predefined n) = (qos < 4) × (n < 2 ^ 16)
Allowed qos (characters a b) = (a < 256) × (b < 256)

-- The two bytes of the topic field.
abbrev pub field_image : Form → Bytes
field_image (named name) = int_image (length name)
field_image (registered n) = int_image n
field_image (predefined n) = int_image n
field_image (characters a b) = a ∷ b ∷ []

-- The bytes between the packet identifier and the payload.
abbrev pub name_image : Form → Bytes
name_image (named name) = name
name_image (registered n) = []
name_image (predefined n) = []
name_image (characters a b) = []

pub length-field_image : (form : Form) → length (field_image form) ≡ 2
length-field_image (named name) = length-int_image (length name)
length-field_image (registered n) = length-int_image n
length-field_image (predefined n) = length-int_image n
length-field_image (characters a b) = refl

pub Emits-write_topic :
    (qos : ℕ) (form : Form) (more : Bytes)
    → Allowed qos form
    → Emits (write_topic (topic_of form more) qos) (field_image form)
Emits-write_topic qos (named name) more h = rw h.0 (Emits-write_int (length name))
Emits-write_topic qos (registered n) more h = rw h.0 (Emits-write_int n)
Emits-write_topic qos (predefined n) more h = Emits-write_int n
Emits-write_topic qos (characters a b) more h =
    let same_a : a % 256 ≡ a = omega (arith, h.0) in
    let same_b : b % 256 ≡ b = omega (arith, h.1) in
    rw (same_a, same_b) at
      (Emits->> (a % 256 ∷ []) (b % 256 ∷ []) (Emits-write_char a) (Emits-write_char b))

pub Emits-write_name :
    (qos : ℕ) (form : Form) (more : Bytes)
    → Allowed qos form
    → Emits (write_name (topic_of form more) qos) (name_image form)
Emits-write_name qos (named name) more h = rw h.0 (Emits-memcpy name more)
Emits-write_name qos (registered n) more h = rw h.0 Emits-skip
Emits-write_name qos (predefined n) more h = Emits-skip
Emits-write_name qos (characters a b) more h = Emits-skip

-- The union behind the topic field, before a name is set.
abbrev pub partial_of : Form → TopicData
partial_of (named name) = long_name [] (pos (length name))
partial_of (registered n) = id n
partial_of (predefined n) = id n
partial_of (characters a b) = short_name a b

pub read_topic-field_image :
    (qos : ℕ) (form : Form) (rest : Bytes) (at : ℕ)
    → Allowed qos form
    → read_topic (type_of form) qos (record { rest = field_image form ++ rest; at = at })
      ≡ some (partial_of form, record { rest = rest; at = at + 2 })
unfolding read_topic read_char
read_topic-field_image qos (named name) rest at h =
    rw h.0 (rw (read_int-int_image (length name) rest at h.1) refl)
read_topic-field_image qos (registered n) rest at h =
    rw h.0 (rw (read_int-int_image n rest at h.1) refl)
read_topic-field_image qos (predefined n) rest at h = rw (read_int-int_image n rest at h.1) refl
read_topic-field_image qos (characters a b) rest at h =
    let two : at + 1 + 1 ≡ at + 2 = omega arith in rw two refl

pub set_name-name_image :
    (form : Form) (rest : Bytes) (at : ℕ)
    → set_name (partial_of form) (record { rest = name_image form ++ rest; at = at })
      ≡ some (data_of form rest, record { rest = rest; at = at + length (name_image form) })
unfolding set_name
set_name-name_image (named name) rest at = rw (drop-append name rest) refl
set_name-name_image (registered n) rest at = let same : at + 0 ≡ at = omega arith in rw same refl
set_name-name_image (predefined n) rest at = let same : at + 0 ≡ at = omega arith in rw same refl
set_name-name_image (characters a b) rest at = let same : at + 0 ≡ at = omega arith in rw same refl
