-- ===== src/Packet/Strings/Laws.antt =====
-- Strings on the wire: two bytes of length and the text.
use mbed_mqtt.Common.{
  ℕ, ◌+◌, ◌≤◌, ◌<◌, ◌^◌, true, Bytes, [], ◌∷◌, ◌++◌, none, some, length, drop-append, ◌≡◌, ◌⊎◌, inl,
  inr, arith, append-nil, append_assoc, lt→ltb, le→leb,
}
use mbed_mqtt.Packet.Writer.{write_cstring}
use mbed_mqtt.Packet.Writer.Emits.{Emits, Emits-write_int, Emits-memcpy, Emits->>, int_image}
use mbed_mqtt.Packet.Reader.{read_int, read_char}
use mbed_mqtt.Packet.Strings.{MqttString, mqtt_strlen, write_mqtt_string, read_mqtt_len_string}

abbrev pub c_string : Bytes → MqttString
c_string t = record { cstring = some t; len = 0; data_ = none }

abbrev pub len_string : Bytes → Bytes → MqttString
len_string t more = record { cstring = none; len = length t; data_ = some (t ++ more) }

-- MQTTString_initializer
abbrev pub null_string : MqttString
null_string = record { cstring = none; len = 0; data_ = none }

-- The string holds the text `t`: as a C string, or as a pointer and a length.
abbrev pub Holds : MqttString → Bytes → Type 0
Holds s t = (s ≡ c_string t) ⊎ ((more : Bytes) × (s ≡ len_string t more))

pub mqtt_strlen-Holds : (s : MqttString) (t : Bytes) → Holds s t → mqtt_strlen s ≡ length t
unfolding mqtt_strlen
mqtt_strlen-Holds s t (inl e) = rw e
mqtt_strlen-Holds s t (inr (more, e)) = rw e

unfoldable pub string_image : Bytes → Bytes
string_image t = int_image (length t) ++ t

pub length-string_image : (t : Bytes) → length (string_image t) ≡ length t + 2
unfolding string_image int_image
length-string_image t = omega arith

pub Emits-write_cstring : (t : Bytes) → Emits (write_cstring t) (string_image t)
unfolding write_cstring string_image
Emits-write_cstring t =
    rw (append-nil t) at
      (Emits->> (int_image (length t)) t (Emits-write_int (length t)) (Emits-memcpy t []))

Emits-len_string : (t more : Bytes) → Emits (write_mqtt_string (len_string t more)) (string_image t)
unfolding write_mqtt_string string_image
Emits-len_string [] more = rw append-nil (Emits-write_int 0)
Emits-len_string (b ∷ t) more =
    let positive : 0 < length (b ∷ t) = omega arith in
    rw (lt→ltb _ _ positive) (
      Emits->> (int_image (length (b ∷ t))) (b ∷ t) (Emits-write_int _) (Emits-memcpy (b ∷ t) more))

pub Emits-write_mqtt_string :
    (s : MqttString) (t : Bytes) → Holds s t → Emits (write_mqtt_string s) (string_image t)
unfolding write_mqtt_string
Emits-write_mqtt_string s t (inl e) = rw e (Emits-write_cstring t)
Emits-write_mqtt_string s t (inr (more, e)) = rw e (Emits-len_string t more)

pub read_int-int_image :
    (n : ℕ) (rest : Bytes) (at : ℕ)
    → n < 2 ^ 16
    → read_int (record { rest = int_image n ++ rest; at = at })
      ≡ some (n, record { rest = rest; at = at + 2 })
unfolding read_int read_char int_image
read_int-int_image n rest at h = ground arith

-- A string that lies before `enddata` is read back, as a pointer into the buffer.
pub read_mqtt_len_string-string_image :
    (t rest : Bytes) (at enddata : ℕ) (old : MqttString)
    → length t < 2 ^ 16
    → at + 2 + length t ≤ enddata
    → read_mqtt_len_string enddata old (record { rest = string_image t ++ rest; at = at })
      ≡ some ((true, len_string t rest), record { rest = rest; at = at + 2 + length t })
unfolding read_mqtt_len_string string_image
read_mqtt_len_string-string_image t rest at enddata old short inside =
    let first : at + 1 < enddata = omega arith in
    rw (lt→ltb _ _ first, append_assoc (int_image (length t)) t rest)
      (rw (read_int-int_image (length t) (t ++ rest) at short)
        (rw (le→leb _ _ inside) (rw (drop-append t rest))))
