-- ===== src/Sn/Topic/Laws.antt =====
-- What writeMQTTSNString writes.
use mbed_mqtt.Common.{◌<◌, Bytes, [], ◌∷◌, length, arith, lt→ltb}
use mbed_mqtt.Packet.Strings.Laws.{c_string, len_string, string_image, Emits-write_cstring}
use mbed_mqtt.Packet.Writer.Emits.{Emits, Emits-skip, Emits-memcpy}
use mbed_mqtt.Sn.Topic.{write_sn_string}

-- A string with a length is written without it.
pub Emits-write_sn_string : (t more : Bytes) → Emits (write_sn_string (len_string t more)) t
unfolding write_sn_string
Emits-write_sn_string [] more = Emits-skip
Emits-write_sn_string (b ∷ t) more =
    let positive : 0 < length (b ∷ t) = omega arith in
    rw (lt→ltb _ _ positive) (Emits-memcpy (b ∷ t) more)

-- A C string is written with two bytes of length.
pub Emits-write_sn_string-c_string :
    (t : Bytes) → Emits (write_sn_string (c_string t)) (string_image t)
unfolding write_sn_string
Emits-write_sn_string-c_string t = Emits-write_cstring t
