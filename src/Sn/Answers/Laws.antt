-- ===== src/Sn/Answers/Laws.antt =====
-- What MQTTSNDeserialize_connack makes of a packet of another type.
use mbed_mqtt.Common.{
  ℕ, ◌≤◌, ◌≢◌, Bool, false, Bytes, ◌∷◌, some, ◌==◌, ◌≡◌, refl, arith, ge→ltb, ℤ, pos,
}
use mbed_mqtt.Packet.Reader.{read_char, on_buffer}
use mbed_mqtt.Sn.Answers.{sn_deserialize_connack}
use mbed_mqtt.Sn.Length.{sn_packet_decode}
use mbed_mqtt.Sn.MsgType

-- MQTTSNDeserialize_connack returns 1, its code for success, on every packet of another type whose
-- length field is one byte and at least 3; the return code keeps its old value.
pub sn_deserialize_connack_any :
    (signed : Bool) (mylen : ℕ) (old : ℤ) (n type : ℕ) (rest : Bytes) (buflen : ℕ)
    → 3 ≤ n
    → type ≢ MsgType.connack
    → 1 ≤ buflen
    → sn_deserialize_connack signed mylen old (n ∷ type ∷ rest) buflen ≡ some (pos 1, old)
unfolding sn_deserialize_connack sn_packet_decode read_char on_buffer
sn_deserialize_connack_any signed mylen old n type rest buflen long other some_ =
    let wide : (buflen == 0) ≡ false = ground arith in
    let short : (n == 1) ≡ false = ground arith in
    let wrong : (type == 5) ≡ false = ground arith in
    rw (wide, short) (rw (ge→ltb n 3 long, wrong) refl)
