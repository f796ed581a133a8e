-- ===== src/Sn/Tests.antt =====
-- The theorems on MQTT-SN at concrete packets.
use mbed_mqtt.Common.{true, ℕ, zero, suc, Bytes, [], ◌∷◌, none, some, length, ◌≡◌, refl, arith, pos}
use mbed_mqtt.Packet.Strings.Laws.{c_string}
use mbed_mqtt.Sn.Ack.{TopicAck, Suback}
use mbed_mqtt.Sn.Answers.{sn_deserialize_connack}
use mbed_mqtt.Sn.Answers.Laws.{sn_deserialize_connack_any}
use mbed_mqtt.Sn.Connect.{sn_serialize_pingreq}
use mbed_mqtt.Sn.Connect.Laws.{sn_serialize_pingreq_overruns}
use mbed_mqtt.Sn.MsgType
use mbed_mqtt.Sn.Register.{Register}

abbrev room : Bytes
room = 0 ∷ 0 ∷ 0 ∷ 0 ∷ 0 ∷ 0 ∷ 0 ∷ 0 ∷ 0 ∷ 0 ∷ 0 ∷ 0 ∷ []

abbrev name : Bytes
name = 97 ∷ 98 ∷ []

abbrev old_ack : TopicAck
old_ack = record { topicid = 0; packetid = 0; return_code = 0 }

abbrev old_suback : Suback
old_suback = record { qos = 0; topicid = 0; packetid = 0; returncode = 0 }

sn_pingreq_example : sn_serialize_pingreq (0 ∷ 0 ∷ 0 ∷ 0 ∷ []) 4 (c_string name) ≡ none
sn_pingreq_example = sn_serialize_pingreq_overruns (0 ∷ 0 ∷ 0 ∷ 0 ∷ []) name (omega arith) refl

zeros : ℕ → Bytes
zeros zero = []
zeros (suc n) = 0 ∷ zeros n

length-zeros : (n : ℕ) → length (zeros n) ≡ n
unfolding zeros
length-zeros zero = refl
length-zeros (suc n) = rw (length-zeros n) refl

abbrev old_register : Register
old_register = record { topicid = 0; packetid = 0; cstring = none; data_ = none; len = pos 0 }

-- A PINGRESP, taken for a CONNACK.
sn_connack_example :
    sn_deserialize_connack true 0 (pos 9) (3 ∷ MsgType.pingresp ∷ 0 ∷ []) 3 ≡ some (pos 1, pos 9)
sn_connack_example =
    sn_deserialize_connack_any true 0 (pos 9) 3 MsgType.pingresp (0 ∷ []) 3 (omega arith)
      (λ e. absurd (omega (arith, e))) (omega arith)
