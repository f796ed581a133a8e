-- ===== src/Packet/Suback.antt =====
-- MQTTSerialize_suback of MQTTSubscribeServer.c and MQTTDeserialize_suback of MQTTSubscribeClient.c.
pub mod Laws
use mbed_mqtt.Common.{
  ℕ, zero, suc, ◌+◌, ◌-◌, Bool, true, false, Bytes, List, [], ◌∷◌, ◌++◌, Option, some, length, ltb,
  ◌==◌, if◌then◌else◌, ℤ, pos, negsuc,
}
use mbed_mqtt.Packet.Header.{Header, header_byte, header_bits}
use mbed_mqtt.Packet.Length.{packet_encode, read_remaining}
use mbed_mqtt.Packet.MsgType
use mbed_mqtt.Packet.Reader.{Reader, then_read, ◌>>=◌, pure, read_char, read_int, on_buffer, as_int}
use mbed_mqtt.Packet.Writer.{Writer, ◌>>◌, skip, write_char, write_int, checked}

write_chars : List ℕ → Writer
write_chars [] = skip
write_chars (c ∷ cs) = write_char c >> write_chars cs

-- The list is `grantedQoSs`, of `count` entries.
unfoldable pub serialize_suback : Bytes → ℕ → ℕ → List ℕ → Option (ℤ × Bytes)
unfolding write_chars
serialize_suback buf buflen packetid granted =
    let count = length granted in
    let header : Header = record { type = MsgType.suback; dup = 0; qos = 0; retain = 0 } in
    checked (2 + count) buflen
      (write_char (header_byte header)
        >> packet_encode (2 + count)
        >> write_int packetid
        >> write_chars granted)
      buf

-- The output parameters of MQTTDeserialize_suback: the entries stored at the indices below `count`.
pub record SubackData : Type 0 where
  pub packetid : ℕ
  pub granted : List ℤ

-- The rounds of `while (curdata < enddata)`: `left` of them, a byte each.
read_granted : Bool → ℕ → ℕ → List ℤ → Reader (ℤ × List ℤ)
read_granted signed maxcount zero qs c = some ((pos 1, qs), c)
read_granted signed maxcount (suc left) qs c =
    let more =
      then_read (read_char c)
        (λ q. read_granted signed maxcount left (qs ++ as_int signed q ∷ [])) in
    if ltb maxcount (length qs) then some ((negsuc 0, qs), c) else more

read_suback : Bool → ℕ → ℕ → ℕ → SubackData → Reader (ℤ × SubackData)
unfolding read_granted
read_suback signed maxcount len mylen old =
    let parse = read_int >>= λ n. read_granted signed maxcount (mylen - 2) [] >>= λ g.
    pure (g.0, record { packetid = n; granted = g.1 }) in
    if ltb mylen 2 then pure (pos len, old) else parse

unfoldable pub deserialize_suback : Bool → ℕ → SubackData → Bytes → Option (ℤ × SubackData)
unfolding read_suback
deserialize_suback signed maxcount old buf =
    on_buffer
      (read_char >>= λ byte.
        let parse = read_remaining >>= λ r. read_suback signed maxcount r.0 r.1 old in
        if (header_bits byte).type == MsgType.suback then parse else pure (pos 0, old))
      buf
