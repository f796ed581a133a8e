-- ===== src/Sn/Answers.antt =====
-- The answers that MQTTSNConnectClient.c reads with a return code: CONNACK, WILLTOPICRESP and
-- WILLMSGRESP.
pub mod Laws
use mbed_mqtt.Common.{
  ℕ, Bool, Bytes, Option, none, some, and_then, ltb, ◌==◌, if◌then◌else◌, ℤ, pos, negsuc,
}
use mbed_mqtt.Packet.Reader.{Reader, ◌>>=◌, pure, advance, read_char, on_buffer, as_int}
use mbed_mqtt.Sn.Length.{sn_packet_decode}
use mbed_mqtt.Sn.MsgType

-- `curdata += len`; a negative `len` moves it before the buffer, where the next read is a fault.
abbrev pub moved : {A : Type 0} → ℤ → Reader A → Reader A
moved (pos n) m c = m (advance n c)
moved (negsuc n) m c = none

-- The packet type, and the code as a `char`; `failed` is what a packet of another type gives.
abbrev pub read_code : Bool → ℕ → ℤ → ℤ → Reader (ℤ × ℤ)
read_code signed type failed old =
    let code = read_char >>= λ c. pure (pos 1, as_int signed c) in
    read_char >>= λ b. if b == type then code else pure (failed, old)

-- `mylen` is the old value of that variable, which is not initialised. `rc` keeps the result of
-- MQTTSNPacket_decode where the code leaves by `goto exit`. The result has `*connack_rc`.
unfoldable pub sn_deserialize_connack : Bool → ℕ → ℤ → Bytes → ℕ → Option (ℤ × ℤ)
sn_deserialize_connack signed mylen old buf buflen =
    and_then (sn_packet_decode buf buflen mylen) (λ d.
      let parse = on_buffer (moved d.0 (read_code signed MsgType.connack d.0 old)) buf in
      if ltb d.1 3 then some (d.0, old) else parse)

-- `rc` is 0 where the code leaves by `goto exit`.
unfoldable pub sn_deserialize_willtopicresp : Bool → ℕ → ℤ → Bytes → ℕ → Option (ℤ × ℤ)
sn_deserialize_willtopicresp signed mylen old buf buflen =
    and_then (sn_packet_decode buf buflen mylen) (λ d.
      let parse = on_buffer (moved d.0 (read_code signed MsgType.willtopicresp (pos 0) old)) buf in
      if ltb d.1 3 then some (pos 0, old) else parse)

unfoldable pub sn_deserialize_willmsgresp : Bool → ℕ → ℤ → Bytes → ℕ → Option (ℤ × ℤ)
sn_deserialize_willmsgresp signed mylen old buf buflen =
    and_then (sn_packet_decode buf buflen mylen) (λ d.
      let parse = on_buffer (moved d.0 (read_code signed MsgType.willmsgresp (pos 0) old)) buf in
      if ltb d.1 3 then some (pos 0, old) else parse)
