-- ===== src/Packet/ConnectServer.antt =====
-- MQTTPacket_checkVersion and MQTTDeserialize_connect of MQTTConnectServer.c.
pub mod Laws
pub mod Options
use mbed_mqtt.Common.{
  ℕ, zero, suc, ◌+◌, Bool, true, false, ◌&&◌, ◌||◌, not, Bytes, [], ◌∷◌, Option, ltb, ◌==◌,
  if◌then◌else◌, ℤ, pos,
}
use mbed_mqtt.Packet.Connect.{ConnectFlags, flags_bits, ConnectData, is_set, name_mqtt, name_mqisdp}
use mbed_mqtt.Packet.Header.{header_bits}
use mbed_mqtt.Packet.Length.{read_remaining}
use mbed_mqtt.Packet.MsgType
use mbed_mqtt.Packet.Reader.{Reader, ◌>>=◌, pure, here, read_char, read_int, on_buffer}
use mbed_mqtt.Packet.Strings.{MqttString, read_mqtt_len_string, or_null}

-- memcmp(a, b, n) == 0, for memory that reaches `n` bytes.
unfoldable pub memcmp_eq : ℕ → Bytes → Bytes → Bool
memcmp_eq zero a b = true
memcmp_eq (suc n) [] b = false
memcmp_eq (suc n) (x ∷ a) [] = false
memcmp_eq (suc n) (x ∷ a) (y ∷ b) = x == y && memcmp_eq n a b

abbrev min_len : ℕ → ℕ → ℕ
min_len a b = if ltb a b then a else b

unfoldable pub check_version : MqttString → ℕ → Bool
unfolding memcmp_eq or_null
check_version protocol version =
    version == 3 && memcmp_eq (min_len 6 protocol.len) (or_null protocol.data_) name_mqisdp
    || version == 4 && memcmp_eq (min_len 4 protocol.len) (or_null protocol.data_) name_mqtt

-- `enddata - curdata < 3 || !readMQTTLenString(...)`, as the string and whether it was read.
read_given : ℕ → MqttString → Reader (Bool × MqttString)
read_given enddata s =
    here >>= λ at. if ltb enddata (at + 3) then pure (false, s) else read_mqtt_len_string enddata s

read_password : ℕ → ConnectFlags → ConnectData → Reader (ℤ × ConnectData)
unfolding read_given
read_password enddata flags d =
    if is_set flags.password
    then (read_given enddata d.password >>= λ r.
        pure (if r.0 then pos 1 else pos 0, record d { password = r.1 }))
    else pure (pos 1, d)

read_credentials : ℕ → ConnectFlags → ConnectData → Reader (ℤ × ConnectData)
unfolding read_password
read_credentials enddata flags d =
    let with_username = read_given enddata d.username >>= λ r.
    let d' = record d { username = r.1 } in
    if r.0 then read_password enddata flags d' else pure (pos 0, d') in
    if is_set flags.username
    then with_username
    else if is_set flags.password
    then pure (pos 0, d)
    else pure (pos 1, d)

pub read_will : ℕ → ConnectFlags → ConnectData → Reader (ℤ × ConnectData)
unfolding read_credentials
read_will enddata flags d =
    let d1 = record d {
      will = record (d.will) { qos = flags.will_qos; retained = flags.will_retain };
    } in
    let with_will = read_mqtt_len_string enddata d1.will.topic_name >>= λ r.
    let d2 = record d1 { will = record (d1.will) { topic_name = r.1 } } in
    let with_message = read_mqtt_len_string enddata d2.will.message >>= λ m.
    let d3 = record d2 { will = record (d2.will) { message = m.1 } } in
    if m.0 then read_credentials enddata flags d3 else pure (pos 0, d3) in
    if r.0 then with_message else pure (pos 0, d2) in
    if is_set flags.will then with_will else read_credentials enddata flags d

read_body : ℕ → ConnectData → Reader (ℤ × ConnectData)
unfolding read_will
read_body enddata old = read_char >>= λ all. read_int >>= λ interval.
    let flags = flags_bits all in
    let d = record old { cleansession = flags.cleansession; keep_alive_interval = interval } in
    read_mqtt_len_string enddata d.client_id >>= λ r.
    let d' = record d { client_id = r.1 } in
    if r.0 then read_will enddata flags (record d' { will_flag = flags.will }) else pure (pos 0, d')

read_protocol : ℕ → MqttString → ConnectData → Reader (ℤ × ConnectData)
unfolding read_body
read_protocol enddata protocol old = read_mqtt_len_string enddata protocol >>= λ r. here >>= λ at.
    let parse = read_char >>= λ version.
    if check_version r.1 version then read_body enddata old else pure (pos 0, old) in
    if not r.0 || ltb enddata at then pure (pos 0, old) else parse

-- `protocol` is the local variable `Protocol`, which is not initialised; `len` is the parameter.
unfoldable pub deserialize_connect : MqttString → ConnectData → Bytes → ℕ → Option (ℤ × ConnectData)
unfolding read_protocol
deserialize_connect protocol data_ buf len =
    on_buffer
      (read_char >>= λ byte.
        let parse = read_remaining >>= λ r. read_protocol len protocol data_ in
        if (header_bits byte).type == MsgType.connect then parse else pure (pos 0, data_))
      buf
