-- ===== src/Packet/Subscribe.antt =====
-- MQTTSubscribeClient.c and MQTTSubscribeServer.c: SUBSCRIBE and SUBACK.
pub mod Filters
pub mod Laws
use mbed_mqtt.Common.{
  ℕ, zero, suc, ◌+◌, ◌/◌, ◌%◌, ◌-◌, Bool, true, false, Bytes, List, [], ◌∷◌, ◌++◌, Option, none,
  some, length, ltb, leb, ◌==◌, if◌then◌else◌, ℤ, pos, negsuc, not,
}
use mbed_mqtt.Packet.Header.{Header, header_byte, header_bits}
use mbed_mqtt.Packet.Length.{packet_encode, packet_len, read_remaining}
use mbed_mqtt.Packet.MsgType
use mbed_mqtt.Packet.Reader.{
  Cursor, Reader, then_read, ◌>>=◌, pure, here, read_char, read_int, on_buffer, as_int,
}
use mbed_mqtt.Packet.Strings.{MqttString, mqtt_strlen, write_mqtt_string, read_mqtt_len_string}
use mbed_mqtt.Packet.Writer.{Writer, ◌>>◌, skip, write_char, write_int, checked}

-- `topicFilters[i]` with `requestedQoSs[i]`, for the `count` entries of the two arrays.
abbrev pub Filters : Type 0
Filters = List (MqttString × ℕ)

pub filter_lengths : Filters → ℕ
filter_lengths [] = 0
filter_lengths ((topic, qos) ∷ fs) = 2 + mqtt_strlen topic + 1 + filter_lengths fs

unfoldable pub serialize_subscribe_length : Filters → ℕ
unfolding filter_lengths
serialize_subscribe_length filters = 2 + filter_lengths filters

unfoldable pub write_filters : Filters → Writer
write_filters [] = skip
write_filters ((topic, qos) ∷ fs) = write_mqtt_string topic >> write_char qos >> write_filters fs

unfoldable pub serialize_subscribe : Bytes → ℕ → ℕ → ℕ → Filters → Option (ℤ × Bytes)
unfolding write_filters
serialize_subscribe buf buflen dup packetid filters =
    let rem_len = serialize_subscribe_length filters in
    let header : Header = record { type = MsgType.subscribe; dup = dup; qos = 1; retain = 0 } in
    checked (packet_len rem_len) buflen
      (write_char (header_byte header)
        >> packet_encode rem_len
        >> write_int packetid
        >> write_filters filters)
      buf

-- The output parameters of MQTTDeserialize_subscribe; `filters` holds what was stored in the two
-- arrays at the indices below `count`.
pub record Subscribe : Type 0 where
  pub dup : ℕ
  pub packetid : ℕ
  pub filters : List (MqttString × ℤ)

-- Rounds of `while (curdata < enddata)`. Each takes at least three bytes, so as many rounds as there
-- are bytes end it; with none left the model faults. `old` gives the array's old entries.
pub read_filters :
    Bool → ℕ → ℕ → ℕ → (ℕ → MqttString) → List (MqttString × ℤ) → Reader (ℤ × List (MqttString × ℤ))
read_filters signed zero rc enddata old fs c = none
read_filters signed (suc rounds) rc enddata old fs c =
    let next = λ (r : Bool × MqttString) (c' : Cursor).
      then_read (read_char c')
        (λ qos. read_filters signed rounds rc enddata old (fs ++ (r.1, as_int signed qos) ∷ [])) in
    let round = then_read (read_mqtt_len_string enddata (old (length fs)) c) (λ r c'.
      let more = next r c' in
      if not r.0
      then some ((pos rc, fs), c')
      else if leb enddata c'.at
      then some ((pos rc, fs), c')
      else more) in
    if ltb c.at enddata then round else some ((pos 1, fs), c)

after_header : Bool → ℕ → (ℕ → MqttString) → Subscribe → Bytes → Reader (ℤ × Subscribe)
unfolding read_filters
after_header signed byte array old buf =
    let header = header_bits byte in
    let s = record old { dup = header.dup } in
    let parse = read_remaining >>= λ r. here >>= λ curdata. read_int >>= λ n.
    read_filters signed (suc (length buf)) r.0 (curdata + r.1) array [] >>= λ f.
    pure (f.0, record s { packetid = n; filters = f.1 }) in
    if header.type == MsgType.subscribe then parse else pure (negsuc 0, old)

-- `rc` keeps the result of MQTTPacket_decodeBuf where the loop leaves by `goto exit`.
-- `array` gives the old entries of `topicFilters`; nothing depends on `maxcount`.
unfoldable pub deserialize_subscribe :
    Bool → ℕ → (ℕ → MqttString) → Subscribe → Bytes → Option (ℤ × Subscribe)
unfolding after_header
deserialize_subscribe signed maxcount array old buf =
    on_buffer (read_char >>= λ byte. after_header signed byte array old buf) buf
