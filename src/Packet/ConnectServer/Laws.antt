-- ===== src/Packet/ConnectServer/Laws.antt =====
-- MQTTDeserialize_connect reads back every CONNECT packet that the standard allows, but for empty
-- user names and passwords.
use mbed_mqtt.Common.{
  ℕ, ◌+◌, ◌<◌, ◌≤◌, ◌^◌, true, Bytes, [], ◌∷◌, ◌++◌, some, length, length-append, ◌≡◌, ◌⊎◌, inl,
  inr, refl, ap, arith, ge→ltb, append_assoc, pos, and_then,
}
use mbed_mqtt.Packet.Connect.Image.{
  Connect, given_image, will_image, protocol_image, payload_image, connect_body, connect_header,
  length-connect_body, length-payload_image, Short, WillFits, FlagsFit, flags_image,
  flags_bits-flags_image,
}
use mbed_mqtt.Packet.Connect.Describes.{present}
use mbed_mqtt.Packet.Connect.{ConnectData, name_mqtt, name_mqisdp}
use mbed_mqtt.Packet.ConnectServer.{read_body, read_protocol, check_version, deserialize_connect}
use mbed_mqtt.Packet.Frame.{packet_image, length-packet_image, read_remaining-rem_image}
use mbed_mqtt.Packet.Header.{header_bits-header_image, Fits}
use mbed_mqtt.Packet.Length.Laws.{rem_image}
use mbed_mqtt.Packet.Reader.{read_char, on_buffer}
use mbed_mqtt.Packet.Strings.Laws.{
  string_image, length-string_image, len_string, read_mqtt_len_string-string_image,
  read_int-int_image,
}
use mbed_mqtt.Packet.Strings.{MqttString}
use mbed_mqtt.Packet.Writer.Emits.{int_image}
use mbed_mqtt.Packet.ConnectServer.Options.{given_view, Credentials, will_view, read_will_lem}

-- The packet is one that the standard allows, and its user name and password are not empty.
pub record IsSendable (c : Connect) : Type 0 where
  pub version_known : (c.version ≡ 3) ⊎ (c.version ≡ 4)
  pub flags_fit : FlagsFit c.flags
  pub interval_fits : c.interval < 2 ^ 16
  pub client_fits : Short c.client
  pub will_fits : WillFits c.will
  pub will_flag : c.flags.will ≡ present c.will
  pub credentials : Credentials c.flags c.user c.pass

-- What MQTTDeserialize_connect stores, when `rest` follows the packet in memory.
unfoldable pub connect_view : ConnectData → Connect → Bytes → ConnectData
connect_view old c rest =
    let behind_user = given_image c.pass ++ rest in
    let behind_will = given_image c.user ++ behind_user in
    record old {
      cleansession = c.flags.cleansession;
      keep_alive_interval = c.interval;
      client_id = len_string c.client (will_image c.will ++ behind_will);
      will_flag = c.flags.will;
      will = will_view c.flags old.will c.will behind_will;
      username = given_view old.username c.user behind_user;
      password = given_view old.password c.pass rest;
    }

read_body_lem :
    (enddata at : ℕ) (old : ConnectData) (c : Connect) (rest : Bytes)
    → IsSendable c
    → at + 3 + length (payload_image c) ≤ enddata
    → and_then
        (read_body enddata old (record {
          rest = flags_image c.flags ∷ (int_image c.interval ++ (payload_image c ++ rest));
          at = at;
        }))
        (λ r. some r.0)
      ≡ some (pos 1, connect_view old c rest)
unfolding read_body payload_image connect_view read_char
read_body_lem enddata at old c rest ok inside =
    let after = given_image c.user ++ (given_image c.pass ++ rest) in
    let parts = length-payload_image c in
    rw (flags_bits-flags_image c.flags ok.flags_fit) (
      rw (read_int-int_image c.interval _ (at + 1) ok.interval_fits) (
        rw
          (
            append_assoc (string_image c.client),
            append_assoc (will_image c.will),
            append_assoc (given_image c.user),
          )
          (rw
            (read_mqtt_len_string-string_image c.client (will_image c.will ++ after) (at + 1 + 2)
              enddata old.client_id ok.client_fits (omega (arith, parts)))
            (rw (
              read_will_lem enddata (at + 1 + 2 + 2 + length c.client) c.flags
                (record old {
                  cleansession = c.flags.cleansession;
                  keep_alive_interval = c.interval;
                  client_id = len_string c.client (will_image c.will ++ after);
                  will_flag = c.flags.will;
                })
                c.will c.user c.pass rest ok.will_flag ok.will_fits ok.credentials
                (omega (arith, parts)))))))

-- The protocol name and the level of MQTT 3.1 and of MQTT 3.1.1.
read_protocol_named :
    (enddata at version : ℕ) (name : Bytes) (protocol : MqttString) (old : ConnectData)
    (c : Connect) (rest : Bytes)
    → IsSendable c
    → Short name
    → ((more : Bytes) → check_version (len_string name more) version ≡ true)
    → at + length name + 6 + length (payload_image c) ≤ enddata
    → and_then
        (read_protocol enddata protocol old (record {
          rest =
              string_image name
              ++ (version
                  ∷ flags_image c.flags
                  ∷ (int_image c.interval ++ (payload_image c ++ rest)));
          at = at;
        }))
        (λ r. some r.0)
      ≡ some (pos 1, connect_view old c rest)
unfolding read_protocol read_char
read_protocol_named enddata at version name protocol old c rest ok short known inside =
    let behind = flags_image c.flags ∷ (int_image c.interval ++ (payload_image c ++ rest)) in
    rw
      (read_mqtt_len_string-string_image name (version ∷ behind) at enddata protocol short
        (omega arith))
      (rw (ge→ltb enddata (at + 2 + length name) (omega arith)) (
        rw (known (version ∷ behind))
          (read_body_lem enddata (at + 2 + length name + 1) old c rest ok (omega arith))))

connect_body_split :
    (c : Connect) (name rest : Bytes) (v : ℕ)
    → protocol_image c.version ≡ string_image name ++ v ∷ []
    → connect_body c ++ rest
      ≡ string_image name
        ++ (v ∷ flags_image c.flags ∷ (int_image c.interval ++ (payload_image c ++ rest)))
unfolding connect_body
connect_body_split c name rest v p = rw p (simp append_assoc)

read_protocol_lem :
    (enddata at : ℕ) (protocol : MqttString) (old : ConnectData) (c : Connect) (rest : Bytes)
    → IsSendable c
    → at + length (connect_body c) ≤ enddata
    → and_then
        (read_protocol enddata protocol old (record { rest = connect_body c ++ rest; at = at }))
        (λ r. some r.0)
      ≡ some (pos 1, connect_view old c rest)
unfolding check_version
read_protocol_lem enddata at protocol old c rest ok inside = elim ok.version_known [
  | inl e ↦
      let p : protocol_image c.version ≡ string_image name_mqisdp ++ 3 ∷ [] = ap protocol_image e in
      let size = ap length p in
      rw (connect_body_split c name_mqisdp rest 3 p) (
        read_protocol_named enddata at 3 name_mqisdp protocol old c rest ok (omega arith)
          (λ more. refl)
          (omega (
            arith,
            size,
            length-connect_body c,
            length-append (string_image name_mqisdp) (3 ∷ []),
            length-string_image name_mqisdp,
          )))
  | inr e ↦
      let p : protocol_image c.version ≡ string_image name_mqtt ++ 4 ∷ [] = ap protocol_image e in
      let size = ap length p in
      rw (connect_body_split c name_mqtt rest 4 p) (
        read_protocol_named enddata at 4 name_mqtt protocol old c rest ok (omega arith)
          (λ more. refl)
          (omega (
            arith,
            size,
            length-connect_body c,
            length-append (string_image name_mqtt) (4 ∷ []),
            length-string_image name_mqtt,
          )))
]

-- MQTTDeserialize_connect returns 1 on every CONNECT packet of MQTT 3.1 or 3.1.1 whose flags fit
-- their bits and agree with its parts, whose interval fits two bytes, whose texts fit their two bytes of length, whose password comes with a user name,
-- and whose user name and password are not empty, if `len` reaches to its end, whatever follows it.
-- It stores the clean session flag, the interval, the client identifier, the will, the user name
-- and the password, the texts as pointers into the buffer, and keeps the old value of what the
-- packet leaves out.
pub deserialize_connect-packet_image :
    (protocol : MqttString) (old : ConnectData) (c : Connect) (rest : Bytes) (len : ℕ)
    → IsSendable c
    → length (connect_body c) < 2 ^ 28
    → length (packet_image connect_header (connect_body c)) ≤ len
    → deserialize_connect protocol old (packet_image connect_header (connect_body c) ++ rest) len
      ≡ some (pos 1, connect_view old c rest)
unfolding deserialize_connect on_buffer packet_image read_char
deserialize_connect-packet_image protocol old c rest len ok small inside =
    let body = connect_body c in
    let fits : Fits connect_header = record {
      type_fits = omega arith;
      dup_fits = omega arith;
      qos_fits = omega arith;
      retain_fits = omega arith;
    } in
    rw (header_bits-header_image connect_header fits, append_assoc (rem_image (length body)))
      (rw (read_remaining-rem_image (length body) (body ++ rest) 1 small) (
        read_protocol_lem len (1 + length (rem_image (length body))) protocol old c rest ok
          (omega (arith, length-packet_image connect_header body))))
