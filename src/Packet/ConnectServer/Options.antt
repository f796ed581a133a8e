-- ===== src/Packet/ConnectServer/Options.antt =====
-- The end of a CONNECT packet, as MQTTDeserialize_connect reads it: the will, the user name and the
-- password.
use mbed_mqtt.Common.{
  ℕ, ◌+◌, ◌<◌, ◌≤◌, true, Bytes, ◌++◌, Option, none, some, length, length-append, ◌≡◌, arith,
  ge→ltb, append_assoc, pos,
}
use mbed_mqtt.Packet.Connect.Image.{given_image, will_image, Short, WillFits}
use mbed_mqtt.Packet.Connect.Describes.{present}
use mbed_mqtt.Packet.Connect.{ConnectFlags, ConnectData, WillOptions}
use mbed_mqtt.Packet.ConnectServer.{read_given, read_password, read_credentials, read_will}
use mbed_mqtt.Packet.Strings.Laws.{
  string_image, length-string_image, len_string, read_mqtt_len_string-string_image,
}
use mbed_mqtt.Packet.Strings.{MqttString}

-- A user name or password of 1 to 65535 bytes, or none.
abbrev pub Sendable : Option Bytes → Type 0
Sendable none = Unit
Sendable (some t) = (0 < length t) × Short t

-- A string as a pointer into the buffer, or the old value.
abbrev pub given_view : MqttString → Option Bytes → Bytes → MqttString
given_view old none rest = old
given_view old (some t) rest = len_string t rest

read_given_lem :
    (enddata at : ℕ) (s : MqttString) (t rest : Bytes)
    → 0 < length t
    → Short t
    → at + 2 + length t ≤ enddata
    → read_given enddata s (record { rest = string_image t ++ rest; at = at })
      ≡ some ((true, len_string t rest), record { rest = rest; at = at + 2 + length t })
unfolding read_given
read_given_lem enddata at s t rest positive short inside =
    rw (ge→ltb enddata (at + 3) (omega arith))
      (read_mqtt_len_string-string_image t rest at enddata s short inside)

read_password_lem :
    (enddata at : ℕ) (flags : ConnectFlags) (d : ConnectData) (pass : Option Bytes) (rest : Bytes)
    → flags.password ≡ present pass
    → Sendable pass
    → at + length (given_image pass) ≤ enddata
    → read_password enddata flags d (record { rest = given_image pass ++ rest; at = at })
      ≡ some (
        (pos 1, record d { password = given_view d.password pass rest }),
        record { rest = rest; at = at + length (given_image pass) },
      )
unfolding read_password given_image
read_password_lem enddata at flags d none rest e ok inside =
    let same : at + 0 ≡ at = omega arith in rw (e, same)
read_password_lem enddata at flags d (some t) rest e (positive, short) inside =
    let size : at + length (string_image t) ≡ at + 2 + length t =
      omega (arith, length-string_image t) in
    rw (e, size)
      (rw (read_given_lem enddata at d.password t rest positive short (omega (arith, size))))

-- A password needs a user name.
abbrev pub InOrder : Option Bytes → Option Bytes → Type 0
InOrder none (some p) = ⊥
InOrder _ _ = Unit

-- The flags agree with the user name and the password.
pub record Credentials (flags : ConnectFlags) (user pass : Option Bytes) : Type 0 where
  pub user_flag : flags.username ≡ present user
  pub pass_flag : flags.password ≡ present pass
  pub in_order : InOrder user pass
  pub user_fits : Sendable user
  pub pass_fits : Sendable pass

read_credentials_lem :
    (enddata at : ℕ) (flags : ConnectFlags) (d : ConnectData) (user pass : Option Bytes)
    (rest : Bytes)
    → Credentials flags user pass
    → at + length (given_image user) + length (given_image pass) ≤ enddata
    → read_credentials enddata flags d
        (record { rest = given_image user ++ (given_image pass ++ rest); at = at })
      ≡ some (
        (
          pos 1,
          record d {
            username = given_view d.username user (given_image pass ++ rest);
            password = given_view d.password pass rest;
          },
        ),
        record { rest = rest; at = at + length (given_image user) + length (given_image pass) },
      )
unfolding read_credentials given_image
read_credentials_lem enddata at flags d none none rest ok inside =
    let same : at + 0 ≡ at = omega arith in rw (ok.user_flag, ok.pass_flag, same, same)
read_credentials_lem enddata at flags d none (some p) rest ok inside = absurd ok.in_order
read_credentials_lem enddata at flags d (some u) pass rest ok inside =
    let (positive, short) = ok.user_fits in
    let size : at + length (string_image u) ≡ at + 2 + length u =
      omega (arith, length-string_image u) in
    let after = given_image pass ++ rest in
    let end : at + 2 + length u + length (given_image pass) ≤ enddata = rw size at inside in
    rw (ok.user_flag, size)
      (rw (read_given_lem enddata at d.username u after positive short (omega arith)) (
        read_password_lem enddata (at + 2 + length u) flags
          (record d { username = len_string u after }) pass rest ok.pass_flag ok.pass_fits end))

-- The will as pointers into the buffer; without a will nothing is stored.
abbrev pub will_view : ConnectFlags → WillOptions → Option (Bytes × Bytes) → Bytes → WillOptions
will_view flags old none rest = old
will_view flags old (some (t, m)) rest = record {
  topic_name = len_string t (string_image m ++ rest);
  message = len_string m rest;
  retained = flags.will_retain;
  qos = flags.will_qos;
}

pub read_will_lem :
    (enddata at : ℕ) (flags : ConnectFlags) (d : ConnectData) (will : Option (Bytes × Bytes))
    (user pass : Option Bytes) (rest : Bytes)
    → flags.will ≡ present will
    → WillFits will
    → Credentials flags user pass
    → at + length (will_image will) + length (given_image user) + length (given_image pass)
      ≤ enddata
    → read_will enddata flags d (record {
      rest = will_image will ++ (given_image user ++ (given_image pass ++ rest));
      at = at;
    })
      ≡ some (
        (
          pos 1,
          record d {
            will = will_view flags d.will will (given_image user ++ (given_image pass ++ rest));
            username = given_view d.username user (given_image pass ++ rest);
            password = given_view d.password pass rest;
          },
        ),
        record {
          rest = rest;
          at =
              at + length (will_image will) + length (given_image user) + length (given_image pass);
        },
      )
unfolding read_will will_image
read_will_lem enddata at flags d none user pass rest e fits ok inside =
    let same : at + 0 ≡ at = omega arith in
    rw (e, same) (read_credentials_lem enddata at flags d user pass rest ok (rw same at inside))
read_will_lem enddata at flags d (some (t, m)) user pass rest e (short_t, short_m) ok inside =
    let after = given_image user ++ (given_image pass ++ rest) in
    let size : at + length (string_image t ++ string_image m) ≡ at + 2 + length t + 2 + length m =
      omega (
        arith,
        length-append (string_image t) (string_image m),
        length-string_image t,
        length-string_image m,
      ) in
    let end = rw size at inside in
    rw (e, append_assoc (string_image t), size)
      (rw
        (read_mqtt_len_string-string_image t (string_image m ++ after) at enddata d.will.topic_name
          short_t (omega (arith, end)))
        (rw
          (read_mqtt_len_string-string_image m after (at + 2 + length t) enddata d.will.message
            short_m (omega (arith, end)))
          (read_credentials_lem enddata (at + 2 + length t + 2 + length m) flags _ user pass rest ok
            end)))
