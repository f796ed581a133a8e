-- ===== src/Packet/Connect/Describes.antt =====
-- The options of MQTTSerialize_connect that describe a CONNECT packet, and the flags they make.
use mbed_mqtt.Common.{
  ℕ, ◌<◌, ◌^◌, true, false, Bytes, Option, none, some, ◌≡◌, refl, ◌⊎◌, inl, inr, arith,
  if◌then◌else◌,
}
use mbed_mqtt.Packet.Connect.{flags_byte, ConnectData, is_given, is_set, connect_flags}
use mbed_mqtt.Packet.Strings.Laws.{Holds}
use mbed_mqtt.Packet.Strings.{MqttString}
use mbed_mqtt.Packet.Connect.Image.{Connect, Short, WillFits, GivenFits, FlagsFit, flags_image}

abbrev pub Given : MqttString → Option Bytes → Type 0
Given s none = is_given s ≡ false
Given s (some t) = Holds s t

abbrev pub HasWill : ConnectData → Option (Bytes × Bytes) → Type 0
HasWill options none = is_set options.will_flag ≡ false
HasWill options (some (t, m)) =
    (is_set options.will_flag ≡ true)
    × Holds options.will.topic_name t
    × Holds options.will.message m

-- 1 if the part is there, else 0; and a number that counts only with the part.
abbrev pub present {ℓ} : {A : Type ℓ} → Option A → ℕ
present none = 0
present (some a) = 1

abbrev pub with_part {ℓ} : {A : Type ℓ} → Option A → ℕ → ℕ
with_part none n = 0
with_part (some a) n = n

-- The options say what the packet `c` says.
pub record Describes (options : ConnectData) (c : Connect) : Type 0 where
  pub version_is : options.mqtt_version ≡ c.version
  pub clean_is : c.flags.cleansession ≡ options.cleansession
  pub will_flag : c.flags.will ≡ present c.will
  pub will_qos_is : c.flags.will_qos ≡ with_part c.will options.will.qos
  pub will_retain_is : c.flags.will_retain ≡ with_part c.will options.will.retained
  pub pass_flag : c.flags.password ≡ present c.pass
  pub user_flag : c.flags.username ≡ present c.user
  pub interval_is : options.keep_alive_interval ≡ c.interval
  pub client_is : Holds options.client_id c.client
  pub will_is : HasWill options c.will
  pub user_is : Given options.username c.user
  pub pass_is : Given options.password c.pass

-- Every part of the packet fits its place.
pub record IsWritable (c : Connect) : Type 0 where
  pub version_known : (c.version ≡ 3) ⊎ (c.version ≡ 4)
  pub flags_fit : FlagsFit c.flags
  pub interval_fits : c.interval < 2 ^ 16
  pub client_fits : Short c.client
  pub will_fits : WillFits c.will
  pub user_fits : GivenFits c.user
  pub pass_fits : GivenFits c.pass

pub is_given-Holds : (s : MqttString) (t : Bytes) → Holds s t → is_given s ≡ true
unfolding is_given
is_given-Holds s t (inl e) = rw e
is_given-Holds s t (inr (more, e)) = rw e

present-Given :
    (s : MqttString) (o : Option Bytes) → Given s o → (if is_given s then 1 else 0) ≡ present o
present-Given s none h = rw h refl
present-Given s (some t) h = rw (is_given-Holds s t h) refl

will_part :
    (options : ConnectData) (w : Option (Bytes × Bytes)) (n : ℕ)
    → HasWill options w
    → (if is_set options.will_flag then n else 0) ≡ with_part w n
will_part options none n h = rw h refl
will_part options (some w) n h = rw (h.0) refl

with_part_one : (w : Option (Bytes × Bytes)) → with_part w 1 ≡ present w
with_part_one none = refl
with_part_one (some w) = refl

pub flags_byte-connect_flags :
    (c : Connect) (options : ConnectData)
    → Describes options c
    → FlagsFit c.flags
    → flags_byte (connect_flags options) ≡ flags_image c.flags
unfolding flags_byte flags_image
flags_byte-connect_flags c options d fit =
    rw
      (
        present-Given options.username c.user d.user_is,
        present-Given options.password c.pass d.pass_is,
        will_part options c.will 1 d.will_is,
        will_part options c.will options.will.qos d.will_is,
        will_part options c.will options.will.retained d.will_is,
      )
      (omega (
        arith,
        with_part_one c.will,
        d.clean_is,
        d.will_flag,
        d.will_qos_is,
        d.will_retain_is,
        d.pass_flag,
        d.user_flag,
        fit.cleansession_fits,
        fit.will_fits,
        fit.will_qos_fits,
        fit.will_retain_fits,
        fit.password_fits,
        fit.username_fits,
      ))
