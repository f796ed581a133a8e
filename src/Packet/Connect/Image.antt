-- ===== src/Packet/Connect/Image.antt =====
-- The CONNECT packet as the standard lays it out.
use mbed_mqtt.Common.{
  ℕ, ◌+◌, ◌*◌, ◌<◌, ◌^◌, Bytes, [], ◌∷◌, ◌++◌, Option, none, some, length, length-append, ◌≡◌,
  arith, if◌then◌else◌, ◌==◌,
}
use mbed_mqtt.Packet.Connect.{ConnectFlags, flags_bits}
use mbed_mqtt.Packet.Header.{Header}
use mbed_mqtt.Packet.MsgType
use mbed_mqtt.Packet.Strings.Laws.{string_image, length-string_image}
use mbed_mqtt.Packet.Writer.Emits.{int_image, length-int_image}

-- What a CONNECT packet says; `none` where a part is left out.
pub record Connect : Type 0 where
  pub version : ℕ
  pub flags : ConnectFlags
  pub interval : ℕ
  pub client : Bytes
  pub will : Option (Bytes × Bytes)
  pub user : Option Bytes
  pub pass : Option Bytes

unfoldable pub given_image : Option Bytes → Bytes
given_image none = []
given_image (some t) = string_image t

unfoldable pub will_image : Option (Bytes × Bytes) → Bytes
will_image none = []
will_image (some (t, m)) = string_image t ++ string_image m

abbrev pub protocol_image : ℕ → Bytes
protocol_image version =
    if version == 4
    then string_image (b'M' ∷ b'Q' ∷ b'T' ∷ b'T' ∷ []) ++ 4 ∷ []
    else string_image (b'M' ∷ b'Q' ∷ b'I' ∷ b's' ∷ b'd' ∷ b'p' ∷ []) ++ 3 ∷ []

-- A text whose length fits its two bytes.
abbrev pub Short : Bytes → Type 0
Short t = length t < 2 ^ 16

abbrev pub WillFits : Option (Bytes × Bytes) → Type 0
WillFits none = Unit
WillFits (some (t, m)) = Short t × Short m

abbrev pub GivenFits : Option Bytes → Type 0
GivenFits none = Unit
GivenFits (some t) = Short t

-- The flags fit their bits.
pub record FlagsFit (f : ConnectFlags) : Type 0 where
  pub cleansession_fits : f.cleansession < 2
  pub will_fits : f.will < 2
  pub will_qos_fits : f.will_qos < 4
  pub will_retain_fits : f.will_retain < 2
  pub password_fits : f.password < 2
  pub username_fits : f.username < 2

-- The flags byte of the standard, for flags that fit: bit 1 clean session, bit 2 will, bits 3 and 4
-- will QoS, bit 5 will retain, bit 6 password, bit 7 user name.
unfoldable pub flags_image : ConnectFlags → ℕ
flags_image f =
    f.cleansession * 2
    + f.will * 4
    + f.will_qos * 8
    + f.will_retain * 32
    + f.password * 64
    + f.username * 128

pub flags_image-lt : (f : ConnectFlags) → FlagsFit f → flags_image f < 256
unfolding flags_image
flags_image-lt f fit = omega (
  arith, fit.cleansession_fits, fit.will_fits, fit.will_qos_fits, fit.will_retain_fits,
  fit.password_fits, fit.username_fits,
)

-- The bit fields read from the byte are the flags.
pub flags_bits-flags_image : (f : ConnectFlags) → FlagsFit f → flags_bits (flags_image f) ≡ f
unfolding flags_bits flags_image
flags_bits-flags_image f fit = ground arith

-- The body behind the flags.
unfoldable pub payload_image : Connect → Bytes
payload_image c =
    string_image c.client ++ (will_image c.will ++ (given_image c.user ++ given_image c.pass))

unfoldable pub connect_body : Connect → Bytes
connect_body c =
    protocol_image c.version ++ (flags_image c.flags ∷ (int_image c.interval ++ payload_image c))

abbrev pub connect_header : Header
connect_header = record { type = MsgType.connect; dup = 0; qos = 0; retain = 0 }

pub length-payload_image :
    (c : Connect)
    → length (payload_image c)
      ≡ length c.client
        + 2
        + length (will_image c.will)
        + length (given_image c.user)
        + length (given_image c.pass)
unfolding payload_image
length-payload_image c =
    rw (length-append, length-append, length-append, length-string_image) (omega arith)

pub length-connect_body :
    (c : Connect)
    → length (connect_body c) ≡ length (protocol_image c.version) + 3 + length (payload_image c)
unfolding connect_body
length-connect_body c = rw (length-append, length-append, length-int_image) (omega arith)
