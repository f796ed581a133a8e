-- ===== src/Sn/Flags.antt =====
-- MQTTSNFlags of MQTTSNPacket.h.
use mbed_mqtt.Common.{ℕ, ◌+◌, ◌*◌, ◌/◌, ◌%◌, ◌<◌, Bool, ◌≡◌, arith, if◌then◌else◌, ◌==◌}

-- The bit fields, lowest first.
pub record Flags : Type 0 where
  pub topic_id_type : ℕ
  pub clean_session : ℕ
  pub will : ℕ
  pub retain : ℕ
  pub qos : ℕ
  pub dup : ℕ

-- `flags.all = 0`
abbrev pub no_flags : Flags
no_flags = record { topic_id_type = 0; clean_session = 0; will = 0; retain = 0; qos = 0; dup = 0 }

unfoldable pub flags_byte : Flags → ℕ
flags_byte f =
    f.topic_id_type % 4
    + f.clean_session % 2 * 4
    + f.will % 2 * 8
    + f.retain % 2 * 16
    + f.qos % 4 * 32
    + f.dup % 2 * 128

unfoldable pub flags_bits : ℕ → Flags
flags_bits all = record {
  topic_id_type = all % 4;
  clean_session = all / 4 % 2;
  will = all / 8 % 2;
  retain = all / 16 % 2;
  qos = all / 32 % 4;
  dup = all / 128 % 2;
}

-- `*dup = flags.bits.dup`: the field is a plain `int` of one bit, which the compiler may take as
-- signed; then the bit is -1, and 255 as an `unsigned char`.
abbrev pub dup_value : Bool → ℕ → ℕ
dup_value signed bit = if signed then (if bit == 1 then 255 else bit) else bit

pub flags_byte-lt : (f : Flags) → flags_byte f < 256
unfolding flags_byte
flags_byte-lt f = omega arith

-- Flags that the bit fields can hold.
pub record Fits (f : Flags) : Type 0 where
  pub topic_id_type_fits : f.topic_id_type < 4
  pub clean_session_fits : f.clean_session < 2
  pub will_fits : f.will < 2
  pub retain_fits : f.retain < 2
  pub qos_fits : f.qos < 4
  pub dup_fits : f.dup < 2

-- The union gives the bit fields back.
pub flags_bits-flags_byte : (f : Flags) → Fits f → flags_bits (flags_byte f) ≡ f
unfolding flags_bits flags_byte
flags_bits-flags_byte f fits = ground arith
