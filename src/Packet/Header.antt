-- ===== src/Packet/Header.antt =====
-- The MQTTHeader union of MQTTPacket.h with the layout of its bit fields.
use mbed_mqtt.Common.{ℕ, ◌+◌, ◌*◌, ◌/◌, ◌%◌, ◌<◌, ◌≡◌, arith}

pub record Header : Type 0 where
  pub type : ℕ
  pub dup : ℕ
  pub qos : ℕ
  pub retain : ℕ

-- Storing into a bit field keeps the field's low bits.
unfoldable pub header_byte : Header → ℕ
header_byte h = h.type % 16 * 16 + h.dup % 2 * 8 + h.qos % 4 * 2 + h.retain % 2

unfoldable pub header_bits : ℕ → Header
header_bits byte = record {
  type = byte / 16 % 16;
  dup = byte / 8 % 2;
  qos = byte / 2 % 4;
  retain = byte % 2;
}

-- The first byte of a packet in section 2.2 of the standard: the type in bits 7 to 4, DUP in bit 3,
-- the QoS in bits 2 and 1, RETAIN in bit 0.
unfoldable pub header_image : Header → ℕ
header_image h = (h.type % 16 * 8 + h.dup % 2 * 4 + h.qos % 4) * 2 + h.retain % 2

pub header_byte-header_image : (h : Header) → header_byte h ≡ header_image h
unfolding header_byte header_image
header_byte-header_image h = omega arith

pub header_image-lt : (h : Header) → header_image h < 256
unfolding header_image
header_image-lt h = omega arith

-- A header that its bit fields can hold.
pub record Fits (h : Header) : Type 0 where
  pub type_fits : h.type < 16
  pub dup_fits : h.dup < 2
  pub qos_fits : h.qos < 4
  pub retain_fits : h.retain < 2

-- The union gives the bit fields of the byte.
pub header_bits-header_image : (h : Header) → Fits h → header_bits (header_image h) ≡ h
unfolding header_bits header_image
header_bits-header_image h f = ground arith
