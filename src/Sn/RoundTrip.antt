-- ===== src/Sn/RoundTrip.antt =====
-- A guarded MQTT-SN serializer followed by a deserializer of the same packet type, for packets whose
-- size is known.
use mbed_mqtt.Common.{ℕ, ◌+◌, ◌<◌, ◌≤◌, Bytes, ◌++◌, some, and_then, length, drop, ◌≡◌}
use mbed_mqtt.Packet.Reader.{Reader, on_buffer}
use mbed_mqtt.Packet.Writer.{Writer, ◌>>◌, write_char, checked}
use mbed_mqtt.Packet.Writer.Emits.{Emits}
use mbed_mqtt.Sn.Frame.{packet_image, serialized_small}
use mbed_mqtt.Sn.Length.{sn_packet_encode, in_packet}
use mbed_mqtt.Sn.Opening.{in_packet_small, and_then-serialized}

module _ {A : Type 0} {w : Writer} (type : ℕ) (body : Bytes) (n : ℕ) (failed : A) (k : ℕ → Reader A)
    (a : A) where
  pub round_trip :
      Emits w body
      → ((rest : Bytes)
          → and_then (k (n + 2) (record { rest = body ++ rest; at = 2 })) (λ r. some r.0) ≡ some a)
      → type < 256
      → length body ≡ n
      → n < 254
      → (buf : Bytes) (buflen : ℕ) → n + 2 ≤ buflen
      → buflen ≤ length buf
      → and_then
          (checked (n + 2) buflen (sn_packet_encode (n + 2) >> write_char type >> w) buf)
          (λ r. on_buffer (in_packet buflen type failed k) r.1)
        ≡ some a
  unfolding on_buffer
  round_trip emits reads small size short buf buflen room fits =
      let image = packet_image type body in
      rw (serialized_small type body n buflen buf emits small size short fits) (
        rw
          (and_then-serialized (n + 2) buflen image buf
            (λ r. on_buffer (in_packet buflen type failed k) r.1) room)
          (rw
            (in_packet_small type body (drop (length image) buf) n buflen failed k size short room)
            (reads (drop (length image) buf))))
