-- ===== src/Packet/Transport/Tests.antt =====
-- MQTTPacket_readnb at a concrete packet, on a transport that gives one byte for each call.
use mbed_mqtt.Common.{ℕ, zero, suc, Bytes, [], ◌∷◌, length, refl, ◌≡◌, arith}
use mbed_mqtt.Packet.Length.Laws.{rem_image, rem_image_small}
use mbed_mqtt.Packet.Transport.{Answer, again, got, Transport, packet_read_nb}
use mbed_mqtt.Packet.Transport.Laws.{Fed, Feeds}
use mbed_mqtt.Packet.Transport.Pieces.{Midway, at_header, Moves, packet_read_nb_lem}

abbrev one_byte : ℕ → Bytes → Answer Bytes
one_byte zero s = again s
one_byte (suc n) [] = again []
one_byte (suc n) (b ∷ s) = got b [] s

one_byte-Fed : (n : ℕ) (s : Bytes) → Fed (λ t. t) n s (one_byte n s)
one_byte-Fed zero s = refl
one_byte-Fed (suc n) [] = refl
one_byte-Fed (suc n) (b ∷ s) = (omega arith, refl)

feeds : Feeds one_byte
feeds = record { pending = λ s. s; answers = one_byte-Fed }

abbrev transport : Transport Bytes
transport = record {
  sck = 0x40 ∷ 2 ∷ 0 ∷ 9 ∷ 0xd0 ∷ 0 ∷ [];
  multiplier = 7;
  rem_len = 7;
  len = 7;
  state = 0;
}

abbrev buffer : Bytes
buffer = 1 ∷ 1 ∷ 1 ∷ 1 ∷ 1 ∷ []

abbrev body : Bytes
body = 0 ∷ 9 ∷ []

abbrev next_packet : Bytes
next_packet = 0xd0 ∷ 0 ∷ []

one_digit : 1 ≡ length (rem_image 2)
one_digit = rw (rem_image_small 2 (omega arith)) refl

starts : Midway one_byte feeds 0x40 body next_packet (1 ∷ []) buffer transport
unfolding feeds
starts =
    at_header 1 (1 ∷ []) (1 ∷ 1 ∷ []) refl refl one_digit refl
      (rw (rem_image_small 2 (omega arith)) refl)

packet_read_nb_lem_example :
    Moves one_byte feeds 0x40 body next_packet (1 ∷ []) (packet_read_nb one_byte 5 buffer transport)
packet_read_nb_lem_example =
    packet_read_nb_lem one_byte feeds 0x40 body next_packet (1 ∷ []) 5 buffer transport
      (omega arith) (omega (arith, one_digit)) starts
