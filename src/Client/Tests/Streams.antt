-- ===== src/Client/Tests/Streams.antt =====
-- The theorems on packets to and from the network, on a network that keeps its bytes in lists.
use mbed_mqtt.Common.{
  ◌<◌, ◌^◌, Bool, true, false, Bytes, [], ◌∷◌, ◌++◌, length, length-take, take, pos, ◌≡◌, refl, ap,
  arith,
}
use mbed_mqtt.Client.Cycle.{cycle}
use mbed_mqtt.Client.Network.{send_packet, read_packet}
use mbed_mqtt.Client.Platform.{Platform}
use mbed_mqtt.Client.Run.{fault}
use mbed_mqtt.Client.State.{State, success}
use mbed_mqtt.Client.Send.{Accepts, Sent, send_packet_lem, send_packet_overreads}
use mbed_mqtt.Client.Stream.{Delivers, Gives, Holds}
use mbed_mqtt.Client.Stream.Packet.{read_packet_lem}
use mbed_mqtt.Packet.Frame.{packet_image}
use mbed_mqtt.Packet.Header.{Fits, Header, header_image, header_bits}
use mbed_mqtt.Packet.Length.Laws.{rem_image_small}
use mbed_mqtt.Client.Tests.{Network, tick, platform, abi, zeros, client, start}
use mbed_mqtt.Client.Stream.Delivery.{message_data, Delivered, cycle_publish_lem}
use mbed_mqtt.Packet.MsgType
use mbed_mqtt.Packet.Strings.Laws.{string_image}
use mbed_mqtt.Packet.Writer.Emits.{int_image}
use mbed_mqtt.Packet.Publish.Laws.{publish_header, publish_body}

tick-output : (b : Bool) (w : Network) → (tick b w).1.output ≡ w.output
tick-output true w = refl
tick-output false w = refl

accepts : Accepts platform
accepts = record {
  sent = λ w. w.output;
  result = λ bs timeout w. refl;
  taken = λ bs timeout w. refl;
  on_check = λ t w. tick-output _ w;
  on_left = λ t w. refl;
  on_countdown = λ t n w. refl;
}

send_packet_lem_example :
    Gives
      (λ rc s'. (rc ≡ success) × Sent platform accepts (zeros 4) start s')
      (send_packet platform 11 4 5 start)
send_packet_lem_example =
    send_packet_lem platform accepts 9 4 5 start refl (omega arith) (omega arith)

-- The same network, but a write takes three bytes at most.
abbrev slow_platform : Platform
slow_platform = record platform {
  mqttwrite =
      λ bs timeout w. (pos (length (take 3 bs)), record w { output = w.output ++ take 3 bs });
}

abbrev small_client : State slow_platform
small_client = record {
  client = record client { buf_size = 4; buf = zeros 4 };
  world = start.world;
}

send_packet_overreads_example : send_packet slow_platform 11 4 5 small_client ≡ fault
send_packet_overreads_example =
    send_packet_overreads slow_platform 9 4 3 5 small_client (omega arith) (omega arith)
      (omega arith) refl refl refl

delivers : Delivers platform
delivers = record {
  pending = λ w. w.input;
  result = λ n timeout w h. ap pos (length-take n w.input h);
  bytes = λ n timeout w h. refl;
  left = λ n timeout w h. refl;
  on_left = λ t w. refl;
  on_countdown = λ t n w. refl;
}

abbrev in_header : Header
in_header = record { type = 3; dup = 0; qos = 1; retain = 0 }

abbrev in_body : Bytes
in_body = 0 ∷ 3 ∷ b'a' ∷ b'/' ∷ b'b' ∷ 0 ∷ 9 ∷ b'x' ∷ []

start-Holds :
    Holds platform delivers
      (zeros 10 ++ zeros 6)
      client
      (packet_image in_header in_body ++ 0x40 ∷ 2 ∷ 0 ∷ 1 ∷ [])
      start
unfolding packet_image header_image delivers
start-Holds = record {
  readbuf = refl;
  readbuf_size = refl;
  handlers = refl;
  default_handler = refl;
  keep_alive = refl;
  pending = rw (rem_image_small 8 (omega arith)) refl;
}

publish-fits : length (zeros 10) ≡ length (packet_image in_header in_body)
unfolding packet_image
publish-fits = rw (rem_image_small 8 (omega arith)) refl

read_packet_lem_example :
    Gives
      (λ rc s'.
        (rc ≡ pos (header_bits (header_image in_header)).type)
        × Holds platform delivers
            (packet_image in_header in_body ++ zeros 6)
            client
            (0x40 ∷ 2 ∷ 0 ∷ 1 ∷ [])
            s')
      (read_packet platform 5 start)
read_packet_lem_example =
    read_packet_lem platform delivers 5 in_header in_body (0x40 ∷ 2 ∷ 0 ∷ 1 ∷ []) (zeros 10)
      (zeros 6) client start start-Holds (omega arith) publish-fits (omega arith)

-- The same client, and a PUBLISH with QoS 0 on the network.
abbrev listening : State platform
listening = record {
  client = client;
  world = record {
    now = 0;
    input = 0x30 ∷ 6 ∷ 0 ∷ 3 ∷ b'a' ∷ b'/' ∷ b'b' ∷ b'x' ∷ 0x40 ∷ 2 ∷ 0 ∷ 1 ∷ [];
    output = [];
    calls = [];
  };
}

abbrev name : Bytes
name = b'a' ∷ b'/' ∷ b'b' ∷ []

abbrev payload : Bytes
payload = b'x' ∷ []

listening-Holds :
    Holds platform delivers
      (zeros 8 ++ zeros 8)
      client
      (packet_image (publish_header 0 0 0) (publish_body 0 0 name payload) ++ 0x40 ∷ 2 ∷ 0 ∷ 1 ∷ [])
      listening
unfolding packet_image header_image delivers publish_body string_image int_image
listening-Holds = record {
  readbuf = refl;
  readbuf_size = refl;
  handlers = refl;
  default_handler = refl;
  keep_alive = refl;
  pending = rw (rem_image_small 6 (omega arith)) refl;
}

listening-fits :
    length (zeros 8) ≡ length (packet_image (publish_header 0 0 0) (publish_body 0 0 name payload))
unfolding packet_image publish_body string_image int_image
listening-fits = rw (rem_image_small 6 (omega arith)) refl

listening-short : length (publish_body 0 0 name payload) < 2 ^ 28
unfolding publish_body string_image int_image
listening-short = omega arith

header-Fits : Fits (publish_header 0 0 0)
header-Fits = record {
  type_fits = omega arith;
  dup_fits = omega arith;
  qos_fits = omega arith;
  retain_fits = omega arith;
}

cycle_publish_lem_example :
    Gives
      (λ rc s'.
        (rc ≡ pos MsgType.publish)
        × Delivered platform delivers
            (message_data abi 0 0 name payload (zeros 8))
            client
            (0x40 ∷ 2 ∷ 0 ∷ 1 ∷ [])
            s')
      (cycle platform abi 11 5 listening)
cycle_publish_lem_example =
    cycle_publish_lem platform delivers abi 11 5 client 0 0 0 name payload (0x40 ∷ 2 ∷ 0 ∷ 1 ∷ [])
      (zeros 8) (zeros 8) listening header-Fits (omega arith) (omega arith) listening-short
      listening-fits (omega arith) refl listening-Holds
