-- ===== src/Client/Tests.antt =====
-- A platform with a clock of ten ticks, and a client on it.
mod Ends
mod Parts
mod Streams
use mbed_mqtt.Common.{
  ℕ, zero, suc, ◌+◌, ◌-◌, ◌<◌, ◌≤◌, Bool, true, false, ◌&&◌, Bytes, List, [], ◌∷◌, ◌++◌, none, some,
  length, take, drop, ltb, pos, ◌≡◌, arith,
}
use mbed_mqtt.Client.Platform.{Platform, Expires, Message}
use mbed_mqtt.Client.State.{Slot, State, MqttClient, Abi}

record Network : Type 0 where
  now : ℕ
  input : Bytes
  output : Bytes
  calls : List ℕ

-- Each check of a running timer takes a tick, and at the end of the clock all timers have expired.
abbrev tick : Bool → Network → Bool × Network
tick true w = (false, record w { now = w.now + 1 })
tick false w = (true, w)

abbrev platform : Platform
platform = record {
  World = Network;
  Timer = ℕ;
  Handler = ℕ;
  timer_init = 0;
  countdown_ms = λ t ms w. (w.now + ms, w);
  countdown = λ t s w. (w.now + s, w);
  is_expired = λ t w. tick (ltb w.now t && ltb w.now 10) w;
  left_ms = λ t w. (pos (t - w.now), w);
  mqttread = λ n timeout w.
      (pos (length (take n w.input)), take n w.input, record w { input = drop n w.input });
  mqttwrite = λ bs timeout w. (pos (length bs), record w { output = w.output ++ bs });
  call = λ h d w. record w { calls = h ∷ w.calls };
}

tick-running :
    (t n : ℕ) (w : Network)
    → (tick (ltb w.now t && ltb w.now 10) w).0 ≡ false
    → 10 - (tick (ltb w.now t && ltb w.now 10) w).1.now < 10 - w.now
tick-running t n w h = ground arith

tick-on_check : (b : Bool) (w : Network) → 10 - (tick b w).1.now ≤ 10 - w.now
tick-on_check true w = omega arith
tick-on_check false w = omega arith

expires : Expires platform 11
expires = record {
  checks = λ t w. 10 - w.now;
  bounded = λ t w. omega arith;
  running = λ t w h. tick-running t 0 w h;
  on_check = λ t u w. tick-on_check _ w;
  on_left = λ t u w. omega arith;
  on_countdown_ms = λ t u n w. omega arith;
  on_countdown = λ t u n w. omega arith;
  on_read = λ t n timeout w. omega arith;
  on_write = λ t bs timeout w. omega arith;
  on_call = λ t h d w. omega arith;
}

abbrev abi : Abi
abi = record {
  signed_char = false;
  publish = record {
    dup = 0;
    qos = 0;
    retained = 0;
    packetid = 0;
    topic_name = record { cstring = none; len = 0; data_ = none };
    payload = [];
    payloadlen = pos 0;
  };
  ack = record { packettype = 0; dup = 0; packetid = 0 };
  packetid = 0;
}

abbrev zeros : ℕ → Bytes
zeros zero = []
zeros (suc n) = 0 ∷ zeros n

-- The filter "a/#" with the handler 7, and a free slot.
abbrev table : List (Slot ℕ)
table =
    record { topic_filter = some (b'a' ∷ b'/' ∷ b'#' ∷ []); fp = some 7 }
    ∷ record { topic_filter = none; fp = none }
    ∷ []

abbrev client : MqttClient platform
client = record {
  next_packetid = 65535;
  command_timeout_ms = 5;
  buf_size = 16;
  readbuf_size = 16;
  buf = zeros 16;
  readbuf = zeros 16;
  keep_alive_interval = 0;
  ping_outstanding = 0;
  isconnected = 1;
  cleansession = 1;
  message_handlers = table;
  default_message_handler = none;
  last_sent = 0;
  last_received = 0;
}

-- A PUBLISH of "x" on "a/b" comes in, with QoS 1 and the identifier 9, and a PUBACK behind it.
abbrev start : State platform
start = record {
  client = client;
  world = record {
    now = 0;
    input = 0x32 ∷ 8 ∷ 0 ∷ 3 ∷ b'a' ∷ b'/' ∷ b'b' ∷ 0 ∷ 9 ∷ b'x' ∷ 0x40 ∷ 2 ∷ 0 ∷ 1 ∷ [];
    output = [];
    calls = [];
  };
}

abbrev message : Message
message = record { qos = 1; retained = 0; dup = 0; id = 0; payload = b'y' ∷ []; payloadlen = pos 1 }

abbrev topic : Bytes
topic = b't' ∷ []
