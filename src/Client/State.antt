-- ===== src/Client/State.antt =====
-- struct MQTTClient of MQTTClient.h, and MQTTClientInit.
use mbed_mqtt.Common.{ℕ, Bytes, List, [], ◌∷◌, Option, none, ℤ, pos, negsuc, Bool}
use mbed_mqtt.Client.Platform.{Platform}
use mbed_mqtt.Client.Run.{Cmd, ok}
use mbed_mqtt.Packet.Ack.{Ack}
use mbed_mqtt.Packet.Publish.{Publish}

-- MAX_MESSAGE_HANDLERS, which a build may redefine.
abbrev pub max_message_handlers : ℕ
max_message_handlers = 5

-- MAX_PACKET_ID
abbrev pub max_packet_id : ℕ
max_packet_id = 65535

-- enum returnCode
abbrev pub buffer_overflow : ℤ
buffer_overflow = negsuc 1

abbrev pub failure : ℤ
failure = negsuc 0

abbrev pub success : ℤ
success = pos 0

-- struct MessageHandlers. A filter is a C string, without its terminator.
pub record Slot (Handler : Type 0) : Type 0 where
  pub topic_filter : Option Bytes
  pub fp : Option Handler

-- `buf` and `readbuf` are the memory from the two pointers on.
pub record Client (Timer Handler : Type 0) : Type 0 where
  pub next_packetid : ℕ
  pub command_timeout_ms : ℕ
  pub buf_size : ℕ
  pub readbuf_size : ℕ
  pub buf : Bytes
  pub readbuf : Bytes
  pub keep_alive_interval : ℕ
  pub ping_outstanding : ℕ
  pub isconnected : ℕ
  pub cleansession : ℕ
  pub message_handlers : List (Slot Handler)
  pub default_message_handler : Option Handler
  pub last_sent : Timer
  pub last_received : Timer

-- What C leaves open: whether `char` is signed, and the values of variables before they are set.
pub record Abi : Type 0 where
  pub signed_char : Bool
  pub publish : Publish
  pub ack : Ack
  pub packetid : ℕ

module _ (p : Platform) where
  abbrev pub MqttClient : Type 0
  MqttClient = Client p.Timer p.Handler

  -- The client beside the world; `ipstack` leads to the network in it.
  pub record State : Type 0 where
    pub client : MqttClient
    pub world : p.World

  abbrev pub Call : Type 0 → Type 0
  Call A = Cmd State A

  abbrev pub get : {A : Type 0} → (MqttClient → A) → Call A
  get f s = ok (f s.client) s

  abbrev pub update : (MqttClient → MqttClient) → Call (Unit {0})
  update f s = ok tt (record s { client = f s.client })

  -- A call of the platform.
  abbrev pub on_world : {A : Type 0} → (p.World → A × p.World) → Call A
  on_world f s = ok (f s.world).0 (record s { world = (f s.world).1 })

-- The loop of MQTTClientInit and of MQTTCleanSession: `topicFilter = 0` in every slot.
unfoldable pub clear_slots : {Handler : Type 0} → List (Slot Handler) → List (Slot Handler)
clear_slots [] = []
clear_slots (slot ∷ slots) = record slot { topic_filter = none } ∷ clear_slots slots

-- MQTTClientInit. `old` is the memory of the structure before the call: the keep alive interval and
-- the handlers of the empty slots are not set.
unfoldable pub client_init :
    (p : Platform) → MqttClient p → ℕ → Bytes → ℕ → Bytes → ℕ → MqttClient p
unfolding clear_slots
client_init p old command_timeout_ms sendbuf sendbuf_size readbuf readbuf_size = record old {
  message_handlers = clear_slots old.message_handlers;
  command_timeout_ms = command_timeout_ms;
  buf = sendbuf;
  buf_size = sendbuf_size;
  readbuf = readbuf;
  readbuf_size = readbuf_size;
  isconnected = 0;
  cleansession = 0;
  ping_outstanding = 0;
  default_message_handler = none;
  next_packetid = 1;
  last_sent = p.timer_init;
  last_received = p.timer_init;
}
