-- ===== src/Client/Platform.antt =====
-- What the platform gives to the client: the network of MQTTClient.h, its timers, and the message
-- handlers of the application.
use mbed_mqtt.Common.{ℕ, ◌≤◌, ◌<◌, Bool, false, Bytes, ℤ, ◌≡◌}
use mbed_mqtt.Packet.Strings.{MqttString}

-- MQTTMessage. `payload` is the memory from the pointer on; `payloadlen` has the bits of an `int`,
-- which is what is stored in it.
pub record Message : Type 0 where
  pub qos : ℕ
  pub retained : ℕ
  pub dup : ℕ
  pub id : ℕ
  pub payload : Bytes
  pub payloadlen : ℤ

-- MessageData, by the values that its pointers lead to.
pub record MessageData : Type 0 where
  pub message : Message
  pub topic_name : MqttString

-- `World` is the state of the network, the clock and the application.
pub record Platform : Type 1 where
  pub World : Type 0
  pub Timer : Type 0
  pub Handler : Type 0
  -- TimerInit, TimerCountdownMS, TimerCountdown, TimerIsExpired, TimerLeftMS
  pub timer_init : Timer
  pub countdown_ms : Timer → ℕ → World → Timer × World
  pub countdown : Timer → ℕ → World → Timer × World
  pub is_expired : Timer → World → Bool × World
  pub left_ms : Timer → World → ℤ × World
  -- mqttread for a number of bytes and a timeout: its result, and the bytes that it stored
  pub mqttread : ℕ → ℤ → World → ℤ × Bytes × World
  -- mqttwrite of the given bytes with a timeout
  pub mqttwrite : Bytes → ℤ → World → ℤ × World
  pub call : Handler → MessageData → World → World

-- Every timer expires: `checks` bounds the number of times that it can still be found running, and
-- nothing that happens puts it off.
pub record Expires (p : Platform) (rounds : ℕ) : Type 0 where
  pub checks : p.Timer → p.World → ℕ
  pub bounded : (t : p.Timer) (w : p.World) → checks t w < rounds
  pub running :
      (t : p.Timer) (w : p.World)
      → (p.is_expired t w).0 ≡ false
      → checks t (p.is_expired t w).1 < checks t w
  pub on_check : (t u : p.Timer) (w : p.World) → checks t (p.is_expired u w).1 ≤ checks t w
  pub on_left : (t u : p.Timer) (w : p.World) → checks t (p.left_ms u w).1 ≤ checks t w
  pub on_countdown_ms :
      (t u : p.Timer) (n : ℕ) (w : p.World) → checks t (p.countdown_ms u n w).1 ≤ checks t w
  pub on_countdown :
      (t u : p.Timer) (n : ℕ) (w : p.World) → checks t (p.countdown u n w).1 ≤ checks t w
  pub on_read :
      (t : p.Timer) (n : ℕ) (timeout : ℤ) (w : p.World)
      → checks t (p.mqttread n timeout w).2 ≤ checks t w
  pub on_write :
      (t : p.Timer) (bs : Bytes) (timeout : ℤ) (w : p.World)
      → checks t (p.mqttwrite bs timeout w).1 ≤ checks t w
  pub on_call :
      (t : p.Timer) (h : p.Handler) (d : MessageData) (w : p.World)
      → checks t (p.call h d w) ≤ checks t w
