-- ===== src/Client/Stream.antt =====
-- A network that delivers a known stream of bytes, and where the client stands in it.
pub mod Length
pub mod Packet
pub mod Delivery
use mbed_mqtt.Common.{ℕ, ◌≤◌, Bytes, length, take, drop, ℤ, pos, ◌≡◌}
use mbed_mqtt.Client.Platform.{Platform}
use mbed_mqtt.Client.Run.{Run, ok, fault, hung, Cmd, then_run}
use mbed_mqtt.Client.State.{State, MqttClient}

-- `pending` are the bytes that have come in and are not read yet. mqttread gives as many as it is
-- asked for when they are there, and neither the timers nor the clock change them.
pub record Delivers (p : Platform) : Type 0 where
  pub pending : p.World → Bytes
  pub result :
      (n : ℕ) (timeout : ℤ) (w : p.World)
      → n ≤ length (pending w)
      → (p.mqttread n timeout w).0 ≡ pos n
  pub bytes :
      (n : ℕ) (timeout : ℤ) (w : p.World)
      → n ≤ length (pending w)
      → (p.mqttread n timeout w).1 ≡ take n (pending w)
  pub left :
      (n : ℕ) (timeout : ℤ) (w : p.World)
      → n ≤ length (pending w)
      → pending (p.mqttread n timeout w).2 ≡ drop n (pending w)
  pub on_left : (t : p.Timer) (w : p.World) → pending (p.left_ms t w).1 ≡ pending w
  pub on_countdown : (t : p.Timer) (n : ℕ) (w : p.World) → pending (p.countdown t n w).1 ≡ pending w

-- The call returns, and `Q` holds of the result.
abbrev pub Gives : {S A : Type 0} → (A → S → Type 0) → Run S A → Type 0
Gives Q (ok a s) = Q a s
Gives Q fault = ⊥
Gives Q hung = ⊥

pub Gives-then :
    {S A B : Type 0} (Q : A → S → Type 0) (Q' : B → S → Type 0) (r : Run S A) (k : A → Cmd S B)
    → Gives Q r
    → ((a : A) (s : S) → Q a s → Gives Q' (k a s))
    → Gives Q' (then_run r k)
Gives-then Q Q' (ok a s) k h kh = kh a s h
Gives-then Q Q' fault k h kh = h
Gives-then Q Q' hung k h kh = h

module _ (p : Platform) (d : Delivers p) where
  -- What stands in the read buffer, what the client `from` has in other fields, and what is still
  -- to be read.
  pub record Holds (mem : Bytes) (from : MqttClient p) (bs : Bytes) (s : State p) : Type 0 where
    pub readbuf : s.client.readbuf ≡ mem
    pub readbuf_size : s.client.readbuf_size ≡ from.readbuf_size
    pub handlers : s.client.message_handlers ≡ from.message_handlers
    pub default_handler : s.client.default_message_handler ≡ from.default_message_handler
    pub keep_alive : s.client.keep_alive_interval ≡ from.keep_alive_interval
    pub pending : d.pending s.world ≡ bs
