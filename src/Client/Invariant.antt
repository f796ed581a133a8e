-- ===== src/Client/Invariant.antt =====
-- What every call of the client keeps, and that it ends: the relation between the states before and
-- after a call, and the rules to show it for a call from its parts.
pub mod Network
pub mod Read
pub mod Cycle
pub mod Loops
pub mod Commands
pub mod Sessions
use mbed_mqtt.Common.{
  ℕ, ◌≤◌, Bool, true, false, Bytes, List, Option, none, some, length, if◌then◌else◌, ◌≡◌, refl,
  arith, ◌∙◌,
}
use mbed_mqtt.Client.Handlers.Unique.{Keeps, Keeps-same}
use mbed_mqtt.Client.Platform.{Platform, Expires}
use mbed_mqtt.Client.Run.{pure, or_fault, ◌>>=◌, ◌>>◌}
use mbed_mqtt.Client.Run.Ensures.{
  Returns, Steps, Returns-then, Returns-after, Returns-bind, Ensures, Ensures-pure,
  Ensures-or_fault, Ensures-if, Ensures-bind, Ensures-next,
}
use mbed_mqtt.Client.State.{
  Client, State, Call, get, update, on_world, MqttClient, Slot, max_packet_id,
}

-- Packet identifiers are 16 bits and not 0.
abbrev pub IsPacketId : ℕ → Type 0
IsPacketId n = (1 ≤ n) × (n ≤ max_packet_id)

-- The parts of the client that a call may change only in this way.
pub record Kept {T H : Type 0} (c c' : Client T H) : Type 0 where
  pub buf_size : c'.buf_size ≡ c.buf_size
  pub readbuf_size : c'.readbuf_size ≡ c.readbuf_size
  pub buf : length c'.buf ≡ length c.buf
  pub readbuf : length c'.readbuf ≡ length c.readbuf
  pub handlers : Keeps c.message_handlers c'.message_handlers
  pub packetid : IsPacketId c.next_packetid → IsPacketId c'.next_packetid

pub Kept-same : {T H : Type 0} (c : Client T H) → Kept c c
Kept-same c = record {
  buf_size = refl;
  readbuf_size = refl;
  buf = refl;
  readbuf = refl;
  handlers = Keeps-same c.message_handlers;
  packetid = λ h. h;
}

-- The fields that the relation does not speak about.
pub Kept-link :
    {T H : Type 0} (c : Client T H) (interval ping connected clean : ℕ) (sent received : T)
    → Kept c (record c {
      keep_alive_interval = interval;
      ping_outstanding = ping;
      isconnected = connected;
      cleansession = clean;
      last_sent = sent;
      last_received = received;
    })
Kept-link c interval ping connected clean sent received = record {
  buf_size = refl;
  readbuf_size = refl;
  buf = refl;
  readbuf = refl;
  handlers = Keeps-same c.message_handlers;
  packetid = λ h. h;
}

-- The two buffers may change, in their bytes.
pub Kept-bytes :
    {T H : Type 0} (c : Client T H) (buf readbuf : Bytes)
    → length buf ≡ length c.buf
    → length readbuf ≡ length c.readbuf
    → Kept c (record c { buf = buf; readbuf = readbuf })
Kept-bytes c buf readbuf h k = record {
  buf_size = refl;
  readbuf_size = refl;
  buf = h;
  readbuf = k;
  handlers = Keeps-same c.message_handlers;
  packetid = λ i. i;
}

Keeps-both : {H : Type 0} {a b c : List (Slot H)} → Keeps a b → Keeps b c → Keeps a c
Keeps-both h k = record {
  same_length = k.same_length ∙ h.same_length;
  unique = λ u. k.unique (h.unique u);
}

Kept-both : {T H : Type 0} {a b c : Client T H} → Kept a b → Kept b c → Kept a c
Kept-both h k = record {
  buf_size = k.buf_size ∙ h.buf_size;
  readbuf_size = k.readbuf_size ∙ h.readbuf_size;
  buf = k.buf ∙ h.buf;
  readbuf = k.readbuf ∙ h.readbuf;
  handlers = Keeps-both h.handlers k.handlers;
  packetid = λ i. k.packetid (h.packetid i);
}

module _ (p : Platform) (rounds : ℕ) (e : Expires p rounds) where
  -- A call keeps the client in shape and puts off no timer.
  pub record Proceeds (s s' : State p) : Type 0 where
    pub kept : Kept s.client s'.client
    pub later : (t : p.Timer) → e.checks t s'.world ≤ e.checks t s.world

  pub Proceeds-steps : Steps Proceeds
  Proceeds-steps = record {
    stay = λ s. record { kept = Kept-same s.client; later = λ t. omega arith };
    both = λ s t u h k. record {
      kept = Kept-both h.kept k.kept;
      later = λ x. omega (arith, h.later x, k.later x);
    };
  }

  -- A call that ends, keeps the client in shape and puts off no timer; or it faults.
  abbrev pub Good : {A : Type 0} → Call p A → Type 0
  Good m = Ensures Proceeds m

  pub Good-pure : {A : Type 0} (a : A) → Good (pure a)
  Good-pure a = Ensures-pure Proceeds Proceeds-steps a

  pub Good-or_fault : {A : Type 0} (o : Option A) → Good (or_fault o)
  Good-or_fault o = Ensures-or_fault Proceeds Proceeds-steps o

  pub Good-if :
      {A : Type 0} (b : Bool) (m n : Call p A) → Good m → Good n → Good (if b then m else n)
  Good-if b m n h k = Ensures-if Proceeds Proceeds-steps b m n h k

  pub Good-bind :
      {A B : Type 0} (m : Call p A) (k : A → Call p B)
      → Good m
      → ((a : A) → Good (k a))
      → Good (m >>= k)
  Good-bind m k h hk = Ensures-bind Proceeds Proceeds-steps m k h hk

  pub Good-next : {A B : Type 0} (m : Call p A) (k : Call p B) → Good m → Good k → Good (m >> k)
  Good-next m k h hk = Ensures-next Proceeds Proceeds-steps m k h hk

  -- The same from one state.
  pub record Runs {A : Type 0} (m : Call p A) (s : State p) : Type 0 where
    pub at : Returns (λ a s'. Proceeds s s') (m s)

  pub Runs-Good : {A : Type 0} (m : Call p A) (s : State p) → Good m → Runs m s
  Runs-Good m s h = record { at = h.at s }

  pub Runs-if :
      {A : Type 0} (b : Bool) (m n : Call p A) (s : State p)
      → Runs m s
      → Runs n s
      → Runs (if b then m else n) s
  Runs-if true m n s h k = h
  Runs-if false m n s h k = k

  pub Runs-bind :
      {A B : Type 0} (m : Call p A) (k : A → Call p B) (s : State p)
      → Good m
      → ((a : A) (s' : State p) → Proceeds s s' → Runs (k a) s')
      → Runs (m >>= k) s
  Runs-bind m k s hm hk = record {
    at = Returns-bind Proceeds Proceeds-steps m k s hm (λ a s' h. (hk a s' h).at);
  }

  pub Good-on_world :
      {A : Type 0} (f : p.World → A × p.World)
      → ((t : p.Timer) (w : p.World) → e.checks t (f w).1 ≤ e.checks t w)
      → Good (on_world p f)
  Good-on_world f h = record {
    at = λ s. record { kept = Kept-same s.client; later = λ t. h t s.world };
  }

  pub Good-update :
      (f : MqttClient p → MqttClient p) → ((c : MqttClient p) → Kept c (f c)) → Good (update p f)
  Good-update f h = record { at = λ s. record { kept = h s.client; later = λ t. omega arith } }

  pub Good-get : {A : Type 0} (f : MqttClient p → A) → Good (get p f)
  Good-get f = record { at = λ s. record { kept = Kept-same s.client; later = λ t. omega arith } }

  -- What is read from the client is known of it until the next call.
  pub Good-read :
      {A B : Type 0} (f : MqttClient p → A) (k : A → Call p B)
      → ((s : State p) → Runs (k (f s.client)) s)
      → Good (get p f >>= k)
  Good-read f k h = record { at = λ s. (h s).at }

  then_or_fault :
      {A B : Type 0} (o : Option A) (k : A → Call p B) (s : State p)
      → ((a : A) → o ≡ some a → Runs (k a) s)
      → Returns (λ b s'. Proceeds s s') ((or_fault o >>= k) s)
  then_or_fault none k s h = tt
  then_or_fault (some a) k s h = (h a refl).at

  pub Runs-or_fault :
      {A B : Type 0} (o : Option A) (k : A → Call p B) (s : State p)
      → ((a : A) → o ≡ some a → Runs (k a) s)
      → Runs (or_fault o >>= k) s
  Runs-or_fault o k s h = record { at = then_or_fault o k s h }

  pub Runs-update :
      {B : Type 0} (f : MqttClient p → MqttClient p) (k : Call p B) (s : State p)
      → Kept s.client (f s.client)
      → Good k
      → Runs (update p f >> k) s
  Runs-update f k s h hk =
      let s' : State p = record s { client = f s.client } in
      record {
        at =
            Returns-after Proceeds Proceeds-steps s s' (k s')
              (record { kept = h; later = λ t. omega arith }) (hk.at s');
      }
