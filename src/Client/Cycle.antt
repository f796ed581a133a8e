-- ===== src/Client/Cycle.antt =====
-- The work of the client on incoming packets, of MQTTClient.c: keepalive, cycle, MQTTYield, waitfor.
use mbed_mqtt.Common.{
  ℕ, zero, suc, Bool, true, false, ◌||◌, ◌&&◌, Bytes, Option, ltb, ◌==◌, if◌then◌else◌, ℤ, pos,
  negsuc,
}
use mbed_mqtt.Client.Handlers.{close_session, deliver_message}
use mbed_mqtt.Client.Network.{is_negative, is_success, to_ℕ, is_expired, send_packet, read_packet}
use mbed_mqtt.Client.Platform.{Platform, Message}
use mbed_mqtt.Client.Run.{hung, pure, or_fault, ◌>>=◌, ◌>>◌}
use mbed_mqtt.Client.State.{Call, get, update, on_world, Abi, failure, success}
use mbed_mqtt.Packet.Ack.{serialize_ack, deserialize_ack, serialize_pingreq}
use mbed_mqtt.Packet.Connect.{is_set}
use mbed_mqtt.Packet.Length.{is_one}
use mbed_mqtt.Packet.MsgType
use mbed_mqtt.Packet.Publish.{Publish, deserialize_publish}

abbrev pub is_positive : ℤ → Bool
is_positive (pos n) = ltb 0 n
is_positive (negsuc n) = false

-- `rc == packet_type`, for a packet type.
abbrev pub is_type : ℤ → ℕ → Bool
is_type (pos n) t = n == t
is_type (negsuc n) t = false

-- How a case of the `switch` ends: at `goto exit` or at `break`, with `rc`.
pub data Ending : Type 0 where
  leave : ℤ → Ending
  go_on : ℤ → Ending

abbrev pub message_of : Publish → Message
message_of m = record {
  qos = m.qos;
  retained = m.retained;
  dup = m.dup;
  id = m.packetid;
  payload = m.payload;
  payloadlen = m.payloadlen;
}

module _ (p : Platform) where
  -- A serializer on `c->buf`, `c->buf_size`.
  unfoldable pub serialize : (Bytes → ℕ → Option (ℤ × Bytes)) → Call p ℤ
  serialize f = do
    c ← get p (λ c. c)
    r ← or_fault (f c.buf c.buf_size)
    update p (λ c'. record c' { buf = r.1 })
    pure r.0

  -- A deserializer on `c->readbuf`.
  abbrev pub deserialize : {A : Type 0} → (Bytes → Option A) → Call p A
  deserialize f = get p (λ c. c.readbuf) >>= λ readbuf. or_fault (f readbuf)

  -- TimerInit and TimerCountdownMS on a local timer.
  abbrev pub new_timer : ℕ → Call p p.Timer
  new_timer ms = on_world p (p.countdown_ms p.timer_init ms)

  -- `len > 0 && sendPacket(...) == SUCCESS`, and what is done in either case.
  abbrev pub send_serialized : ℕ → ℤ → p.Timer → ℤ → Call p ℤ
  send_serialized rounds len timer otherwise =
      if is_positive len then send_packet p rounds (to_ℕ len) timer else pure otherwise

  unfoldable pub ping_due : Call p Bool
  ping_due = do
    c ← get p (λ c. c)
    sent ← is_expired p c.last_sent
    if sent then pure true else is_expired p c.last_received

  unfoldable pub ping : ℕ → Call p ℤ
  unfolding serialize
  ping rounds = do
    timer ← new_timer 1000
    len ← serialize serialize_pingreq
    rc ← send_serialized rounds len timer success
    (if is_positive len && is_success rc
        then update p (λ c. record c { ping_outstanding = 1 })
        else pure tt)
    pure rc

  unfoldable pub keepalive : ℕ → Call p ℤ
  unfolding ping_due ping
  keepalive rounds = do
    c ← get p (λ c. c)
    let check = ping_due >>= λ due.
        if due
        then (if is_set c.ping_outstanding then pure failure else ping rounds)
        else pure success
    if c.keep_alive_interval == 0 then pure success else check

  abbrev pub ack_length : Publish → Call p ℤ
  ack_length m =
      if m.qos == 1
      then serialize (λ buf size. serialize_ack buf size MsgType.puback 0 m.packetid)
      else if m.qos == 2
      then serialize (λ buf size. serialize_ack buf size MsgType.pubrec 0 m.packetid)
      else pure (pos 0)

  abbrev pub ending_of : ℤ → Ending
  ending_of rc = if is_success rc then go_on success else leave failure

  unfoldable pub acknowledge : ℕ → p.Timer → Publish → Call p Ending
  unfolding serialize
  acknowledge rounds timer m = do
    len ← ack_length m
    rc ← send_serialized rounds len timer failure
    pure (ending_of rc)

  -- case PUBLISH
  unfoldable pub on_publish : Abi → ℕ → p.Timer → Call p Ending
  unfolding acknowledge
  on_publish abi rounds timer = do
    r ← deserialize (deserialize_publish (record (abi.publish) { payloadlen = pos 0 }))
    let answer = if r.1.qos == 0 then pure (go_on success) else acknowledge rounds timer r.1
    let handle = deliver_message p r.1.topic_name (message_of r.1) >> answer
    if is_one r.0 then handle else pure (leave success)

  -- case PUBREC, case PUBREL
  unfoldable pub on_ack : Abi → ℕ → ℕ → p.Timer → Call p Ending
  unfolding serialize
  on_ack abi rounds packet_type timer = do
    r ← deserialize (deserialize_ack abi.ack)
    let type = if packet_type == MsgType.pubrec then MsgType.pubrel else MsgType.pubcomp
    let answer = serialize (λ buf size. serialize_ack buf size type 0 r.1.packetid) >>= λ len.
        send_serialized rounds len timer failure >>= λ rc. pure (ending_of rc)
    if is_one r.0 then answer else pure (leave failure)

  abbrev pub is_ignored : ℕ → Bool
  is_ignored n =
      n == 0
      || n == MsgType.connack
      || n == MsgType.puback
      || n == MsgType.suback
      || n == MsgType.unsuback
      || n == MsgType.pubcomp

  -- The `switch` of cycle.
  unfoldable pub dispatch : Abi → ℕ → p.Timer → ℤ → Call p Ending
  unfolding on_publish on_ack
  dispatch abi rounds timer (negsuc n) = pure (leave (negsuc n))
  dispatch abi rounds timer (pos n) =
      if is_ignored n
      then pure (go_on success)
      else if n == MsgType.publish
      then on_publish abi rounds timer
      else if n == MsgType.pubrec || n == MsgType.pubrel
      then on_ack abi rounds n timer
      else if n == MsgType.pingresp
      then update p (λ c. record c { ping_outstanding = 0 }) >> pure (go_on success)
      else pure (leave (pos n))

  abbrev pub after_switch : ℕ → Ending → Call p ℤ
  after_switch rounds (leave rc) = pure rc
  after_switch rounds (go_on rc) =
      keepalive rounds >>= λ k. pure (if is_success k then rc else failure)

  -- What stands behind the label `exit`.
  abbrev pub exit_cycle : ℤ → ℤ → Call p ℤ
  exit_cycle packet_type rc =
      if is_success rc
      then pure packet_type
      else update p (λ c. if is_set c.isconnected then close_session p c else c) >> pure rc

  unfoldable pub cycle : Abi → ℕ → p.Timer → Call p ℤ
  cycle abi rounds timer = do
    packet_type ← read_packet p timer
    ending ← dispatch abi rounds timer packet_type
    rc ← after_switch rounds ending
    exit_cycle packet_type rc

  -- The rounds of the loop of MQTTYield.
  unfoldable pub yield_loop : Abi → ℕ → ℕ → p.Timer → Call p ℤ
  yield_loop abi rounds zero timer = λ s. hung
  yield_loop abi rounds (suc left) timer = cycle abi rounds timer >>= λ rc.
      let again = is_expired p timer >>= λ expired.
      let more = yield_loop abi rounds left timer in if expired then pure success else more in
      if is_negative rc then pure failure else again

  unfoldable pub yield : Abi → ℕ → ℕ → Call p ℤ
  unfolding yield_loop
  yield abi rounds timeout_ms = do timer ← new_timer timeout_ms; yield_loop abi rounds rounds timer

  -- The rounds of the loop of waitfor, with the `rc` of the round before.
  unfoldable pub wait_loop : Abi → ℕ → ℕ → ℕ → p.Timer → ℤ → Call p ℤ
  wait_loop abi rounds zero packet_type timer rc = λ s. hung
  wait_loop abi rounds (suc left) packet_type timer rc = is_expired p timer >>= λ expired.
      let round = cycle abi rounds timer >>= λ rc'.
      let more = wait_loop abi rounds left packet_type timer rc' in
      if is_type rc' packet_type || is_negative rc' then pure rc' else more in
      if expired then pure rc else round

  unfoldable pub waitfor : Abi → ℕ → ℕ → p.Timer → Call p ℤ
  unfolding wait_loop
  waitfor abi rounds packet_type timer = wait_loop abi rounds rounds packet_type timer failure
