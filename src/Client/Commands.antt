-- ===== src/Client/Commands.antt =====
-- The calls of the application, of MQTTClient.c: connect, subscribe, unsubscribe, publish,
-- disconnect.
use mbed_mqtt.Common.{
  ℕ, Bool, true, false, ◌||◌, ◌&&◌, not, Bytes, List, [], ◌∷◌, Option, none, some, ◌==◌,
  if◌then◌else◌, ℤ, pos, negsuc,
}
use mbed_mqtt.Client.Cycle.{is_positive, is_type, serialize, deserialize, new_timer, waitfor}
use mbed_mqtt.Client.Handlers.{set_message_handler, close_session}
use mbed_mqtt.Client.Network.{
  is_success, to_ℕ, get_next_packet_id, countdown_last_received, send_packet,
}
use mbed_mqtt.Client.Platform.{Platform, Message}
use mbed_mqtt.Client.Run.{pure, or_fault, ◌>>=◌, ◌>>◌}
use mbed_mqtt.Client.State.{Call, get, update, Abi, failure, success}
use mbed_mqtt.Packet.Ack.{deserialize_ack, serialize_disconnect}
use mbed_mqtt.Packet.Connack.{ConnackData, deserialize_connack}
use mbed_mqtt.Packet.Connect.{is_set, ConnectData, serialize_connect}
use mbed_mqtt.Packet.Length.{is_one}
use mbed_mqtt.Packet.MsgType
use mbed_mqtt.Packet.Publish.{serialize_publish}
use mbed_mqtt.Packet.Strings.{MqttString}
use mbed_mqtt.Packet.Suback.{deserialize_suback}
use mbed_mqtt.Packet.Subscribe.{serialize_subscribe}
use mbed_mqtt.Packet.Unsubscribe.{serialize_unsubscribe, deserialize_unsuback}

abbrev no_string : MqttString
no_string = record { cstring = none; len = 0; data_ = none }

-- `topic.cstring = topicName`
abbrev pub topic_string : Bytes → MqttString
topic_string t = record no_string { cstring = some t }

-- MQTTPacket_connectData_initializer
abbrev pub default_options : ConnectData
default_options = record {
  mqtt_version = 4;
  client_id = no_string;
  keep_alive_interval = 60;
  cleansession = 1;
  will_flag = 0;
  will = record { topic_name = no_string; message = no_string; retained = 0; qos = 0 };
  username = no_string;
  password = no_string;
}

abbrev pub or_default : Option ConnectData → ConnectData
or_default none = default_options
or_default (some options) = options

abbrev pub is_failure : ℤ → Bool
is_failure (pos n) = false
is_failure (negsuc n) = n == 0

-- The variable `grantedQoS` has room for one entry of the array that it is passed as: a second entry
-- is written outside.
abbrev pub granted_qos : List ℤ → Option ℤ
granted_qos [] = some (pos 0)
granted_qos (q ∷ []) = some q
granted_qos (q ∷ r ∷ qs) = none

-- `grantedQoS != 0x80`
abbrev pub is_granted : ℤ → Bool
is_granted (pos q) = not (q == 128)
is_granted (negsuc q) = true

module _ (p : Platform) (abi : Abi) (rounds : ℕ) where
  -- `waitfor(c, packet_type, &timer) == packet_type`, and what follows if so; else FAILURE.
  abbrev pub answered : ℕ → p.Timer → Call p ℤ → Call p ℤ
  answered packet_type timer handle = do
    rc ← waitfor p abi rounds packet_type timer
    if is_type rc packet_type then handle else pure failure

  -- The packet of `len` bytes is sent, and then comes `next`; `len` or the result of sendPacket may
  -- send the code to `exit`.
  abbrev pub sent : ℤ → p.Timer → Call p ℤ → Call p ℤ
  sent len timer next =
      let send =
        send_packet p rounds (to_ℕ len) timer >>= λ rc. if is_success rc then next else pure rc in
      if is_positive len then send else pure failure

  -- `if (rc == FAILURE) MQTTCloseSession(c);`
  abbrev pub or_close : Call p ℤ → Call p ℤ
  or_close m = do rc ← m; (if is_failure rc then update p (close_session p) else pure tt); pure rc

  abbrev pub if_connected : Call p ℤ → Call p ℤ
  if_connected m = do c ← get p (λ c. c); if is_set c.isconnected then m else pure failure

  -- `MQTTDeserialize_ack(...) != 1` gives FAILURE, else `rc` is still SUCCESS.
  abbrev pub read_ack : Call p ℤ
  read_ack = do
    r ← deserialize p (deserialize_ack abi.ack)
    pure (if is_one r.0 then success else failure)

  -- The result with `*data`; a data structure that is not reached keeps its old value.
  abbrev pub read_connack : Call p (ℤ × ConnackData)
  read_connack = do
    r ← deserialize p (deserialize_connack (record { session_present = 0; connack_rc = 0 }))
    let rc : ℤ = if is_one r.0 then pos r.1.connack_rc else failure
    pure (rc, r.1)

  abbrev pub await_connack : p.Timer → ConnackData → Call p (ℤ × ConnackData)
  await_connack timer old = do
    rc ← waitfor p abi rounds MsgType.connack timer
    if is_type rc MsgType.connack then read_connack else pure (failure, old)

  unfoldable pub connect_new : ConnectData → ConnackData → Call p (ℤ × ConnackData)
  connect_new options old = do
    c ← get p (λ c. c)
    timer ← new_timer p c.command_timeout_ms
    update p (λ c'. record c' {
      keep_alive_interval = options.keep_alive_interval;
      cleansession = options.cleansession;
    })
    countdown_last_received p
    len ← serialize p (λ buf size. serialize_connect buf size options)
    let send = send_packet p rounds (to_ℕ len) timer >>= λ rc.
        if is_success rc then await_connack timer old else pure (rc, old)
    if is_positive len then send else pure (failure, old)

  unfoldable pub connect_with_results : Option ConnectData → ConnackData → Call p (ℤ × ConnackData)
  unfolding connect_new
  connect_with_results options old = do
    c ← get p (λ c. c)
    r ← (if is_set c.isconnected then pure (failure, old) else connect_new (or_default options) old)
    (if is_success r.0
        then update p (λ c'. record c' { isconnected = 1; ping_outstanding = 0 })
        else pure tt)
    pure r

  -- MQTTConnect, with a local variable `data`.
  unfoldable pub connect : Option ConnectData → ConnackData → Call p ℤ
  unfolding connect_with_results
  connect options data_ = connect_with_results options data_ >>= λ r. pure r.0

  unfoldable pub read_suback : Bytes → Option p.Handler → Call p (ℤ × ℤ)
  read_suback topic_filter handler = do
    r ←
        deserialize p
          (deserialize_suback abi.signed_char 1 (record { packetid = abi.packetid; granted = [] }))
    q ← or_fault (granted_qos r.1.granted)
    let set = set_message_handler p topic_filter handler >>= λ rc. pure (rc, q)
    if is_one r.0 && is_granted q then set else pure (success, q)

  abbrev pub await_suback : Bytes → Option p.Handler → p.Timer → ℤ → Call p (ℤ × ℤ)
  await_suback topic_filter handler timer old = do
    rc ← waitfor p abi rounds MsgType.suback timer
    if is_type rc MsgType.suback then read_suback topic_filter handler else pure (failure, old)

  unfoldable pub subscribe_connected : Bytes → ℕ → Option p.Handler → ℤ → Call p (ℤ × ℤ)
  unfolding read_suback
  subscribe_connected topic_filter qos handler old = do
    c ← get p (λ c. c)
    timer ← new_timer p c.command_timeout_ms
    id ← get_next_packet_id p
    len ←
        serialize p
          (λ buf size. serialize_subscribe buf size 0 id ((topic_string topic_filter, qos) ∷ []))
    let send = send_packet p rounds (to_ℕ len) timer >>= λ rc.
        if is_success rc then await_suback topic_filter handler timer old else pure (rc, old)
    if is_positive len then send else pure (failure, old)

  -- The result with `data->grantedQoS`, whose old value is passed in.
  unfoldable pub subscribe_with_results : Bytes → ℕ → Option p.Handler → ℤ → Call p (ℤ × ℤ)
  unfolding subscribe_connected
  subscribe_with_results topic_filter qos handler old = do
    c ← get p (λ c. c)
    r ←
        (if is_set c.isconnected
          then subscribe_connected topic_filter qos handler old
          else pure (failure, old))
    (if is_failure r.0 then update p (close_session p) else pure tt)
    pure r

  -- MQTTSubscribe, with a local variable `data`.
  unfoldable pub subscribe : Bytes → ℕ → Option p.Handler → ℤ → Call p ℤ
  unfolding subscribe_with_results
  subscribe topic_filter qos handler data_ =
      subscribe_with_results topic_filter qos handler data_ >>= λ r. pure r.0

  -- The handler of the filter is removed, and the result of that is not used.
  unfoldable pub read_unsuback : Bytes → Call p ℤ
  read_unsuback topic_filter = do
    r ← deserialize p (deserialize_unsuback abi.packetid)
    (if is_one r.0 then set_message_handler p topic_filter none >> pure tt else pure tt)
    pure success

  unfoldable pub unsubscribe_connected : Bytes → Call p ℤ
  unfolding read_unsuback
  unsubscribe_connected topic_filter = do
    c ← get p (λ c. c)
    timer ← new_timer p c.command_timeout_ms
    id ← get_next_packet_id p
    len ←
        serialize p
          (λ buf size. serialize_unsubscribe buf size 0 id (topic_string topic_filter ∷ []))
    sent len timer (answered MsgType.unsuback timer (read_unsuback topic_filter))

  unfoldable pub unsubscribe : Bytes → Call p ℤ
  unfolding unsubscribe_connected
  unsubscribe topic_filter = or_close (if_connected (unsubscribe_connected topic_filter))

  abbrev pub with_id : Message → Call p Message
  with_id message =
      if message.qos == 1 || message.qos == 2
      then (get_next_packet_id p >>= λ id. pure (record message { id = id }))
      else pure message

  -- What MQTTPublish waits for behind the packet, by the QoS.
  unfoldable pub await_ack : ℕ → p.Timer → Call p ℤ
  await_ack qos timer =
      if qos == 1
      then answered MsgType.puback timer read_ack
      else if qos == 2
      then answered MsgType.pubcomp timer read_ack
      else pure success

  -- A length that the application gives is not negative.
  unfoldable pub publish_connected : Bytes → Message → Call p ℤ
  unfolding await_ack
  publish_connected topic_name message = do
    c ← get p (λ c. c)
    timer ← new_timer p c.command_timeout_ms
    m ← with_id message
    len ← serialize p (λ buf size.
        serialize_publish buf size 0 m.qos m.retained m.id (topic_string topic_name) m.payload
          (to_ℕ m.payloadlen))
    sent len timer (await_ack m.qos timer)

  unfoldable pub publish : Bytes → Message → Call p ℤ
  unfolding publish_connected
  publish topic_name message = or_close (if_connected (publish_connected topic_name message))

  unfoldable pub disconnect : Call p ℤ
  disconnect = do
    c ← get p (λ c. c)
    timer ← new_timer p c.command_timeout_ms
    len ← serialize p serialize_disconnect
    rc ← (if is_positive len then send_packet p rounds (to_ℕ len) timer else pure failure)
    update p (close_session p)
    pure rc
