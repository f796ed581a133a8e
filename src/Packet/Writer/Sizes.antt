-- ===== src/Packet/Writer/Sizes.antt =====
-- Every serializer that the client calls keeps the size of the buffer.
use mbed_mqtt.Common.{ℕ, Bytes, List, [], ◌∷◌, Option, none, some, ltb, ◌==◌}
use mbed_mqtt.Packet.Ack.{serialize_ack, serialize_zero, serialize_pingreq, serialize_disconnect}
use mbed_mqtt.Packet.Connect.{
  ConnectData, connect_flags, flags_byte, is_set, is_given, name_mqtt, name_mqisdp,
  serialize_connect, serialize_connect_length, write_protocol, write_will, write_given,
}
use mbed_mqtt.Packet.Length.{packet_encode, packet_len}
use mbed_mqtt.Packet.Publish.{serialize_publish, serialize_publish_length, write_packetid}
use mbed_mqtt.Packet.Strings.{MqttString, write_mqtt_string, write_cstring_or_empty, copy_lenstring}
use mbed_mqtt.Packet.Subscribe.{
  Filters, write_filters, serialize_subscribe, serialize_subscribe_length,
}
use mbed_mqtt.Packet.Unsubscribe.{write_topics, serialize_unsubscribe, serialize_unsubscribe_length}
use mbed_mqtt.Packet.Writer.{Writer, ◌>>◌, skip, write_char, write_int, write_cstring, memcpy}
use mbed_mqtt.Packet.Writer.Conserves.{
  Conserves, Conserves-skip, Conserves-fault, Conserves->>, Conserves-if, Conserves-write_char,
  Conserves-write_int, Conserves-memcpy, Conserves-write_cstring, Conserves-packet_encode, SameSize,
  SameSize-checked,
}

Conserves-copy_lenstring : (n : ℕ) (d : Option Bytes) → Conserves (copy_lenstring n d)
unfolding copy_lenstring
Conserves-copy_lenstring n none = Conserves-fault
Conserves-copy_lenstring n (some p) = Conserves-memcpy n p

Conserves-cstring_or_empty : (t : Option Bytes) → Conserves (write_cstring_or_empty t)
unfolding write_cstring_or_empty
Conserves-cstring_or_empty none = Conserves-write_int 0
Conserves-cstring_or_empty (some t) = Conserves-write_cstring t

Conserves-mqtt_string : (t : MqttString) → Conserves (write_mqtt_string t)
unfolding write_mqtt_string
Conserves-mqtt_string t =
    Conserves-if (ltb 0 t.len) (write_int t.len >> copy_lenstring t.len t.data_)
      (write_cstring_or_empty t.cstring)
      (Conserves->> (write_int t.len) (copy_lenstring t.len t.data_) (Conserves-write_int t.len)
        (Conserves-copy_lenstring t.len t.data_))
      (Conserves-cstring_or_empty t.cstring)

-- A header with its length, and the body.
Conserves-packet :
    (c n : ℕ) (body : Writer) → Conserves body → Conserves (write_char c >> packet_encode n >> body)
Conserves-packet c n body h =
    Conserves->> (write_char c) (packet_encode n >> body) (Conserves-write_char c)
      (Conserves->> (packet_encode n) body (Conserves-packet_encode n) h)

pub SameSize-serialize_ack :
    (buf : Bytes) (buflen type dup id : ℕ) → SameSize buf (serialize_ack buf buflen type dup id)
unfolding serialize_ack
SameSize-serialize_ack buf buflen type dup id =
    SameSize-checked 4 buflen _ buf (Conserves-packet _ 2 (write_int id) (Conserves-write_int id))

SameSize-serialize_zero :
    (buf : Bytes) (buflen type : ℕ) → SameSize buf (serialize_zero buf buflen type)
unfolding serialize_zero
SameSize-serialize_zero buf buflen type = SameSize-checked 2 buflen _ buf (
    Conserves->> (write_char _) (packet_encode 0) (Conserves-write_char _)
      (Conserves-packet_encode 0))

pub SameSize-serialize_pingreq :
    (buf : Bytes) (buflen : ℕ) → SameSize buf (serialize_pingreq buf buflen)
unfolding serialize_pingreq
SameSize-serialize_pingreq buf buflen = SameSize-serialize_zero buf buflen _

pub SameSize-serialize_disconnect :
    (buf : Bytes) (buflen : ℕ) → SameSize buf (serialize_disconnect buf buflen)
unfolding serialize_disconnect
SameSize-serialize_disconnect buf buflen = SameSize-serialize_zero buf buflen _

Conserves-write_filters : (fs : Filters) → Conserves (write_filters fs)
unfolding write_filters
Conserves-write_filters [] = Conserves-skip
Conserves-write_filters ((topic, qos) ∷ fs) =
    Conserves->> (write_mqtt_string topic) (write_char qos >> write_filters fs)
      (Conserves-mqtt_string topic)
      (Conserves->> (write_char qos) (write_filters fs) (Conserves-write_char qos)
        (Conserves-write_filters fs))

pub SameSize-serialize_subscribe :
    (buf : Bytes) (buflen dup id : ℕ) (fs : Filters)
    → SameSize buf (serialize_subscribe buf buflen dup id fs)
unfolding serialize_subscribe
SameSize-serialize_subscribe buf buflen dup id fs =
    SameSize-checked (packet_len (serialize_subscribe_length fs)) buflen _ buf (
      Conserves-packet _ (serialize_subscribe_length fs) (write_int id >> write_filters fs) (
        Conserves->> (write_int id) (write_filters fs) (Conserves-write_int id)
          (Conserves-write_filters fs)))

Conserves-write_topics : (fs : List MqttString) → Conserves (write_topics fs)
unfolding write_topics
Conserves-write_topics [] = Conserves-skip
Conserves-write_topics (topic ∷ fs) =
    Conserves->> (write_mqtt_string topic) (write_topics fs) (Conserves-mqtt_string topic)
      (Conserves-write_topics fs)

pub SameSize-serialize_unsubscribe :
    (buf : Bytes) (buflen dup id : ℕ) (fs : List MqttString)
    → SameSize buf (serialize_unsubscribe buf buflen dup id fs)
unfolding serialize_unsubscribe
SameSize-serialize_unsubscribe buf buflen dup id fs =
    SameSize-checked (packet_len (serialize_unsubscribe_length fs)) buflen _ buf (
      Conserves-packet _ (serialize_unsubscribe_length fs) (write_int id >> write_topics fs) (
        Conserves->> (write_int id) (write_topics fs) (Conserves-write_int id)
          (Conserves-write_topics fs)))

pub SameSize-serialize_publish :
    (buf : Bytes) (buflen dup qos retained id : ℕ) (topic : MqttString) (payload : Bytes) (n : ℕ)
    → SameSize buf (serialize_publish buf buflen dup qos retained id topic payload n)
unfolding serialize_publish
SameSize-serialize_publish buf buflen dup qos retained id topic payload n =
    SameSize-checked (packet_len (serialize_publish_length qos topic n)) buflen _ buf (
      Conserves-packet _ (serialize_publish_length qos topic n)
        (write_mqtt_string topic >> write_packetid qos id >> memcpy n payload)
        (Conserves->> (write_mqtt_string topic) (write_packetid qos id >> memcpy n payload)
          (Conserves-mqtt_string topic)
          (Conserves->> (write_packetid qos id) (memcpy n payload)
            (Conserves-if (ltb 0 qos) (write_int id) skip (Conserves-write_int id) Conserves-skip)
            (Conserves-memcpy n payload))))

Conserves-write_protocol : (version : ℕ) → Conserves (write_protocol version)
Conserves-write_protocol version =
    Conserves-if (version == 4) (write_cstring name_mqtt >> write_char 4)
      (write_cstring name_mqisdp >> write_char 3)
      (Conserves->> (write_cstring name_mqtt) (write_char 4) (Conserves-write_cstring name_mqtt)
        (Conserves-write_char 4))
      (Conserves->> (write_cstring name_mqisdp) (write_char 3) (Conserves-write_cstring name_mqisdp)
        (Conserves-write_char 3))

Conserves-write_will : (options : ConnectData) → Conserves (write_will options)
Conserves-write_will options =
    Conserves-if (is_set options.will_flag)
      (write_mqtt_string options.will.topic_name >> write_mqtt_string options.will.message) skip
      (Conserves->> (write_mqtt_string options.will.topic_name)
        (write_mqtt_string options.will.message) (Conserves-mqtt_string _)
        (Conserves-mqtt_string _))
      Conserves-skip

Conserves-write_given : (s : MqttString) → Conserves (write_given s)
Conserves-write_given s =
    Conserves-if (is_given s) (write_mqtt_string s) skip (Conserves-mqtt_string s) Conserves-skip

-- The strings at the end of a CONNECT packet.
abbrev write_strings : ConnectData → Writer
write_strings o =
    write_mqtt_string o.client_id
    >> write_will o
    >> write_given o.username
    >> write_given o.password

Conserves-write_strings : (o : ConnectData) → Conserves (write_strings o)
Conserves-write_strings o =
    Conserves->> (write_mqtt_string o.client_id)
      (write_will o >> write_given o.username >> write_given o.password) (Conserves-mqtt_string _)
      (Conserves->> (write_will o) (write_given o.username >> write_given o.password)
        (Conserves-write_will o)
        (Conserves->> (write_given o.username) (write_given o.password)
          (Conserves-write_given o.username) (Conserves-write_given o.password)))

abbrev write_body : ConnectData → Writer
write_body o =
    write_protocol o.mqtt_version
    >> write_char (flags_byte (connect_flags o))
    >> write_int o.keep_alive_interval
    >> write_strings o

Conserves-write_body : (o : ConnectData) → Conserves (write_body o)
Conserves-write_body o =
    Conserves->> (write_protocol o.mqtt_version)
      (write_char (flags_byte (connect_flags o))
        >> write_int o.keep_alive_interval
        >> write_strings o)
      (Conserves-write_protocol o.mqtt_version)
      (Conserves->> (write_char (flags_byte (connect_flags o)))
        (write_int o.keep_alive_interval >> write_strings o) (Conserves-write_char _)
        (Conserves->> (write_int o.keep_alive_interval) (write_strings o) (Conserves-write_int _)
          (Conserves-write_strings o)))

pub SameSize-serialize_connect :
    (buf : Bytes) (buflen : ℕ) (o : ConnectData) → SameSize buf (serialize_connect buf buflen o)
unfolding serialize_connect
SameSize-serialize_connect buf buflen o =
    SameSize-checked (packet_len (serialize_connect_length o)) buflen _ buf
      (Conserves-packet _ (serialize_connect_length o) (write_body o) (Conserves-write_body o))
