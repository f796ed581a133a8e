-- ===== src/Packet/Sessions.antt =====
-- Subscriptions and connections: the theorems at concrete inputs.
use mbed_mqtt.Common.{
  ℕ, true, false, Bytes, [], ◌∷◌, ◌++◌, none, some, length, ◌≡◌, refl, arith, inl, inr, pos, negsuc,
}
use mbed_mqtt.Packet.Ack.Laws.{ack_header}
use mbed_mqtt.Packet.Connect.Image.{
  Connect, FlagsFit, connect_body, connect_header, given_image, will_image, payload_image,
  flags_image,
}
use mbed_mqtt.Packet.Connect.Laws.{serialize_connect_lem}
use mbed_mqtt.Packet.Connect.{ConnectData, serialize_connect, is_given, flags_bits}
use mbed_mqtt.Packet.ConnectServer.Laws.{connect_view, deserialize_connect-packet_image}
use mbed_mqtt.Packet.ConnectServer.{deserialize_connect}
use mbed_mqtt.Packet.Frame.{packet_image, length-packet_image}
use mbed_mqtt.Packet.Length.Laws.{length-rem_image}
use mbed_mqtt.Packet.Length.{packet_len}
use mbed_mqtt.Packet.MsgType
use mbed_mqtt.Packet.Reader.{as_int}
use mbed_mqtt.Packet.Strings.Laws.{c_string, len_string, null_string, string_image}
use mbed_mqtt.Packet.Strings.{MqttString}
use mbed_mqtt.Packet.Suback.Laws.{suback_header, suback_body, deserialize_suback-packet_image}
use mbed_mqtt.Packet.Suback.{deserialize_suback}
use mbed_mqtt.Packet.Subscribe.Filters.{filters_image, views}
use mbed_mqtt.Packet.Subscribe.Laws.{
  subscribe_header, subscribe_body, serialize_subscribe_lem, deserialize_subscribe-packet_image,
}
use mbed_mqtt.Packet.Subscribe.{Filters, serialize_subscribe, deserialize_subscribe}
use mbed_mqtt.Packet.Unsubscribe.Laws.{
  unsubscribe_header, unsubscribe_body, topics_image, topic_views,
  deserialize_unsubscribe-packet_image,
}
use mbed_mqtt.Packet.Unsubscribe.Unsuback.{deserialize_unsuback_any}
use mbed_mqtt.Packet.Unsubscribe.{deserialize_unsubscribe, deserialize_unsuback}
use mbed_mqtt.Packet.Writer.Emits.{serialized, int_image}

abbrev room : Bytes
room = 0 ∷ 0 ∷ 0 ∷ 0 ∷ 0 ∷ 0 ∷ 0 ∷ 0 ∷ 0 ∷ 0 ∷ []

abbrev topic_a : Bytes
topic_a = b'a' ∷ []

abbrev topic_b : Bytes
topic_b = b'b' ∷ b'c' ∷ []

abbrev filters : Filters
filters = (c_string topic_a, 1) ∷ (len_string topic_b [], 2) ∷ []

serialize_subscribe_example :
    serialize_subscribe room 10 0 258 filters
    ≡ serialized
        (packet_len (length (subscribe_body 258 ((topic_a, 1) ∷ (topic_b, 2) ∷ []))))
        10
        (packet_image (subscribe_header 0) (subscribe_body 258 ((topic_a, 1) ∷ (topic_b, 2) ∷ [])))
        room
unfolding subscribe_body filters_image string_image int_image
serialize_subscribe_example =
    serialize_subscribe_lem room 10 0 258 filters ((topic_a, 1) ∷ (topic_b, 2) ∷ [])
      (inl refl, refl, (inr ([], refl), refl, tt)) (omega arith) (omega arith) (omega arith)
      (omega arith) (omega arith)

abbrev no_filters : ℕ → MqttString
no_filters i = null_string

deserialize_subscribe_example :
    deserialize_subscribe false 1 no_filters
      (record { dup = 0; packetid = 0; filters = [] })
      (packet_image (subscribe_header 1) (subscribe_body 258 ((topic_a, 1) ∷ (topic_b, 2) ∷ []))
        ++ 7 ∷ [])
    ≡ some (
      pos 1,
      record {
        dup = 1;
        packetid = 258;
        filters = views false ((topic_a, 1) ∷ (topic_b, 2) ∷ []) (7 ∷ []);
      },
    )
unfolding subscribe_body filters_image string_image int_image
deserialize_subscribe_example =
    deserialize_subscribe-packet_image false 1 1 258 no_filters
      (record { dup = 0; packetid = 0; filters = [] }) ((topic_a, 1) ∷ (topic_b, 2) ∷ []) (7 ∷ [])
      (omega arith) (omega arith) (omega arith) (omega arith)

deserialize_unsubscribe_example :
    deserialize_unsubscribe 1 no_filters
      (record { dup = 0; packetid = 0; filters = [] })
      (packet_image (unsubscribe_header 1) (unsubscribe_body 258 (topic_a ∷ topic_b ∷ []))
        ++ 7 ∷ [])
    ≡ some (
      pos 1,
      record { dup = 1; packetid = 258; filters = topic_views (topic_a ∷ topic_b ∷ []) (7 ∷ []) },
    )
unfolding unsubscribe_body topics_image string_image int_image
deserialize_unsubscribe_example =
    deserialize_unsubscribe-packet_image 1 1 258 no_filters
      (record { dup = 0; packetid = 0; filters = [] }) (topic_a ∷ topic_b ∷ []) (7 ∷ [])
      (omega arith) (omega arith) (omega arith) (omega arith)

deserialize_unsuback_any_example :
    deserialize_unsuback 0 (packet_image (ack_header MsgType.puback 0) (int_image 258) ++ [])
    ≡ some (pos 1, 258)
deserialize_unsuback_any_example =
    deserialize_unsuback_any 0 (ack_header MsgType.puback 0) 258 [] (omega arith) (omega arith)

-- On a platform with signed characters the failure code 0x80 is read as -128.
deserialize_suback_example :
    deserialize_suback true 1
      (record { packetid = 0; granted = [] })
      (packet_image suback_header (suback_body 258 (128 ∷ 1 ∷ [])) ++ 7 ∷ [])
    ≡ some (pos 1, record { packetid = 258; granted = negsuc 127 ∷ pos 1 ∷ [] })
unfolding as_int
deserialize_suback_example =
    deserialize_suback-packet_image true 1 258 (record { packetid = 0; granted = [] })
      (128 ∷ 1 ∷ []) (7 ∷ []) (omega arith) (omega arith)

abbrev options : ConnectData
options = record {
  mqtt_version = 4;
  client_id = c_string topic_a;
  keep_alive_interval = 60;
  cleansession = 1;
  will_flag = 1;
  will = record {
    topic_name = c_string topic_b;
    message = len_string topic_a [];
    retained = 1;
    qos = 2;
  };
  username = c_string topic_b;
  password = null_string;
}

abbrev packet : Connect
packet = record {
  version = 4;
  flags = record {
    cleansession = 1;
    will = 1;
    will_qos = 2;
    will_retain = 1;
    password = 0;
    username = 1;
  };
  interval = 60;
  client = topic_a;
  will = some (topic_b, topic_a);
  user = some topic_b;
  pass = none;
}

flags_fit : FlagsFit packet.flags
flags_fit = record {
  cleansession_fits = omega arith;
  will_fits = omega arith;
  will_qos_fits = omega arith;
  will_retain_fits = omega arith;
  password_fits = omega arith;
  username_fits = omega arith;
}

serialize_connect_example :
    serialize_connect room 10 options
    ≡ serialized
        (packet_len (length (connect_body packet)))
        10
        (packet_image connect_header (connect_body packet))
        room
unfolding connect_body payload_image given_image will_image string_image int_image is_given
serialize_connect_example =
    serialize_connect_lem room 10 options packet
      (record {
        version_is = refl;
        clean_is = refl;
        will_flag = refl;
        will_qos_is = refl;
        will_retain_is = refl;
        pass_flag = refl;
        user_flag = refl;
        interval_is = refl;
        client_is = inl refl;
        will_is = (refl, inl refl, inr ([], refl));
        user_is = inl refl;
        pass_is = refl;
      })
      (record {
        version_known = inr refl;
        flags_fit = flags_fit;
        interval_fits = omega arith;
        client_fits = omega arith;
        will_fits = omega arith;
        user_fits = omega arith;
        pass_fits = tt;
      })
      (omega arith) (omega arith)

deserialize_connect_example :
    deserialize_connect null_string options
      (packet_image connect_header (connect_body packet) ++ 7 ∷ [])
      40
    ≡ some (pos 1, connect_view options packet (7 ∷ []))
unfolding connect_body payload_image given_image will_image string_image int_image flags_bits
    flags_image
deserialize_connect_example =
    deserialize_connect-packet_image null_string options packet (7 ∷ []) 40
      (record {
        version_known = inr refl;
        flags_fit = flags_fit;
        interval_fits = omega arith;
        client_fits = omega arith;
        will_fits = omega arith;
        will_flag = refl;
        credentials = record {
          user_flag = refl;
          pass_flag = refl;
          in_order = tt;
          user_fits = omega arith;
          pass_fits = tt;
        };
      })
      (omega arith)
      (omega (
        arith,
        length-packet_image connect_header (connect_body packet),
        length-rem_image (length (connect_body packet)),
      ))
