-- ===== src/Client/Stream/Delivery.antt =====
-- A PUBLISH packet from the network to the handlers of the application.
use mbed_mqtt.Common.{
  ℕ, ◌≤◌, ◌<◌, ◌^◌, ◌==◌, true, Bytes, List, ◌++◌, length, pos, ◌≡◌, refl, ap, ◌∙◌, arith,
}
use mbed_mqtt.Client.Cycle.{cycle, dispatch, on_publish, keepalive}
use mbed_mqtt.Client.Handlers.Deliver.{or_default, call_all, deliver_message-takers}
use mbed_mqtt.Client.Handlers.Takers.{Takers, takers, Takers-takers}
use mbed_mqtt.Client.Network.{read_packet}
use mbed_mqtt.Client.Platform.{Platform, MessageData}
use mbed_mqtt.Client.State.{State, MqttClient, Abi}
use mbed_mqtt.Client.Stream.{Delivers, Gives, Gives-then, Holds}
use mbed_mqtt.Client.Stream.Packet.{read_packet_lem}
use mbed_mqtt.Packet.Frame.{packet_image}
use mbed_mqtt.Packet.Header.{Fits, header_bits-header_image}
use mbed_mqtt.Packet.MsgType
use mbed_mqtt.Packet.Publish.{Publish, deserialize_publish}
use mbed_mqtt.Packet.Publish.Laws.{publish_header, publish_body, deserialize_publish-packet_image}
use mbed_mqtt.Packet.Strings.Laws.{len_string}

-- What a handler is given for a packet with QoS 0: `mem` is the memory from the payload on.
abbrev pub message_data : Abi → ℕ → ℕ → Bytes → Bytes → Bytes → MessageData
message_data abi dup retained topic payload behind = record {
  message = record {
    qos = 0;
    retained = retained;
    dup = dup;
    id = abi.publish.packetid;
    payload = payload ++ behind;
    payloadlen = pos (length payload);
  };
  topic_name = len_string topic (payload ++ behind);
}

module _ (p : Platform) (d : Delivers p) where
  -- The handlers of the slots that take the topic were called in the order of the table, after the
  -- packet was read.
  pub record Delivered (m : MessageData) (from : MqttClient p) (rest : Bytes) (s : State p)
      : Type 0 where
    pub before : p.World
    pub read : d.pending before ≡ rest
    pub handlers : List p.Handler
    pub taken : Takers m.topic_name from.message_handlers handlers
    pub called : s.world ≡ call_all p (or_default handlers from.default_message_handler) m before

  -- When the network delivers a PUBLISH packet with QoS 0 that is not longer than the read buffer, to
  -- a client without keep alive, cycle returns PUBLISH, and it has called, in the order of the
  -- table, the handlers of all filters that equal the topic or cover it, or else the default handler,
  -- with the topic, the payload and the flags of the packet.
  pub cycle_publish_lem :
      (abi : Abi) (rounds : ℕ) (timer : p.Timer) (from : MqttClient p) (dup retained packetid : ℕ)
      (topic payload rest old behind : Bytes) (s : State p)
      → Fits (publish_header dup 0 retained)
      → packetid < 2 ^ 16
      → length topic < 2 ^ 16
      → length (publish_body 0 packetid topic payload) < 2 ^ 28
      → length old
        ≡ length
            (packet_image (publish_header dup 0 retained) (publish_body 0 packetid topic payload))
      → length old ≤ from.readbuf_size
      → from.keep_alive_interval ≡ 0
      → Holds p d
          (old ++ behind)
          from
          (packet_image (publish_header dup 0 retained) (publish_body 0 packetid topic payload)
            ++ rest)
          s
      → Gives
          (λ rc s'.
            (rc ≡ pos MsgType.publish)
            × Delivered (message_data abi dup retained topic payload behind) from rest s')
          (cycle p abi rounds timer s)
  unfolding cycle dispatch on_publish keepalive
  cycle_publish_lem abi rounds timer from dup retained packetid topic payload rest old behind s fits
        id short small len room off h =
      let header = publish_header dup 0 retained in
      let body = publish_body 0 packetid topic payload in
      let unset : Publish = record (abi.publish) { payloadlen = pos 0 } in
      Gives-then _ _ (read_packet p timer s) _
        (read_packet_lem p d timer header body rest old behind from s h small len room)
        (λ rc s1 k.
          let type_ : rc ≡ pos MsgType.publish =
            k.0 ∙ ap (λ b. pos b.type) (header_bits-header_image header fits) in
          let parsed =
            deserialize_publish-packet_image unset dup 0 retained packetid topic payload behind fits
              id short small in
          let got = ap (deserialize_publish unset) (k.1.readbuf) ∙ parsed in
          let quiet : (s1.client.keep_alive_interval == 0) ≡ true =
            ground (arith, k.1.keep_alive, off) in
          let m = message_data abi dup retained topic payload behind in
          rw (type_, got, deliver_message-takers p m.topic_name m.message s1, quiet)
            (
              refl,
              record {
                before = s1.world;
                read = k.1.pending;
                handlers = takers m.topic_name from.message_handlers;
                taken = Takers-takers m.topic_name from.message_handlers;
                called = rw (k.1.handlers, k.1.default_handler) refl;
              },
            ))
