-- ===== src/Lib.antt =====
-- mbed-mqtt: an MQTT client for Mbed OS, over the Paho embedded C libraries that the repository
-- carries and maintains. This library models the packet libraries for MQTT and for MQTT-SN, which the
-- clients and the gateway above them call to turn packets into bytes and back, and the MQTT client in
-- C, which sends and receives the packets.
--
-- Packet.* models paho_mqtt_embedded_c/MQTTPacket/src, which turns packets into bytes and back:
--   Packet.Writer   writeChar, writeInt, writeCString and the frame of the MQTTSerialize functions.
--                   A write pointer is the bytes written and the memory left; a write at the end of
--                   the memory is a fault, the result `none`.
--   Packet.Reader   readChar, readInt. A read pointer is the memory from it on and its offset; a
--                   read at the end of the memory is a fault.
--   Packet.Length   MQTTPacket_encode, MQTTPacket_decode, MQTTPacket_decodeBuf, MQTTPacket_len.
--   Packet.Memory   the buffer of a reader as a whole, with writes at an offset.
--   Packet.Transport   MQTTTransport, MQTTPacket_decodenb, MQTTPacket_readnb. `getfn` is a parameter,
--                   and an answer of it is one of the three that its comment names.
--   Packet.Header, Packet.MsgType   the bit fields of the header byte, the packet types.
--                   `header_image` is the byte as the standard lays it out.
--   Packet.Strings  MQTTString, writeMQTTString, readMQTTLenString, MQTTstrlen, MQTTPacket_equals.
--   Packet.Frame    what every packet has in common, as a specification: header byte, remaining
--                   length, body.
--   Packet.Publish, Packet.Ack, Packet.Subscribe, Packet.Suback, Packet.Unsubscribe,
--   Packet.Connect, Packet.ConnectServer, Packet.Connack   the MQTTSerialize and MQTTDeserialize
--                   functions of each packet, definitions in the parent and proofs in its children.
--
-- Sn.* models paho_mqtt-sn_embedded_c/MQTTSNPacket/src, with the writers and readers of Packet:
--   Sn.Length       MQTTSNPacket_len, MQTTSNPacket_encode, MQTTSNPacket_decode, and the start that
--                   the MQTTSNDeserialize functions share.
--   Sn.Flags, Sn.MsgType, Sn.Topic   the flags byte, the packet types, MQTTSN_topicid and the string
--                   writer. A union is the member stored last; reading another member is a fault.
--   Sn.Frame, Sn.Opening, Sn.RoundTrip   a packet as a specification (length field, packet type,
--                   body), for writing it, for reading it, and for both in turn.
--   Sn.Publish, Sn.Register, Sn.Ack, Sn.Subscribe, Sn.Connect, Sn.Answers   the MQTTSNSerialize and
--                   MQTTSNDeserialize functions, with the prefix sn_, definitions in the parent and
--                   proofs in its children.
--
-- Client.* models paho_mqtt_embedded_c/MQTTClient-C/src over the packet library:
--   Client.Run      calls with a state: a result, a fault, or a loop out of rounds (`hung`).
--   Client.Platform what is not in the repository's C code: network, timers, message handlers. It is
--                   a parameter, and `Expires` is the documented behaviour that timers expire.
--   Client.State    struct MQTTClient, MQTTClientInit.
--   Client.Network  getNextPacketId, sendPacket, decodePacket, readPacket.
--   Client.Topics   isTopicMatched; Relations and Levels have what the wildcards mean, character by
--                   character and level by level, and Laws and Gaps compare the code with that.
--   Client.Handlers MQTTSetMessageHandler, MQTTCleanSession, MQTTCloseSession, deliverMessage. Lookup
--                   has the table as a map from filters to handlers, Takers the slots that take a
--                   topic, written with the relations of Client.Topics.
--   Client.Cycle    keepalive, cycle, MQTTYield, waitfor.
--   Client.Commands MQTTConnect, MQTTSubscribe, MQTTUnsubscribe, MQTTPublish, MQTTDisconnect, and
--                   their variants with results.
--   Client.Invariant, Client.Closed   what all of these keep, that they end, and what a failure does.
--   Client.Send, Client.Stream   sendPacket on a network that takes what it is given, readPacket and
--                   cycle on a network that delivers a known stream; both are parameters.
--
-- A serializer takes the memory of the caller's buffer and `buflen`, and returns `rc` with the
-- changed memory. A deserializer takes the old values of its output parameters and the memory, and
-- returns `rc` with their new values. Where a serializer branches on the size its specification is
-- `serialized`; the bytes of a packet are given by `packet_image`, with `header_image` for the first
-- byte, `rem_image` for the remaining length and, for CONNECT, `flags_image` for the flags; these are
-- written from the standard and not from the code. The numbers of the packet types are those of the
-- code's enumeration.
--
-- Bounds. `int` values that count bytes are natural numbers; a packet is below 2^28 bytes, the limit
-- of four digits of the remaining length. The encoder's loop has five rounds, enough for every
-- `int`, and the decoder's has the four that the code allows. The loops of MQTTDeserialize_subscribe
-- and MQTTDeserialize_unsubscribe have a round for each byte of the buffer, and each round reads two
-- bytes at least. MQTTPacket_decodenb has a round for each byte that `len` lacks to four. The
-- signedness of `char` is a parameter where the code depends on it.
--
-- A packet of MQTT-SN is below 2^16 bytes, the limit of its length field.
--
-- The loops of sendPacket, MQTTYield and waitfor run while a timer has not expired. Each has `rounds`
-- rounds, where `Expires` bounds by `rounds` how often a timer can still be found running; this is
-- enough, since each round checks the timer. The handlers of the application change the world and not the
-- client; the identifier that MQTTPublish stores in the caller's message is kept local. Variables
-- that C leaves unset, and the signedness of `char`, are the parameter `Abi`.
--
-- Not modelled: MQTTRun, MQTTStartTask and the mutex of builds with MQTT_TASK, MQTTFormat.c and
-- MQTTSNPacket_name (text for people), MQTTPacket_read, the packet readers of the MQTT-SN library, the MQTT-SN packets that only a gateway reads or writes (CONNECT and
-- will packets of MQTTSNConnectServer.c, the gateway search), PINGRESP, WILLTOPICREQ and WILLMSGREQ
-- on the client's side, the client in C++, the gateway, the samples and tests, the platform ports,
-- and the C++ wrapper under src.
pub mod Common
pub mod Packet
pub mod Sn
pub mod Client
