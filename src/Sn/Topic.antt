-- ===== src/Sn/Topic.antt =====
-- MQTTSN_topicid of MQTTSNPacket.h, and the strings of MQTTSNPacket.c.
pub mod Laws
use mbed_mqtt.Common.{ℕ, Bytes, Option, none, some, length, ltb, if◌then◌else◌, ℤ, pos, negsuc}
use mbed_mqtt.Packet.Strings.{MqttString}
use mbed_mqtt.Packet.Writer.{Writer, ◌>>◌, skip, write_char, write_int, memcpy, write_cstring}

-- The union `data`, by the member that was stored last. `long_name` is the memory from `long_.name`
-- on, with `long_.len`, an `int` that a short packet makes negative.
pub data TopicData : Type 0 where
  id : ℕ → TopicData
  short_name : ℕ → ℕ → TopicData
  long_name : Bytes → ℤ → TopicData

pub record TopicId : Type 0 where
  pub type : ℕ
  pub data_ : TopicData

abbrev pub topic_type_normal : ℕ
topic_type_normal = 0

abbrev pub topic_type_predefined : ℕ
topic_type_predefined = 1

abbrev pub topic_type_short : ℕ
topic_type_short = 2

-- Reading a member that was not stored last gives no value that the model knows: it is a fault,
-- and so is a negative length, which memcpy takes for a huge one.
-- `data.long_.len`
abbrev pub long_len : TopicData → Option ℕ
long_len (id n) = none
long_len (short_name a b) = none
long_len (long_name name (pos len)) = some len
long_len (long_name name (negsuc n)) = none

-- `memcpy(ptr, data.long_.name, data.long_.len); ptr += data.long_.len`
abbrev pub write_long_name : TopicData → Writer
write_long_name (id n) = λ o. none
write_long_name (short_name a b) = λ o. none
write_long_name (long_name name (pos len)) = memcpy len name
write_long_name (long_name name (negsuc n)) = λ o. none

-- `writeInt(&ptr, data.long_.len)`
abbrev pub write_long_len : TopicData → Writer
write_long_len (id n) = λ o. none
write_long_len (short_name a b) = λ o. none
write_long_len (long_name name (pos len)) = write_int len
write_long_len (long_name name (negsuc n)) = λ o. none

-- `writeInt(&ptr, data.id)`
abbrev pub write_id : TopicData → Writer
write_id (id n) = write_int n
write_id (short_name a b) = λ o. none
write_id (long_name name len) = λ o. none

-- `writeChar(&ptr, data.short_name[0]); writeChar(&ptr, data.short_name[1])`
abbrev pub write_short_name : TopicData → Writer
write_short_name (id n) = λ o. none
write_short_name (short_name a b) = write_char a >> write_char b
write_short_name (long_name name len) = λ o. none

-- MQTTSNString has the fields of MQTTString, and MQTTSNstrlen the code of MQTTstrlen.
unfoldable pub sn_strlen : MqttString → ℕ
sn_strlen s = elim s.cstring [ none ↦ s.len | some string ↦ length string ]

-- memcpy from `lenstring.data`; from NULL it is a fault.
abbrev pub copy_data : ℕ → Option Bytes → Writer
copy_data n none = λ o. none
copy_data n (some src) = memcpy n src

-- writeCString is the one of MQTTPacket.c: its copy in MQTTSNPacket.c, which writes no length, is
-- compiled out.
abbrev pub write_given_cstring : Option Bytes → Writer
write_given_cstring none = skip
write_given_cstring (some string) = write_cstring string

unfoldable pub write_sn_string : MqttString → Writer
write_sn_string s = if ltb 0 s.len then copy_data s.len s.data_ else write_given_cstring s.cstring
