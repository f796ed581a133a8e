-- ===== src/Packet/Strings.antt =====
-- MQTTString of MQTTPacket.h and the functions of MQTTPacket.c on it.
pub mod Laws
use mbed_mqtt.Common.{
  ℕ, zero, suc, ◌+◌, Bool, true, false, ◌&&◌, Bytes, List, [], ◌∷◌, Option, none, some, length, ltb,
  leb, ◌==◌, if◌then◌else◌,
}
use mbed_mqtt.Packet.Writer.{Writer, write_int, memcpy, write_cstring, ◌>>◌}
use mbed_mqtt.Packet.Reader.{Reader, then_read, advance, read_int}

-- `none` is NULL. `cstring` is given without its terminator; `data` is the memory from the pointer
-- on, which may go on behind the `len` bytes of the string.
pub record MqttString : Type 0 where
  pub cstring : Option Bytes
  pub len : ℕ
  pub data_ : Option Bytes

unfoldable pub mqtt_strlen : MqttString → ℕ
mqtt_strlen s = elim s.cstring [ none ↦ s.len | some string ↦ length string ]

-- memcpy from `lenstring.data`; from NULL it is a fault.
unfoldable pub copy_lenstring : ℕ → Option Bytes → Writer
copy_lenstring n none = λ o. none
copy_lenstring n (some src) = memcpy n src

unfoldable pub write_cstring_or_empty : Option Bytes → Writer
write_cstring_or_empty none = write_int 0
write_cstring_or_empty (some string) = write_cstring string

unfoldable pub write_mqtt_string : MqttString → Writer
unfolding copy_lenstring write_cstring_or_empty
write_mqtt_string s =
    if ltb 0 s.len
    then write_int s.len >> copy_lenstring s.len s.data_
    else write_cstring_or_empty s.cstring

-- The returned Boolean is `rc`. The string is an output parameter, so its old value comes in.
unfoldable pub read_mqtt_len_string : ℕ → MqttString → Reader (Bool × MqttString)
read_mqtt_len_string enddata s c =
    if ltb (c.at + 1) enddata
    then then_read (read_int c) (λ len c'.
      if leb (c'.at + len) enddata
      then some ((true, record { cstring = none; len = len; data_ = some c'.rest }), advance len c')
      else some ((false, record s { cstring = none; len = len }), c'))
    else some ((false, record s { cstring = none }), c)

-- strncmp(a, b, n) == 0; the end of a list is the terminator.
unfoldable pub strncmp_eq : ℕ → Bytes → Bytes → Bool
strncmp_eq zero a b = true
strncmp_eq (suc n) [] [] = true
strncmp_eq (suc n) [] (y ∷ b) = false
strncmp_eq (suc n) (x ∷ a) [] = false
strncmp_eq (suc n) (x ∷ a) (y ∷ b) = x == y && strncmp_eq n a b

unfoldable pub or_null : Option Bytes → Bytes
or_null none = []
or_null (some p) = p

unfoldable pub packet_equals : MqttString → Bytes → Bool
unfolding or_null
packet_equals a bptr =
    let aptr : Bytes = elim a.cstring [ none ↦ or_null a.data_ | some string ↦ string ] in
    let alen : ℕ = elim a.cstring [ none ↦ a.len | some string ↦ length string ] in
    alen == length bptr && strncmp_eq alen aptr bptr
