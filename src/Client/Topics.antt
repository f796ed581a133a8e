-- ===== src/Client/Topics.antt =====
-- isTopicMatched of MQTTClient.c.
pub mod Relations
pub mod Levels
pub mod Laws
pub mod Gaps
use mbed_mqtt.Common.{
  ℕ, Bool, true, false, ◌&&◌, not, Bytes, [], ◌∷◌, Option, none, some, take, ◌==◌, if◌then◌else◌,
}
use mbed_mqtt.Packet.Strings.{MqttString, or_null}

-- The loop on `nextpos`: `curn` moves on to the next separator or to the end.
unfoldable pub skip_level : Bytes → Bytes
skip_level [] = []
skip_level (x ∷ n) = if x == b'/' then x ∷ n else skip_level n

-- A round of the loop with `*curf` and `*curn`, and the test behind it: the lists are what `curf`
-- has before its terminator and `curn` before `curn_end`. A `break` leaves `curn < curn_end`.
unfoldable pub topic_loop : Bytes → Bytes → Bool
unfolding skip_level
topic_loop [] [] = true
topic_loop [] (x ∷ n) = false
topic_loop (c ∷ f) [] = false
topic_loop (c ∷ f) (x ∷ n) =
    let rest = topic_loop f (if c == b'+' then skip_level n else if c == b'#' then [] else n) in
    if x == b'/' && not (c == b'/')
    then false
    else if not (c == b'+') && not (c == b'#') && not (c == x)
    then false
    else rest

-- The text of a topic name, for memory that reaches `len` bytes.
unfoldable pub name_text : MqttString → Bytes
unfolding or_null
name_text s = take s.len (or_null s.data_)

unfoldable pub is_topic_matched : Bytes → MqttString → Bool
unfolding topic_loop name_text
is_topic_matched topic_filter topic_name = topic_loop topic_filter (name_text topic_name)
