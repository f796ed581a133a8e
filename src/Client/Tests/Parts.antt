-- ===== src/Client/Tests/Parts.antt =====
-- The theorems on filters and handlers, at a concrete table.
use mbed_mqtt.Common.{
  ℕ, List, true, false, Bytes, [], ◌∷◌, ◌++◌, none, some, ◌≡◌, ◌≢◌, ◌↔◌, ◌⊎◌, inl, inr, refl, arith,
  if◌then◌else◌,
}
use mbed_mqtt.Client.Handlers.{set_handler, find_filter, strcmp_eq, deliver_message}
use mbed_mqtt.Client.Handlers.Laws.{FullOfOthers, set_handler_add, set_handler_remove}
use mbed_mqtt.Client.Handlers.Lookup.{Unique, lookup, is_present}
use mbed_mqtt.Client.Handlers.Deliver.{or_default, is_any, call_all, deliver_message_lem}
use mbed_mqtt.Client.Handlers.Takers.{Takers}
use mbed_mqtt.Client.Topics.Gaps.{parent_gap}
use mbed_mqtt.Client.Topics.{is_topic_matched, name_text, topic_loop, skip_level}
use mbed_mqtt.Client.Topics.Laws.{is_topic_matched_lem}
use mbed_mqtt.Client.Topics.Levels.{IsFilter, MatchesByStandard}
use mbed_mqtt.Client.Topics.Relations.{Covers, Matches}
use mbed_mqtt.Client.Platform.{MessageData}
use mbed_mqtt.Client.Run.{ok}
use mbed_mqtt.Client.State.{success, failure}
use mbed_mqtt.Packet.Strings.{MqttString, or_null}
use mbed_mqtt.Client.Tests.{platform, table, start, message, topic}

set_handler_add_example :
    ((set_handler topic (some 3) table).0 ≡ success)
      × (lookup topic (set_handler topic (some 3) table).1 ≡ some (some 3))
      × ((g : Bytes) → g ≢ topic → lookup g (set_handler topic (some 3) table).1 ≡ lookup g table)
    ⊎ ((set_handler topic (some 3) table ≡ (failure, table)) × FullOfOthers topic table)
set_handler_add_example = set_handler_add topic 3 table

table-Unique : Unique table
unfolding find_filter
table-Unique = (refl, (tt, tt))

-- A filter of the table.
abbrev under_a : Bytes
under_a = b'a' ∷ b'/' ∷ b'#' ∷ []

set_handler_remove_example :
    (lookup under_a (set_handler under_a none table).1 ≡ none)
    × ((g : Bytes) → g ≢ under_a → lookup g (set_handler under_a none table).1 ≡ lookup g table)
    × ((set_handler under_a none table).0
        ≡ (if is_present (lookup under_a table) then success else failure))
set_handler_remove_example = set_handler_remove under_a table table-Unique

-- The removed filter was in the table.
remove_run : (set_handler under_a none table).0 ≡ success
unfolding set_handler find_filter strcmp_eq
remove_run = refl

abbrev name : MqttString
name = record { cstring = none; len = 3; data_ = some (b'a' ∷ b'/' ∷ b'b' ∷ []) }

a_plus-IsFilter : IsFilter true (b'a' ∷ b'/' ∷ b'+' ∷ [])
a_plus-IsFilter =
    inr (
      inl (omega arith, omega arith, omega arith, inl (refl, inr (inr (inl (refl, refl, tt, tt))))))

is_topic_matched_lem_example :
    ((is_topic_matched (b'a' ∷ b'/' ∷ b'+' ∷ []) name ≡ true)
      ↔ Covers (b'a' ∷ b'/' ∷ b'+' ∷ []) (name_text name))
    × (Covers (b'a' ∷ b'/' ∷ b'+' ∷ []) (name_text name)
        → MatchesByStandard (b'a' ∷ b'/' ∷ b'+' ∷ []) (name_text name))
unfolding name_text or_null
is_topic_matched_lem_example =
    is_topic_matched_lem (b'a' ∷ b'/' ∷ b'+' ∷ []) name a_plus-IsFilter (inl (omega arith))

-- The filter does match, so the other half says that it does by the standard.
matched_run : is_topic_matched (b'a' ∷ b'/' ∷ b'+' ∷ []) name ≡ true
unfolding is_topic_matched topic_loop skip_level name_text or_null
matched_run = refl

deliver_message_lem_example :
    (hs : List ℕ) × Takers name table hs
    × (deliver_message platform name message start ≡ (
        let d : MessageData = record { message = message; topic_name = name } in
        let called = or_default hs none in
        ok
          (if is_any called then success else failure)
          (record start { world = call_all platform called d start.world })))
deliver_message_lem_example = deliver_message_lem platform name message start

parent_gap_example :
    Matches (topic ++ b'/' ∷ b'#' ∷ []) topic
    × (topic_loop (topic ++ b'/' ∷ b'#' ∷ []) topic ≡ false)
parent_gap_example = parent_gap topic (omega arith, omega arith, tt)
