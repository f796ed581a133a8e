-- ===== src/Client/Topics/Laws.antt =====
-- isTopicMatched compared with the relations on filters and names, and with the levels of the standard.
use mbed_mqtt.Common.{
  ℕ, true, Bytes, [], ◌∷◌, ◌++◌, ◌==◌, ◌≡◌, ◌↔◌, refl, ap, arith, Bool-cases, inl, inr,
}
use mbed_mqtt.Client.Topics.{skip_level, topic_loop, name_text, is_topic_matched}
use mbed_mqtt.Packet.Strings.{MqttString}
use mbed_mqtt.Client.Topics.Relations.{NoSlash, AtSlash, Covers}
use mbed_mqtt.Client.Topics.Levels.{IsFilter, Visible, MatchesByStandard, Covers-by_level}

-- The level that is skipped, with what is left behind it.
skipped : (n : Bytes) → (l : Bytes) × NoSlash l × AtSlash (skip_level n) × (n ≡ l ++ skip_level n)
unfolding skip_level
skipped [] = ([], tt, tt, refl)
skipped (x ∷ n) = elim (Bool-cases (x == b'/')) [
  | inl e ↦ ([], tt, rw e (ground arith), rw e)
  | inr e ↦
      let (l, p, q, r) = skipped n in
      (x ∷ l, (ground arith, p), rw e q, rw e (ap (λ (t : Bytes). x ∷ t) r))
]

skip_level-append : (l n : Bytes) → NoSlash l → AtSlash n → skip_level (l ++ n) ≡ n
unfolding skip_level
skip_level-append [] [] p q = refl
skip_level-append [] (x ∷ n) p q = ground arith
skip_level-append (x ∷ l) n p q = ground (arith, skip_level-append l n p.1 q)

==→eq : (a b : ℕ) → (a == b) ≡ true → a ≡ b
==→eq a b h = ground arith

at_end : (f : Bytes) → topic_loop f [] ≡ true → f ≡ []
unfolding topic_loop
at_end [] h = refl
at_end (c ∷ f) h = cc

-- One round, by what the filter has.
round_sound :
    (c x : ℕ) (f n : Bytes)
    → ((n' : Bytes) → topic_loop f n' ≡ true → Covers f n')
    → topic_loop (c ∷ f) (x ∷ n) ≡ true
    → Covers (c ∷ f) (x ∷ n)
unfolding topic_loop
round_sound c x f n ih h = elim (Bool-cases (c == b'+')) [
  | inl plus ↦
      let (l, p, q, r) = skipped n in
      let e : c ≡ b'+' = ==→eq c b'+' plus in
      rw e (Covers.level x l (ground arith) p q r (ih (skip_level n) (ground arith)))
  | inr other ↦ elim (Bool-cases (c == b'#')) [
    | inl hash ↦
        let e : c ≡ b'#' = ==→eq c b'#' hash in
        let last : f ≡ [] = at_end f (ground arith) in rw (e, last) (Covers.levels x (ground arith))
    | inr plain ↦
        let e : x ≡ c = ground arith in
        rw e (Covers.same c (ground arith) (ground arith) (ih n (ground arith)))
  ]
]

pub topic_loop_sound : (f n : Bytes) → topic_loop f n ≡ true → Covers f n
unfolding topic_loop
topic_loop_sound [] [] h = Covers.end
topic_loop_sound [] (x ∷ n) h = cc
topic_loop_sound (c ∷ f) [] h = cc
topic_loop_sound (c ∷ f) (x ∷ n) h = round_sound c x f n (λ n' h'. topic_loop_sound f n' h') h

pub topic_loop_complete : {f n : Bytes} → Covers f n → topic_loop f n ≡ true
unfolding topic_loop
topic_loop_complete Covers.end = refl
topic_loop_complete (Covers.same c p h m) = ground (arith, topic_loop_complete m)
topic_loop_complete (Covers.level x l p q s e m) =
    rw (e, skip_level-append l _ q s) (ground (arith, topic_loop_complete m))
topic_loop_complete (Covers.levels x p) = ground arith

-- For a filter that is well formed by section 4.7.1 of the standard, and a name in memory of its
-- length that does not begin with `$` if the filter begins with a wildcard (section 4.7.2):
-- isTopicMatched accepts the name exactly if the filter covers it, where `+` takes one level that is
-- not empty, `#` the rest of the name from a level that is not empty on, and any other character
-- itself; and then the filter matches the name level by level, in the sense of the standard.
pub is_topic_matched_lem :
    (f : Bytes) (name : MqttString)
    → IsFilter true f
    → Visible f (name_text name)
    → ((is_topic_matched f name ≡ true) ↔ Covers f (name_text name))
      × (Covers f (name_text name) → MatchesByStandard f (name_text name))
unfolding is_topic_matched
is_topic_matched_lem f name well seen = (
  (topic_loop_sound f (name_text name), topic_loop_complete),
  λ c. record { visible = seen; by_level = Covers-by_level c well },
)
