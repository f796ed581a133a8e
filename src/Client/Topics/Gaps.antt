-- ===== src/Client/Topics/Gaps.antt =====
-- Where isTopicMatched and the standard differ.
use mbed_mqtt.Common.{false, Bytes, [], ◌∷◌, ◌++◌, ◌≡◌, ◌≢◌, refl, arith}
use mbed_mqtt.Client.Topics.{topic_loop}
use mbed_mqtt.Client.Topics.Relations.{Matches}

-- A filter without wildcards.
abbrev pub Plain : Bytes → Type 0
Plain [] = Unit
Plain (c ∷ t) = (c ≢ b'+') × (c ≢ b'#') × Plain t

Matches-parent : (t : Bytes) → Plain t → Matches (t ++ b'/' ∷ b'#' ∷ []) t
Matches-parent [] p = Matches.parent
Matches-parent (c ∷ t) p = Matches.same c p.0 p.1 (Matches-parent t p.2)

not-topic_loop-parent : (t : Bytes) → Plain t → topic_loop (t ++ b'/' ∷ b'#' ∷ []) t ≡ false
unfolding topic_loop
not-topic_loop-parent [] p = refl
not-topic_loop-parent (c ∷ t) p = ground (arith, not-topic_loop-parent t p.2)

-- For every text without wildcards the filter `text/#` matches `text` in the sense of the standard,
-- and isTopicMatched refuses it.
pub parent_gap :
    (t : Bytes)
    → Plain t
    → Matches (t ++ b'/' ∷ b'#' ∷ []) t × (topic_loop (t ++ b'/' ∷ b'#' ∷ []) t ≡ false)
parent_gap t p = (Matches-parent t p, not-topic_loop-parent t p)

Matches-self : (n : Bytes) → Plain n → Matches n n
Matches-self [] p = Matches.end
Matches-self (c ∷ n) p = Matches.same c p.0 p.1 (Matches-self n p.2)

-- A name that begins with a separator is refused for every filter that begins with a wildcard, and
-- the standard matches it with `#`, and with `+` and the name itself behind it.
pub empty_level_gap :
    (n f : Bytes)
    → Plain n
    → Matches (b'#' ∷ []) (b'/' ∷ n)
      × (topic_loop (b'#' ∷ f) (b'/' ∷ n) ≡ false)
      × Matches (b'+' ∷ b'/' ∷ n) (b'/' ∷ n)
      × (topic_loop (b'+' ∷ f) (b'/' ∷ n) ≡ false)
unfolding topic_loop
empty_level_gap n f p = (
  Matches.levels,
  refl,
  Matches.level [] tt refl refl (Matches.same b'/' (omega arith) (omega arith) (Matches-self n p)),
  refl,
)
