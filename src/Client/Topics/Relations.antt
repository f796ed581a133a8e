-- ===== src/Client/Topics/Relations.antt =====
-- Relations between topic filters and topic names: what the wildcards mean in the standard, and the
-- part of that which isTopicMatched covers.
use mbed_mqtt.Common.{ℕ, Bytes, [], ◌∷◌, ◌++◌, ◌≡◌, ◌≢◌}

-- No separator in the text.
abbrev pub NoSlash : Bytes → Type 0
NoSlash [] = Unit
NoSlash (x ∷ l) = (x ≢ b'/') × NoSlash l

-- The text begins with a separator, if it is not empty.
abbrev pub AtSlash : Bytes → Type 0
AtSlash [] = Unit
AtSlash (x ∷ n) = x ≡ b'/'

-- Wildcards as section 4.7.1 of the standard reads them, character by character, for a filter where
-- each wildcard is a whole level: `+` stands for one level, `#` at the end for any number of levels,
-- also for none with the separator before it. The rule of section 4.7.2 for `$` is not part of it.
pub data Matches : Bytes → Bytes → Type 0 where
  end : Matches [] []
  same : {f n : Bytes} (c : ℕ) → c ≢ b'+' → c ≢ b'#' → Matches f n → Matches (c ∷ f) (c ∷ n)
  level :
      {f n m : Bytes} (l : Bytes)
      → NoSlash l
      → AtSlash n
      → m ≡ l ++ n
      → Matches f n
      → Matches (b'+' ∷ f) m
  levels : {n : Bytes} → Matches (b'#' ∷ []) n
  parent : Matches (b'/' ∷ b'#' ∷ []) []

-- The same, where `+` does not take an empty level, `#` neither the empty text nor one that begins
-- with an empty level, and a filter does not match the parent of its `#`.
pub data Covers : Bytes → Bytes → Type 0 where
  end : Covers [] []
  same : {f n : Bytes} (c : ℕ) → c ≢ b'+' → c ≢ b'#' → Covers f n → Covers (c ∷ f) (c ∷ n)
  level :
      {f n m : Bytes} (x : ℕ) (l : Bytes)
      → x ≢ b'/'
      → NoSlash l
      → AtSlash n
      → m ≡ l ++ n
      → Covers f n
      → Covers (b'+' ∷ f) (x ∷ m)
  levels : {n : Bytes} (x : ℕ) → x ≢ b'/' → Covers (b'#' ∷ []) (x ∷ n)

pub Covers→Matches : {f n : Bytes} → Covers f n → Matches f n
Covers→Matches end = Matches.end
Covers→Matches (same c p h m) = Matches.same c p h (Covers→Matches m)
Covers→Matches (level x l p q s e m) = Matches.level (x ∷ l) (p, q) s (rw e) (Covers→Matches m)
Covers→Matches (levels x p) = Matches.levels
