-- ===== src/Client/Topics/Levels.antt =====
-- Topic filters and names as the standard matches them, level by level, and the filters that cover.
use mbed_mqtt.Common.{
  ℕ, Bool, true, false, Bytes, List, [], ◌∷◌, ◌++◌, ◌==◌, if◌then◌else◌, ◌≡◌, ◌≢◌, ◌⊎◌, refl, arith,
  inl, inr,
}
use mbed_mqtt.Client.Topics.Relations.{NoSlash, AtSlash, Covers}

abbrev pub into_first : ℕ → List Bytes → List Bytes
into_first x [] = (x ∷ []) ∷ []
into_first x (l ∷ ls) = (x ∷ l) ∷ ls

-- The levels of a text, which the separators part.
unfoldable pub levels : Bytes → List Bytes
levels [] = [] ∷ []
levels (x ∷ t) = if x == b'/' then [] ∷ levels t else into_first x (levels t)

-- A level without wildcards.
abbrev pub Literal : Bytes → Type 0
Literal [] = Unit
Literal (c ∷ l) = (c ≢ b'+') × (c ≢ b'#') × Literal l

-- Section 4.7.1: a level `+` matches one level, a last level `#` matches all that are left, also
-- none, and every other level matches itself.
pub data FitsLevels : List Bytes → List Bytes → Type 0 where
  end : FitsLevels [] []
  same :
      {fs ns : List Bytes} (l : Bytes) → Literal l → FitsLevels fs ns → FitsLevels (l ∷ fs) (l ∷ ns)
  one : {fs ns : List Bytes} (l : Bytes) → FitsLevels fs ns → FitsLevels ((b'+' ∷ []) ∷ fs) (l ∷ ns)
  rest : {ns : List Bytes} → FitsLevels ((b'#' ∷ []) ∷ []) ns

-- A well-formed filter: a wildcard is a whole level, and `#` is the last. The Boolean says that a
-- level begins.
abbrev pub IsFilter : Bool → Bytes → Type 0
IsFilter start [] = Unit
IsFilter start (c ∷ f) =
    ((c ≡ b'/') × IsFilter true f)
    ⊎ ((c ≢ b'/') × (c ≢ b'+') × (c ≢ b'#') × IsFilter false f)
    ⊎ ((start ≡ true) × (c ≡ b'+') × AtSlash f × IsFilter false f)
    ⊎ ((start ≡ true) × (c ≡ b'#') × (f ≡ []))

-- Section 4.7.2: a name that begins with `$` is not for a filter that begins with a wildcard.
abbrev pub Visible : Bytes → Bytes → Type 0
Visible (c ∷ f) (x ∷ n) = (x ≢ b'$') ⊎ ((c ≢ b'+') × (c ≢ b'#'))
Visible _ _ = Unit

pub record MatchesByStandard (f n : Bytes) : Type 0 where
  pub visible : Visible f n
  pub by_level : FitsLevels (levels f) (levels n)

-- Inside a level: the two texts go on with the same characters up to the next separator.
record InLevel (f n : Bytes) : Type 0 where
  level : Bytes
  filter_rest : List Bytes
  name_rest : List Bytes
  filter_is : levels f ≡ level ∷ filter_rest
  name_is : levels n ≡ level ∷ name_rest
  literal : Literal level
  fits : FitsLevels filter_rest name_rest

InLevel-FitsLevels : {f n : Bytes} → InLevel f n → FitsLevels (levels f) (levels n)
InLevel-FitsLevels {f} {n} i =
    rw (i.filter_is, i.name_is) (FitsLevels.same i.level i.literal i.fits)

levels-slash : (t : Bytes) → levels (b'/' ∷ t) ≡ [] ∷ levels t
unfolding levels
levels-slash t = refl

levels_other :
    (c : ℕ) (t l : Bytes) (ls : List Bytes)
    → c ≢ b'/'
    → levels t ≡ l ∷ ls
    → levels (c ∷ t) ≡ (c ∷ l) ∷ ls
unfolding levels
levels_other c t l ls p e = rw e (ground arith)

levels-append :
    (l n : Bytes) (ns : List Bytes) → NoSlash l → levels n ≡ [] ∷ ns → levels (l ++ n) ≡ l ∷ ns
levels-append [] n ns p e = e
levels-append (x ∷ l) n ns p e = levels_other x (l ++ n) l ns p.0 (levels-append l n ns p.1 e)

-- At a separator or at the end a level ends.
empty_level : (t l : Bytes) (ls : List Bytes) → AtSlash t → levels t ≡ l ∷ ls → l ≡ []
unfolding levels
empty_level [] l ls s e = ground arith
empty_level (x ∷ t) l ls s e = ground (arith, s)

InLevel-slash :
    (c : ℕ) (f n : Bytes) → c ≡ b'/' → FitsLevels (levels f) (levels n) → InLevel (c ∷ f) (c ∷ n)
InLevel-slash c f n e fits = rw e (record {
  level = [];
  filter_rest = levels f;
  name_rest = levels n;
  filter_is = levels-slash f;
  name_is = levels-slash n;
  literal = tt;
  fits = fits;
})

InLevel-other :
    (c : ℕ) (f n : Bytes) → c ≢ b'/' → c ≢ b'+' → c ≢ b'#' → InLevel f n → InLevel (c ∷ f) (c ∷ n)
InLevel-other c f n p q h i = record {
  level = c ∷ i.level;
  filter_rest = i.filter_rest;
  name_rest = i.name_rest;
  filter_is = levels_other c f i.level i.filter_rest p i.filter_is;
  name_is = levels_other c n i.level i.name_rest p i.name_is;
  literal = (q, h, i.literal);
  fits = i.fits;
}

at_plus :
    (x : ℕ) (l f n : Bytes)
    → x ≢ b'/'
    → NoSlash l
    → AtSlash f
    → InLevel f n
    → FitsLevels (levels (b'+' ∷ f)) (levels (x ∷ (l ++ n)))
at_plus x l f n p q s i =
    let e = empty_level f i.level i.filter_rest s i.filter_is in
    let in_filter : levels (b'+' ∷ f) ≡ (b'+' ∷ []) ∷ i.filter_rest =
      levels_other b'+' f [] i.filter_rest (omega arith) (rw e at i.filter_is) in
    let in_name : levels (x ∷ (l ++ n)) ≡ (x ∷ l) ∷ i.name_rest =
      levels-append (x ∷ l) n i.name_rest (p, q) (rw e at i.name_is) in
    rw (in_filter, in_name) (FitsLevels.one (x ∷ l) i.fits)

-- One literal character, wherever it stands.
InLevel-same :
    (start : Bool) (c : ℕ) (f n : Bytes)
    → c ≢ b'+'
    → c ≢ b'#'
    → (IsFilter false f → InLevel f n)
    → (IsFilter true f → FitsLevels (levels f) (levels n))
    → IsFilter start (c ∷ f)
    → InLevel (c ∷ f) (c ∷ n)
InLevel-same start c f n p h inside ahead (inl (e, w)) = InLevel-slash c f n e (ahead w)
InLevel-same start c f n p h inside ahead (inr (inl (q, p', h', w))) =
    InLevel-other c f n q p h (inside w)
InLevel-same start c f n p h inside ahead (inr (inr (inl w))) = absurd (p w.1)
InLevel-same start c f n p h inside ahead (inr (inr (inr w))) = absurd (h w.1)

-- Inside a level a well-formed filter has no wildcard.
no_wildcard :
    {A : Type 0} (c : ℕ) (f : Bytes) → (c ≡ b'+') ⊎ (c ≡ b'#') → IsFilter false (c ∷ f) → A
no_wildcard c f e (inl w) = absurd (ground (arith, e, w.0))
no_wildcard c f e (inr (inl w)) = absurd (ground (arith, e, w.1, w.2))
no_wildcard c f e (inr (inr (inl w))) = absurd (cc (w.0))
no_wildcard c f e (inr (inr (inr w))) = absurd (cc (w.0))

-- A `+` stands between separators.
plus_alone : (f : Bytes) → IsFilter true (b'+' ∷ f) → AtSlash f × IsFilter false f
plus_alone f (inl w) = absurd (ground (arith, w.0))
plus_alone f (inr (inl w)) = absurd (w.1 refl)
plus_alone f (inr (inr (inl w))) = (w.2, w.3)
plus_alone f (inr (inr (inr w))) = absurd (ground (arith, w.1))

-- What a well-formed filter covers, inside a level and at the start of one.
covers_both :
    {f n : Bytes}
    → Covers f n
    → (IsFilter false f → InLevel f n) × (IsFilter true f → FitsLevels (levels f) (levels n))
unfolding levels
covers_both Covers.end = (
  λ w. record {
    level = [];
    filter_rest = [];
    name_rest = [];
    filter_is = refl;
    name_is = refl;
    literal = tt;
    fits = FitsLevels.end;
  },
  λ w. FitsLevels.same [] tt FitsLevels.end,
)
covers_both (Covers.same {f} {n} c p h m) =
    let (inside, ahead) = covers_both m in
    (
      InLevel-same false c f n p h inside ahead,
      λ w. InLevel-FitsLevels (InLevel-same true c f n p h inside ahead w),
    )
covers_both (Covers.level {f} {n} x l p q s e m) = (
  λ w. no_wildcard b'+' f (inl refl) w,
  λ w.
      let (alone, after) = plus_alone f w in
      rw e (at_plus x l f n p q alone ((covers_both m).0 after)),
)
covers_both (Covers.levels x p) = (λ w. no_wildcard b'#' [] (inr refl) w, λ w. FitsLevels.rest)

pub Covers-by_level :
    {f n : Bytes} → Covers f n → IsFilter true f → FitsLevels (levels f) (levels n)
Covers-by_level c w = (covers_both c).1 w
