-- ===== src/Packet/Writer/Emits.antt =====
-- What a writer does to the buffer, stated once for all writers: it appends a fixed list of bytes,
-- and faults exactly when they do not fit.
use mbed_mqtt.Common.{
  ℕ, ◌/◌, ◌%◌, ◌≤◌, ◌<◌, Bytes, [], ◌∷◌, ◌++◌, Option, none, some, length, drop, pos, ℤ, ltb,
  ltb→ge, Bool-cases, inl, inr, if◌then◌else◌, ◌≡◌, refl, sym, ap, ◌∙◌, arith, append_assoc,
  append-nil,
}
use mathlib.Core.Path.{fun_ext, ap₂}
use mbed_mqtt.Packet.Writer.{
  Out, Writer, then_write, ◌>>◌, skip, store, write_char, write_int, memcpy, fill, checked,
  buffer_too_short,
}

-- Storing the bytes one by one, the reference meaning of a writer.
abbrev pub append : Bytes → Writer
append [] = skip
append (b ∷ bs) = store b >> append bs

abbrev pub Emits : Writer → Bytes → Type 0
Emits w bs = (o : Out) → w o ≡ append bs o

pub Emits-skip : Emits skip []
Emits-skip o = refl

then_write-some : (r : Option Out) → then_write r some ≡ r
then_write-some none = refl
then_write-some (some o) = refl

pub Emits-store : (b : ℕ) → Emits (store b) (b ∷ [])
Emits-store b o = sym (then_write-some (store b o))

then_write_assoc :
    (r : Option Out) (v w : Writer) → then_write (then_write r v) w ≡ then_write r (v >> w)
then_write_assoc none v w = refl
then_write_assoc (some o) v w = refl

append-append : (a b : Bytes) → append a >> append b ≡ append (a ++ b)
append-append [] b = refl
append-append (x ∷ a) b =
    fun_ext (λ o. then_write_assoc (store x o) (append a) (append b))
    ∙ ap (λ (w : Writer). store x >> w) (append-append a b)

pub Emits->> : {v w : Writer} (a b : Bytes) → Emits v a → Emits w b → Emits (v >> w) (a ++ b)
Emits->> {v} {w} a b hv hw o =
    ap₂ (λ (v' w' : Writer). then_write (v' o) w') (fun_ext hv) (fun_ext hw)
    ∙ ap (λ (u : Writer). u o) (append-append a b)

-- Two bytes, the high one first.
unfoldable pub int_image : ℕ → Bytes
int_image n = (n / 256 % 256) ∷ (n % 256) ∷ []

pub length-int_image : (n : ℕ) → length (int_image n) ≡ 2
unfolding int_image
length-int_image n = refl

pub Emits-write_char : (c : ℕ) → Emits (write_char c) ((c % 256) ∷ [])
unfolding write_char
Emits-write_char c = Emits-store (c % 256)

pub Emits-write_int : (n : ℕ) → Emits (write_int n) (int_image n)
unfolding write_int int_image
Emits-write_int n =
    let e : n % 256 % 256 ≡ n % 256 = omega arith in
    rw e (
      Emits->> (n / 256 % 256 ∷ []) (n % 256 ∷ []) (Emits-store (n / 256 % 256))
        (Emits-store (n % 256)))

pub Emits-memcpy : (t more : Bytes) → Emits (memcpy (length t) (t ++ more)) t
unfolding memcpy
Emits-memcpy [] more o = refl
Emits-memcpy (b ∷ t) more o = Emits->> (b ∷ []) t (Emits-store b) (Emits-memcpy t more) o

-- Bytes that fit are appended, and the memory behind them is left as it was.
pub append_fits :
    (bs d r : Bytes)
    → length bs ≤ length r
    → append bs (record { done = d; room = r })
      ≡ some (record { done = d ++ bs; room = drop (length bs) r })
unfolding store
append_fits [] d r h = rw append-nil
append_fits (b ∷ bs) d [] h = absurd (omega arith)
append_fits (b ∷ bs) d (x ∷ r) h = append_fits bs (d ++ b ∷ []) r (omega arith) ∙ rw append_assoc

append_overruns :
    (bs d r : Bytes) → length r < length bs → append bs (record { done = d; room = r }) ≡ none
unfolding store
append_overruns [] d r h = absurd (omega arith)
append_overruns (b ∷ bs) d [] h = refl
append_overruns (b ∷ bs) d (x ∷ r) h = append_overruns bs (d ++ b ∷ []) r (omega arith)

module _ {w : Writer} (bs : Bytes) (emits : Emits w bs) (buf : Bytes) where
  -- The call returns the number of bytes, and changes the front of the buffer only.
  pub fill_fits :
      length bs ≤ length buf → fill w buf ≡ some (pos (length bs), bs ++ drop (length bs) buf)
  unfolding fill
  fill_fits h = rw emits (rw (append_fits bs [] buf h))

  pub fill_overruns : length buf < length bs → fill w buf ≡ none
  unfolding fill
  fill_overruns h = rw emits (rw (append_overruns bs [] buf h))

-- What a guarded call does: it refuses and leaves the buffer, or it writes `bs` at the front.
abbrev pub serialized : ℕ → ℕ → Bytes → Bytes → Option (ℤ × Bytes)
serialized need buflen bs buf =
    if ltb buflen need
    then some (buffer_too_short, buf)
    else some (pos (length bs), bs ++ drop (length bs) buf)

pub checked_lem :
    {w : Writer} (bs : Bytes)
    → Emits w bs
    → (need buflen : ℕ) (buf : Bytes) → length bs ≤ need
    → buflen ≤ length buf
    → checked need buflen w buf ≡ serialized need buflen bs buf
checked_lem bs emits need buflen buf enough fits = elim (Bool-cases (ltb buflen need)) [
  | inl short ↦ rw short
  | inr wide ↦
      let room : length bs ≤ length buf = omega (arith, ltb→ge _ _ wide) in
      rw wide (fill_fits bs emits buf room)
]
