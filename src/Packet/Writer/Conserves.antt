-- ===== src/Packet/Writer/Conserves.antt =====
-- A serializer changes the bytes of the buffer and not its size, whatever it is given and whichever
-- way it ends.
use mbed_mqtt.Common.{
  ℕ, zero, suc, ◌+◌, ◌%◌, ◌/◌, Bool, true, false, Bytes, [], ◌∷◌, Option, none, some, length,
  length-append, ltb, if◌then◌else◌, ℤ, ◌≡◌, refl, arith, Bool-cases, inl, inr,
}
use mbed_mqtt.Packet.Length.{packet_encode, encode_loop}
use mbed_mqtt.Packet.Writer.{
  Out, Writer, then_write, ◌>>◌, skip, store, write_char, write_int, memcpy, write_cstring,
  returned, fill, checked,
}

abbrev pub size : Out → ℕ
size o = length o.done + length o.room

abbrev pub HasSize : ℕ → Option Out → Type 0
HasSize n none = Unit
HasSize n (some o) = size o ≡ n

pub record Conserves (w : Writer) : Type 0 where
  pub at : (o : Out) → HasSize (size o) (w o)

pub Conserves-skip : Conserves skip
Conserves-skip = record { at = λ o. refl }

pub Conserves-fault : Conserves (λ o. none)
Conserves-fault = record { at = λ o. tt }

at_store :
    (b : ℕ) (d r : Bytes) → HasSize (length d + length r) (store b (record { done = d; room = r }))
unfolding store
at_store b d [] = tt
at_store b d (x ∷ r) = omega (arith, length-append d (b ∷ []))

pub Conserves-store : (b : ℕ) → Conserves (store b)
Conserves-store b = record { at = λ o. at_store b o.done o.room }

at_both :
    (n : ℕ) (r : Option Out) (w : Writer) → HasSize n r → Conserves w → HasSize n (then_write r w)
at_both n none w h c = tt
at_both n (some o) w h c = rw h at (c.at o)

pub Conserves->> : (v w : Writer) → Conserves v → Conserves w → Conserves (v >> w)
Conserves->> v w cv cw = record { at = λ o. at_both (size o) (v o) w (cv.at o) cw }

pub Conserves-if :
    (b : Bool) (v w : Writer) → Conserves v → Conserves w → Conserves (if b then v else w)
Conserves-if true v w cv cw = cv
Conserves-if false v w cv cw = cw

pub Conserves-write_char : (c : ℕ) → Conserves (write_char c)
unfolding write_char
Conserves-write_char c = Conserves-store (c % 256)

pub Conserves-write_int : (n : ℕ) → Conserves (write_int n)
unfolding write_int
Conserves-write_int n =
    Conserves->> _ _ (Conserves-store (n / 256 % 256)) (Conserves-store (n % 256 % 256))

pub Conserves-memcpy : (n : ℕ) (src : Bytes) → Conserves (memcpy n src)
unfolding memcpy
Conserves-memcpy zero src = Conserves-skip
Conserves-memcpy (suc n) [] = Conserves-fault
Conserves-memcpy (suc n) (b ∷ src) =
    Conserves->> (store b) (memcpy n src) (Conserves-store b) (Conserves-memcpy n src)

pub Conserves-write_cstring : (t : Bytes) → Conserves (write_cstring t)
unfolding write_cstring
Conserves-write_cstring t =
    Conserves->> (write_int (length t)) (memcpy (length t) t) (Conserves-write_int (length t))
      (Conserves-memcpy (length t) t)

Conserves-encode_loop : (rounds n : ℕ) → Conserves (encode_loop rounds n)
unfolding encode_loop
Conserves-encode_loop zero n = Conserves-fault
Conserves-encode_loop (suc rounds) n =
    Conserves-if (ltb 0 (n / 128)) (store (n % 128 + 128) >> encode_loop rounds (n / 128))
      (store (n % 128))
      (Conserves->> _ _ (Conserves-store (n % 128 + 128)) (Conserves-encode_loop rounds (n / 128)))
      (Conserves-store (n % 128))

pub Conserves-packet_encode : (n : ℕ) → Conserves (packet_encode n)
unfolding packet_encode
Conserves-packet_encode n = Conserves-encode_loop 5 n

-- The result of a whole call.
abbrev pub SameSize : Bytes → Option (ℤ × Bytes) → Type 0
SameSize buf none = Unit
SameSize buf (some r) = length r.1 ≡ length buf

SameSize-returned :
    (buf : Bytes) (r : Option Out) → HasSize (length buf) r → SameSize buf (returned r)
SameSize-returned buf none h = tt
SameSize-returned buf (some o) h = omega (arith, length-append o.done o.room)

pub zero_plus : (n : ℕ) → 0 + n ≡ n
zero_plus n = omega arith

pub SameSize-checked :
    (need buflen : ℕ) (w : Writer) (buf : Bytes)
    → Conserves w
    → SameSize buf (checked need buflen w buf)
unfolding fill
SameSize-checked need buflen w buf c = elim (Bool-cases (ltb buflen need)) [
  | inl e ↦ rw e refl
  | inr e ↦ rw e (
      SameSize-returned buf (w (record { done = []; room = buf }))
        (rw (zero_plus (length buf)) at (c.at (record { done = []; room = buf }))))
]
