-- ===== src/Packet/Memory/Laws.antt =====
-- Memory after a write, given by its parts or by its length.
use mbed_mqtt.Common.{
  ℕ, suc, ◌+◌, ◌^◌, ◌≤◌, ◌<◌, true, Bytes, [], ◌∷◌, ◌++◌, Option, none, some, and_then, length,
  length-append, take, drop, take-append, drop-append, drop_add, length-take, length-drop, leb, ◌≡◌,
  refl, sym, ap, ◌∙◌, arith, le→leb,
}
use mbed_mqtt.Packet.Memory.{overwrite, readable, encode_at_1}
use mbed_mqtt.Packet.Length.{packet_encode}
use mbed_mqtt.Packet.Length.Laws.{rem_image, Emits-packet_encode}
use mbed_mqtt.Packet.Writer.{Out}
use mbed_mqtt.Packet.Writer.Conserves.{HasSize, Conserves-packet_encode, zero_plus}
use mbed_mqtt.Packet.Writer.Emits.{append_fits}

pub length-overwrite :
    (at : ℕ) (bs mem mem' : Bytes) → overwrite at bs mem ≡ some mem' → length mem' ≡ length mem
unfolding overwrite
length-overwrite at bs mem mem' h = ground (
  arith,
  length-append (take at mem) (bs ++ drop (at + length bs) mem),
  length-append bs (drop (at + length bs) mem),
  length-take at mem,
  length-drop (at + length bs) mem,
)

pub first_byte : (b : ℕ) (mem : Bytes) → readable 0 1 (b ∷ mem) ≡ some (b ∷ [])
unfolding readable
first_byte b mem = ground arith

-- The digits go over the bytes that were there.
length-with_header :
    (b : ℕ) (mem : Bytes) (w : Option Out) (r : ℕ × Bytes)
    → HasSize (length mem) w
    → and_then w (λ o. some (length o.done, b ∷ o.done ++ o.room)) ≡ some r
    → length r.1 ≡ suc (length mem)
length-with_header b mem none r h e = cc
length-with_header b mem (some o) r h e =
    let e1 : b ∷ o.done ++ o.room ≡ r.1 = ground arith in
    rw (sym e1) (omega (arith, length-append o.done o.room, h))

pub length-encode_at_1 :
    (n : ℕ) (mem : Bytes) (r : ℕ × Bytes) → encode_at_1 n mem ≡ some r → length r.1 ≡ length mem
unfolding encode_at_1 readable
length-encode_at_1 n [] r h = absurd (ground arith)
length-encode_at_1 n (b ∷ mem) r h =
    let start : Out = record { done = []; room = mem } in
    length-with_header b mem (packet_encode n start) r
      (rw (zero_plus (length mem)) at ((Conserves-packet_encode n).at start))
      (rw (first_byte b mem) at h)

take-part : (a b c : Bytes) → length a ≡ length b → take (length a) (b ++ c) ≡ b
take-part a b c h = rw h (take-append b c)

drop-part : (a b c : Bytes) → length a ≡ length b → drop (length a) (b ++ c) ≡ c
drop-part a b c h = rw h (drop-append b c)

-- Memory is given by the parts before, at and behind what is written.
pub overwrite_lem :
    (a b c bs : Bytes)
    → length bs ≡ length b
    → overwrite (length a) bs (a ++ (b ++ c)) ≡ some (a ++ (bs ++ c))
unfolding overwrite
overwrite_lem a b c bs h =
    let fits : leb (length a + length bs) (length (a ++ (b ++ c))) ≡ true =
      le→leb _ _ (omega (arith, length-append a (b ++ c), length-append b c)) in
    let behind : drop (length a + length bs) (a ++ (b ++ c)) ≡ c =
      sym (drop_add (length a) (length bs) (a ++ (b ++ c)))
      ∙ ap (drop (length bs)) (drop-append a (b ++ c))
      ∙ drop-part bs b c h in
    rw (fits, behind, take-append a (b ++ c)) refl

pub encode_at_1_lem :
    (x n : ℕ) (o c : Bytes)
    → n < 2 ^ 28
    → length o ≡ length (rem_image n)
    → encode_at_1 n (x ∷ (o ++ c)) ≡ some (length (rem_image n), x ∷ (rem_image n ++ c))
unfolding encode_at_1
encode_at_1_lem x n o c small h =
    let start : Out = record { done = []; room = o ++ c } in
    let fits : length (rem_image n) ≤ length (o ++ c) = omega (arith, length-append o c) in
    let written : packet_encode n start ≡ some (record { done = rem_image n; room = c }) =
      Emits-packet_encode n (omega arith) start
      ∙ append_fits (rem_image n) [] (o ++ c) fits
      ∙ rw (drop-part (rem_image n) o c (sym h)) refl in
    rw (first_byte x (o ++ c), written) refl
