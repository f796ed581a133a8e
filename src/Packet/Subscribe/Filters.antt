-- ===== src/Packet/Subscribe/Filters.antt =====
-- The lists of topic filters: what the two loops over them write and read.
use mbed_mqtt.Common.{
  ℕ, zero, suc, ◌+◌, ◌<◌, ◌%◌, ◌^◌, Bool, Bytes, List, [], ◌∷◌, ◌++◌, some, length, length-append,
  append_assoc, append-nil, ◌≡◌, refl, ◌∙◌, arith, lt→ltb, ge→ltb, lt→leb, ℤ, pos,
}
use mbed_mqtt.Packet.Reader.{read_char, as_int}
use mbed_mqtt.Packet.Strings.Laws.{
  Holds, mqtt_strlen-Holds, string_image, length-string_image, Emits-write_mqtt_string, len_string,
  read_mqtt_len_string-string_image,
}
use mbed_mqtt.Packet.Strings.{MqttString}
use mbed_mqtt.Packet.Subscribe.{Filters, filter_lengths, write_filters, read_filters}
use mbed_mqtt.Packet.Writer.Emits.{Emits, Emits-skip, Emits-write_char, Emits->>}

-- Topic filters as texts, each with its requested QoS.
abbrev pub Texts : Type 0
Texts = List (Bytes × ℕ)

abbrev pub HoldAll : Filters → Texts → Type 0
HoldAll [] [] = Unit
HoldAll [] (t ∷ ts) = ⊥
HoldAll (f ∷ fs) [] = ⊥
HoldAll ((s, q) ∷ fs) ((t, r) ∷ ts) = Holds s t × (q ≡ r) × HoldAll fs ts

unfoldable pub filters_image : Texts → Bytes
filters_image [] = []
filters_image ((t, q) ∷ ts) = string_image t ++ ((q % 256) ∷ filters_image ts)

pub filter_lengths-HoldAll :
    (fs : Filters) (ts : Texts) → HoldAll fs ts → filter_lengths fs ≡ length (filters_image ts)
unfolding filter_lengths filters_image
filter_lengths-HoldAll [] [] h = refl
filter_lengths-HoldAll [] (t ∷ ts) h = elim h [ ]
filter_lengths-HoldAll (f ∷ fs) [] h = elim h [ ]
filter_lengths-HoldAll ((s, q) ∷ fs) ((t, r) ∷ ts) (hs, e, h) = omega (
  arith,
  mqtt_strlen-Holds s t hs,
  length-append (string_image t) (r % 256 ∷ filters_image ts),
  length-string_image t,
  filter_lengths-HoldAll fs ts h,
)

pub Emits-write_filters :
    (fs : Filters) (ts : Texts) → HoldAll fs ts → Emits (write_filters fs) (filters_image ts)
unfolding write_filters filters_image
Emits-write_filters [] [] h = Emits-skip
Emits-write_filters [] (t ∷ ts) h = elim h [ ]
Emits-write_filters (f ∷ fs) [] h = elim h [ ]
Emits-write_filters ((s, q) ∷ fs) ((t, r) ∷ ts) (hs, e, h) = rw e (
    Emits->> (string_image t) (r % 256 ∷ filters_image ts) (Emits-write_mqtt_string s t hs) (
      Emits->> (r % 256 ∷ []) (filters_image ts) (Emits-write_char r)
        (Emits-write_filters fs ts h)))

-- Texts that fit their two bytes of length, and QoS values that fit their byte.
abbrev pub AllFit : Texts → Type 0
AllFit [] = Unit
AllFit ((t, q) ∷ ts) = (length t < 2 ^ 16) × (q < 256) × AllFit ts

-- The filters as pointers into the buffer, where `rest` follows the packet.
unfoldable pub views : Bool → Texts → Bytes → List (MqttString × ℤ)
views signed [] rest = []
views signed ((t, q) ∷ ts) rest =
    (len_string t (q ∷ (filters_image ts ++ rest)), as_int signed q) ∷ views signed ts rest

pub read_filters-filters_image :
    (signed : Bool) (rounds rc enddata : ℕ) (old : ℕ → MqttString) (fs : List (MqttString × ℤ))
    (ts : Texts) (rest : Bytes) (at : ℕ)
    → AllFit ts
    → length ts < rounds
    → enddata ≡ at + length (filters_image ts)
    → read_filters signed rounds rc enddata old fs
        (record { rest = filters_image ts ++ rest; at = at })
      ≡ some ((pos 1, fs ++ views signed ts rest), record { rest = rest; at = enddata })
unfolding read_filters filters_image views read_char
read_filters-filters_image signed zero rc enddata old fs ts rest at fit enough e =
    absurd (omega arith)
read_filters-filters_image signed (suc rounds) rc enddata old fs [] rest at fit enough e =
    let same : enddata ≡ at = omega (arith, e) in rw (same, ge→ltb at at (omega arith), append-nil)
read_filters-filters_image signed (suc rounds) rc enddata old fs ((t, q) ∷ ts) rest at
      (short, small, fit) enough e =
    let e0 : q % 256 ≡ q = omega arith in
    let size : enddata ≡ at + 2 + length t + 1 + length (filters_image ts) = omega (
      arith,
      e,
      length-append (string_image t) (q % 256 ∷ filters_image ts),
      length-string_image t,
    ) in
    rw (e0, append_assoc (string_image t), lt→ltb at enddata (omega (arith, size)))
      (rw
        (read_mqtt_len_string-string_image t (q ∷ (filters_image ts ++ rest)) at enddata
          (old (length fs)) short (omega (arith, size)))
        (rw (lt→leb (at + 2 + length t) enddata (omega (arith, size))) (
          read_filters-filters_image signed rounds rc enddata old _ ts rest (at + 2 + length t + 1)
            fit (omega arith) size
          ∙ rw append_assoc)))
