-- ===== src/Text/Utf8.antt =====
-- The text codec of `readVarString` and `writeVarString`, there and back.
use diplomatic.Base.{
  All, Bool-cases, List, [], ap, arith, false, if◌then◌else◌, inl, inr, leb, ltb, ltb→lt, refl, suc,
  true, ℕ, ◌%◌, ◌&&◌, ◌*◌, ◌++◌, ◌+◌, ◌-◌, ◌/◌, ◌<◌, ◌==◌, ◌∙◌, ◌∷◌, ◌≡◌, ◌≢◌, ◌≤◌,
}
use diplomatic.Text.{
  IsScalar, Pending, Str, byte_at, decode_from, encode_char, lead_byte, ready, step, strip_bom,
  utf8_decode, utf8_encode, waiting,
}

decode-last :
    (code lower upper b : ℕ) (rest : List ℕ)
    → lower ≤ b
    → b ≤ upper
    → decode_from (waiting code 1 lower upper) (b ∷ rest)
      ≡ (code * 64 + b % 64) ∷ decode_from ready rest
unfolding decode_from step
decode-last code lower upper b rest lo hi =
    let inside : (leb lower b && leb b upper) ≡ true = ground arith in rw inside

decode-more :
    (code n lower upper b : ℕ) (rest : List ℕ)
    → lower ≤ b
    → b ≤ upper
    → decode_from (waiting code (suc (suc n)) lower upper) (b ∷ rest)
      ≡ decode_from (waiting (code * 64 + b % 64) (suc n) 0x80 0xbf) rest
unfolding decode_from step
decode-more code n lower upper b rest lo hi =
    let inside : (leb lower b && leb b upper) ≡ true = ground arith in
    let some_left : (suc (suc n) == 0) ≡ false = ground arith in
    let one : (suc (suc n) == 1) ≡ false = ground arith in
    let fewer : suc (suc n) - 1 ≡ suc n = omega arith in rw (some_left, inside, one, fewer)

-- The lead bytes of two, three and four, where the range of the next byte depends on the lead.
decode-lead :
    (b : ℕ) (rest : List ℕ) (p : Pending)
    → lead_byte b ≡ ([], p)
    → decode_from ready (b ∷ rest) ≡ decode_from p rest
unfolding decode_from step
decode-lead b rest p e = rw e

abbrev lower_of : ℕ → ℕ → ℕ
lower_of lead b = if b == lead then (if lead == 0xe0 then 0xa0 else 0x90) else 0x80

abbrev upper_of : ℕ → ℕ → ℕ
upper_of lead b = if b == lead then (if lead == 0xed then 0x9f else 0x8f) else 0xbf

lead_two : (b : ℕ) → 0xc2 ≤ b → b < 0xe0 → lead_byte b ≡ ([], waiting (b - 0xc0) 1 0x80 0xbf)
unfolding lead_byte
lead_two b lo hi = ground arith

lead_three :
    (b : ℕ)
    → 0xe0 ≤ b
    → b < 0xf0
    → lead_byte b ≡ ([], waiting (b - 0xe0) 2 (lower_of 0xe0 b) (upper_of 0xed b))
unfolding lead_byte
lead_three b lo hi = ground arith

lead_four :
    (b : ℕ)
    → 0xf0 ≤ b
    → b < 0xf5
    → lead_byte b ≡ ([], waiting (b - 0xf0) 3 (lower_of 0xf0 b) (upper_of 0xf4 b))
unfolding lead_byte
lead_four b lo hi = ground arith

one_byte :
    (c : ℕ) (rest : List ℕ) → c < 0x80 → decode_from ready (c ∷ rest) ≡ c ∷ decode_from ready rest
unfolding decode_from step lead_byte
one_byte c rest h = let small : ltb c 0x80 ≡ true = ground arith in rw small

two_bytes :
    (c : ℕ) (rest : List ℕ)
    → 0x80 ≤ c
    → c < 0x800
    → decode_from ready ((0xc0 + c / 64) ∷ (0x80 + c % 64) ∷ rest) ≡ c ∷ decode_from ready rest
two_bytes c rest lo hi =
    decode-lead _ _ _ (lead_two (0xc0 + c / 64) (omega arith) (omega arith))
    ∙ decode-last _ _ _ _ rest (omega arith) (omega arith)
    ∙ ap (λ (d : ℕ). d ∷ decode_from ready rest) (omega arith)

three_bytes :
    (c : ℕ) (rest : List ℕ)
    → 0x800 ≤ c
    → c < 0x10000
    → IsScalar c
    → decode_from ready ((0xe0 + c / 4096) ∷ (0x80 + c / 64 % 64) ∷ (0x80 + c % 64) ∷ rest)
      ≡ c ∷ decode_from ready rest
three_bytes c rest lo hi h =
    decode-lead _ _ _ (lead_three (0xe0 + c / 4096) (omega arith) (omega arith))
    ∙ decode-more _ 0 _ _ _ _ (ground arith) (ground arith)
    ∙ decode-last _ _ _ _ rest (omega arith) (omega arith)
    ∙ ap (λ (d : ℕ). d ∷ decode_from ready rest) (omega arith)

four_bytes :
    (c : ℕ) (rest : List ℕ)
    → 0x10000 ≤ c
    → IsScalar c
    → decode_from ready (
        (0xf0 + c / 262144)
        ∷ (0x80 + c / 4096 % 64)
        ∷ (0x80 + c / 64 % 64)
        ∷ (0x80 + c % 64)
        ∷ rest)
      ≡ c ∷ decode_from ready rest
four_bytes c rest lo h =
    decode-lead _ _ _ (lead_four (0xf0 + c / 262144) (omega arith) (omega arith))
    ∙ decode-more _ 1 _ _ _ _ (ground arith) (ground arith)
    ∙ decode-more _ 0 _ _ _ _ (omega arith) (omega arith)
    ∙ decode-last _ _ _ _ rest (omega arith) (omega arith)
    ∙ ap (λ (d : ℕ). d ∷ decode_from ready rest) (omega arith)

decode_from-encode_char :
    (c : ℕ) (rest : List ℕ)
    → IsScalar c
    → decode_from ready (encode_char c ++ rest) ≡ c ∷ decode_from ready rest
unfolding encode_char
decode_from-encode_char c rest h = elim (Bool-cases (ltb c 0x80)) [
  | inl e ↦ rw e (one_byte c rest (ltb→lt _ _ e))
  | inr e ↦ elim (Bool-cases (ltb c 0x800)) [
    | inl f ↦ rw (e, f) (two_bytes c rest (ground arith) (ltb→lt _ _ f))
    | inr f ↦ elim (Bool-cases (ltb c 0x10000)) [
      | inl g ↦ rw (e, f, g) (three_bytes c rest (ground arith) (ltb→lt _ _ g) h)
      | inr g ↦ rw (e, f, g) (four_bytes c rest (ground arith) h)
    ]
  ]
]

decode_from-utf8_encode : (s : Str) → All IsScalar s → decode_from ready (utf8_encode s) ≡ s
unfolding utf8_encode
decode_from-utf8_encode [] h = unfold decode_from in refl
decode_from-utf8_encode (c ∷ s) (h, hs) =
    decode_from-encode_char c (utf8_encode s) h
    ∙ ap (λ (t : Str). c ∷ t) (decode_from-utf8_encode s hs)

-- A text that `TextDecoder` gives back: scalar values, with no byte order mark in front.
abbrev pub IsText : Str → Type 0
IsText [] = Unit {0}
IsText (c ∷ s) = (c ≢ 0xfeff) × All IsScalar (c ∷ s)

no_bom :
    (c : ℕ) (s : Str)
    → c ≢ 0xfeff
    → IsScalar c
    → strip_bom (encode_char c ++ utf8_encode s) ≡ encode_char c ++ utf8_encode s
unfolding strip_bom encode_char byte_at
no_bom c s n h = ground arith

-- A string of scalar values that does not start with U+FEFF is decoded as it was encoded.
pub utf8_decode-utf8_encode : (s : Str) → IsText s → utf8_decode (utf8_encode s) ≡ s
unfolding utf8_decode
utf8_decode-utf8_encode [] h = unfold utf8_encode strip_bom decode_from byte_at in refl
utf8_decode-utf8_encode (c ∷ s) (n, h) =
    unfold utf8_encode in rw (no_bom c s n h.0) (decode_from-utf8_encode (c ∷ s) h)
