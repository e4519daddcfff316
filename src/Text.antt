-- ===== src/Text.antt =====
-- JavaScript strings, and `TextEncoder` and `TextDecoder` as shared/codec.ts uses them. A string is the
-- list of its code points, so an unpaired surrogate, which `TextEncoder` replaces, has no model.
pub mod Utf8
use diplomatic.Base.{
  List, [], drop, if◌then◌else◌, leb, ltb, suc, zero, ℕ, ◌%◌, ◌&&◌, ◌*◌, ◌++◌, ◌+◌, ◌-◌, ◌/◌, ◌<◌,
  ◌==◌, ◌∷◌, ◌≤◌, ◌⊎◌,
}

abbrev pub Str : Type 0
Str = List ℕ

-- A code point that is no surrogate.
abbrev pub IsScalar : ℕ → Type 0
IsScalar c = (c < 0xd800) ⊎ ((0xe000 ≤ c) × (c < 0x110000))

encode_char : ℕ → List ℕ
encode_char c =
    if ltb c 0x80
    then c ∷ []
    else if ltb c 0x800
    then (0xc0 + c / 64) ∷ (0x80 + c % 64) ∷ []
    else if ltb c 0x10000
    then (0xe0 + c / 4096) ∷ (0x80 + c / 64 % 64) ∷ (0x80 + c % 64) ∷ []
    else (0xf0 + c / 262144) ∷ (0x80 + c / 4096 % 64) ∷ (0x80 + c / 64 % 64) ∷ (0x80 + c % 64) ∷ []

-- `new TextEncoder().encode(s)`.
unfoldable pub utf8_encode : Str → List ℕ
unfolding encode_char
utf8_encode [] = []
utf8_encode (c ∷ s) = encode_char c ++ utf8_encode s

-- The decoder between two bytes: the bits so far, the bytes that are still needed, and the range in
-- which the next one must lie.
record Pending : Type 0 where
  code : ℕ
  needed : ℕ
  lower : ℕ
  upper : ℕ

abbrev ready : Pending
ready = record { code = 0; needed = 0; lower = 0x80; upper = 0xbf }

abbrev waiting : ℕ → ℕ → ℕ → ℕ → Pending
waiting code needed lower upper = record {
  code = code;
  needed = needed;
  lower = lower;
  upper = upper;
}

-- U+FFFD stands for what cannot be decoded.
lead_byte : ℕ → List ℕ × Pending
lead_byte b =
    if ltb b 0x80
    then (b ∷ [], ready)
    else if ltb b 0xc2
    then (0xfffd ∷ [], ready)
    else if ltb b 0xe0
    then ([], waiting (b - 0xc0) 1 0x80 0xbf)
    else if ltb b 0xf0
    then (
      [],
      waiting (b - 0xe0) 2 (if b == 0xe0 then 0xa0 else 0x80) (if b == 0xed then 0x9f else 0xbf),
    )
    else if ltb b 0xf5
    then (
      [],
      waiting (b - 0xf0) 3 (if b == 0xf0 then 0x90 else 0x80) (if b == 0xf4 then 0x8f else 0xbf),
    )
    else (0xfffd ∷ [], ready)

-- A byte out of range ends the sequence and starts another.
restart : List ℕ × Pending → List ℕ × Pending
restart (out, p) = (0xfffd ∷ out, p)

step : Pending → ℕ → List ℕ × Pending
step p b =
    if p.needed == 0
    then lead_byte b
    else if leb p.lower b && leb b p.upper
    then if p.needed == 1
      then ((p.code * 64 + b % 64) ∷ [], ready)
      else ([], waiting (p.code * 64 + b % 64) (p.needed - 1) 0x80 0xbf)
    else restart (lead_byte b)

decode_from : Pending → List ℕ → Str
decode_from p [] = if p.needed == 0 then [] else 0xfffd ∷ []
decode_from p (b ∷ bytes) = let (out, q) = step p b in out ++ decode_from q bytes

byte_at : ℕ → List ℕ → ℕ
byte_at i [] = 0
byte_at zero (b ∷ bytes) = b
byte_at (suc i) (b ∷ bytes) = byte_at i bytes

-- A byte order mark at the start is dropped.
strip_bom : List ℕ → List ℕ
strip_bom bytes =
    if byte_at 0 bytes == 0xef && (byte_at 1 bytes == 0xbb && byte_at 2 bytes == 0xbf)
    then drop 3 bytes
    else bytes

-- `new TextDecoder().decode(bytes)`.
pub utf8_decode : List ℕ → Str
utf8_decode bytes = decode_from ready (strip_bom bytes)
