-- ===== src/Codec.antt =====
-- shared/codec.ts: variable-length integers, `Decoder` and `Encoder`. A byte array is a list of
-- numbers, and a JavaScript number that holds an integer is an integer.
pub mod Septets
pub mod Ends
pub mod Loops
pub mod VarInt
pub mod Stream
pub mod Structs
pub mod Calm
pub mod Bounds
pub mod Strings
use Prim.Native.Nat.{bit_and, bit_or}
use diplomatic.Base.{
  Bool, List, [], arith, concat, drop, false, if◌then◌else◌, leb, length, ltb, suc, take, true,
  zero, ℕ, ◌%◌, ◌*◌, ◌++◌, ◌+◌, ◌-◌, ◌/◌, ◌<◌, ◌==◌, ◌^◌, ◌∷◌,
}
use diplomatic.Base.Int.{pos, negsuc, ℤ}
use diplomatic.Base.Order.{lt_wf}
use diplomatic.Consts.{invalid_message, invalid_param, out_of_bounds, var_limit_exceeded}
use diplomatic.Exec.{
  Done, Exec, ValStat, diverged, err, modify, ok, pure, query, raise, thrown, ◌>>=◌, ◌>>◌,
}
use mathlib.Core.Logic.{dite}
use mathlib.Core.WellFounded.{Acc}
use native.Mathlib.Decide.{dec_lt}

abbrev pub Byte : Type 0
Byte = ℕ

abbrev pub Bytes : Type 0
Bytes = List Byte

pub septet_shrinks : (n : ℕ) → 0 < n → n / 128 < n
septet_shrinks n h = omega arith

-- The body of `while (n > 0n)`: `n & 0x7f`, with the top bit set if more follows; `n >>= 7`.
pub septets : (n : ℕ) → Acc ◌<◌ n → Bytes
septets n (Acc.intro _ smaller) =
    dite (dec_lt 0 n)
      (λ h.
        let byte = bit_and n 0x7f in
        (if ltb 0 (n / 128) then bit_or byte 0x80 else byte)
        ∷ septets (n / 128) (smaller (n / 128) (septet_shrinks n h)))
      (λ _. [])

-- The answer for the bytes that the loop pushed.
abbrev pub checked : Bytes → ValStat Bytes
checked [] = ok (0 ∷ [])
checked (b ∷ bs) = if ltb 8 (length (b ∷ bs)) then err var_limit_exceeded else ok (b ∷ bs)

pub encode_var_int : ℤ → ValStat Bytes
encode_var_int (negsuc n) = err invalid_param
encode_var_int (pos n) = checked (septets n (lt_wf.apply n))

-- `number | bigint`: a bigint where the value is above `Number.MAX_SAFE_INTEGER`.
pub data Numeric : Type 0 where
  num big : ℕ → Numeric

pub record Parsed : Type 0 where
  pub value : Numeric
  pub bytes_read : ℕ

abbrev pub numeric : ℕ → Numeric
numeric n = if ltb 0x1fffffffffffff n then big n else num n

-- `while (true)` over the bytes from `i` on; `read` is `i - offset`.
pub decode_loop : Bytes → ℕ → ℕ → ℕ → ValStat Parsed
decode_loop [] result shift read = err invalid_message
decode_loop (byte ∷ rest) result shift read =
    let result' = bit_or result (bit_and byte 0x7f * 2 ^ shift) in
    let more = decode_loop rest result' (shift + 7) (read + 1) in
    if bit_and byte 0x80 == 0
    then if ltb 8 (read + 1)
      then err var_limit_exceeded
      else ok (record { value = numeric result'; bytes_read = read + 1 })
    else if leb 56 (shift + 7)
    then err var_limit_exceeded
    else more

pub decode_var_int : Bytes → ℕ → ValStat Parsed
decode_var_int bytes offset = decode_loop (drop offset bytes) 0 0 0

-- A multiple of `u` that is nearest to `n`, and the even multiple where two are.
abbrev pub round_to : ℕ → ℕ → ℕ
round_to u n =
    let q = n / u in
    let twice = 2 * (n % u) in
    if ltb twice u then q * u else if ltb u twice then (q + 1) * u else (q + q % 2) * u

-- `Number(n)` of a bigint below 2 ^ 56: the nearest double.
pub number : ℕ → ℕ
number n =
    if ltb n (2 ^ 53)
    then n
    else if ltb n (2 ^ 54)
    then round_to 2 n
    else if ltb n (2 ^ 55)
    then round_to 4 n
    else round_to 8 n

abbrev pub to_number : Numeric → ℕ
to_number (num n) = n
to_number (big n) = number n

pub record Decoder : Type 0 where
  pub input : Bytes
  pub pos : ℕ

abbrev pub Read : Type 0 → Type 0
Read A = Exec Decoder A

abbrev pub decoder : Bytes → Decoder
decoder bytes = record { input = bytes; pos = 0 }

abbrev pub skip : ℕ → Exec Decoder Done
skip n = modify (λ d. record d { pos = d.pos + n })

pub read_var_int : Read ℤ
read_var_int = do
  res ← query (λ d. decode_var_int d.input d.pos)
  skip res.bytes_read
  pure (pos (to_number res.value))

pub read_bytes : ℤ → Read Bytes
read_bytes (negsuc n) d = (err invalid_param, d)
read_bytes (pos n) d =
    if ltb (length d.input) (d.pos + n)
    then (err out_of_bounds, d)
    else (ok (take n (drop d.pos d.input)), record d { pos = d.pos + n })

pub read_var_bytes : Read Bytes
read_var_bytes = do len ← read_var_int; read_bytes len

pub done : Decoder → Bool
done d = leb (length d.input) d.pos

abbrev pub remaining : Decoder → ℕ
remaining d = length d.input - d.pos

-- A `Date` is its time value. `new Date(n)` is an invalid date beyond 8.64e15 milliseconds.
pub data Date : Type 0 where
  time : ℤ → Date
  invalid_date : Date

abbrev pub max_time : ℕ
max_time = 8640000000000000

abbrev pub new_date : ℤ → Date
new_date (pos n) = if leb n max_time then time (pos n) else invalid_date
new_date (negsuc n) = if ltb n max_time then time (negsuc n) else invalid_date

pub read_date : Read Date
read_date = do offset ← read_var_int; pure (new_date offset)

-- `while (!this.done())`, with one round for each byte left. `diverged` is met only by a `Read`
-- that succeeds without reading a byte, for which the source's loop has no end.
pub read_until_done : {A : Type 0} → ℕ → Read A → Read (List A)
read_until_done zero m d = if done d then (ok [], d) else (diverged, d)
read_until_done (suc fuel) m d = elim (done d) [
  | true ↦ (ok [], d)
  | false ↦ (do x ← m; xs ← read_until_done fuel m; pure (x ∷ xs)) d
]

pub read_bytes_seq : ℤ → Read (List Bytes)
read_bytes_seq len d = read_until_done (remaining d) (read_bytes len) d

-- A view of the unread tail. Nothing in the model writes to a byte array, so a view is a copy.
pub read_rest : Read Bytes
read_rest d = (ok (drop d.pos d.input), record d { pos = length d.input })

pub record Encoder : Type 0 where
  pub parts : List Bytes

abbrev pub Write : Type 0
Write = Exec Encoder Done

abbrev pub new_encoder : Encoder
new_encoder = record { parts = [] }

pub write_bytes : Bytes → Write
write_bytes bytes = modify (λ enc. record { parts = enc.parts ++ (bytes ∷ []) })

pub write_var_int : ℤ → Write
write_var_int n = do bytes ← query (λ _. encode_var_int n); write_bytes bytes

pub write_date : Date → Write
write_date (time ms) = write_var_int ms
write_date invalid_date = raise

pub write_var_bytes : Bytes → Write
write_var_bytes bytes = do write_var_int (pos (length bytes)); write_bytes bytes

pub prepend_bytes : Bytes → Write
prepend_bytes bytes = modify (λ enc. record { parts = bytes ∷ enc.parts })

pub result : Encoder → Bytes
result enc = concat enc.parts

-- `enc.result()` behind an early return for the status.
abbrev pub encoded : ValStat Done × Encoder → ValStat Bytes
encoded (ok _, enc) = ok (result enc)
encoded (err s, enc) = err s
encoded (thrown, enc) = thrown
encoded (diverged, enc) = diverged

-- `ICodecStruct`.
pub record Codec (A : Type 0) : Type 0 where
  pub encode : A → Write
  pub decode : Read A

pub read_structs : {A : Type 0} → Codec A → Read (List A)
read_structs c d = read_until_done (remaining d) c.decode d

pub write_structs : {A : Type 0} → Codec A → List A → Write
write_structs c [] = pure tt
write_structs c (x ∷ xs) = do c.encode x; write_structs c xs
