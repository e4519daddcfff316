-- ===== src/Wire/PushItem.antt =====
-- shared/codecs/pushItem.ts: the host's answer for one bag of a PUSH. A success carries the bag's seq,
-- any other status nothing more.
use diplomatic.Exec.Ends.{AnyState, Ends}
use diplomatic.Codec.Ends.{ends_rules}
use diplomatic.Base.{
  Bool-cases, List, [], arith, concat, false, if◌then◌else◌, inl, inr, refl, ◌%◌, ◌<◌, ◌==◌, ◌∷◌,
  ◌≡◌, ◌≢◌,
}
use diplomatic.Base.Int.{pos, ℤ}
use diplomatic.Codec.{
  Bytes, Codec, Read, Write, read_bytes, read_var_int, write_bytes, write_var_int,
}
use diplomatic.Codec.Bounds.{
  Advances, Advances-bind, Advances-var_int, Bounded, Bounded-bind, Bounded-bytes, Bounded-pure,
  Bounded-var_int,
}
use diplomatic.Codec.Stream.{
  IsSafe, Reads, Reads-bind, Reads-bytes, Reads-int, Reads-pure, Writes, Writes-bytes,
  Writes-ignore, Writes-int, Writes-pure, Writes-then, int_wire,
}
use diplomatic.Codec.Structs.{IsLawful, RoundTrip, round_trip}
use diplomatic.Consts.{Status, success}
use diplomatic.Exec.{ignore, pure, ◌>>=◌, ◌>>◌}

pub data PushItem : Type 0 where
  stored : ℤ → ℤ → PushItem
  failed : ℤ → Status → PushItem

-- The status is one byte, as an element of a `Uint8Array`. The type of `failed` leaves Success out.
pub encode : PushItem → Write
encode (stored idx seq) = do
  ignore (write_var_int idx)
  write_bytes (success ∷ [])
  ignore (write_var_int seq)
  pure tt
encode (failed idx status) = do
  ignore (write_var_int idx)
  write_bytes ((status % 256) ∷ [])
  pure tt

-- `statusBytes[0]` of an array of one byte.
abbrev first : Bytes → Status
first [] = 0
first (b ∷ bs) = b

rest_of : ℤ → Status → Read PushItem
rest_of idx status =
    if status == success
    then (do seq ← read_var_int; pure (stored idx seq))
    else pure (failed idx status)

pub decode : Read PushItem
decode = do idx ← read_var_int; status_bytes ← read_bytes (pos 1); rest_of idx (first status_bytes)

abbrev pub push_item_codec : Codec PushItem
push_item_codec = record { encode = encode; decode = decode }

-- A failure has a status other than Success, of one byte.
abbrev pub IsWellFormed : PushItem → Type 0
IsWellFormed (stored idx seq) = IsSafe idx × IsSafe seq
IsWellFormed (failed idx status) = IsSafe idx × (status ≢ success) × (status < 256)

abbrev pub wire : PushItem → List Bytes
wire (stored idx seq) = int_wire idx ∷ (success ∷ []) ∷ int_wire seq ∷ []
wire (failed idx status) = int_wire idx ∷ (status ∷ []) ∷ []

push_item-Writes :
    (item : PushItem) → IsWellFormed item → Writes (push_item_codec.encode item) (wire item)
unfolding encode
push_item-Writes (stored idx seq) h =
    Writes-then (Writes-ignore (Writes-int idx h.0))
      (Writes-then (Writes-bytes _) (Writes-then (Writes-ignore (Writes-int seq h.1)) Writes-pure))
push_item-Writes (failed idx status) h =
    let byte : status % 256 ≡ status = omega (arith, h.2) in
    Writes-then (Writes-ignore (Writes-int idx h.0))
      (Writes-then {ps = (status ∷ []) ∷ []} (rw byte (Writes-bytes (status ∷ []))) Writes-pure)

push_item-Reads :
    (item : PushItem) → IsWellFormed item → Reads push_item_codec.decode (concat (wire item)) item
unfolding decode rest_of
push_item-Reads (stored idx seq) h = Reads-bind _ (Reads-int idx h.0) (
    Reads-bind _ (Reads-bytes (success ∷ []) 1 refl)
      (Reads-bind _ (Reads-int seq h.1) (Reads-pure _)))
push_item-Reads (failed idx status) h =
    let failure : (status == success) ≡ false = ground (arith, h.1) in
    Reads-bind _ (Reads-int idx h.0)
      (Reads-bind _ (Reads-bytes (status ∷ []) 1 refl) (rw failure (Reads-pure _)))

pub push_item_laws : IsLawful push_item_codec IsWellFormed wire
push_item_laws = record { writes = push_item-Writes; reads = push_item-Reads }

Bounded-rest_of : (idx : ℤ) (status : Status) → Bounded (rest_of idx status)
unfolding rest_of
Bounded-rest_of idx status = elim (Bool-cases (status == success)) [
  | inl e ↦ rw e (Bounded-bind _ _ Bounded-var_int (λ seq. Bounded-pure _))
  | inr e ↦ rw e (Bounded-pure _)
]

pub Advances-push_item : Advances push_item_codec.decode
unfolding decode
Advances-push_item =
    Advances-bind _ _ Advances-var_int
      λ idx. Bounded-bind _ _ (Bounded-bytes (pos 1)) (λ bytes. Bounded-rest_of idx _)

-- An answer of PUSH comes back as written: a success with its seq, and a failure with a status other than
-- Success that fits a byte.
pub push_item-RoundTrip : (item : PushItem) → IsWellFormed item → RoundTrip push_item_codec item
push_item-RoundTrip item h = round_trip push_item_laws item h

pub Ends-push_item : (item : PushItem) → Ends AnyState (push_item_codec.encode item)
unfolding encode
Ends-push_item (stored idx seq) = search ends_rules
Ends-push_item (failed idx status) = search ends_rules
