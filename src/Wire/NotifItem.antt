-- ===== src/Wire/NotifItem.antt =====
-- shared/codecs/notifItem.ts: the notice of a stored bag, with its body inlined where it is small.
use diplomatic.Exec.Ends.{AnyState, Ends, Ends-pure}
use diplomatic.Codec.Ends.{Ends-bytes, ends_rules}
use diplomatic.Base.{
  Bool-cases, List, Option, [], append-nil, arith, concat, if◌then◌else◌, inl, inr, length, none,
  refl, some, suc, sym, true, ◌<◌, ◌==◌, ◌^◌, ◌∷◌, ◌≡◌,
}
use diplomatic.Base.Int.{ltb_ℤ, pos, ℤ}
use diplomatic.Codec.{
  Bytes, Codec, Read, Write, read_bytes, read_var_bytes, read_var_int, write_bytes, write_var_bytes,
  write_var_int,
}
use diplomatic.Codec.Bounds.{
  Advances, Advances-bind, Advances-var_int, Bounded, Bounded-bind, Bounded-bytes, Bounded-lift,
  Bounded-pure, Bounded-var_bytes, Bounded-var_int,
}
use diplomatic.Codec.Septets.{var_int_wire}
use diplomatic.Codec.Stream.{
  IsSafe, Reads, Reads-bind, Reads-bytes, Reads-int, Reads-last, Reads-lift, Reads-pure,
  Reads-var_bytes-then, Reads-var_int, Writes, Writes-bytes, Writes-check, Writes-int, Writes-pure,
  Writes-then, Writes-var_bytes, Writes-var_int, int_wire,
}
use diplomatic.Codec.Structs.{IsLawful, RoundTrip, round_trip}
use diplomatic.Consts.{hash_bytes, invalid_param}
use diplomatic.Exec.{check, lift, pure, ◌>>=◌, ◌>>◌}
use diplomatic.Wire.Bag.{as_host_rlm, as_host_rlm-ne-diverged, as_host_rlm-ok}
use mathlib.Core.Path.{subst}

pub record NotifItem : Type 0 where
  pub seq : ℤ
  pub rlm : Bytes
  pub head_cph : Bytes
  pub body_cph : Option Bytes

-- The bytes of the body, none where there is no body.
abbrev pub body_of : Option Bytes → Bytes
body_of none = []
body_of (some body) = body

-- `if (bodyLen > 0)`
write_body : Bytes → Write
write_body [] = pure tt
write_body (b ∷ bs) = write_bytes (b ∷ bs)

pub encode : NotifItem → Write
encode item = do
  write_var_int item.seq
  check (length item.rlm == hash_bytes) invalid_param
  write_bytes item.rlm
  write_var_bytes item.head_cph
  write_var_int (pos (length (body_of item.body_cph)))
  write_body (body_of item.body_cph)
  pure tt

read_body : ℤ → Read (Option Bytes)
read_body len =
    if ltb_ℤ (pos 0) len then (do body ← read_bytes len; pure (some body)) else pure none

pub decode : Read NotifItem
decode = do
  seq ← read_var_int
  raw ← read_bytes (pos hash_bytes)
  rlm ← lift (as_host_rlm raw)
  head_cph ← read_var_bytes
  body_len ← read_var_int
  body_cph ← read_body body_len
  pure (record { seq = seq; rlm = rlm; head_cph = head_cph; body_cph = body_cph })

abbrev pub notif_item_codec : Codec NotifItem
notif_item_codec = record { encode = encode; decode = decode }

-- An empty body and a missing one have the same encoding, so a body that is there is not empty.
abbrev IsBody : Option Bytes → Type 0
IsBody none = Unit {0}
IsBody (some body) = (0 < length body) × (length body < 2 ^ 53)

pub record IsWellFormed (item : NotifItem) : Type 0 where
  pub seq : IsSafe item.seq
  pub rlm : length item.rlm ≡ hash_bytes
  pub head : length item.head_cph < 2 ^ 53
  pub body : IsBody item.body_cph

abbrev body_wire : Bytes → List Bytes
body_wire [] = []
body_wire (b ∷ bs) = (b ∷ bs) ∷ []

abbrev pub wire : NotifItem → List Bytes
wire item =
    int_wire item.seq
    ∷ item.rlm
    ∷ var_int_wire (length item.head_cph)
    ∷ item.head_cph
    ∷ var_int_wire (length (body_of item.body_cph))
    ∷ body_wire (body_of item.body_cph)

body-size : (o : Option Bytes) → IsBody o → length (body_of o) < 2 ^ 53
body-size none h = omega arith
body-size (some body) h = h.1

Writes-body : (body : Bytes) → Writes (write_body body) (body_wire body)
unfolding write_body
Writes-body [] = Writes-pure
Writes-body (b ∷ bs) = Writes-bytes (b ∷ bs)

Reads-body :
    (o : Option Bytes)
    → IsBody o
    → Reads (read_body (pos (length (body_of o)))) (concat (body_wire (body_of o))) o
unfolding read_body
Reads-body none h = Reads-pure none
Reads-body (some []) h = absurd (omega (arith, h.0))
Reads-body (some (b ∷ bs)) h =
    let more : ltb_ℤ (pos 0) (pos (suc (length bs))) ≡ true = ground arith in
    rw more (Reads-bind _ (Reads-bytes (b ∷ bs) _ refl) (Reads-pure _))

notif_item-Writes :
    (item : NotifItem) → IsWellFormed item → Writes (notif_item_codec.encode item) (wire item)
unfolding encode
notif_item-Writes item h =
    subst
      (λ ps. Writes (encode item) (
        int_wire item.seq
        ∷ item.rlm
        ∷ var_int_wire (length item.head_cph)
        ∷ item.head_cph
        ∷ var_int_wire (length (body_of item.body_cph))
        ∷ ps))
      (append-nil _)
      (Writes-then (Writes-int item.seq h.seq) (
        Writes-then (Writes-check _ _ (ground (arith, h.rlm))) (
          Writes-then (Writes-bytes item.rlm) (
            Writes-then (Writes-var_bytes item.head_cph h.head) (
              Writes-then (Writes-var_int _ (omega (arith, body-size item.body_cph h.body)))
                (Writes-then (Writes-body (body_of item.body_cph)) Writes-pure))))))

notif_item-Reads :
    (item : NotifItem) → IsWellFormed item → Reads notif_item_codec.decode (concat (wire item)) item
unfolding decode
notif_item-Reads item h = Reads-bind _ (Reads-int item.seq h.seq) (
    Reads-bind _ (Reads-bytes item.rlm hash_bytes (sym h.rlm)) (
      Reads-bind _ (Reads-lift _ (as_host_rlm-ok item.rlm h.rlm)) (
        Reads-var_bytes-then _ item.head_cph h.head (
          Reads-bind _ (Reads-var_int _ (body-size item.body_cph h.body))
            (Reads-last _ (Reads-body item.body_cph h.body) (Reads-pure _))))))

pub notif_item_laws : IsLawful notif_item_codec IsWellFormed wire
notif_item_laws = record { writes = notif_item-Writes; reads = notif_item-Reads }

Bounded-body : (len : ℤ) → Bounded (read_body len)
unfolding read_body
Bounded-body len = elim (Bool-cases (ltb_ℤ (pos 0) len)) [
  | inl e ↦ rw e (Bounded-bind _ _ (Bounded-bytes len) (λ body. Bounded-pure _))
  | inr e ↦ rw e (Bounded-pure _)
]

pub Advances-notif_item : Advances notif_item_codec.decode
unfolding decode
Advances-notif_item = Advances-bind _ _ Advances-var_int λ seq.
    Bounded-bind _ _ (Bounded-bytes (pos hash_bytes)) λ raw.
      Bounded-bind _ _ (Bounded-lift _ (as_host_rlm-ne-diverged raw)) λ rlm.
        Bounded-bind _ _ Bounded-var_bytes λ head.
          Bounded-bind _ _ Bounded-var_int
            λ len. Bounded-bind _ _ (Bounded-body len) (λ body. Bounded-pure _)

-- A notification with a 32-byte rlm comes back as written, with its inlined body where that is not empty.
pub notif_item-RoundTrip : (item : NotifItem) → IsWellFormed item → RoundTrip notif_item_codec item
notif_item-RoundTrip item h = round_trip notif_item_laws item h

Ends-body : (body : Bytes) → Ends AnyState (write_body body)
unfolding write_body
Ends-body [] = Ends-pure _
Ends-body (b ∷ bs) = Ends-bytes (b ∷ bs)

pub Ends-notif_item : (item : NotifItem) → Ends AnyState (notif_item_codec.encode item)
unfolding encode
Ends-notif_item item = search (ends_rules, Ends-body) depth 10
