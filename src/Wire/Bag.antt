-- ===== src/Wire/Bag.antt =====
-- shared/codecs/bag.ts, and `asHostRlm` of shared/crypto/derivation.ts.
use diplomatic.Base.{List, [], arith, if◌then◌else◌, length, sym, ◌<◌, ◌==◌, ◌^◌, ◌∷◌, ◌≡◌, ◌≢◌}
use diplomatic.Base.Int.{pos}
use diplomatic.Codec.{
  Bytes, Codec, Read, Write, read_bytes, read_var_bytes, write_bytes, write_var_bytes,
}
use diplomatic.Codec.Bounds.{Advances, Advances-bind, Advances-bytes, Bounded-lift, bounded_rules}
use diplomatic.Codec.Septets.{var_int_wire}
use diplomatic.Codec.Stream.{
  Reads-bind, Reads-bytes, Reads-lift, Reads-pure, Reads-var_bytes-then, Writes-bytes, Writes-check,
  Writes-pure, Writes-then, Writes-var_bytes,
}
use diplomatic.Codec.Structs.{IsLawful, RoundTrip, round_trip}
use diplomatic.Consts.{hash_bytes, invalid_param, kdm_bytes, sig_bytes}
use diplomatic.Exec.{ValStat, check, diverged, err, lift, ok, pure, ◌>>=◌, ◌>>◌}

pub record Bag : Type 0 where
  pub rlm : Bytes
  pub sig : Bytes
  pub kdm : Bytes
  pub head_cph : Bytes
  pub body_cph : Bytes

pub as_child_key : Bytes → ValStat Bytes
as_child_key bytes = if length bytes == hash_bytes then ok bytes else err invalid_param

pub as_host_rlm : Bytes → ValStat Bytes
unfolding as_child_key
as_host_rlm bytes = as_child_key bytes

pub as_host_rlm-ok : (bytes : Bytes) → length bytes ≡ hash_bytes → as_host_rlm bytes ≡ ok bytes
unfolding as_host_rlm
as_host_rlm-ok bytes h = ground arith

pub as_host_rlm-ne-diverged : (bytes : Bytes) → as_host_rlm bytes ≢ diverged
unfolding as_host_rlm
as_host_rlm-ne-diverged bytes e = ground arith

pub encode : Bag → Write
encode bag = do
  check (length bag.rlm == hash_bytes) invalid_param
  check (length bag.sig == sig_bytes) invalid_param
  write_bytes bag.sig
  write_bytes bag.rlm
  write_bytes bag.kdm
  write_var_bytes bag.head_cph
  write_var_bytes bag.body_cph
  pure tt

pub decode : Read Bag
decode = do
  sig ← read_bytes (pos sig_bytes)
  raw ← read_bytes (pos hash_bytes)
  rlm ← lift (as_host_rlm raw)
  kdm ← read_bytes (pos kdm_bytes)
  head_cph ← read_var_bytes
  body_cph ← read_var_bytes
  pure (record { rlm = rlm; sig = sig; kdm = kdm; head_cph = head_cph; body_cph = body_cph })

abbrev pub bag_codec : Codec Bag
bag_codec = record { encode = encode; decode = decode }

pub record IsWellFormed (bag : Bag) : Type 0 where
  pub rlm : length bag.rlm ≡ hash_bytes
  pub sig : length bag.sig ≡ sig_bytes
  pub kdm : length bag.kdm ≡ kdm_bytes
  pub head : length bag.head_cph < 2 ^ 53
  pub body : length bag.body_cph < 2 ^ 53

abbrev pub wire : Bag → List Bytes
wire bag =
    bag.sig
    ∷ bag.rlm
    ∷ bag.kdm
    ∷ var_int_wire (length bag.head_cph)
    ∷ bag.head_cph
    ∷ var_int_wire (length bag.body_cph)
    ∷ bag.body_cph
    ∷ []

pub bag_laws : IsLawful bag_codec IsWellFormed wire
unfolding encode decode
bag_laws = record {
  writes = λ bag h. Writes-then (Writes-check _ _ (ground (arith, h.rlm))) (
      Writes-then (Writes-check _ _ (ground (arith, h.sig))) (
        Writes-then (Writes-bytes bag.sig) (
          Writes-then (Writes-bytes bag.rlm) (
            Writes-then (Writes-bytes bag.kdm) (
              Writes-then (Writes-var_bytes bag.head_cph h.head)
                (Writes-then (Writes-var_bytes bag.body_cph h.body) Writes-pure))))));
  reads = λ bag h. Reads-bind _ (Reads-bytes bag.sig sig_bytes (sym h.sig)) (
      Reads-bind _ (Reads-bytes bag.rlm hash_bytes (sym h.rlm)) (
        Reads-bind _ (Reads-lift _ (as_host_rlm-ok bag.rlm h.rlm)) (
          Reads-bind _ (Reads-bytes bag.kdm kdm_bytes (sym h.kdm)) (
            Reads-var_bytes-then _ bag.head_cph h.head
              (Reads-var_bytes-then _ bag.body_cph h.body (Reads-pure _))))));
}

-- A bag with a 32-byte rlm, a 64-byte signature and an 8-byte kdm comes back as written.
pub bag-RoundTrip : (bag : Bag) → IsWellFormed bag → RoundTrip bag_codec bag
bag-RoundTrip bag h = round_trip bag_laws bag h

pub Advances-bag : Advances bag_codec.decode
unfolding decode
Advances-bag = Advances-bind _ _ (Advances-bytes sig_bytes (omega arith)) (λ sig.
    search
      (bounded_rules, λ (raw : Bytes). Bounded-lift (as_host_rlm raw) (as_host_rlm-ne-diverged raw))
      depth 20)
