-- ===== src/Checksum.antt =====
-- shared/checksum.ts: checksums of sets of byte records. The hash function is a parameter.
pub mod Order
pub mod Sets
use diplomatic.Base.{Bool, List, [], concat, if◌then◌else◌, length, ◌==◌, ◌∷◌}
use diplomatic.Base.Int.{leb_ℤ, pos, ℤ, ◌-ℤ◌}
use diplomatic.Base.Sort.{sort}
use diplomatic.Codec.{
  Bytes, Date, Write, encoded, new_encoder, write_date, write_var_bytes, write_var_int,
}
use diplomatic.Exec.{ValStat, diverged, err, ok, pure, thrown, ◌>>=◌, ◌>>◌}

-- The loop of `cmpBytes` over the common length, and the difference of the lengths.
pub cmp_bytes : Bytes → Bytes → ℤ
cmp_bytes [] bs = pos 0 -ℤ pos (length bs)
cmp_bytes (a ∷ as') [] = pos (length (a ∷ as')) -ℤ pos 0
cmp_bytes (a ∷ as') (b ∷ bs) =
    let rest = cmp_bytes as' bs in if a == b then rest else pos a -ℤ pos b

pub in_order : Bytes → Bytes → Bool
in_order a b = leb_ℤ (cmp_bytes a b) (pos 0)

-- The buffer that `checksumSet` hashes.
pub preimage : List Bytes → Bytes
unfolding in_order
preimage items = concat (sort in_order items)

pub checksum_set : (Bytes → Bytes) → List Bytes → Bytes
checksum_set blake3 items = blake3 (preimage items)

-- `IEntRev`
pub record EntRev : Type 0 where
  pub eid : Bytes
  pub updated_at : Date
  pub ctr : ℤ

write_ent_rev : EntRev → Write
write_ent_rev rev = do
  write_var_bytes rev.eid
  write_date rev.updated_at
  write_var_int rev.ctr
  pure tt

pub encode_ent_rev : EntRev → ValStat Bytes
unfolding write_ent_rev
encode_ent_rev rev = encoded (write_ent_rev rev new_encoder)

-- The loop of `checksumEntRevs`, which stops at the first rev that cannot be encoded.
add_rec : ValStat Bytes → ValStat (List Bytes) → ValStat (List Bytes)
add_rec (ok rec) (ok recs) = ok (rec ∷ recs)
add_rec (ok rec) (err s) = err s
add_rec (ok rec) thrown = thrown
add_rec (ok rec) diverged = diverged
add_rec (err s) recs = err s
add_rec thrown recs = thrown
add_rec diverged recs = diverged

encode_ent_revs : List EntRev → ValStat (List Bytes)
unfolding add_rec
encode_ent_revs [] = ok []
encode_ent_revs (rev ∷ revs) = add_rec (encode_ent_rev rev) (encode_ent_revs revs)

hashed : (Bytes → Bytes) → ValStat (List Bytes) → ValStat Bytes
hashed blake3 (ok recs) = ok (checksum_set blake3 recs)
hashed blake3 (err s) = err s
hashed blake3 thrown = thrown
hashed blake3 diverged = diverged

pub checksum_ent_revs : (Bytes → Bytes) → List EntRev → ValStat Bytes
unfolding hashed encode_ent_revs
checksum_ent_revs blake3 revs = hashed blake3 (encode_ent_revs revs)
