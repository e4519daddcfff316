-- ===== src/Wire/UsageQuota.antt =====
-- shared/codecs/usageQuota.ts: a quota, and the usage only where the quota is not 0.
use diplomatic.Base.{List, Option, [], arith, concat, if◌then◌else◌, none, some, true, ◌∷◌, ◌≡◌}
use diplomatic.Base.Int.{ltb_ℤ, pos, ℤ, ◌<ℤ◌}
use diplomatic.Codec.{Bytes, Codec, Read, Write, read_var_int, write_var_int}
use diplomatic.Codec.Stream.{
  IsSafe, Reads, Reads-bind, Reads-int, Reads-last, Reads-pure, Writes, Writes-ignore, Writes-int,
  Writes-pure, Writes-then, int_wire,
}
use diplomatic.Codec.Structs.{IsLawful}
use diplomatic.Consts.{missing_param}
use diplomatic.Exec.{fail, ignore, pure, ◌>>=◌, ◌>>◌}

pub record UsageQuota : Type 0 where
  pub quota : ℤ
  pub usage : Option ℤ

-- A usage that is missing is `undefined`.
write_usage : Option ℤ → Write
write_usage none = fail missing_param
write_usage (some usage) = do ignore (write_var_int usage); pure tt

pub encode : UsageQuota → Write
encode uq = do
  ignore (write_var_int uq.quota)
  if ltb_ℤ (pos 0) uq.quota then write_usage uq.usage else pure tt

read_usage : ℤ → Read (Option ℤ)
read_usage quota = if ltb_ℤ (pos 0) quota then (do u ← read_var_int; pure (some u)) else pure none

pub decode : Read UsageQuota
decode = do
  quota ← read_var_int
  usage ← read_usage quota
  pure (record { quota = quota; usage = usage })

abbrev pub usage_quota_codec : Codec UsageQuota
usage_quota_codec = record { encode = encode; decode = decode }

-- The usage is there exactly where the quota is not 0.
abbrev IsUsage : ℤ → Option ℤ → Type 0
IsUsage quota none = quota ≡ pos 0
IsUsage quota (some u) = (pos 0 <ℤ quota) × IsSafe u

abbrev pub IsWellFormed : UsageQuota → Type 0
IsWellFormed uq = IsSafe uq.quota × IsUsage uq.quota uq.usage

abbrev usage_wire : Option ℤ → List Bytes
usage_wire none = []
usage_wire (some u) = int_wire u ∷ []

abbrev pub wire : UsageQuota → List Bytes
wire uq = int_wire uq.quota ∷ usage_wire uq.usage

Writes-usage :
    (quota : ℤ) (usage : Option ℤ)
    → IsUsage quota usage
    → Writes (if ltb_ℤ (pos 0) quota then write_usage usage else pure tt) (usage_wire usage)
unfolding write_usage
Writes-usage quota none h = rw h Writes-pure
Writes-usage quota (some u) h =
    let more : ltb_ℤ (pos 0) quota ≡ true = ground (arith, h.0) in
    rw more (Writes-then (Writes-ignore (Writes-int u h.1)) Writes-pure)

Reads-usage :
    (quota : ℤ) (usage : Option ℤ)
    → IsUsage quota usage
    → Reads (read_usage quota) (concat (usage_wire usage)) usage
unfolding read_usage
Reads-usage quota none h = rw h (Reads-pure none)
Reads-usage quota (some u) h =
    let more : ltb_ℤ (pos 0) quota ≡ true = ground (arith, h.0) in
    rw more (Reads-bind _ (Reads-int u h.1) (Reads-pure _))

pub usage_quota_laws : IsLawful usage_quota_codec IsWellFormed wire
unfolding encode decode
usage_quota_laws = record {
  writes = λ uq h.
      Writes-then (Writes-ignore (Writes-int uq.quota h.0)) (Writes-usage uq.quota uq.usage h.1);
  reads = λ uq h.
      Reads-bind _ (Reads-int uq.quota h.0)
        (Reads-last _ (Reads-usage uq.quota uq.usage h.1) (Reads-pure _));
}
