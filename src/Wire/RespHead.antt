-- ===== src/Wire/RespHead.antt =====
-- shared/codecs/respHead.ts: the status and the clock readings at the front of each answer.
use diplomatic.Wire.UsageQuota
use diplomatic.Base.{List, [], ap, arith, none, refl, ◌%◌, ◌++◌, ◌<◌, ◌∷◌, ◌≡◌}
use diplomatic.Base.Int.{pos, ℤ}
use diplomatic.Codec.{
  Bytes, Codec, Date, Read, Write, read_bytes, read_date, read_var_int, write_bytes, write_date,
  write_var_int,
}
use diplomatic.Codec.Stream.{
  IsSafe, IsTime, Reads-bind, Reads-bytes, Reads-date, Reads-int, Reads-parts, Reads-pure,
  Writes-bytes, Writes-date, Writes-int, Writes-pure, Writes-then, date_wire, int_wire,
}
use diplomatic.Codec.Structs.{IsLawful, RoundTrip, round_trip}
use diplomatic.Consts.{Status}
use diplomatic.Exec.{pure, ◌>>=◌, ◌>>◌}
use diplomatic.Wire.UsageQuota.{UsageQuota, usage_quota_codec, usage_quota_laws}

-- `ISubscriptionMetadata` of shared/types.ts.
pub record SubscriptionMetadata : Type 0 where
  pub term : ℤ
  pub elapsed : ℤ
  pub stat : UsageQuota
  pub dyn : UsageQuota

abbrev pub null_sub_meta : SubscriptionMetadata
null_sub_meta = record {
  term = pos 0;
  elapsed = pos 0;
  stat = record { quota = pos 0; usage = none };
  dyn = record { quota = pos 0; usage = none };
}

pub record RespHead : Type 0 where
  pub status : Status
  pub time_rcvd : Date
  pub time_sent : Date
  pub subscription : SubscriptionMetadata

pub encode : RespHead → Write
encode head = do
  write_bytes ((head.status % 256) ∷ [])
  write_date head.time_rcvd
  write_date head.time_sent
  write_var_int head.subscription.term
  write_var_int head.subscription.elapsed
  usage_quota_codec.encode head.subscription.stat
  usage_quota_codec.encode head.subscription.dyn
  pure tt

-- `bytes[0]` of an array of one byte.
abbrev first : Bytes → Status
first [] = 0
first (b ∷ bs) = b

pub decode : Read RespHead
decode = do
  bytes ← read_bytes (pos 1)
  time_rcvd ← read_date
  time_sent ← read_date
  term ← read_var_int
  elapsed ← read_var_int
  stat ← usage_quota_codec.decode
  dyn ← usage_quota_codec.decode
  pure (record {
    status = first bytes;
    time_rcvd = time_rcvd;
    time_sent = time_sent;
    subscription = record { term = term; elapsed = elapsed; stat = stat; dyn = dyn };
  })

abbrev pub resp_head_codec : Codec RespHead
resp_head_codec = record { encode = encode; decode = decode }

pub record IsWellFormed (head : RespHead) : Type 0 where
  pub status : head.status < 256
  pub time_rcvd : IsTime head.time_rcvd
  pub time_sent : IsTime head.time_sent
  pub term : IsSafe head.subscription.term
  pub elapsed : IsSafe head.subscription.elapsed
  pub stat : UsageQuota.IsWellFormed head.subscription.stat
  pub dyn : UsageQuota.IsWellFormed head.subscription.dyn

abbrev pub wire : RespHead → List Bytes
wire head =
    (head.status ∷ [])
    ∷ date_wire head.time_rcvd
    ∷ date_wire head.time_sent
    ∷ int_wire head.subscription.term
    ∷ int_wire head.subscription.elapsed
    ∷ (UsageQuota.wire head.subscription.stat ++ (UsageQuota.wire head.subscription.dyn ++ []))

pub resp_head_laws : IsLawful resp_head_codec IsWellFormed wire
unfolding encode decode
resp_head_laws = record {
  writes = λ head h.
      let byte : head.status % 256 ≡ head.status = omega (arith, h.status) in
      Writes-then {ps = (head.status ∷ []) ∷ []} (rw byte (Writes-bytes (head.status ∷ []))) (
        Writes-then (Writes-date head.time_rcvd h.time_rcvd) (
          Writes-then (Writes-date head.time_sent h.time_sent) (
            Writes-then (Writes-int head.subscription.term h.term) (
              Writes-then (Writes-int head.subscription.elapsed h.elapsed) (
                Writes-then (usage_quota_laws.writes head.subscription.stat h.stat) (
                  Writes-then (usage_quota_laws.writes head.subscription.dyn h.dyn)
                    Writes-pure))))));
  reads = λ head h. Reads-bind _ (Reads-bytes (head.status ∷ []) 1 refl) (
      Reads-bind _ (Reads-date head.time_rcvd h.time_rcvd) (
        Reads-bind _ (Reads-date head.time_sent h.time_sent) (
          Reads-bind _ (Reads-int head.subscription.term h.term) (
            Reads-bind _ (Reads-int head.subscription.elapsed h.elapsed) (
              Reads-parts _ (UsageQuota.wire head.subscription.stat)
                (UsageQuota.wire head.subscription.dyn ++ [])
                (usage_quota_laws.reads head.subscription.stat h.stat)
                (Reads-parts _ (UsageQuota.wire head.subscription.dyn) []
                  (usage_quota_laws.reads head.subscription.dyn h.dyn) (Reads-pure _)))))));
}

-- A response head comes back as written, with its two times, its subscription and the two quotas.
pub resp_head-RoundTrip : (head : RespHead) → IsWellFormed head → RoundTrip resp_head_codec head
resp_head-RoundTrip head h = round_trip resp_head_laws head h

-- Only the low byte of the status is written.
pub encode-byte :
    (head : RespHead)
    → resp_head_codec.encode head
      ≡ resp_head_codec.encode (record head { status = head.status % 256 })
unfolding encode
encode-byte head =
    let same : head.status % 256 ≡ (head.status % 256) % 256 = omega arith in
    ap
      (λ (n : Status). (do
        write_bytes (n ∷ [])
        write_date head.time_rcvd
        write_date head.time_sent
        write_var_int head.subscription.term
        write_var_int head.subscription.elapsed
        usage_quota_codec.encode head.subscription.stat
        usage_quota_codec.encode head.subscription.dyn
        pure tt))
      same
