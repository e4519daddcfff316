-- ===== src/EntDb/Query.antt =====
-- web/src/entdb/entdb.ts: queries by the time of the last write.
use diplomatic.Base.{
  Bool, Bool-cases, arith, false, if◌then◌else◌, inl, inr, refl, true, ◌&&◌, ◌≡◌, ◌≢◌,
}
use diplomatic.Base.Int.{ltb_ℤ, ◌==ℤ◌}
use diplomatic.Codec.{Date, invalid_date, time}
use diplomatic.Consts.{invalid_param}
use diplomatic.EntDb.{date_le}
use diplomatic.Exec.{ValStat, err, ok}

-- `IDateRange`; an absent flag is false.
pub record DateRange : Type 0 where
  pub start : Date
  pub end : Date
  pub exclude_start : Bool
  pub exclude_end : Bool

-- `DateSpec`
pub data DateSpec : Type 0 where
  exactly : Date → DateSpec
  within : DateRange → DateSpec

-- `a < b`; a comparison with an invalid date is false.
abbrev pub date_lt : Date → Date → Bool
date_lt (time a) (time b) = ltb_ℤ a b
date_lt _ _ = false

-- `a.getTime() === b.getTime()`; NaN is not equal to itself.
abbrev pub same_time : Date → Date → Bool
same_time (time a) (time b) = a ==ℤ b
same_time _ _ = false

pub date_in_range : Date → DateRange → Bool
date_in_range t r =
    (if r.exclude_start then date_lt r.start t else date_le r.start t)
    && (if r.exclude_end then date_lt t r.end else date_le t r.end)

unfoldable pub date_spec_may_match : DateSpec → ValStat Bool
date_spec_may_match (exactly t) = ok true
date_spec_may_match (within r) = if date_lt r.end r.start then err invalid_param else ok true

pub date_matches : Date → DateSpec → Bool
date_matches t (exactly d) = same_time t d
date_matches t (within r) = date_in_range t r

refused : (b : Bool) → b ≡ false → (if b then err invalid_param else ok true) ≢ err invalid_param
refused true h e = cc
refused false h e = cc

outside :
    (t start end : Date) (x y : Bool)
    → date_lt end start ≡ true
    → ((if x then date_lt start t else date_le start t)
        && (if y then date_lt t end else date_le t end))
      ≡ false
outside (time t) (time a) (time b) true true h = ground arith
outside (time t) (time a) (time b) true false h = ground arith
outside (time t) (time a) (time b) false true h = ground arith
outside (time t) (time a) (time b) false false h = ground arith
outside t (time a) invalid_date x y h = cc
outside t invalid_date invalid_date x y h = cc
outside t invalid_date (time b) x y h = cc
outside invalid_date (time a) (time b) true y h = refl
outside invalid_date (time a) (time b) false y h = refl

-- Where `dateSpecMayMatch` refuses a specification, no date matches it, so that the check loses no answer.
pub date_spec_may_match_lem :
    (t : Date) (spec : DateSpec)
    → date_spec_may_match spec ≡ err invalid_param
    → date_matches t spec ≡ false
unfolding date_spec_may_match date_matches date_in_range
date_spec_may_match_lem t (exactly d) e = cc
date_spec_may_match_lem t (within r) e = elim (Bool-cases (date_lt r.end r.start)) [
  | inl h ↦ outside t r.start r.end r.exclude_start r.exclude_end h
  | inr h ↦ absurd (refused (date_lt r.end r.start) h e)
]
