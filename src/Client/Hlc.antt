-- ===== src/Client/Hlc.antt =====
-- web/src/hlc.ts: heads in the order of their hybrid logical clocks, newest first.
pub mod Laws
use diplomatic.Base.{
  Bool, List, Option, if◌then◌else◌, ltb, none, some, suc, true, zero, ℕ, ◌*◌, ◌-◌, ◌/◌, ◌^◌,
}
use diplomatic.Base.Int.{leb_ℤ, negsuc, pos, ℤ, ◌+ℤ◌, ◌-ℤ◌, ◌==ℤ◌}
use diplomatic.Base.Sort.{sort}
use diplomatic.Codec.{Bytes, Date, invalid_date, round_to, time}
use diplomatic.Exec.{ValStat, ok}
use diplomatic.Wire.Eid.{EntityId}
use diplomatic.Wire.MessageHead.{parse_eid}

pub record HlcHead : Type 0 where
  pub eid : Bytes
  pub off : ℤ
  pub ctr : ℤ

-- A JavaScript number: the time of an invalid date is NaN.
pub data Number : Type 0 where
  finite : ℤ → Number
  nan : Number

-- The distance of the doubles about `n`, which have 53 bits. 971 halvings bring each number below
-- 2 ^ 1024, where the doubles end, below 2 ^ 53.
double_unit : ℕ → ℕ → ℕ
double_unit zero n = 1
double_unit (suc fuel) n =
    let rest = double_unit fuel (n / 2) in if ltb n (2 ^ 53) then 1 else 2 * rest

nearest_double : ℕ → ℕ
unfolding double_unit
nearest_double n = round_to (double_unit 971 n) n

-- The double that is nearest to an integer, with the even one where two are.
unfoldable pub double : ℤ → ℤ
unfolding nearest_double
double (pos n) = pos (nearest_double n)
double (negsuc n) = negsuc (nearest_double (suc n) - 1)

-- `ts.getTime() + off`, rounded as a sum of doubles is.
unfoldable pub date_ms : Date → ℤ → Number
date_ms (time t) off = finite (double (t +ℤ off))
date_ms invalid_date off = nan

-- Reading an entity id reports its errors as a status, and raises no exception.
unfoldable pub parsed_ms : ValStat EntityId → ℤ → Option Number
parsed_ms (ok id) off = some (date_ms id.ts off)
parsed_ms _ off = none

unfoldable pub head_updated_at_ms : HlcHead → Option Number
head_updated_at_ms head = parsed_ms (parse_eid head.eid) head.off

-- A difference of doubles is not rounded here: a sort reads its sign alone, which rounding keeps.
compare_numbers : Number → Number → ℤ → ℤ → Number
compare_numbers (finite ta) (finite tb) ca cb =
    if tb ==ℤ ta then finite (cb -ℤ ca) else finite (tb -ℤ ta)
compare_numbers _ _ ca cb = nan

compare_times : Option Number → Option Number → ℤ → ℤ → Number
unfolding compare_numbers
compare_times none none ca cb = finite (pos 0)
compare_times none (some tb) ca cb = finite (pos 1)
compare_times (some ta) none ca cb = finite (negsuc 0)
compare_times (some ta) (some tb) ca cb = compare_numbers ta tb ca cb

pub compare_head_hlc_desc : HlcHead → HlcHead → Number
compare_head_hlc_desc a b = compare_times (head_updated_at_ms a) (head_updated_at_ms b) a.ctr b.ctr

-- A comparator's NaN counts as 0.
stays : Number → Bool
stays (finite n) = leb_ℤ n (pos 0)
stays nan = true

module _ {T : Type 0} (head_of : T → HlcHead) where
  pub in_front : T → T → Bool
  unfolding stays
  in_front x y = stays (compare_head_hlc_desc (head_of x) (head_of y))

  pub sort_by_hlc_desc : List T → List T
  sort_by_hlc_desc items = sort in_front items
