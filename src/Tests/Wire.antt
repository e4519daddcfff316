-- ===== src/Tests/Wire.antt =====
-- The round trips of shared/codecs at concrete structures.
use diplomatic.Wire.Eid
use diplomatic.Wire.Bag.{IsWellFormed as IsBag}
use diplomatic.Wire.MessageHead.{IsWellFormed as IsHead}
use diplomatic.Base.{[], arith, concat, refl, some, ◌∷◌}
use diplomatic.Base.Int.{pos}
use diplomatic.Codec.{time}
use diplomatic.Codec.Septets.{base128}
use diplomatic.Codec.Strings.{IsShort}
use diplomatic.Codec.Structs.{RoundTrip}
use diplomatic.Tests.{zeros}
use diplomatic.Text.{utf8_encode}
use diplomatic.Wire.AuthTimestamp.{AuthTimestamp}
use diplomatic.Wire.Bag.{Bag, bag-RoundTrip, bag_codec}
use diplomatic.Wire.Eid.{EntityId, eid-RoundTrip, eid_codec}
use diplomatic.Wire.MessageHead.{MessageHead, parse_eid-wire}

abbrev pub small_eid : EntityId
small_eid = record { id = 1 ∷ 2 ∷ []; ts = time (pos 1700000000000) }

eid-RoundTrip_example : RoundTrip eid_codec small_eid
eid-RoundTrip_example = eid-RoundTrip small_eid (omega arith, omega arith)

abbrev pub small_bag : Bag
small_bag = record {
  rlm = zeros 32;
  sig = zeros 64;
  kdm = zeros 8;
  head_cph = 7 ∷ [];
  body_cph = [];
}

pub small_bag-IsWellFormed : IsBag small_bag
small_bag-IsWellFormed = record {
  rlm = refl;
  sig = refl;
  kdm = refl;
  head = omega arith;
  body = omega arith;
}

bag-RoundTrip_example : RoundTrip bag_codec small_bag
bag-RoundTrip_example = bag-RoundTrip small_bag small_bag-IsWellFormed

pub hi-IsShort : IsShort (104 ∷ 105 ∷ [])
unfolding utf8_encode
hi-IsShort = record {
  text = ((λ e. omega arith), (omega arith, (omega arith, tt)));
  size = omega arith;
}

abbrev pub small_head : MessageHead
small_head = record {
  typ = some (104 ∷ 105 ∷ []);
  eid = concat (Eid.wire small_eid);
  off = pos 3;
  ctr = pos 1;
  len = pos 5;
  hsh = some (zeros 32);
}

pub small_head-IsWellFormed : IsHead small_head
unfolding base128
small_head-IsWellFormed = record {
  typ = hi-IsShort;
  present = refl;
  source = small_eid;
  source_ok = parse_eid-wire small_eid (omega arith, omega arith);
  eid = omega arith;
  off = omega arith;
  ctr = omega arith;
  len = omega arith;
  hsh = (omega arith, refl);
}

abbrev pub small_auth : AuthTimestamp
small_auth = record { pub_key = zeros 32; sig = zeros 64; timestamp = time (pos 5) }
