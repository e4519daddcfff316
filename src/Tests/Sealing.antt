-- ===== src/Tests/Sealing.antt =====
-- Bags that are sealed and opened with toy primitives, and checksums of concrete sets.
use diplomatic.Wire.MessageHead
use diplomatic.Base.{
  ==_iff, Bool, List, [], ap, arith, false, if◌then◌else◌, inr, length, length-append, none, refl,
  some, suc, sym, take, true, zero, ℕ, ◌++◌, ◌==◌, ◌↔◌, ◌∷◌, ◌≡◌, ◌≤◌,
}
use diplomatic.Base.Int.{pos}
use diplomatic.Base.Keyed.{bytes_key, bytes_same, bytes_same_iff}
use diplomatic.Checksum.{preimage}
use diplomatic.Checksum.Sets.{preimage_iff}
use diplomatic.Codec.{Bytes, time}
use diplomatic.Codec.Structs.{encoding}
use diplomatic.Consts.{hsh_bytes}
use diplomatic.EntDb.State.{Message}
use diplomatic.Exec.{ok}
use diplomatic.Sealing.{BagManager, Primitives}
use diplomatic.Sealing.Bags.{hsh_for, open_bag, seal_bag, sealed_hsh}
use diplomatic.Sealing.Bags.Opens.{open_bag-seal_bag, sealed_head, sent}
use diplomatic.Sealing.Bags.Sends.{Confirms, IsWorking, seal_bag_ok}
use diplomatic.Sealing.Bags.Sound.{IsGenuine, open_bag-IsGenuine}
use diplomatic.Sealing.Bags.Steps.{IsSound}
use diplomatic.Sealing.Messages.{gen_insert_head}
use diplomatic.Sealing.Messages.Heads.{gen_insert_head-open_bag}
use diplomatic.Tests.{zeros}
use diplomatic.Tests.Wire.{hi-IsShort, small_head, small_head-IsWellFormed}
use diplomatic.Wire.Bag.{Bag}
use diplomatic.Wire.Kdm.{null_kdm}
use diplomatic.Wire.MessageHead.{MessageHead, message_head_codec}
use mathlib.Core.List.{Perm}
use mathlib.Core.Option.{some-injective}

-- A signature is the message itself, and a ciphertext has one more byte in front. A key that has
-- not 32 bytes is refused.
abbrev plain : Primitives ℕ
plain = record {
  host = record {
    import_verify_key = λ key. some 0;
    check_sig = λ sig message key. bytes_same sig message;
  };
  blake3 = λ bytes. take 32 (bytes ++ zeros 32);
  hash_context = λ bytes purpose. some (take 32 (bytes ++ zeros 32));
  hash_keyed = λ bytes key. if length key == 32 then some (take 32 (bytes ++ zeros 32)) else none;
  encrypt = λ bytes key. if length key == 32 then some (0 ∷ bytes) else none;
  decrypt = λ cph key. elim cph [ [] ↦ none | b ∷ bs ↦ some bs ];
  key_pair = λ seed. some (seed, seed);
  sign = λ message key. some message;
}

length-take_enough : (n : ℕ) (xs : Bytes) → n ≤ length xs → length (take n xs) ≡ n
length-take_enough zero xs h = refl
length-take_enough (suc n) [] h = absurd (omega (arith, h))
length-take_enough (suc n) (x ∷ xs) h = ap suc (length-take_enough n xs (omega (arith, h)))

-- A padded or cut string has 32 bytes.
padded : (bytes : Bytes) → length (take 32 (bytes ++ zeros 32)) ≡ 32
padded bytes =
    length-take_enough 32 (bytes ++ zeros 32) (omega (arith, length-append bytes (zeros 32)))

plain-IsWorking : IsWorking plain
plain-IsWorking = record {
  contexts = λ bytes purpose. (take 32 (bytes ++ zeros 32), refl, padded bytes);
  keyed = λ bytes key l.
      let same : (length key == 32) ≡ true = (==_iff (length key) 32).1 l in
      (take 32 (bytes ++ zeros 32), rw same refl, padded bytes);
  encrypts = λ bytes key l.
      let same : (length key == 32) ≡ true = (==_iff (length key) 32).1 l in
      (0 ∷ bytes, rw same refl);
  signs = λ seed message keys k. (message, refl);
}

-- A ciphertext is the plain text behind one byte.
encrypted :
    (b : Bool) (bytes cph : Bytes)
    → (if b then some (0 ∷ bytes) else none) ≡ some cph
    → 0 ∷ bytes ≡ cph
encrypted true bytes cph e = some-injective _ _ e
encrypted false bytes cph e = cc

plain-IsSound : IsSound plain
plain-IsSound = record {
  decrypts = λ bytes key cph e. rw (← encrypted (length key == 32) bytes cph e) refl;
  not_empty = λ bytes key cph e. rw (← encrypted (length key == 32) bytes cph e) (omega arith);
  confirms = λ seed message sig keys verify_key k s i.
      (bytes_same_iff sig message).1 (sym (some-injective _ _ s));
}

abbrev manager : BagManager
manager = record {
  public_key = zeros 32;
  idnt = zeros 32;
  realm = zeros 32;
  rlm = zeros 32;
  id_kdm = null_kdm;
  realm_kdm = null_kdm;
}

manager-Confirms : Confirms plain 0 manager
manager-Confirms = ((zeros 32, zeros 32), refl, refl)

-- Five bytes under a head of that length.
abbrev five : Message
five = record { head = small_head; bod = some (1 ∷ 2 ∷ 3 ∷ 4 ∷ 5 ∷ []) }

five_head-IsWellFormed : MessageHead.IsWellFormed (sealed_head plain five)
unfolding sealed_hsh hsh_for
five_head-IsWellFormed =
    let h = small_head-IsWellFormed in
    record {
      typ = h.typ;
      present = refl;
      source = h.source;
      source_ok = h.source_ok;
      eid = h.eid;
      off = h.off;
      ctr = h.ctr;
      len = h.len;
      hsh = (h.hsh.0, refl);
    }

-- The same message, with no length.
abbrev hollow : Message
hollow = record { head = record small_head { len = pos 0 }; bod = some [] }

-- The bag of `five`.
five_sent :
    (bag : Bag) × (seal_bag plain five manager ≡ ok bag)
    × (open_bag plain bag 0 manager ≡ ok (sent plain five))
five_sent =
    let (bag, e) =
      seal_bag_ok plain plain-IsWorking manager five (zeros 32, zeros 32) refl
        five_head-IsWellFormed in
    (
      bag,
      e,
      open_bag-seal_bag plain plain-IsSound manager five bag (zeros 32, zeros 32) 0 refl refl refl
          five_head-IsWellFormed (inr (omega arith)) e,
    )

open_bag-IsGenuine_example : IsGenuine plain five_sent.0 0 manager (sent plain five)
open_bag-IsGenuine_example =
    open_bag-IsGenuine plain five_sent.0 0 manager (sent plain five) five_sent.2

abbrev pairs_of_bytes : List Bytes
pairs_of_bytes = (2 ∷ 1 ∷ []) ∷ (1 ∷ 9 ∷ []) ∷ []

abbrev swapped_pairs : List Bytes
swapped_pairs = (1 ∷ 9 ∷ []) ∷ (2 ∷ 1 ∷ []) ∷ []

preimage_iff_example :
    (preimage pairs_of_bytes ≡ preimage swapped_pairs) ↔ Perm pairs_of_bytes swapped_pairs
preimage_iff_example =
    preimage_iff 2 pairs_of_bytes swapped_pairs (omega arith) (refl, (refl, tt)) (refl, (refl, tt))

plain_hash : (bytes : Bytes) → length (plain.blake3 bytes) ≡ hsh_bytes
plain_hash bytes = padded bytes

gen_insert_head-open_bag_example :
    (head : MessageHead) × (bag : Bag) × (gen_insert_head plain.blake3
        (zeros 8)
        (time (pos 5))
        (104 ∷ 105 ∷ [])
        (1 ∷ [])
      ≡ ok (some head))
    × (seal_bag plain (record { head = head; bod = some (1 ∷ []) }) manager ≡ ok bag)
    × (open_bag plain bag 0 manager
        ≡ ok (record {
          msg = record { head = head; bod = some (1 ∷ []) };
          head_hash = plain.blake3 (encoding message_head_codec head);
        }))
gen_insert_head-open_bag_example =
    gen_insert_head-open_bag plain plain-IsWorking plain-IsSound manager 0 (zeros 8) (time (pos 5))
      (104 ∷ 105 ∷ []) (1 ∷ []) manager-Confirms refl plain_hash refl (omega arith) hi-IsShort
      (omega arith) (omega arith)
