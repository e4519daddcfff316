-- ===== src/Sealing/Messages/Heads.antt =====
-- The heads of shared/message.ts can be sealed.
use diplomatic.Wire.MessageHead
use diplomatic.Base.{
  [], ap, append-nil, arith, inr, length, length-append, refl, some, sym, true, ◌++◌, ◌<◌, ◌^◌, ◌∙◌,
  ◌∷◌, ◌≡◌, ◌≤◌,
}
use diplomatic.Base.Int.{ltb_ℤ, negsuc, pos, ◌-ℤ◌}
use diplomatic.Codec.{Bytes, Date, Decoder, decoder, encoded, invalid_date, new_encoder, time}
use diplomatic.Codec.Septets.{length-base128, var_int_wire}
use diplomatic.Codec.Stream.{IsTime, date_wire}
use diplomatic.Codec.Strings.{IsShort}
use diplomatic.Codec.Structs.{encoding, encoding-wire}
use diplomatic.Consts.{hash_bytes, hsh_bytes}
use diplomatic.EntDb.State.{Message}
use diplomatic.Exec.{ValStat, ok}
use diplomatic.Sealing.{BagManager, Primitives}
use diplomatic.Sealing.Bags.{hsh_for, open_bag, seal_bag, sealed_hsh, with_hsh}
use diplomatic.Sealing.Bags.Opens.{sealed_head}
use diplomatic.Sealing.Bags.Steps.{IsSound, encoded_ok}
use diplomatic.Sealing.Bags.Sends.{Confirms, IsWorking, seal_bag-open_bag}
use diplomatic.Sealing.Messages.{
  body_hsh, body_len, gen_insert_head, gen_upsert_head, head_with, offset_from,
}
use diplomatic.Text.{Str}
use diplomatic.Wire.Bag.{Bag}
use diplomatic.Wire.Eid.{EntityId, eid-RoundTrip, eid_codec, eid_laws}
use diplomatic.Wire.MessageHead.{IsHsh, MessageHead, message_head_codec, parse_eid, parse_eid-wire}
use mathlib.Core.Path.{subst}

module _ {VerifyKey : Type 0} (crypto : Primitives VerifyKey) where
  -- The message that inserts an entity.
  abbrev pub inserted : Bytes → Date → Str → Bytes → Message
  inserted id now typ bod = record {
    head = record {
      typ = some typ;
      eid = encoding eid_codec (record { id = id; ts = now });
      off = pos 0;
      ctr = pos 0;
      len = pos (length bod);
      hsh = body_hsh crypto.blake3 (some bod);
    };
    bod = some bod;
  }

  self_offset : (now : Date) → IsTime now → offset_from now now ≡ some (pos 0)
  unfolding offset_from ◌-ℤ◌
  self_offset (time (pos n)) h = ap some (ground arith)
  self_offset (time (negsuc n)) h = absurd h
  self_offset invalid_date h = absurd h

  eid_read :
      (id : Bytes) (now : Date)
      → length id < 2 ^ 53
      → IsTime now
      → (encoded (eid_codec.encode (record { id = id; ts = now }) new_encoder)
          ≡ ok (encoding eid_codec (record { id = id; ts = now })))
        × ((eid_codec.decode (decoder (encoding eid_codec (record { id = id; ts = now })))).0
            ≡ ok (record { id = id; ts = now }))
  eid_read id now l t =
      let (w, reads) = eid-RoundTrip (record { id = id; ts = now }) (l, t) in
      (
        encoded_ok _ w,
        subst (λ b. (eid_codec.decode (decoder b)).0 ≡ ok (record { id = id; ts = now }))
            (append-nil (encoding eid_codec (record { id = id; ts = now })))
            (ap (λ (r : ValStat EntityId × Decoder). r.0) (reads [] [])),
      )

  -- The head of a new entity has the id of the entity, no offset and the counter 0.
  gen_insert_head-inserted :
      (id : Bytes) (now : Date) (typ : Str) (bod : Bytes)
      → length id < 2 ^ 53
      → IsTime now
      → gen_insert_head crypto.blake3 id now typ bod ≡ ok (some (inserted id now typ bod).head)
  unfolding gen_insert_head gen_upsert_head head_with body_len
  gen_insert_head-inserted id now typ bod l t =
      let (e, d) = eid_read id now l t in rw (e, d, self_offset now t) refl

  short_date : (now : Date) → IsTime now → length (date_wire now) ≤ 8
  short_date (time (pos n)) h = (length-base128 8 n (omega arith)).1
  short_date (time (negsuc n)) h = absurd h
  short_date invalid_date h = absurd h

  short_eid :
      (id : Bytes) (now : Date)
      → length id ≡ 8
      → IsTime now
      → length (encoding eid_codec (record { id = id; ts = now })) ≤ 24
  short_eid id now l t =
      let source : EntityId = record { id = id; ts = now } in
      rw (encoding-wire eid_laws source (omega (arith, l), t)) (
        omega (
          arith,
          length-append (var_int_wire (length id)) (id ++ (date_wire now ++ [])),
          length-append id (date_wire now ++ []),
          length-append (date_wire now) [],
          (length-base128 8 (length id) (omega arith)).1,
          short_date now t,
          l,
        ))

  sealed_hsh-inserted :
      (id : Bytes) (now : Date) (typ : Str) (bod : Bytes)
      → sealed_hsh crypto (inserted id now typ bod) ≡ body_hsh crypto.blake3 (some bod)
  unfolding sealed_hsh hsh_for body_hsh
  sealed_hsh-inserted id now typ [] = refl
  sealed_hsh-inserted id now typ (b ∷ bs) =
      let more : ltb_ℤ (pos 0) (pos (length (b ∷ bs))) ≡ true = ground arith in rw more refl

  body_hsh-IsHsh :
      (bod : Bytes)
      → ((bytes : Bytes) → length (crypto.blake3 bytes) ≡ hsh_bytes)
      → IsHsh (pos (length bod)) (body_hsh crypto.blake3 (some bod))
  unfolding body_hsh
  body_hsh-IsHsh [] wide = refl
  body_hsh-IsHsh (b ∷ bs) wide = (omega arith, wide (b ∷ bs))

  inserted-IsWellFormed :
      (id : Bytes) (now : Date) (typ : Str) (bod : Bytes)
      → ((bytes : Bytes) → length (crypto.blake3 bytes) ≡ hsh_bytes)
      → length id ≡ 8
      → IsTime now
      → IsShort typ
      → length bod < 2 ^ 53
      → MessageHead.IsWellFormed (sealed_head crypto (inserted id now typ bod))
  inserted-IsWellFormed id now typ bod wide l t short small = record {
    typ = short;
    present = refl;
    source = record { id = id; ts = now };
    source_ok =
        subst (λ b. parse_eid b ≡ ok (record { id = id; ts = now }))
          (sym (encoding-wire eid_laws (record { id = id; ts = now }) (omega (arith, l), t)))
          (parse_eid-wire (record { id = id; ts = now }) (omega (arith, l), t));
    eid = omega (arith, short_eid id now l t);
    off = omega arith;
    ctr = omega arith;
    len = small;
    hsh =
        subst (IsHsh (pos (length bod))) (sym (sealed_hsh-inserted id now typ bod))
          (body_hsh-IsHsh bod wide);
  }

  -- A new entity reaches whoever has the realm: where the library answers on keys of 32 bytes and keeps
  -- its laws, the realm and the hashes have 32 bytes, the type is a short text, the time is a valid date
  -- from 1970 on, and the key is that of the manager's identity, the head for a body that is not empty
  -- is made and sealed, and its bag opened again gives the head and the body.
  pub gen_insert_head-open_bag :
      (works : IsWorking crypto) (sound : IsSound crypto) (mgr : BagManager)
      (verify_key : VerifyKey) (id : Bytes) (now : Date) (typ : Str) (bod : Bytes)
      → Confirms crypto verify_key mgr
      → length mgr.rlm ≡ hash_bytes
      → ((bytes : Bytes) → length (crypto.blake3 bytes) ≡ hsh_bytes)
      → length id ≡ 8
      → IsTime now
      → IsShort typ
      → 0 < length bod
      → length bod < 2 ^ 53
      → (head : MessageHead) × (bag : Bag) × (gen_insert_head crypto.blake3 id now typ bod
          ≡ ok (some head))
        × (seal_bag crypto (record { head = head; bod = some bod }) mgr ≡ ok bag)
        × (open_bag crypto bag verify_key mgr
            ≡ ok (record {
              msg = record { head = head; bod = some bod };
              head_hash = crypto.blake3 (encoding message_head_codec head);
            }))
  gen_insert_head-open_bag works sound mgr verify_key id now typ bod c r wide l t short some_body
        small =
      let msg = inserted id now typ bod in
      let (bag, e, f) =
        seal_bag-open_bag crypto works sound mgr msg verify_key c r
          (inserted-IsWellFormed id now typ bod wide l t short small)
          (inr (omega (arith, some_body))) in
      let same = ap (with_hsh msg.head) (sealed_hsh-inserted id now typ bod) in
      (
        msg.head,
        bag,
        gen_insert_head-inserted id now typ bod (omega (arith, l)) t,
        e,
        f
            ∙ ap
                (λ h. ok (record {
                  msg = record { head = h; bod = some bod };
                  head_hash = crypto.blake3 (encoding message_head_codec h);
                }))
                same,
      )
