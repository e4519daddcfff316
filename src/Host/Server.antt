-- ===== src/Host/Server.antt =====
-- shared/auth.ts, `bagSigValid` of shared/bag.ts, and the handlers of shared/api: USER, PEEK, PULL and
-- PUSH. Ed25519 and the clock are parameters.
use diplomatic.Base.{
  Bool, List, Option, [], false, if◌then◌else◌, leb, length, ltb, map, none, some, suc, ℕ, ◌&&◌,
  ◌++◌, ◌==◌, ◌∷◌,
}
use diplomatic.Base.Int.{abs, pos, ◌-ℤ◌}
use diplomatic.Codec.{
  Bytes, Date, Decoder, Encoder, Read, Write, done, new_encoder, read_structs, result, time,
  write_date, write_structs,
}
use diplomatic.Consts.{
  clock_out_of_sync, clock_tolerance_ms, crypto_error, extra_body_content, hash_bytes,
  invalid_signature, notif_inline_body_bytes_threshold, storage_error, user_not_registered,
}
use diplomatic.Exec.{Done, Exec, ValStat, check, diverged, err, lift, ok, pure, thrown, ◌>>=◌, ◌>>◌}
use diplomatic.Host.Requests.{peek_cursor_codec, pull_req_codec}
use diplomatic.Host.Storage.{
  SetBagResult, Storage, add_user, get_bodies, has_user, head_of_bag, list_heads, refused, set_bags,
  stored_at,
}
use diplomatic.Wire.AuthTimestamp.{AuthTimestamp, auth_timestamp_codec}
use diplomatic.Wire.Bag.{Bag, bag_codec}
use diplomatic.Wire.NotifItem.{NotifItem, notif_item_codec}
use diplomatic.Wire.PeekItem.{peek_item_codec}
use diplomatic.Wire.PeekItemHead.{peek_item_head_codec}
use diplomatic.Wire.PullItem.{pull_item_codec}
use diplomatic.Wire.PushItem.{failed, push_item_codec, stored}

-- `IHostCrypto`. `none` is a key that cannot be imported, where the source's promise is rejected.
pub record HostCrypto (VerifyKey : Type 0) : Type 0 where
  pub import_verify_key : Bytes → Option VerifyKey
  pub check_sig : Bytes → Bytes → VerifyKey → Bool

-- A request: what is unread of it, the response so far, the storage, and the pushed notifications.
pub record Call : Type 0 where
  pub dec : Decoder
  pub enc : Encoder
  pub storage : Storage
  pub pushed : List (Bytes × Bytes)

-- A step on one part of the request.
unfoldable pub reading : {A : Type 0} → Read A → Exec Call A
reading m c = let (r, d) = m c.dec in (r, record c { dec = d })

unfoldable pub writing : Write → Exec Call Done
writing m c = let (r, e) = m c.enc in (r, record c { enc = e })

unfoldable pub storing : {A : Type 0} → Exec Storage A → Exec Call A
storing m c = let (r, s) = m c.storage in (r, record c { storage = s })

unfoldable pub pushing : Bytes → Bytes → Exec Call Done
pushing pub_key batch c = (ok tt, record c { pushed = c.pushed ++ ((pub_key, batch) ∷ []) })

unfoldable pub at_end : Exec Call Done
at_end c = if done c.dec then (ok tt, c) else (err extra_body_content, c)

unfoldable pub encoded_head : ValStat Done × Encoder → ValStat Bytes
encoded_head (ok _, enc) = ok (result enc)
encoded_head (err s, enc) = err s
encoded_head (thrown, enc) = thrown
encoded_head (diverged, enc) = diverged

pub inlined : Bool → Bag → Option Bytes
inlined alone bag =
    if alone && leb (length bag.body_cph) notif_inline_body_bytes_threshold
    then some bag.body_cph
    else none

-- The second loop: an answer for each bag that was handed to the storage, and a notification for each
-- that it stored.
unfoldable pub report : Bool → List (ℕ × Bag) → List SetBagResult → Exec Call (List NotifItem)
unfolding encoded_head
report alone ((idx, bag) ∷ bags) (refused status ∷ results) = do
  writing (push_item_codec.encode (failed (pos idx) status))
  report alone bags results
report alone ((idx, bag) ∷ bags) (stored_at seq ∷ results) = do
  head ← lift (encoded_head (peek_item_head_codec.encode (head_of_bag bag) new_encoder))
  writing (push_item_codec.encode (stored (pos idx) (pos seq)))
  notifs ← report alone bags results
  pure (
      record { seq = pos seq; rlm = bag.rlm; head_cph = head; body_cph = inlined alone bag }
      ∷ notifs)
report alone _ _ = pure []

unfoldable pub notify : Bytes → List NotifItem → Exec Call Done
unfolding encoded_head
notify pub_key [] = pure tt
notify pub_key (n ∷ notifs) = do
  batch ← lift (encoded_head (write_structs notif_item_codec (n ∷ notifs) new_encoder))
  pushing pub_key batch

-- `Math.abs(currentTime - tsTime) > clockToleranceMs`; with an invalid date it is NaN, and the test is false.
unfoldable pub clock_off : Date → Date → Bool
clock_off (time now) (time ts) = ltb clock_tolerance_ms (abs (now -ℤ ts))
clock_off _ _ = false

-- The import of the key, and the check with it.
unfoldable pub by_key : {VerifyKey : Type 0} → Option VerifyKey → (VerifyKey → Bool) → ValStat Done
by_key none valid = err crypto_error
by_key (some key) valid = if valid key then ok tt else err invalid_signature

module _ {VerifyKey : Type 0} (crypto : HostCrypto VerifyKey) where
  unfoldable pub bag_sig_valid : Bag → VerifyKey → Bool
  bag_sig_valid bag key =
      if length bag.rlm == hash_bytes
      then crypto.check_sig bag.sig (bag.rlm ++ bag.head_cph) key
      else false

module _ {VerifyKey : Type 0} (crypto : HostCrypto VerifyKey) (now : Date) where
  unfoldable pub verify : AuthTimestamp → Bytes → ValStat Done
  unfolding by_key
  verify auth bytes =
      by_key (crypto.import_verify_key auth.pub_key) (crypto.check_sig auth.sig bytes)

  -- The status of `writeDate` is not looked at.
  unfoldable pub signed : AuthTimestamp → ValStat Done × Encoder → ValStat Done
  signed auth (ok _, enc) = verify auth (result enc)
  signed auth (err s, enc) = verify auth (result enc)
  signed auth (thrown, enc) = thrown
  signed auth (diverged, enc) = diverged

  unfoldable pub validate_auth : AuthTimestamp → ValStat Done
  unfolding signed
  validate_auth auth =
      if clock_off now auth.timestamp
      then err clock_out_of_sync
      else signed auth (write_date auth.timestamp new_encoder)

  -- The steps that every handler starts with.
  unfoldable pub authenticate : Exec Call AuthTimestamp
  authenticate = do
    auth ← reading auth_timestamp_codec.decode
    valid ← lift (validate_auth auth)
    pure auth

  unfoldable pub registered : Exec Call AuthTimestamp
  unfolding authenticate
  registered = do
    auth ← authenticate
    known ← storing (has_user auth.pub_key)
    storing (check known user_not_registered)
    pure auth

  unfoldable pub handle_user : Exec Call Done
  handle_user = do auth ← authenticate; at_end; storing (add_user auth.pub_key)

  unfoldable pub handle_peek : Exec Call Done
  handle_peek = do
    auth ← registered
    cursor ← reading peek_cursor_codec.decode
    at_end
    items ← storing (list_heads auth.pub_key cursor.rlm cursor.seq)
    writing (write_structs peek_item_codec items)

  unfoldable pub handle_pull : Exec Call Done
  handle_pull = do
    auth ← registered
    req ← reading pull_req_codec.decode
    items ← storing (get_bodies auth.pub_key req.rlm req.seqs)
    writing (write_structs pull_item_codec items)

  -- The first loop of PUSH: an answer for each bag whose signature is not valid; the others go on, with
  -- their places in the request.
  unfoldable pub split_bags : VerifyKey → ℕ → List Bag → Exec Call (List (ℕ × Bag))
  split_bags key idx [] = pure []
  split_bags key idx (bag ∷ bags) = do
    item ←
        (if bag_sig_valid crypto bag key
          then pure tt
          else writing (push_item_codec.encode (failed (pos idx) invalid_signature)))
    rest ← split_bags key (suc idx) bags
    pure (if bag_sig_valid crypto bag key then (idx, bag) ∷ rest else rest)

  unfoldable pub imported : Option VerifyKey → ValStat VerifyKey
  imported none = err crypto_error
  imported (some key) = ok key

  unfoldable pub handle_push : Exec Call Done
  unfolding split_bags report notify imported
  handle_push = do
    auth ← registered
    bags ← reading (read_structs bag_codec)
    key ← lift (imported (crypto.import_verify_key auth.pub_key))
    valid ← split_bags key 0 bags
    results ← storing (set_bags auth.pub_key (map (λ v. v.1) valid))
    storing (check (length results == length valid) storage_error)
    notifs ← report (length bags == 1) valid results
    notify auth.pub_key notifs
