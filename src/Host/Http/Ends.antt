-- ===== src/Host/Http/Ends.antt =====
-- The handlers of shared/api come to an end on every request.
use diplomatic.Base.{
  Bool, Bool-cases, List, Option, [], ap, arith, inl, inr, length, none, refl, some, suc, ℕ, ◌∷◌,
  ◌≢◌, ◌≤◌,
}
use diplomatic.Codec.{Bytes, Date, Encoder, Read, Write, done, new_encoder, result, write_date}
use diplomatic.Codec.Bounds.{Bounded}
use diplomatic.Codec.Ends.{Ends-date, Ends-structs}
use diplomatic.Codec.Loops.{Bounded-structs}
use diplomatic.Consts.{storage_error, user_not_registered}
use diplomatic.Exec.{Done, Exec, ValStat, diverged, err, ok, thrown}
use diplomatic.Exec.Ends.{AnyState, Ends, Ends-bind, Ends-check, Ends-lift, Ends-pure}
use diplomatic.Host.Requests.Bounds.{Bounded-cursor, Bounded-pull_req}
use diplomatic.Host.Server.{
  Call, HostCrypto, at_end, authenticate, bag_sig_valid, by_key, clock_off, encoded_head,
  handle_peek, handle_pull, handle_push, handle_user, imported, notify, pushing, reading,
  registered, report, signed, split_bags, storing, validate_auth, verify, writing,
}
use diplomatic.Host.Storage.{SetBagResult, Storage, head_of_bag, refused, stored_at}
use diplomatic.Host.Storage.Ends.{
  Ends-add_user, Ends-get_bodies, Ends-has_user, Ends-list_heads, Ends-set_bags,
}
use diplomatic.Wire.AuthTimestamp.{Advances-auth_timestamp, AuthTimestamp}
use diplomatic.Wire.Bag.{Advances-bag, Bag, bag_codec}
use diplomatic.Wire.NotifItem.{Ends-notif_item, NotifItem, notif_item_codec}
use diplomatic.Wire.PeekItem.{Ends-peek_item, peek_item_codec}
use diplomatic.Wire.PeekItemHead.{Ends-peek_item_head}
use diplomatic.Wire.PullItem.{Ends-pull_item, pull_item_codec}
use diplomatic.Wire.PushItem.{Ends-push_item}

-- The cursor is in the input.
abbrev pub InInput : Call → Type 0
InInput c = c.dec.pos ≤ length c.dec.input

pub Ends-reading : {A : Type 0} (m : Read A) → Bounded m → Ends InInput (reading m)
unfolding reading
Ends-reading m b = record {
  run = λ c h. let i = b.within c.dec h in (b.settles c.dec h, omega (arith, i.2, ap length i.0));
}

pub Ends-writing : (m : Write) → Ends AnyState m → Ends InInput (writing m)
unfolding writing
Ends-writing m e = record { run = λ c h. ((e.run c.enc tt).0, h) }

pub Ends-storing : {A : Type 0} (m : Exec Storage A) → Ends AnyState m → Ends InInput (storing m)
unfolding storing
Ends-storing m e = record { run = λ c h. ((e.run c.storage tt).0, h) }

pub Ends-pushing : (key batch : Bytes) → Ends InInput (pushing key batch)
unfolding pushing
Ends-pushing key batch = record { run = λ c h. ((λ p. cc), h) }

pub Ends-at_end : Ends InInput at_end
unfolding at_end
Ends-at_end = record {
  run = λ c h. elim (Bool-cases (done c.dec)) [
    | inl e ↦ rw e ((λ p. cc), h)
    | inr e ↦ rw e ((λ p. cc), h)
  ];
}

encoded_head-ne-diverged : (r : ValStat Done × Encoder) → r.0 ≢ diverged → encoded_head r ≢ diverged
unfolding encoded_head
encoded_head-ne-diverged (ok x, enc) n = λ p. cc
encoded_head-ne-diverged (err s, enc) n = λ p. cc
encoded_head-ne-diverged (thrown, enc) n = λ p. cc
encoded_head-ne-diverged (diverged, enc) n = λ p. n refl

Ends-report :
    (alone : Bool) (bags : List (ℕ × Bag)) (results : List SetBagResult)
    → Ends InInput (report alone bags results)
unfolding report
Ends-report alone [] results = Ends-pure []
Ends-report alone (b ∷ bags) [] = Ends-pure []
Ends-report alone ((idx, bag) ∷ bags) (refused status ∷ results) =
    Ends-bind _ _ (Ends-writing _ (Ends-push_item _)) (λ u. Ends-report alone bags results)
Ends-report alone ((idx, bag) ∷ bags) (stored_at seq ∷ results) =
    Ends-bind _ _
      (Ends-lift _
        (encoded_head-ne-diverged _ ((Ends-peek_item_head (head_of_bag bag)).run new_encoder tt).0))
      (λ head.
        Ends-bind _ _ (Ends-writing _ (Ends-push_item _))
          (λ u. Ends-bind _ _ (Ends-report alone bags results) (λ notifs. Ends-pure _)))

Ends-notify : (key : Bytes) (notifs : List NotifItem) → Ends InInput (notify key notifs)
unfolding notify
Ends-notify key [] = Ends-pure tt
Ends-notify key (n ∷ notifs) =
    Ends-bind _ _
      (Ends-lift _ (
        encoded_head-ne-diverged _
          ((Ends-structs notif_item_codec Ends-notif_item (n ∷ notifs)).run new_encoder tt).0))
      (λ batch. Ends-pushing key batch)

module _ {VerifyKey : Type 0} (crypto : HostCrypto VerifyKey) (now : Date) where
  by_key-ne-diverged :
      (key : Option VerifyKey) (valid : VerifyKey → Bool) → by_key key valid ≢ diverged
  unfolding by_key
  by_key-ne-diverged none valid p = cc
  by_key-ne-diverged (some key) valid p = elim (Bool-cases (valid key)) [ inl e ↦ cc | inr e ↦ cc ]

  signed-ne-diverged :
      (auth : AuthTimestamp) (r : ValStat Done × Encoder)
      → r.0 ≢ diverged
      → signed crypto now auth r ≢ diverged
  unfolding signed verify
  signed-ne-diverged auth (ok x, enc) n =
      by_key-ne-diverged (crypto.import_verify_key auth.pub_key)
        (crypto.check_sig auth.sig (result enc))
  signed-ne-diverged auth (err s, enc) n =
      by_key-ne-diverged (crypto.import_verify_key auth.pub_key)
        (crypto.check_sig auth.sig (result enc))
  signed-ne-diverged auth (thrown, enc) n = λ p. cc
  signed-ne-diverged auth (diverged, enc) n = λ p. n refl

  validate_auth-ne-diverged : (auth : AuthTimestamp) → validate_auth crypto now auth ≢ diverged
  unfolding validate_auth
  validate_auth-ne-diverged auth = elim (Bool-cases (clock_off now auth.timestamp)) [
    | inl e ↦ rw e (λ p. cc)
    | inr e ↦ rw e (
        signed-ne-diverged auth (write_date auth.timestamp new_encoder)
          ((Ends-date auth.timestamp).run new_encoder tt).0)
  ]

  Ends-authenticate : Ends InInput (authenticate crypto now)
  unfolding authenticate
  Ends-authenticate = Ends-bind _ _ (Ends-reading _ Advances-auth_timestamp.inside) (λ auth.
      Ends-bind _ _ (Ends-lift _ (validate_auth-ne-diverged auth)) (λ valid. Ends-pure auth))

  Ends-registered : Ends InInput (registered crypto now)
  unfolding registered
  Ends-registered = Ends-bind _ _ Ends-authenticate (λ auth.
      Ends-bind _ _ (Ends-storing _ (Ends-has_user auth.pub_key)) (λ known.
        Ends-bind _ _ (Ends-storing _ (Ends-check known user_not_registered))
          (λ u. Ends-pure auth)))

  pub Ends-handle_user : Ends InInput (handle_user crypto now)
  unfolding handle_user
  Ends-handle_user =
      Ends-bind _ _ Ends-authenticate
        (λ auth. Ends-bind _ _ Ends-at_end (λ u. Ends-storing _ (Ends-add_user auth.pub_key)))

  pub Ends-handle_peek : Ends InInput (handle_peek crypto now)
  unfolding handle_peek
  Ends-handle_peek = Ends-bind _ _ Ends-registered (λ auth.
      Ends-bind _ _ (Ends-reading _ Bounded-cursor) (λ cursor. Ends-bind _ _ Ends-at_end (λ u.
        Ends-bind _ _ (Ends-storing _ (Ends-list_heads auth.pub_key cursor.rlm cursor.seq))
          (λ items. Ends-writing _ (Ends-structs peek_item_codec Ends-peek_item items)))))

  pub Ends-handle_pull : Ends InInput (handle_pull crypto now)
  unfolding handle_pull
  Ends-handle_pull = Ends-bind _ _ Ends-registered (λ auth.
      Ends-bind _ _ (Ends-reading _ Bounded-pull_req) (λ req.
        Ends-bind _ _ (Ends-storing _ (Ends-get_bodies auth.pub_key req.rlm req.seqs))
          (λ items. Ends-writing _ (Ends-structs pull_item_codec Ends-pull_item items))))

  Ends-split_bags :
      (key : VerifyKey) (idx : ℕ) (bags : List Bag)
      → Ends InInput (split_bags crypto now key idx bags)
  unfolding split_bags
  Ends-split_bags key idx [] = Ends-pure []
  Ends-split_bags key idx (bag ∷ bags) =
      Ends-bind _ _
        (elim (Bool-cases (bag_sig_valid crypto bag key)) [
          | inl e ↦ rw e (Ends-pure tt)
          | inr e ↦ rw e (Ends-writing _ (Ends-push_item _))
        ])
        (λ item. Ends-bind _ _ (Ends-split_bags key (suc idx) bags) (λ rest. Ends-pure _))

  imported-ne-diverged : (key : Option VerifyKey) → imported crypto now key ≢ diverged
  unfolding imported
  imported-ne-diverged none p = cc
  imported-ne-diverged (some key) p = cc

  pub Ends-handle_push : Ends InInput (handle_push crypto now)
  unfolding handle_push
  Ends-handle_push = Ends-bind _ _ Ends-registered (λ auth.
      Ends-bind _ _ (Ends-reading _ (Bounded-structs bag_codec Advances-bag)) (λ bags.
        Ends-bind _ _ (Ends-lift _ (imported-ne-diverged _)) (λ key.
          Ends-bind _ _ (Ends-split_bags key 0 bags) (λ valid.
            Ends-bind _ _ (Ends-storing _ (Ends-set_bags auth.pub_key _)) (λ results.
              Ends-bind _ _ (Ends-storing _ (Ends-check _ storage_error)) (λ u.
                Ends-bind _ _ (Ends-report _ valid results)
                  (λ notifs. Ends-notify auth.pub_key notifs)))))))
