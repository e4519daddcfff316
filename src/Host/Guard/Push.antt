-- ===== src/Host/Guard/Push.antt =====
-- What PUSH of shared/api/push.ts puts into the storage.
use diplomatic.Base.{
  All, Bool, Bool-cases, List, Option, [], false, if◌then◌else◌, inl, inr, map, none, refl, some,
  suc, true, ℕ, ◌∙◌, ◌∷◌, ◌≡◌, ◌⊎◌,
}
use diplomatic.Base.Int.{pos}
use diplomatic.Codec.{Bytes, Date}
use diplomatic.Consts.{invalid_signature}
use diplomatic.Exec.{Exec, ValStat, continue, diverged, err, lift, ok, pure, thrown, ◌>>=◌}
use diplomatic.Host.Guard.{
  KeepsStorage, KeepsStorage-bind, KeepsStorage-check, KeepsStorage-lift, KeepsStorage-pure,
  KeepsStorage-reading, KeepsStorage-registered, KeepsStorage-writing,
}
use diplomatic.Host.Server.{
  Call, HostCrypto, bag_sig_valid, handle_push, imported, notify, pushing, report, split_bags,
  storing, writing,
}
use diplomatic.Host.Storage.{SetBagResult, Storage, refused, set_bags, stored_at}
use diplomatic.Wire.Bag.{Bag}
use diplomatic.Wire.NotifItem.{NotifItem}
use diplomatic.Wire.PushItem.{failed, push_item_codec}
use mathlib.Core.Path.{subst}

KeepsStorage-report :
    (alone : Bool) (bags : List (ℕ × Bag)) (rs : List SetBagResult)
    → KeepsStorage (report alone bags rs)
unfolding report
KeepsStorage-report alone ((idx, bag) ∷ bags) (refused s ∷ rs) =
    KeepsStorage-bind _ _ (KeepsStorage-writing _) (λ u. KeepsStorage-report alone bags rs)
KeepsStorage-report alone ((idx, bag) ∷ bags) (stored_at seq ∷ rs) =
    KeepsStorage-bind _ _ (KeepsStorage-lift _) λ head.
      KeepsStorage-bind _ _ (KeepsStorage-writing _)
        λ u. KeepsStorage-bind _ _ (KeepsStorage-report alone bags rs) (λ ns. KeepsStorage-pure _)
KeepsStorage-report alone [] rs = KeepsStorage-pure []
KeepsStorage-report alone (b ∷ bags) [] = KeepsStorage-pure []

-- The storage alone: notifications may be pushed.
abbrev Keeps : {A : Type 0} → Exec Call A → Type 0
Keeps m = (c : Call) → (m c).1.storage ≡ c.storage

Keeps-then :
    {A B : Type 0} (f : A → Exec Call B) (r : ValStat A × Call)
    → ((x : A) → Keeps (f x))
    → (continue r f).1.storage ≡ r.1.storage
Keeps-then f (ok x, c) k = k x c
Keeps-then f (err s, c) k = refl
Keeps-then f (thrown, c) k = refl
Keeps-then f (diverged, c) k = refl

Keeps-bind :
    {A B : Type 0} (m : Exec Call A) (f : A → Exec Call B)
    → Keeps m
    → ((x : A) → Keeps (f x))
    → Keeps (m >>= f)
unfolding ◌>>=◌
Keeps-bind m f h k c = Keeps-then f (m c) k ∙ h c

Keeps-notify : (key : Bytes) (notifs : List NotifItem) → Keeps (notify key notifs)
unfolding notify
Keeps-notify key [] = (KeepsStorage-pure tt).storage
Keeps-notify key (n ∷ notifs) =
    Keeps-bind _ _ ((KeepsStorage-lift _).storage) (λ batch. unfold pushing in (λ c. refl))

module _ {VerifyKey : Type 0} (crypto : HostCrypto VerifyKey) (now : Date) where
  abbrev pub IsSigned : VerifyKey → Bag → Type 0
  IsSigned key bag = bag_sig_valid crypto bag key ≡ true

  -- The storage is as before, or it is what `setBags` makes of it with bags whose signatures the key of
  -- the sender confirms.
  abbrev pub StoresSigned : Storage → Storage → Type 0
  StoresSigned s s' =
      (s' ≡ s)
      ⊎ ((pub_key : Bytes) × (key : VerifyKey) × (bags : List Bag) × (crypto.import_verify_key
              pub_key
            ≡ some key)
          × All (IsSigned key) bags
          × (s' ≡ (set_bags pub_key bags s).1))

  record Ends {A : Type 0} (m : Exec Call A) : Type 0 where
    run : (c : Call) → StoresSigned c.storage (m c).1.storage

  -- What holds of the value of a step that succeeds.
  abbrev Where : {A : Type 0} → (A → Type 0) → ValStat A → Type 0
  Where P (ok x) = P x
  Where P (err s) = Unit {0}
  Where P thrown = Unit {0}
  Where P diverged = Unit {0}

  record Yields {A : Type 0} (P : A → Type 0) (m : Exec Call A) : Type 0 where
    run : (c : Call) → Where P (m c).0

  Ends-then :
      {A B : Type 0} (P : A → Type 0) (f : A → Exec Call B) (r : ValStat A × Call) (s : Storage)
      → r.1.storage ≡ s
      → Where P r.0
      → ((x : A) → P x → Ends (f x))
      → StoresSigned s (continue r f).1.storage
  Ends-then P f (ok x, c) s e w k =
      subst (λ (t : Storage). StoresSigned t (f x c).1.storage) e ((k x w).run c)
  Ends-then P f (err st, c) s e w k = inl e
  Ends-then P f (thrown, c) s e w k = inl e
  Ends-then P f (diverged, c) s e w k = inl e

  Ends-bind :
      {A B : Type 0} (P : A → Type 0) (m : Exec Call A) (f : A → Exec Call B)
      → KeepsStorage m
      → Yields P m
      → ((x : A) → P x → Ends (f x))
      → Ends (m >>= f)
  unfolding ◌>>=◌
  Ends-bind P m f h w k = record {
    run = λ c. Ends-then P f (m c) c.storage (h.storage c) (w.run c) k;
  }

  Where-any : {A : Type 0} (r : ValStat A) → Where (λ x. Unit {0}) r
  Where-any (ok x) = tt
  Where-any (err s) = tt
  Where-any thrown = tt
  Where-any diverged = tt

  Yields-any : {A : Type 0} (m : Exec Call A) → Yields (λ x. Unit {0}) m
  Yields-any m = record { run = λ c. Where-any (m c).0 }

  Where-continue :
      {A B : Type 0} (P : A → Type 0) (Q : B → Type 0) (f : A → Exec Call B) (r : ValStat A × Call)
      → ((x : A) → P x → Yields Q (f x))
      → Where P r.0
      → Where Q (continue r f).0
  Where-continue P Q f (ok x, c) h p = (h x p).run c
  Where-continue P Q f (err s, c) h p = tt
  Where-continue P Q f (thrown, c) h p = tt
  Where-continue P Q f (diverged, c) h p = tt

  Yields-bind :
      {A B : Type 0} (P : A → Type 0) {Q : B → Type 0} (m : Exec Call A) (f : A → Exec Call B)
      → Yields P m
      → ((x : A) → P x → Yields Q (f x))
      → Yields Q (m >>= f)
  unfolding ◌>>=◌
  Yields-bind P {Q} m f w k = record { run = λ c. Where-continue P Q f (m c) k (w.run c) }

  Yields-pure : {A : Type 0} {P : A → Type 0} (x : A) → P x → Yields P (pure x)
  unfolding pure
  Yields-pure x p = record { run = λ c. p }

  Yields-imported :
      (o : Option VerifyKey) → Yields (λ key. o ≡ some key) (lift (imported crypto now o))
  unfolding imported lift
  Yields-imported none = record { run = λ c. tt }
  Yields-imported (some key) = record { run = λ c. refl }

  Keeps-split :
      (key : VerifyKey) (idx : ℕ) (bags : List Bag)
      → KeepsStorage (split_bags crypto now key idx bags)
  unfolding split_bags
  Keeps-split key idx [] = KeepsStorage-pure []
  Keeps-split key idx (bag ∷ bags) =
      KeepsStorage-bind _ _ (answer (bag_sig_valid crypto bag key))
        λ u. KeepsStorage-bind _ _ (Keeps-split key (suc idx) bags) (λ rest. KeepsStorage-pure _)
    where
      answer :
          (b : Bool)
          → KeepsStorage (
              if b
              then pure tt
              else writing (push_item_codec.encode (failed (pos idx) invalid_signature)))
      answer true = KeepsStorage-pure tt
      answer false = KeepsStorage-writing _

  abbrev AllSigned : VerifyKey → List (ℕ × Bag) → Type 0
  AllSigned key vs = All (IsSigned key) (map (λ v. v.1) vs)

  select :
      (key : VerifyKey) (idx : ℕ) (bag : Bag) (vs : List (ℕ × Bag))
      → AllSigned key vs
      → AllSigned key (if bag_sig_valid crypto bag key then (idx, bag) ∷ vs else vs)
  select key idx bag vs h = elim (Bool-cases (bag_sig_valid crypto bag key)) [
    | inl e ↦ rw e (e, h)
    | inr e ↦ rw e h
  ]

  Yields-split :
      (key : VerifyKey) (idx : ℕ) (bags : List Bag)
      → Yields (AllSigned key) (split_bags crypto now key idx bags)
  unfolding split_bags
  Yields-split key idx [] = Yields-pure [] tt
  Yields-split key idx (bag ∷ bags) =
      Yields-bind (λ u. Unit {0}) _ _ (Yields-any _)
        λ u t.
          Yields-bind (AllSigned key) _ _ (Yields-split key (suc idx) bags)
            λ vs h. Yields-pure _ (select key idx bag vs h)

  Ends-store :
      {B : Type 0} (pub_key : Bytes) (key : VerifyKey) (bags : List Bag)
      (f : List SetBagResult → Exec Call B)
      → crypto.import_verify_key pub_key ≡ some key
      → All (IsSigned key) bags
      → ((rs : List SetBagResult) → Keeps (f rs))
      → Ends (storing (set_bags pub_key bags) >>= f)
  unfolding ◌>>=◌ storing
  Ends-store pub_key key bags f e h k = record {
    run = λ c. inr (pub_key, key, bags, e, h, Keeps-then f (storing (set_bags pub_key bags) c) k);
  }

  handle_push-Ends : Ends (handle_push crypto now)
  unfolding handle_push
  handle_push-Ends =
      Ends-bind (λ x. Unit {0}) _ _ (KeepsStorage-registered crypto now) (Yields-any _)
        λ auth t.
          Ends-bind (λ x. Unit {0}) _ _ (KeepsStorage-reading _) (Yields-any _)
            λ bags t.
              Ends-bind _ _ _ (KeepsStorage-lift _)
                (Yields-imported (crypto.import_verify_key auth.pub_key))
                λ key e.
                  Ends-bind (AllSigned key) _ _ (Keeps-split key 0 bags) (Yields-split key 0 bags)
                    λ vs h. Ends-store auth.pub_key key (map (λ v. v.1) vs) _ e h λ rs.
                      Keeps-bind _ _ (KeepsStorage-check _ _).storage λ u.
                        Keeps-bind _ _ (KeepsStorage-report _ vs rs).storage
                          λ notifs. Keeps-notify auth.pub_key notifs

  -- PUSH leaves the storage as it was, or as `setBags` makes it from bags whose signatures the key confirms
  -- that was imported for the user they are stored for.
  pub handle_push-StoresSigned :
      (c : Call) → StoresSigned c.storage (handle_push crypto now c).1.storage
  handle_push-StoresSigned c = handle_push-Ends.run c
