-- ===== src/Stores/Accounts/Save.antt =====
-- Which masters `save` of web/src/stores/memory/account.ts accepts for a label.
use diplomatic.Base.{Bool-cases, Option, ap, false, inl, inr, none, refl, some, sym, ◌∙◌, ◌≡◌, ◌⊎◌}
use diplomatic.Base.Keyed.{
  bytes_key, bytes_same, bytes_same_iff, insert, lookup-insert, lookup-insert_self,
}
use diplomatic.Codec.{Bytes}
use diplomatic.Consts.{Status, hash_mismatch}
use diplomatic.Exec.{ValStat, continue, diverged, err, modify, ok, pure, thrown, ◌>>=◌}
use diplomatic.Stores.Accounts.{
  AccountStore, KeyTag, account_label, kept_tag, key_tag_digest, key_tag_matches, make_key_tag,
  or_no_tag, peek_key_tag, same_digest, save_account, save_at, save_labelled, slot_tag, tag_of,
}
use diplomatic.Text.{Str}
use mathlib.Core.Option.{some-injective}
use mathlib.Core.Path.{subst}

same_tag :
    (n h : Bytes) (tag : KeyTag)
    → ok (record { n = n; h = h }) ≡ ok tag
    → record { n = n; h = h } ≡ tag
same_tag n h tag e = ap (λ (r : ValStat KeyTag). elim r [ ok t ↦ t | _ ↦ tag ]) e

module _ {E : Type 0} (fingerprint : E → Bytes → ValStat Bytes) where
  -- The fingerprint child of the tag's nonce is that of the master.
  abbrev pub Names : KeyTag → E → Type 0
  Names tag enclave = key_tag_digest fingerprint enclave tag.n ≡ ok tag.h

  -- The tags of the accounts, at the label that was asked for and at any other.
  pub data IsSave (enclave : E) (label : Str) (slots : AccountStore)
      : ValStat E × AccountStore → Type 0 where
    saved :
        (tag : KeyTag) (slots' : AccountStore)
        → Names tag enclave
        → peek_key_tag label slots' ≡ some tag
        → ((key : Str)
            → bytes_same label key ≡ false
            → peek_key_tag key slots' ≡ peek_key_tag key slots)
        → ((old : KeyTag) → peek_key_tag label slots ≡ some old → tag ≡ old)
        → IsSave enclave label slots (ok enclave, slots')
    refused_save :
        (s : Status)
        → ((old : KeyTag)
            → peek_key_tag label slots ≡ some old
            → (s ≡ hash_mismatch) × (Names old enclave → ⊥))
        → IsSave enclave label slots (err s, slots)
    stopped :
        (r : ValStat E) → (r ≡ thrown) ⊎ (r ≡ diverged) → IsSave enclave label slots (r, slots)

  make_key_tag-Names :
      (nonce : Bytes) (enclave : E) (tag : KeyTag)
      → make_key_tag fingerprint nonce enclave ≡ ok tag
      → Names tag enclave
  unfolding make_key_tag tag_of
  make_key_tag-Names nonce enclave tag e = go (key_tag_digest fingerprint enclave nonce) refl e
    where
      go :
          (r : ValStat Bytes)
          → key_tag_digest fingerprint enclave nonce ≡ r
          → tag_of nonce r ≡ ok tag
          → key_tag_digest fingerprint enclave tag.n ≡ ok tag.h
      go (ok h) d f = rw (← same_tag nonce h tag f) d
      go (err s) d f = cc
      go thrown d f = cc
      go diverged d f = cc

  -- What the tag of a slot may be.
  data IsSlotTag (enclave : E) (old : Option KeyTag) : ValStat KeyTag → Type 0 where
    named :
        (tag : KeyTag)
        → Names tag enclave
        → ((t : KeyTag) → old ≡ some t → tag ≡ t)
        → IsSlotTag enclave old (ok tag)
    other_master :
        (s : Status)
        → ((t : KeyTag) → old ≡ some t → (s ≡ hash_mismatch) × (Names t enclave → ⊥))
        → IsSlotTag enclave old (err s)
    none_thrown : IsSlotTag enclave old thrown
    none_diverged : IsSlotTag enclave old diverged

  slot_tag-IsSlotTag :
      (nonce : Bytes) (enclave : E) (old : Option KeyTag)
      → IsSlotTag enclave old (slot_tag fingerprint nonce enclave old)
  unfolding slot_tag key_tag_matches same_digest kept_tag
  slot_tag-IsSlotTag nonce enclave none = go (make_key_tag fingerprint nonce enclave) refl
    where
      go :
          (r : ValStat KeyTag)
          → make_key_tag fingerprint nonce enclave ≡ r
          → IsSlotTag enclave none r
      go (ok tag) e = named tag (make_key_tag-Names nonce enclave tag e) (λ t f. cc)
      go (err s) e = other_master s (λ t f. cc)
      go thrown e = none_thrown
      go diverged e = none_diverged
  slot_tag-IsSlotTag nonce enclave (some tag) = go (key_tag_digest fingerprint enclave tag.n) refl
    where
      go :
          (r : ValStat Bytes)
          → key_tag_digest fingerprint enclave tag.n ≡ r
          → IsSlotTag enclave (some tag) (kept_tag tag (same_digest tag.h r))
      go (ok h) e = elim (Bool-cases (bytes_same h tag.h)) [
        | inl f ↦
            rw f
              (named tag (e ∙ ap ok ((bytes_same_iff h tag.h).0 f)) (λ t g. some-injective _ _ g))
        | inr f ↦ rw f (
            other_master hash_mismatch (λ t g. (
              refl,
              λ n.
                  let n' : key_tag_digest fingerprint enclave tag.n ≡ ok tag.h =
                    subst (λ x. Names x enclave) (sym (some-injective _ _ g)) n in
                  let same : h ≡ tag.h = cc (e, n') in cc (f, (bytes_same_iff h tag.h).1 same),
            )))
      ]
      go (err s) e = other_master hash_mismatch (λ t g. (
        refl,
        λ n.
            let n' : key_tag_digest fingerprint enclave tag.n ≡ ok tag.h =
              subst (λ x. Names x enclave) (sym (some-injective _ _ g)) n in
            cc (e, n'),
      ))
      go thrown e = none_thrown
      go diverged e = none_diverged

  save_at-IsSave :
      (nonce : Bytes) (enclave : E) (label : Str) (slots : AccountStore)
      → IsSave enclave label slots (save_at fingerprint nonce enclave label slots)
  unfolding save_at ◌>>=◌ peek_key_tag or_no_tag
  save_at-IsSave nonce enclave label slots =
      go (slot_tag fingerprint nonce enclave (peek_key_tag label slots))
        (slot_tag-IsSlotTag nonce enclave (peek_key_tag label slots))
    where
      go :
          (r : ValStat KeyTag)
          → IsSlotTag enclave (peek_key_tag label slots) r
          → IsSave enclave label slots
              (continue (r, slots) (λ tag. modify (insert label (some tag)) >>= λ _. pure enclave))
      go _ (named tag n o) =
          saved tag (insert label (some tag) slots) n
            (ap or_no_tag (lookup-insert_self label (some tag) slots))
            (λ key f. ap or_no_tag (lookup-insert label key (some tag) slots) ∙ rw f refl) o
      go _ (other_master s o) = refused_save s o
      go _ none_thrown = stopped thrown (inl refl)
      go _ none_diverged = stopped diverged (inr refl)

  -- An account keeps the tag of its first master: `save` succeeds only for a master that the tag names,
  -- with a new tag where the account had none; where it has one that names another master, the answer
  -- is HashMismatch; and no other account changes, nor any where it fails.
  pub save_account_lem :
      (nonce : Bytes) (enclave : E) (opts : Option Str) (label : Str) (slots : AccountStore)
      → account_label opts ≡ ok label
      → IsSave enclave label slots (save_account fingerprint nonce enclave opts slots)
  unfolding save_account save_labelled
  save_account_lem nonce enclave opts label slots e =
      rw e (save_at-IsSave nonce enclave label slots)
