-- ===== src/Host/Storage/Views.antt =====
-- One round of the loop of `setBags` in shared/storage/memory.ts: which bag stands at which seq.
use diplomatic.Base.{
  Bool-cases, Option, [], ap, arith, false, if◌then◌else◌, inl, inr, ltb, none, refl, some, true, ℕ,
  ◌<◌, ◌==◌, ◌∙◌, ◌∷◌, ◌≡◌, ◌≤◌,
}
use diplomatic.Base.Keyed.{
  bytes_key, bytes_same, bytes_same_iff, insert, lookup, lookup-insert, nat_key,
}
use diplomatic.Codec.{Bytes}
use diplomatic.Codec.Structs.{encoding}
use diplomatic.Host.Storage.{
  Batch, Realm, Realms, StoredBag, head_of_bag, known_max, max_from, next_seq, or_empty,
}
use diplomatic.Host.Storage.Log.{opened_same, realm-insert}
use diplomatic.Wire.Bag.{Bag}
use diplomatic.Wire.PeekItemHead.{peek_item_head_codec}
use mathlib.Core.Path.{subst}

-- The bags of one user, by realm and seq.
abbrev pub View : Type 0
View = Bytes → ℕ → Option StoredBag

abbrev pub view : Realms → View
view realms rlm seq = lookup seq (or_empty (lookup rlm realms))

-- What is stored of a bag: signature, kdm and encrypted head as written for PEEK, and the body.
abbrev pub stored_bag : Bag → StoredBag
stored_bag bag = record {
  head_cph = encoding peek_item_head_codec (head_of_bag bag);
  body_cph = bag.body_cph;
}

-- A bag more, and all else as it was.
abbrev pub with_bag : Bag → ℕ → View → View
with_bag bag seq v rlm k =
    if bytes_same bag.rlm rlm
    then (if seq == k then some (stored_bag bag) else v rlm k)
    else v rlm k

-- The largest seq of a realm as the loop knows it.
abbrev top : Bytes → Batch → ℕ
top rlm b = known_max (lookup rlm b.max_by) (or_empty (lookup rlm b.realms))

-- The loop's state holds the bags of `v`, and no seq is taken above the largest one.
pub record Tracks (v : View) (b : Batch) : Type 0 where
  pub same : (rlm : Bytes) (k : ℕ) → view b.realms rlm k ≡ v rlm k
  pub above : (rlm : Bytes) (k : ℕ) → top rlm b < k → v rlm k ≡ none

max_from-le : (m : ℕ) (realm : Realm) → m ≤ max_from m realm
unfolding max_from
max_from-le m [] = omega arith
max_from-le m ((seq, b) ∷ realm) =
    let ih = max_from-le (if ltb m seq then seq else m) realm in ground (arith, ih)

lookup-max_from : (m : ℕ) (realm : Realm) (k : ℕ) → max_from m realm < k → lookup k realm ≡ none
unfolding max_from lookup
lookup-max_from m [] k h = refl
lookup-max_from m ((seq, b) ∷ realm) k h =
    let le = max_from-le (if ltb m seq then seq else m) realm in
    let below : seq < k = ground (arith, le, h) in
    let other : (seq == k) ≡ false = ground arith in
    rw other (lookup-max_from (if ltb m seq then seq else m) realm k h)

-- No largest seq is known before the first round.
pub Tracks-fresh :
    (realms : Realms) → Tracks (view realms) (record { realms = realms; max_by = [] })
unfolding known_max lookup
Tracks-fresh realms = record {
  same = λ rlm k. refl;
  above = λ rlm k h. lookup-max_from 0 (or_empty (lookup rlm realms)) k h;
}

same_self : (rlm : Bytes) → bytes_same rlm rlm ≡ true
same_self rlm = (bytes_same_iff rlm rlm).1 refl

-- The realms with a bag more.
abbrev put : Bytes → ℕ → StoredBag → Realms → Realms
put rlm seq item realms =
    let opened = insert rlm (or_empty (lookup rlm realms)) realms in
    insert rlm (insert seq item (or_empty (lookup rlm opened))) opened

put_here :
    (rlm : Bytes) (seq : ℕ) (item : StoredBag) (realms : Realms) (k : ℕ)
    → view (put rlm seq item realms) rlm k ≡ (if seq == k then some item else view realms rlm k)
put_here rlm seq item realms k =
    let opened = insert rlm (or_empty (lookup rlm realms)) realms in
    rw (realm-insert rlm rlm (insert seq item (or_empty (lookup rlm opened))) opened, same_self rlm)
      (lookup-insert seq k item (or_empty (lookup rlm opened))
        ∙ ap (λ (r : Realm). if seq == k then some item else lookup k r)
            (opened_same rlm rlm realms))

put_elsewhere :
    (rlm j : Bytes) (seq : ℕ) (item : StoredBag) (realms : Realms)
    → bytes_same rlm j ≡ false
    → or_empty (lookup j (put rlm seq item realms)) ≡ or_empty (lookup j realms)
put_elsewhere rlm j seq item realms e =
    let opened = insert rlm (or_empty (lookup rlm realms)) realms in
    realm-insert rlm j (insert seq item (or_empty (lookup rlm opened))) opened
    ∙ rw e (opened_same rlm j realms)

-- The state after a bag has been stored.
abbrev stored : Bag → Batch → Batch
stored bag b = record {
  realms = put bag.rlm (next_seq bag b) (stored_bag bag) b.realms;
  max_by = insert bag.rlm (next_seq bag b) b.max_by;
}

stored-same :
    (bag : Bag) (v : View) (b : Batch)
    → Tracks v b
    → (j : Bytes) (k : ℕ) → view (stored bag b).realms j k ≡ with_bag bag (next_seq bag b) v j k
stored-same bag v b t j k = elim (Bool-cases (bytes_same bag.rlm j)) [
  | inl e ↦
      rw (e, ← (bytes_same_iff bag.rlm j).0 e)
        (put_here bag.rlm (next_seq bag b) (stored_bag bag) b.realms k
          ∙ ap (λ (x : Option StoredBag). if next_seq bag b == k then some (stored_bag bag) else x)
              (t.same bag.rlm k))
  | inr e ↦ rw e (
      ap (λ (r : Realm). lookup k r)
        (put_elsewhere bag.rlm j (next_seq bag b) (stored_bag bag) b.realms e)
      ∙ t.same j k)
]

top-stored :
    (bag : Bag) (b : Batch) (j : Bytes)
    → top j (stored bag b) ≡ (if bytes_same bag.rlm j then next_seq bag b else top j b)
unfolding known_max
top-stored bag b j =
    rw (lookup-insert bag.rlm j (next_seq bag b) b.max_by)
      (elim (Bool-cases (bytes_same bag.rlm j)) [
        | inl e ↦ rw e refl
        | inr e ↦ rw e (
            ap (λ (r : Realm). known_max (lookup j b.max_by) r)
              (put_elsewhere bag.rlm j (next_seq bag b) (stored_bag bag) b.realms e))
      ])

above_here :
    (bag : Bag) (v : View) (b : Batch) (k : ℕ)
    → Tracks v b
    → next_seq bag b < k
    → (if next_seq bag b == k then some (stored_bag bag) else v bag.rlm k) ≡ none
above_here bag v b k t h =
    let other : (next_seq bag b == k) ≡ false = ground arith in
    rw other (t.above bag.rlm k (omega arith))

stored-above :
    (bag : Bag) (v : View) (b : Batch)
    → Tracks v b
    → (j : Bytes) (k : ℕ) → top j (stored bag b) < k
    → with_bag bag (next_seq bag b) v j k ≡ none
stored-above bag v b t j k h = elim (Bool-cases (bytes_same bag.rlm j)) [
  | inl e ↦
      let n : next_seq bag b < k = subst (λ m. m < k) (top-stored bag b j ∙ rw e refl) h in
      rw (e, ← (bytes_same_iff bag.rlm j).0 e) (above_here bag v b k t n)
  | inr e ↦ rw e (t.above j k (subst (λ m. m < k) (top-stored bag b j ∙ rw e refl) h))
]

pub stored-Tracks :
    (bag : Bag) (v : View) (b : Batch)
    → Tracks v b
    → Tracks (with_bag bag (next_seq bag b) v) (stored bag b)
stored-Tracks bag v b t = record { same = stored-same bag v b t; above = stored-above bag v b t }
