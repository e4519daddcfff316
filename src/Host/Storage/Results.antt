-- ===== src/Host/Storage/Results.antt =====
-- What `setBags` of shared/storage/memory.ts returns, and what it leaves in the storage.
use diplomatic.Base.{
  ==_iff, All, Bool-cases, List, Option, [], ap, arith, false, inl, inr, length, none, refl, sym, ℕ,
  ◌<◌, ◌==◌, ◌^◌, ◌∷◌, ◌≡◌, ◌≢◌, ◌≤◌,
}
use diplomatic.Base.Keyed.{
  bytes_key, bytes_same, insert, lookup, lookup-insert, lookup-insert_self, nat_key,
}
use diplomatic.Codec.{Bytes, Encoder, new_encoder, result}
use diplomatic.Consts.{hash_bytes, invalid_param}
use diplomatic.Exec.{Done, Exec, ValStat, continue, diverged, err, ok, pure, thrown, ◌>>=◌}
use diplomatic.Host.Storage.{
  Batch, Realms, SetBagResult, Storage, head_of_bag, next_seq, or_empty, put_back, realm_of,
  refused, set_bag, set_bags, set_each, store_bag, store_head, stored_at,
}
use diplomatic.Host.Storage.Views.{Tracks, Tracks-fresh, View, stored-Tracks, view, with_bag}
use diplomatic.Wire.Bag.{Bag}
use diplomatic.Wire.PeekItemHead.{peek_item_head-Writes, peek_item_head_codec}
use mathlib.Core.Path.{subst}

-- Whether a result may belong to a bag that comes when the bags of `v` are stored: a bag is stored
-- above every seq of its realm, and refused only for the length of its rlm, with that reason.
abbrev pub Fits : View → Bag → SetBagResult → Type 0
Fits v bag (stored_at seq) =
    (length bag.rlm ≡ hash_bytes) × (0 < seq) × ((k : ℕ) → seq ≤ k → v bag.rlm k ≡ none)
Fits v bag (refused s) = (length bag.rlm ≢ hash_bytes) × (s ≡ invalid_param)

-- The user's bags after a result.
abbrev pub after_result : View → Bag → SetBagResult → View
after_result v bag (stored_at seq) = with_bag bag seq v
after_result v bag (refused s) = v

-- One result for each bag, in order, which leads from the bags of `v` to those of `after`.
abbrev pub FitAll : View → View → List Bag → List SetBagResult → Type 0
FitAll v after [] [] = (rlm : Bytes) (k : ℕ) → after rlm k ≡ v rlm k
FitAll v after (bag ∷ bags) (r ∷ rs) = Fits v bag r × FitAll (after_result v bag r) after bags rs
FitAll v after [] (r ∷ rs) = ⊥
FitAll v after (bag ∷ bags) [] = ⊥

-- A step that succeeds, with a value and a state for which `P` holds.
abbrev Gives : {A : Type 0} → (A → Batch → Type 0) → ValStat A × Batch → Type 0
Gives P (ok x, b) = P x b
Gives P (err s, b) = ⊥
Gives P (thrown, b) = ⊥
Gives P (diverged, b) = ⊥

Gives-continue :
    {A B : Type 0} (P : A → Batch → Type 0) (Q : B → Batch → Type 0) (f : A → Exec Batch B)
    (r : ValStat A × Batch)
    → ((x : A) (b : Batch) → P x b → Gives Q (f x b))
    → Gives P r
    → Gives Q (continue r f)
Gives-continue P Q f (ok x, b) h p = h x b p
Gives-continue P Q f (err s, b) h p = absurd p
Gives-continue P Q f (thrown, b) h p = absurd p
Gives-continue P Q f (diverged, b) h p = absurd p

-- The head of the bag is short enough for its length to be written.
abbrev pub IsStorable : Bag → Type 0
IsStorable bag = length bag.head_cph < 2 ^ 53

-- A result that fits, and the state that it leaves.
abbrev OneFits : View → Bag → SetBagResult → Batch → Type 0
OneFits v bag r b = Fits v bag r × Tracks (after_result v bag r) b

store_head_lem :
    (r : ValStat Done × Encoder) (bag : Bag) (seq : ℕ) (b : Batch)
    → r.0 ≡ ok tt
    → store_head r bag seq b ≡ (
      ok (stored_at seq),
      record b {
        realms =
            insert bag.rlm
              (insert seq
                (record { head_cph = result r.1; body_cph = bag.body_cph })
                (or_empty (lookup bag.rlm b.realms)))
              b.realms;
      },
    )
unfolding store_head
store_head_lem (ok tt, enc) bag seq b e = refl
store_head_lem (err s, enc) bag seq b e = cc
store_head_lem (thrown, enc) bag seq b e = cc
store_head_lem (diverged, enc) bag seq b e = cc

set_bag-Gives :
    (v : View) (bag : Bag) (b : Batch)
    → IsStorable bag
    → Tracks v b
    → Gives (OneFits v bag) (set_bag bag b)
unfolding set_bag store_bag pure
set_bag-Gives v bag b h t = elim (Bool-cases (length bag.rlm == hash_bytes)) [
  | inl e ↦
      let wrote =
        ap (λ (p : ValStat Done × Encoder). p.0)
          ((peek_item_head-Writes (head_of_bag bag) h).run new_encoder) in
      rw
        (
          e,
          store_head_lem (peek_item_head_codec.encode (head_of_bag bag) new_encoder) bag
              (next_seq bag b)
              (record {
                realms = insert bag.rlm (or_empty (lookup bag.rlm b.realms)) b.realms;
                max_by = insert bag.rlm (next_seq bag b) b.max_by;
              })
              wrote,
        )
        (
          ((==_iff _ _).0 e, omega arith, λ k l. t.above bag.rlm k (omega arith)),
          stored-Tracks bag v b t,
        )
  | inr e ↦ rw e (((λ f. ground arith), refl), t)
]

set_each-Gives :
    (v : View) (bags : List Bag) (b : Batch)
    → All IsStorable bags
    → Tracks v b
    → Gives (λ rs b. FitAll v (view b.realms) bags rs) (set_each bags b)
unfolding set_each ◌>>=◌
set_each-Gives v [] b h t = t.same
set_each-Gives v (bag ∷ bags) b (h, hs) t =
    Gives-continue (OneFits v bag) (λ rs b. FitAll v (view b.realms) (bag ∷ bags) rs) _
      (set_bag bag b)
      (λ r b p.
        Gives-continue (λ rs b. FitAll (after_result v bag r) (view b.realms) bags rs)
          (λ rs b. FitAll v (view b.realms) (bag ∷ bags) rs) _ (set_each bags b)
          (λ rs b q. (p.0, q)) (set_each-Gives (after_result v bag r) bags b hs p.1))
      (set_bag-Gives v bag b h t)

-- The bags of one user.
abbrev pub bags_of : Bytes → Storage → View
bags_of pub_key s rlm seq = lookup seq (realm_of pub_key rlm s)

-- The users are as they were, and so are the bags of everyone else.
abbrev pub KeepsOthers : Bytes → Storage → Storage → Type 0
KeepsOthers pub_key s after =
    (after.users ≡ s.users)
    × ((key rlm : Bytes)
        → bytes_same pub_key key ≡ false
        → realm_of key rlm after ≡ realm_of key rlm s)

put_back_lem :
    (key : Bytes) (bags : List Bag) (s : Storage) (r : ValStat (List SetBagResult) × Batch)
    → Gives (λ rs b. FitAll (bags_of key s) (view b.realms) bags rs) r
    → (rs : List SetBagResult) × ((put_back key s r).0 ≡ ok rs)
      × FitAll (bags_of key s) (bags_of key (put_back key s r).1) bags rs
      × KeepsOthers key s (put_back key s r).1
unfolding put_back realm_of or_empty
put_back_lem key bags s (ok rs, b) g =
    let own : bags_of key (put_back key s (ok rs, b)).1 ≡ view b.realms =
      ap {B = View}
        (λ (o : Option Realms) rlm (k : ℕ). lookup k (or_empty (lookup rlm (or_empty o))))
        (lookup-insert_self key b.realms s.bag) in
    (
      rs,
      refl,
      subst (λ v. FitAll (bags_of key s) v bags rs) (sym own) g,
      (refl, λ j rlm e. rw (lookup-insert key j b.realms s.bag, e) refl),
    )
put_back_lem key bags s (err x, b) g = absurd g
put_back_lem key bags s (thrown, b) g = absurd g
put_back_lem key bags s (diverged, b) g = absurd g

-- `setBags` succeeds on bags whose heads are shorter than 2 ^ 53 bytes, with one result for each bag, in
-- the order of the bags. A bag whose rlm has 32 bytes gets a seq from 1 on and above every seq that its
-- realm has by then, those of earlier bags of the call included, and any other is refused with
-- InvalidParam. After the call the user has the bags from before at their seqs, each bag that was not
-- refused at the seq of its result, with its body and with the head as PEEK hands it out, and no other
-- bag. The list of users and the bags of other users are as before.
pub set_bags_lem :
    (pub_key : Bytes) (bags : List Bag) (s : Storage)
    → All IsStorable bags
    → (rs : List SetBagResult) × ((set_bags pub_key bags s).0 ≡ ok rs)
      × FitAll (bags_of pub_key s) (bags_of pub_key (set_bags pub_key bags s).1) bags rs
      × KeepsOthers pub_key s (set_bags pub_key bags s).1
unfolding set_bags realm_of
set_bags_lem key [] s h = ([], refl, (λ rlm k. refl), (refl, λ j rlm e. refl))
set_bags_lem key (bag ∷ bags) s h =
    let realms = or_empty (lookup key s.bag) in
    put_back_lem key (bag ∷ bags) s _ (
      set_each-Gives (view realms) (bag ∷ bags) (record { realms = realms; max_by = [] }) h
        (Tracks-fresh realms))
