-- ===== src/Host/Storage/Log.antt =====
-- The seqs of a realm in shared/storage/memory.ts, and the loop of `setBags`.
use diplomatic.Base.{
  Bool-cases, List, [], ap, arith, false, if◌then◌else◌, inl, inr, length, length-append, ltb, refl,
  suc, sym, true, ℕ, ◌++◌, ◌+◌, ◌==◌, ◌∙◌, ◌∷◌, ◌≡◌,
}
use diplomatic.Base.Keyed.{
  bytes_key, bytes_same, bytes_same_iff, insert, lookup, lookup-insert, nat_key,
}
use diplomatic.Codec.{Bytes, Encoder, result}
use diplomatic.Consts.{hash_bytes}
use diplomatic.Exec.{Done, Exec, ValStat, continue, diverged, err, ok, pure, thrown, ◌>>=◌}
use diplomatic.Host.Storage.{
  Batch, Realm, Realms, Storage, StoredBag, known_max, max_from, or_empty, put_back, realm_of,
  set_bag, set_bags, set_each, store_bag, store_head,
}
use diplomatic.Wire.Bag.{Bag}

unfoldable pub numbered : ℕ → List StoredBag → Realm
numbered k [] = []
numbered k (b ∷ bs) = (k, b) ∷ numbered (suc k) bs

-- The bags of a realm, and the realm as the list of them with their numbers.
abbrev pub IsNumbered : Realm → Type 0
IsNumbered realm = (bs : List StoredBag) × (realm ≡ numbered 1 bs)

-- Each realm of one user.
abbrev pub IsLogged : Realms → Type 0
IsLogged realms = (rlm : Bytes) → IsNumbered (or_empty (lookup rlm realms))

-- Each realm of each user.
abbrev pub IsLog : Storage → Type 0
IsLog s = (pub_key rlm : Bytes) → IsNumbered (realm_of pub_key rlm s)

-- The largest seq that the loop works with is the count of the realm's bags.
IsCounted : Batch → Type 0
IsCounted b =
    (rlm : Bytes)
    → known_max (lookup rlm b.max_by) (or_empty (lookup rlm b.realms))
      ≡ length (or_empty (lookup rlm b.realms))

length-numbered : (k : ℕ) (bs : List StoredBag) → length (numbered k bs) ≡ length bs
unfolding numbered
length-numbered k [] = refl
length-numbered k (b ∷ bs) = ap suc (length-numbered (suc k) bs)

max_from-numbered : (m : ℕ) (bs : List StoredBag) → max_from m (numbered (suc m) bs) ≡ m + length bs
unfolding max_from numbered
max_from-numbered m [] = omega arith
max_from-numbered m (b ∷ bs) =
    let after : ltb m (suc m) ≡ true = ground arith in
    rw (after, max_from) (max_from-numbered (suc m) bs ∙ omega arith)

insert-numbered :
    (k : ℕ) (bs : List StoredBag) (b : StoredBag)
    → insert (k + length bs) b (numbered k bs) ≡ numbered k (bs ++ (b ∷ []))
unfolding numbered insert
insert-numbered k [] b = ap (λ (n : ℕ). (n, b) ∷ []) (omega arith)
insert-numbered k (x ∷ bs) b =
    let new : (k == k + suc (length bs)) ≡ false = ground arith in
    rw new (
      ap (λ (r : Realm). (k, x) ∷ r)
        (ap (λ (n : ℕ). insert n b (numbered (suc k) bs)) (omega arith)
          ∙ insert-numbered (suc k) bs b))

pub realm-insert :
    (rlm j : Bytes) (realm : Realm) (realms : Realms)
    → or_empty (lookup j (insert rlm realm realms))
      ≡ (if bytes_same rlm j then realm else or_empty (lookup j realms))
unfolding or_empty
realm-insert rlm j realm realms =
    rw (lookup-insert rlm j realm realms)
      (elim (Bool-cases (bytes_same rlm j)) [ inl e ↦ rw e refl | inr e ↦ rw e refl ])

IsLogged-insert :
    (rlm : Bytes) (realm : Realm) (realms : Realms)
    → IsNumbered realm
    → IsLogged realms
    → IsLogged (insert rlm realm realms)
IsLogged-insert rlm realm realms (bs, e) logged j = elim (Bool-cases (bytes_same rlm j)) [
  | inl same ↦ (bs, realm-insert rlm j realm realms ∙ rw same e)
  | inr other ↦ let (cs, f) = logged j in (cs, realm-insert rlm j realm realms ∙ rw other f)
]

-- What holds after a step of the loop: after a failure the counts are of no use any more.
abbrev IsSound : {A : Type 0} → ValStat A × Batch → Type 0
IsSound (ok x, b) = IsLogged b.realms × IsCounted b
IsSound (err s, b) = IsLogged b.realms
IsSound (thrown, b) = IsLogged b.realms
IsSound (diverged, b) = IsLogged b.realms

IsSound-continue :
    {A B : Type 0} (f : A → Exec Batch B) (r : ValStat A × Batch)
    → ((x : A) (b : Batch) → IsLogged b.realms → IsCounted b → IsSound (f x b))
    → IsSound r
    → IsSound (continue r f)
IsSound-continue f (ok x, b) h (l, c) = h x b l c
IsSound-continue f (err s, b) h l = l
IsSound-continue f (thrown, b) h l = l
IsSound-continue f (diverged, b) h l = l

IsCounted-after :
    (rlm : Bytes) (seq : ℕ) (realm : Realm) (max_by : List (Bytes × ℕ)) (realms : Realms)
    → seq ≡ length realm
    → IsCounted (record { realms = realms; max_by = max_by })
    → IsCounted (record { realms = insert rlm realm realms; max_by = insert rlm seq max_by })
unfolding IsCounted known_max
IsCounted-after rlm seq realm max_by realms e counted j =
    rw (realm-insert rlm j realm realms, lookup-insert rlm j seq max_by)
      (elim (Bool-cases (bytes_same rlm j)) [
        | inl same ↦ rw same e
        | inr other ↦ rw other (counted j)
      ])

grown :
    (realm : Realm) (b : StoredBag)
    → IsNumbered realm
    → IsNumbered (insert (length realm + 1) b realm)
grown realm b (bs, e) = (
  bs ++ (b ∷ []),
  rw (e, length-numbered 1 bs)
      (ap (λ (n : ℕ). insert n b (numbered 1 bs)) (omega arith) ∙ insert-numbered 1 bs b),
)

IsCounted-fresh :
    (realms : Realms) → IsLogged realms → IsCounted (record { realms = realms; max_by = [] })
unfolding IsCounted known_max lookup
IsCounted-fresh realms logged rlm =
    let (bs, e) = logged rlm in rw (e, length-numbered 1 bs) (max_from-numbered 0 bs ∙ omega arith)

length-grown :
    (realm : Realm) (b : StoredBag)
    → IsNumbered realm
    → length (insert (length realm + 1) b realm) ≡ length realm + 1
length-grown realm b (bs, e) =
    rw (e, length-numbered 1 bs)
      (ap (λ (n : ℕ). length (insert n b (numbered 1 bs))) (omega arith)
        ∙ ap length (insert-numbered 1 bs b)
        ∙ length-numbered 1 (bs ++ (b ∷ []))
        ∙ length-append bs (b ∷ [])
        ∙ omega arith)

-- To create a realm that is there changes nothing.
pub opened_same :
    (rlm j : Bytes) (realms : Realms)
    → or_empty (lookup j (insert rlm (or_empty (lookup rlm realms)) realms))
      ≡ or_empty (lookup j realms)
opened_same rlm j realms = elim (Bool-cases (bytes_same rlm j)) [
  | inl e ↦
      realm-insert rlm j _ realms
      ∙ rw e (ap (λ (k : Bytes). or_empty (lookup k realms)) ((bytes_same_iff rlm j).0 e))
  | inr e ↦ realm-insert rlm j _ realms ∙ rw e refl
]

IsCounted-opened :
    (rlm : Bytes) (realms : Realms) (max_by : List (Bytes × ℕ))
    → IsCounted (record { realms = realms; max_by = max_by })
    → IsCounted
        (record { realms = insert rlm (or_empty (lookup rlm realms)) realms; max_by = max_by })
unfolding IsCounted
IsCounted-opened rlm realms max_by counted j = rw (opened_same rlm j realms) (counted j)

store_head-IsSound :
    (r : ValStat Done × Encoder) (bag : Bag) (seq : ℕ) (realms : Realms) (max_by : List (Bytes × ℕ))
    → seq ≡ length (or_empty (lookup bag.rlm realms)) + 1
    → IsLogged realms
    → IsCounted (record { realms = realms; max_by = max_by })
    → IsSound (
        store_head r bag seq (record {
          realms = insert bag.rlm (or_empty (lookup bag.rlm realms)) realms;
          max_by = insert bag.rlm seq max_by;
        }))
unfolding store_head
store_head-IsSound (ok _, enc) bag seq realms max_by e logged counted =
    let opened = insert bag.rlm (or_empty (lookup bag.rlm realms)) realms in
    let own = opened_same bag.rlm bag.rlm realms in
    let item : StoredBag = record { head_cph = result enc; body_cph = bag.body_cph } in
    (
      IsLogged-insert bag.rlm _ opened (rw (own, e) (grown _ item (logged bag.rlm)))
          (IsLogged-insert bag.rlm _ realms (logged bag.rlm) logged),
      IsCounted-after bag.rlm seq _ max_by opened
          (rw (own, e) (sym (length-grown _ item (logged bag.rlm))))
          (IsCounted-opened bag.rlm realms max_by counted),
    )
store_head-IsSound (err s, enc) bag seq realms max_by e logged counted =
    IsLogged-insert bag.rlm _ realms (logged bag.rlm) logged
store_head-IsSound (thrown, enc) bag seq realms max_by e logged counted =
    IsLogged-insert bag.rlm _ realms (logged bag.rlm) logged
store_head-IsSound (diverged, enc) bag seq realms max_by e logged counted =
    IsLogged-insert bag.rlm _ realms (logged bag.rlm) logged

set_bag-IsSound :
    (bag : Bag) (b : Batch) → IsLogged b.realms → IsCounted b → IsSound (set_bag bag b)
unfolding set_bag store_bag pure
set_bag-IsSound bag b logged counted = elim (Bool-cases (length bag.rlm == hash_bytes)) [
  | inl e ↦ rw e (
      store_head-IsSound _ bag _ b.realms b.max_by
        (ap (λ (n : ℕ). n + 1) (unfold IsCounted in counted bag.rlm)) logged counted)
  | inr e ↦ rw e (logged, counted)
]

set_each-IsSound :
    (bags : List Bag) (b : Batch) → IsLogged b.realms → IsCounted b → IsSound (set_each bags b)
unfolding set_each ◌>>=◌
set_each-IsSound [] b logged counted = (logged, counted)
set_each-IsSound (bag ∷ bags) b logged counted =
    IsSound-continue _ (set_bag bag b)
      (λ r b l c.
        IsSound-continue _ (set_each bags b) (λ rs b l c. (l, c)) (set_each-IsSound bags b l c))
      (set_bag-IsSound bag b logged counted)

IsSound-IsLogged : {A : Type 0} (r : ValStat A × Batch) → IsSound r → IsLogged r.1.realms
IsSound-IsLogged (ok x, b) (l, c) = l
IsSound-IsLogged (err s, b) l = l
IsSound-IsLogged (thrown, b) l = l
IsSound-IsLogged (diverged, b) l = l

IsLog-put :
    (key : Bytes) (realms : Realms) (s : Storage)
    → IsLogged realms
    → IsLog s
    → IsLog (record s { bag = insert key realms s.bag })
unfolding realm_of or_empty
IsLog-put key realms s logged log j rlm = elim (Bool-cases (bytes_same key j)) [
  | inl e ↦ rw (lookup-insert key j realms s.bag, e) (logged rlm)
  | inr e ↦ rw (lookup-insert key j realms s.bag, e) (log j rlm)
]

-- Where the seqs of each realm of each user are 1, 2, … in order and without a gap, they are so after
-- `setBags` too, whatever its outcome.
pub set_bags-IsLog :
    (pub_key : Bytes) (bags : List Bag) (s : Storage) → IsLog s → IsLog (set_bags pub_key bags s).1
unfolding set_bags put_back
set_bags-IsLog key [] s log = log
set_bags-IsLog key (bag ∷ bags) s log =
    let realms = or_empty (lookup key s.bag) in
    let logged : IsLogged realms = unfold realm_of in log key in
    IsLog-put key _ s
      (IsSound-IsLogged _ (set_each-IsSound (bag ∷ bags) _ logged (IsCounted-fresh realms logged)))
      log
