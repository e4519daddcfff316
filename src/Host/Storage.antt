-- ===== src/Host/Storage.antt =====
-- shared/storage/memory.ts: the users, and for each user and realm the bags by seq. Keys are the bytes
-- whose hex strings the source uses.
pub mod Log
pub mod Views
pub mod Results
pub mod Ends
use diplomatic.Base.Keyed.{bytes_key, nat_key}
use diplomatic.Base.{
  Bool, List, Option, [], false, if◌then◌else◌, length, ltb, none, some, ℕ, ◌++◌, ◌+◌, ◌==◌, ◌||◌,
  ◌∷◌,
}
use diplomatic.Base.Int.{leb_ℤ, ltb_ℤ, negsuc, pos, ℤ}
use diplomatic.Base.Keyed.{bytes_same, insert, lookup}
use diplomatic.Codec.{Bytes, Encoder, new_encoder, result}
use diplomatic.Consts.{Status, hash_bytes, invalid_param}
use diplomatic.Exec.{
  Done, Exec, ValStat, check, diverged, err, modify, ok, pure, query, thrown, ◌>>=◌, ◌>>◌,
}
use diplomatic.Wire.Bag.{Bag}
use diplomatic.Wire.PeekItem.{PeekItem}
use diplomatic.Wire.PeekItemHead.{PeekItemHead, peek_item_head_codec}
use diplomatic.Wire.PullItem.{PullItem}

pub record StoredBag : Type 0 where
  pub head_cph : Bytes
  pub body_cph : Bytes

-- `Map<number, …>`
abbrev pub Realm : Type 0
Realm = List (ℕ × StoredBag)

abbrev pub Realms : Type 0
Realms = List (Bytes × Realm)

pub record Storage : Type 0 where
  pub users : List Bytes
  pub bag : List (Bytes × Realms)

abbrev pub no_storage : Storage
no_storage = record { users = []; bag = [] }

-- `ISetBagResult`
pub data SetBagResult : Type 0 where
  stored_at : ℕ → SetBagResult
  refused : Status → SetBagResult

pub holds : Bytes → List Bytes → Bool
holds key [] = false
holds key (k ∷ keys) = bytes_same k key || holds key keys

unfoldable pub add_user : Bytes → Exec Storage Done
add_user pub_key =
    modify
      λ s. record s { users = if holds pub_key s.users then s.users else s.users ++ (pub_key ∷ []) }

unfoldable pub has_user : Bytes → Exec Storage Bool
has_user pub_key = query (λ s. ok (holds pub_key s.users))

unfoldable pub or_empty : {A : Type 0} → Option (List A) → List A
or_empty none = []
or_empty (some xs) = xs

-- `for (const seq of realm.keys()) if (seq > max) max = seq;`
max_from : ℕ → Realm → ℕ
max_from m [] = m
max_from m ((seq, b) ∷ realm) = max_from (if ltb m seq then seq else m) realm

-- What the loop of `setBags` changes: the user's realms, and the largest seq of each realm it has met.
pub record Batch : Type 0 where
  pub realms : Realms
  pub max_by : List (Bytes × ℕ)

pub known_max : Option ℕ → Realm → ℕ
known_max none realm = max_from 0 realm
known_max (some m) realm = m

-- The head as PEEK hands it out: signature, kdm and encrypted head in one.
abbrev pub head_of_bag : Bag → PeekItemHead
head_of_bag bag = record { sig = bag.sig; kdm = bag.kdm; head_cph = bag.head_cph }

store_head : ValStat Done × Encoder → Bag → ℕ → Exec Batch SetBagResult
store_head (ok _, enc) bag seq b = (
  ok (stored_at seq),
  record b {
    realms =
        insert bag.rlm
          (insert seq (record { head_cph = result enc; body_cph = bag.body_cph })
            (or_empty (lookup bag.rlm b.realms)))
          b.realms;
  },
)
store_head (err s, enc) bag seq b = (err s, b)
store_head (thrown, enc) bag seq b = (thrown, b)
store_head (diverged, enc) bag seq b = (diverged, b)

abbrev next_seq : Bag → Batch → ℕ
next_seq bag b = known_max (lookup bag.rlm b.max_by) (or_empty (lookup bag.rlm b.realms)) + 1

-- The realm is created, and its seq taken, before the head is encoded.
store_bag : Bag → Exec Batch SetBagResult
unfolding known_max max_from
store_bag bag b =
    store_head (peek_item_head_codec.encode (head_of_bag bag) new_encoder) bag (next_seq bag b)
      (record {
        realms = insert bag.rlm (or_empty (lookup bag.rlm b.realms)) b.realms;
        max_by = insert bag.rlm (next_seq bag b) b.max_by;
      })

pub set_bag : Bag → Exec Batch SetBagResult
set_bag bag = if length bag.rlm == hash_bytes then store_bag bag else pure (refused invalid_param)

pub set_each : List Bag → Exec Batch (List SetBagResult)
set_each [] = pure []
set_each (bag ∷ bags) = do r ← set_bag bag; rs ← set_each bags; pure (r ∷ rs)

-- The map of the user's realms is changed in place, also where the call fails.
put_back :
    Bytes → Storage → ValStat (List SetBagResult) × Batch → ValStat (List SetBagResult) × Storage
put_back pub_key s (r, b) = (r, record s { bag = insert pub_key b.realms s.bag })

pub set_bags : Bytes → List Bag → Exec Storage (List SetBagResult)
unfolding put_back
set_bags pub_key [] s = (ok [], s)
set_bags pub_key (bag ∷ bags) s =
    put_back pub_key s
      (set_each (bag ∷ bags) (record { realms = or_empty (lookup pub_key s.bag); max_by = [] }))

-- `this.bag.get(btoh(pubKey))?.get(btoh(rlm))`, and no bags where there is no realm.
unfoldable pub realm_of : Bytes → Bytes → Storage → Realm
realm_of pub_key rlm s = or_empty (lookup rlm (or_empty (lookup pub_key s.bag)))

-- `realm.get(seq)` where the seq came from a request.
get_seq : ℤ → Realm → Option StoredBag
get_seq (pos seq) realm = lookup seq realm
get_seq (negsuc n) realm = none

bodies : List ℤ → Realm → List PullItem
bodies [] realm = []
bodies (seq ∷ seqs) realm =
    let rest = bodies seqs realm in
    elim (get_seq seq realm) [
      | none ↦ rest
      | some b ↦ record { seq = seq; body_cph = b.body_cph } ∷ rest
    ]

unfoldable pub get_bodies : Bytes → Bytes → List ℤ → Exec Storage (List PullItem)
unfolding bodies get_seq
get_bodies pub_key rlm seqs = do
  check (length rlm == hash_bytes) invalid_param
  query (λ s. ok (bodies seqs (realm_of pub_key rlm s)))

heads : ℤ → Realm → List PeekItem
heads min_seq [] = []
heads min_seq ((seq, b) ∷ realm) =
    let rest = heads min_seq realm in
    if ltb_ℤ min_seq (pos seq) then record { seq = pos seq; head_cph = b.head_cph } ∷ rest else rest

-- `list.sort((a, b) => a.seq - b.seq)`, which keeps the order of equal seqs.
sorted_in : PeekItem → List PeekItem → List PeekItem
sorted_in x [] = x ∷ []
sorted_in x (y ∷ ys) =
    let rest = sorted_in x ys in if leb_ℤ x.seq y.seq then x ∷ y ∷ ys else y ∷ rest

sort_heads : List PeekItem → List PeekItem
sort_heads [] = []
sort_heads (x ∷ xs) = sorted_in x (sort_heads xs)

unfoldable pub list_heads : Bytes → Bytes → ℤ → Exec Storage (List PeekItem)
unfolding heads sort_heads sorted_in
list_heads pub_key rlm min_seq = do
  check (length rlm == hash_bytes) invalid_param
  query (λ s. ok (sort_heads (heads min_seq (realm_of pub_key rlm s))))
