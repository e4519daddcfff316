-- ===== src/Stores/Msgs/Last.antt =====
-- The message that `last` of web/src/stores/memory/msgs.ts finds.
use diplomatic.Base.{
  All, Bool, Bool-cases, Option, [], ap, arith, false, inl, inr, none, refl, some, sym, true, ◌&&◌,
  ◌||◌, ◌∙◌, ◌∷◌, ◌≡◌, ◌⊎◌,
}
use diplomatic.Base.Int.{ltb_ℤ, ℤ, ◌<ℤ◌, ◌==ℤ◌, ◌≤ℤ◌}
use diplomatic.Base.Keyed.{bytes_key, bytes_same, bytes_same_iff}
use diplomatic.Codec.{Bytes}
use diplomatic.Stores.Msgs.{
  MessageStore, StoredData, StoredMessage, is_later, last_from, last_message, last_shown, or_zero,
  replaces, to_stored_message,
}
use mathlib.Core.List.{Mem, mem-cons_of_mem, mem-cons_self}
use mathlib.Core.Option.{some-injective}
use mathlib.Core.Path.{subst}

abbrev after : ℤ → ℤ → ℤ → ℤ → Bool
after ca oa cb ob = ltb_ℤ cb ca || ((ca ==ℤ cb) && ltb_ℤ ob oa)

after_trans :
    (ca oa cb ob cd oc : ℤ)
    → after ca oa cb ob ≡ false
    → after cb ob cd oc ≡ false
    → after ca oa cd oc ≡ false
after_trans ca oa cb ob cd oc p q = ground arith

after_asym : (ca oa cb ob : ℤ) → after ca oa cb ob ≡ true → after cb ob ca oa ≡ false
after_asym ca oa cb ob p = ground arith

is_later_trans :
    (a b c : StoredData) → is_later a b ≡ false → is_later b c ≡ false → is_later a c ≡ false
unfolding is_later
is_later_trans a b c p q =
    after_trans (or_zero a.ctr) (or_zero a.off) (or_zero b.ctr) (or_zero b.off) (or_zero c.ctr)
      (or_zero c.off) p q

is_later_asym : (a b : StoredData) → is_later a b ≡ true → is_later b a ≡ false
unfolding is_later
is_later_asym a b p = after_asym (or_zero a.ctr) (or_zero a.off) (or_zero b.ctr) (or_zero b.off) p

is_later_irrefl : (a : StoredData) → is_later a a ≡ false
unfolding is_later
is_later_irrefl a = ground arith

-- The entry is there, and no later than what was found.
abbrev Within : Option (Bytes × StoredData) → StoredData → Type 0
Within none row = ⊥
Within (some found) row = is_later row found.1 ≡ false

abbrev WithinOption : Option (Bytes × StoredData) → Option (Bytes × StoredData) → Type 0
WithinOption r none = Unit {0}
WithinOption r (some latest) = Within r latest.1

-- What was found is an entry of the map about the entity, or was there before.
abbrev Found :
    Bytes → MessageStore → Option (Bytes × StoredData) → Option (Bytes × StoredData) → Type 0
Found eid m latest none = latest ≡ none
Found eid m latest (some r) = (latest ≡ some r) ⊎ (Mem r m × (eid ≡ r.1.eid))

Found-more :
    (eid : Bytes) (e : Bytes × StoredData) (m : MessageStore)
    (latest r : Option (Bytes × StoredData))
    → Found eid m latest r
    → Found eid (e ∷ m) latest r
Found-more eid e m latest none h = h
Found-more eid e m latest (some r) (inl h) = inl h
Found-more eid e m latest (some r) (inr h) = inr (mem-cons_of_mem e h.0, h.1)

record IsFound (eid : Bytes) (m : MessageStore) (latest r : Option (Bytes × StoredData))
    : Type 0 where
  all : All (λ e. bytes_same eid e.1.eid ≡ true → Within r e.1) m
  old : WithinOption r latest
  found : Found eid m latest r

Found-new :
    (eid key : Bytes) (row : StoredData) (m : MessageStore) (latest r : Option (Bytes × StoredData))
    → bytes_same eid row.eid ≡ true
    → Found eid m (some (key, row)) r
    → Found eid ((key, row) ∷ m) latest r
Found-new eid key row m latest none e h = cc
Found-new eid key row m latest (some r) e (inl h) = inr (
  subst (λ x. Mem x ((key, row) ∷ m)) (some-injective _ _ h) mem-cons_self,
  ((bytes_same_iff eid row.eid).0 e
      ∙ ap (λ (x : Bytes × StoredData). x.1.eid) (some-injective _ _ h)),
)
Found-new eid key row m latest (some r) e (inr h) = inr (mem-cons_of_mem _ h.0, h.1)

replaced :
    (row : StoredData) (latest r : Option (Bytes × StoredData))
    → replaces row latest ≡ true
    → Within r row
    → WithinOption r latest
unfolding replaces
replaced row none r e w = tt
replaced row (some latest) none e w = w
replaced row (some latest) (some r) e w =
    is_later_trans latest.1 row r.1 (is_later_asym row latest.1 e) w

stayed :
    (row : StoredData) (latest r : Option (Bytes × StoredData))
    → replaces row latest ≡ false
    → WithinOption r latest
    → Within r row
unfolding replaces
stayed row none r e w = cc
stayed row (some latest) none e w = w
stayed row (some latest) (some r) e w = is_later_trans row latest.1 r.1 e w

last_from-IsFound :
    (eid : Bytes) (m : MessageStore) (latest : Option (Bytes × StoredData))
    → IsFound eid m latest (last_from eid m latest)
unfolding last_from
last_from-IsFound eid [] latest = record { all = tt; old = self latest; found = here latest }
  where
    self : (r : Option (Bytes × StoredData)) → WithinOption r r
    self none = tt
    self (some r) = is_later_irrefl r.1

    here : (r : Option (Bytes × StoredData)) → Found eid [] r r
    here none = refl
    here (some r) = inl refl
last_from-IsFound eid ((key, row) ∷ m) latest =
    let old = last_from-IsFound eid m latest in
    let new = last_from-IsFound eid m (some (key, row)) in
    elim (Bool-cases (bytes_same eid row.eid)) [
      | inl e ↦ rw e (elim (Bool-cases (replaces row latest)) [
        | inl f ↦ rw f (record {
          all = (λ q. new.old, new.all);
          old = replaced row latest _ f new.old;
          found = Found-new eid key row m latest _ e new.found;
        })
        | inr f ↦ rw f (record {
          all = (λ q. stayed row latest _ f old.old, old.all);
          old = old.old;
          found = Found-more eid (key, row) m latest _ old.found;
        })
      ])
      | inr e ↦ rw e (record {
        all = (λ q. cc, old.all);
        old = old.old;
        found = Found-more eid (key, row) m latest _ old.found;
      })
    ]

-- A lower counter, or the same one and no higher offset.
abbrev pub NoLater : StoredData → StoredData → Type 0
NoLater a b =
    (or_zero a.ctr <ℤ or_zero b.ctr)
    ⊎ ((or_zero a.ctr ≡ or_zero b.ctr) × (or_zero a.off ≤ℤ or_zero b.off))

no_later_ℤ : (ca oa cb ob : ℤ) → after ca oa cb ob ≡ false → (ca <ℤ cb) ⊎ ((ca ≡ cb) × (oa ≤ℤ ob))
no_later_ℤ ca oa cb ob p = ground arith

is_later-NoLater : (a b : StoredData) → is_later a b ≡ false → NoLater a b
unfolding is_later
is_later-NoLater a b p =
    no_later_ℤ (or_zero a.ctr) (or_zero a.off) (or_zero b.ctr) (or_zero b.off) p

-- The answer of `last`.
pub data IsLast (blake3 : Bytes → Bytes) (eid : Bytes) (m : MessageStore)
    : Option StoredMessage → Type 0 where
  unknown : All (λ e. bytes_same eid e.1.eid ≡ false) m → IsLast blake3 eid m none
  newest :
      (key : Bytes) (row : StoredData)
      → Mem (key, row) m
      → row.eid ≡ eid
      → All (λ e. bytes_same eid e.1.eid ≡ true → NoLater e.1 row) m
      → IsLast blake3 eid m (some (to_stored_message blake3 true key row))

nothing_within :
    (eid : Bytes) (m : MessageStore)
    → All (λ e. bytes_same eid e.1.eid ≡ true → ⊥) m
    → All (λ e. bytes_same eid e.1.eid ≡ false) m
nothing_within eid [] h = tt
nothing_within eid ((key, row) ∷ m) h = (
  elim (Bool-cases (bytes_same eid row.eid)) [ inl e ↦ absurd (h.0 e) | inr e ↦ e ],
  nothing_within eid m h.1,
)

no_later :
    (eid : Bytes) (row : StoredData) (m : MessageStore)
    → All (λ e. bytes_same eid e.1.eid ≡ true → is_later e.1 row ≡ false) m
    → All (λ e. bytes_same eid e.1.eid ≡ true → NoLater e.1 row) m
no_later eid row [] h = tt
no_later eid row (e ∷ m) h = (λ q. is_later-NoLater e.1 row (h.0 q), no_later eid row m h.1)

-- `last` finds no message only where the store has none about the entity; and otherwise one of
-- them, such that none of them has a higher counter, or the same one and a higher offset.
pub last_message_lem :
    (blake3 : Bytes → Bytes) (eid : Bytes) (m : MessageStore)
    → IsLast blake3 eid m (last_message blake3 eid m)
unfolding last_message last_shown
last_message_lem blake3 eid m = go (last_from eid m none) (last_from-IsFound eid m none)
  where
    go :
        (r : Option (Bytes × StoredData))
        → IsFound eid m none r
        → IsLast blake3 eid m (last_shown blake3 r)
    go none h = unknown (nothing_within eid m h.all)
    go (some (key, row)) h = elim h.found [
      | inl e ↦ cc
      | inr e ↦ newest key row e.0 (sym e.1) (no_later eid row m h.all)
    ]
