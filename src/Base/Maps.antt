-- ===== src/Base/Maps.antt =====
-- What holds of all entries of a map, and of the one that is found.
use diplomatic.Base.{
  All, Bool-cases, List, Option, [], false, inl, inr, none, refl, some, true, ◌∷◌, ◌≡◌,
}
use diplomatic.Base.Keyed.{Fresh, IsMap, Key, erase, insert, lookup}

-- What holds of a value that is there.
module _ {V : Type 0} where
  abbrev pub Holds : (V → Type 0) → Option V → Type 0
  Holds Q none = Unit {0}
  Holds Q (some v) = Q v

module _ {K V : Type 0} ⦃k : Key K⦄ (P : K × V → Type 0) where
  pub All-insert :
      (key : K) (v : V) (m : List (K × V))
      → ((j : K) → k.same j key ≡ true → P (j, v))
      → All P m
      → All P (insert key v m)
  unfolding insert
  All-insert key v [] p h = (p key ((k.same_iff key key).1 refl), tt)
  All-insert key v ((j, w) ∷ m) p h = elim (Bool-cases (k.same j key)) [
    | inl e ↦ rw e (p j e, h.1)
    | inr e ↦ rw e (h.0, All-insert key v m p h.1)
  ]

  pub All-erase : (key : K) (m : List (K × V)) → All P m → All P (erase key m)
  unfolding erase
  All-erase key [] h = tt
  All-erase key ((j, w) ∷ m) h = elim (Bool-cases (k.same j key)) [
    | inl e ↦ rw e h.1
    | inr e ↦ rw e (h.0, All-erase key m h.1)
  ]

module _ {K V : Type 0} ⦃k : Key K⦄ where
  Fresh-erase : (key j : K) (m : List (K × V)) → Fresh j m → Fresh j (erase key m)
  Fresh-erase key j m h = All-erase (λ e. k.same e.0 j ≡ false) key m h

  pub erase-IsMap : (key : K) (m : List (K × V)) → IsMap m → IsMap (erase key m)
  unfolding erase
  erase-IsMap key [] h = tt
  erase-IsMap key ((j, w) ∷ m) h = elim (Bool-cases (k.same j key)) [
    | inl e ↦ rw e h.1
    | inr e ↦ rw e (Fresh-erase key j m h.0, erase-IsMap key m h.1)
  ]

  pub lookup-Holds :
      (P : K × V → Type 0) (Q : V → Type 0) (key : K) (m : List (K × V))
      → ((j : K) (v : V) → k.same j key ≡ true → P (j, v) → Q v)
      → All P m
      → Holds Q (lookup key m)
  unfolding lookup
  lookup-Holds P Q key [] f h = tt
  lookup-Holds P Q key ((j, w) ∷ m) f h = elim (Bool-cases (k.same j key)) [
    | inl e ↦ rw e (f j w e h.0)
    | inr e ↦ rw e (lookup-Holds P Q key m f h.1)
  ]
