-- ===== src/Base/Keyed.antt =====
-- JavaScript's `Map`: association lists in the order of insertion, with the keys' test as an instance.
use mathlib.Core.Path.{subst}
use diplomatic.Base.Tests.{◌==◌ as nat_eq}
use diplomatic.Base.{
  All, Bool-cases, inl, inr, sym, ==_iff, Bool, List, Option, [], arith, false, if◌then◌else◌, none,
  refl, some, true, ℕ, ◌&&◌, ◌↔◌, ◌∙◌, ◌∷◌, ◌≡◌,
}

pub record Key {ℓ} (K : Type ℓ) : Type ℓ where
  pub same : K → K → Bool
  pub same_iff : (a b : K) → (same a b ≡ true) ↔ (a ≡ b)

module _ {ℓ κ} {K : Type ℓ} {V : Type κ} ⦃k : Key K⦄ where
  -- `m.get(key)`
  unfoldable pub lookup : K → List (K × V) → Option V
  lookup key [] = none
  lookup key ((j, v) ∷ m) = if k.same j key then some v else lookup key m

  -- `m.set(key, value)`: an old entry keeps its place, a new one goes to the end.
  unfoldable pub insert : K → V → List (K × V) → List (K × V)
  insert key v [] = (key, v) ∷ []
  insert key v ((j, w) ∷ m) = if k.same j key then (j, v) ∷ m else (j, w) ∷ insert key v m

  -- `m.delete(key)`
  unfoldable pub erase : K → List (K × V) → List (K × V)
  erase key [] = []
  erase key ((j, w) ∷ m) = if k.same j key then m else (j, w) ∷ erase key m

  pub lookup-insert :
      (key j : K) (v : V) (m : List (K × V))
      → lookup j (insert key v m) ≡ (if k.same key j then some v else lookup j m)
  unfolding lookup insert
  lookup-insert key j v [] = refl
  lookup-insert key j v ((i, w) ∷ m) =
      ground (arith, k.same_iff key j, k.same_iff i key, k.same_iff i j, lookup-insert key j v m)

  pub lookup-insert_self :
      (key : K) (v : V) (m : List (K × V)) → lookup key (insert key v m) ≡ some v
  lookup-insert_self key v m = lookup-insert key key v m ∙ rw ((k.same_iff key key).1 refl)

-- Byte arrays by their contents, as their hex or base64 strings are equal.
unfoldable pub bytes_same : List ℕ → List ℕ → Bool
bytes_same [] [] = true
bytes_same [] (b ∷ bs) = false
bytes_same (a ∷ as') [] = false
bytes_same (a ∷ as') (b ∷ bs) = nat_eq a b && bytes_same as' bs

pub bytes_same_iff : (xs ys : List ℕ) → (bytes_same xs ys ≡ true) ↔ (xs ≡ ys)
unfolding bytes_same
bytes_same_iff [] [] = (λ e. refl, λ e. refl)
bytes_same_iff [] (b ∷ bs) = (λ e. cc, λ e. cc)
bytes_same_iff (a ∷ xs) [] = (λ e. cc, λ e. cc)
bytes_same_iff (a ∷ xs) (b ∷ bs) =
    let ih = bytes_same_iff xs bs in (λ e. ground (arith, ih), λ e. ground (arith, ih))

instance abbrev pub bytes_key : Key (List ℕ)
bytes_key = record { same = bytes_same; same_iff = bytes_same_iff }

instance abbrev pub nat_key : Key ℕ
nat_key = record { same = nat_eq; same_iff = ==_iff }

module _ {ℓ} {K : Type ℓ} ⦃k : Key K⦄ where
  same_sym : (i j : K) → k.same i j ≡ false → k.same j i ≡ false
  same_sym i j e = elim (Bool-cases (k.same j i)) [
    | inl f ↦ cc (e, (k.same_iff i j).1 (sym ((k.same_iff j i).0 f)))
    | inr f ↦ f
  ]

-- A map as its methods leave it: no key stands twice.
module _ {ℓ κ} {K : Type ℓ} {V : Type κ} ⦃k : Key K⦄ where
  abbrev pub Fresh : K → List (K × V) → Type 0
  Fresh key m = All (λ e. k.same e.0 key ≡ false) m

  abbrev pub IsMap : List (K × V) → Type 0
  IsMap [] = Unit {0}
  IsMap ((key, v) ∷ m) = Fresh key m × IsMap m

  Fresh-insert :
      (key j : K) (v : V) (m : List (K × V))
      → k.same j key ≡ false
      → Fresh key m
      → Fresh key (insert j v m)
  unfolding insert
  Fresh-insert key j v [] e h = (e, tt)
  Fresh-insert key j v ((i, w) ∷ m) e h = elim (Bool-cases (k.same i j)) [
    | inl f ↦ rw f (h.0, h.1)
    | inr f ↦ rw f (h.0, Fresh-insert key j v m e h.1)
  ]

  pub insert-IsMap : (j : K) (v : V) (m : List (K × V)) → IsMap m → IsMap (insert j v m)
  unfolding insert
  insert-IsMap j v [] h = (tt, tt)
  insert-IsMap j v ((i, w) ∷ m) h = elim (Bool-cases (k.same i j)) [
    | inl f ↦ rw f (h.0, h.1)
    | inr f ↦ rw f (Fresh-insert i j v m (same_sym i j f) h.0, insert-IsMap j v m h.1)
  ]

  lookup-Fresh : (key : K) (m : List (K × V)) → Fresh key m → lookup key m ≡ none
  unfolding lookup
  lookup-Fresh key [] h = refl
  lookup-Fresh key ((i, w) ∷ m) h = rw h.0 (lookup-Fresh key m h.1)

  apart :
      (i key j : K) (w : V) (m : List (K × V))
      → k.same i key ≡ false
      → (if k.same i j then some w else if k.same key j then none else lookup j m)
        ≡ (if k.same key j then none else if k.same i j then some w else lookup j m)
  apart i key j w m e = elim (Bool-cases (k.same i j)) [
    | inl f ↦
        rw (f, same_sym j key (subst (λ x. k.same x key ≡ false) ((k.same_iff i j).0 f) e)) refl
    | inr f ↦ rw f refl
  ]

  pub lookup-erase :
      (key j : K) (m : List (K × V))
      → IsMap m
      → lookup j (erase key m) ≡ (if k.same key j then none else lookup j m)
  unfolding lookup erase
  lookup-erase key j [] h = elim (Bool-cases (k.same key j)) [
    | inl e ↦ rw e refl
    | inr e ↦ rw e refl
  ]
  lookup-erase key j ((i, w) ∷ m) h = elim (Bool-cases (k.same i key)) [
    | inl e ↦
        rw (e, ← (k.same_iff i key).0 e)
          (elim (Bool-cases (k.same i j)) [
            | inl f ↦ rw f (lookup-Fresh j m (subst (λ x. Fresh x m) ((k.same_iff i j).0 f) h.0))
            | inr f ↦ rw f refl
          ])
    | inr e ↦ rw (e, lookup-erase key j m h.1) (apart i key j w m e)
  ]
