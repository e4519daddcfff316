-- ===== src/Base/Sort.antt =====
-- `Array.prototype.sort` with a comparator: a stable sort.
-- `before x y` is the test that `x` may stay in front of `y`: the comparator's number is not positive.
use mathlib.Core.List.Perm
use diplomatic.Base.{
  All, Bool, Bool-cases, List, [], ap, arith, false, if◌then◌else◌, inl, inr, keep, refl, sym, true,
  ◌&&◌, ◌∙◌, ◌∷◌, ◌≡◌, ◌≢◌,
}
use mathlib.Core.List.{Mem, Perm, mem-cons, mem-cons_self, not-mem-nil}
use mathlib.Core.Logic.{∥∥₁_elim}
use mathlib.Core.Path.{ap₂, subst}

module _ {ℓ} {A : Type ℓ} (before : A → A → Bool) where
  unfoldable pub place : A → List A → List A
  place x [] = x ∷ []
  place x (y ∷ ys) = if before x y then x ∷ y ∷ ys else y ∷ place x ys

  unfoldable pub sort : List A → List A
  unfolding place
  sort [] = []
  sort (x ∷ xs) = place x (sort xs)

  place-Perm : (x : A) (xs : List A) → Perm (x ∷ xs) (place x xs)
  unfolding place
  place-Perm x [] = Perm.refl (x ∷ [])
  place-Perm x (y ∷ ys) = elim (Bool-cases (before x y)) [
    | inl e ↦ rw e (Perm.refl (x ∷ y ∷ ys))
    | inr e ↦ rw e (Perm.trans (Perm.swap y x ys) (Perm.cons y (place-Perm x ys)))
  ]

  pub sort-Perm : (xs : List A) → Perm xs (sort xs)
  unfolding sort
  sort-Perm [] = Perm.refl []
  sort-Perm (x ∷ xs) = Perm.trans (Perm.cons x (sort-Perm xs)) (place-Perm x (sort xs))

  -- Neither of the two has to stand in front of the other.
  abbrev pub ties : A → A → Bool
  ties x y = before x y && before y x

  -- Each element may stand in front of all that come behind it.
  abbrev pub Sorted : List A → Type ℓ
  Sorted [] = Unit {ℓ}
  Sorted (x ∷ xs) = All (λ y. before x y ≡ true) xs × Sorted xs

  -- The comparator is consistent on the elements that satisfy `P`.
  pub record IsOrder (P : A → Type 0) : Type ℓ where
    pub total : (x y : A) → P x → P y → before x y ≡ false → before y x ≡ true
    pub trans :
        (x y z : A) → P x → P y → P z → before x y ≡ true → before y z ≡ true → before x z ≡ true

  All-place {κ} : (Q : A → Type κ) (x : A) (xs : List A) → Q x → All Q xs → All Q (place x xs)
  unfolding place
  All-place Q x [] q h = (q, tt)
  All-place Q x (y ∷ ys) q h = elim (Bool-cases (before x y)) [
    | inl e ↦ rw e (q, h)
    | inr e ↦ rw e (h.0, All-place Q x ys q h.1)
  ]

  exchange :
      (x y : A) (s t : Bool) (xs : List A)
      → (s ≡ true → t ≢ true)
      → (if t then y ∷ (if s then x ∷ xs else xs) else (if s then x ∷ xs else xs))
        ≡ (if s then x ∷ (if t then y ∷ xs else xs) else (if t then y ∷ xs else xs))
  exchange x y true true xs h = absurd (h refl refl)
  exchange x y true false xs h = refl
  exchange x y false t xs h = refl

  pub All-sort {κ} : (Q : A → Type κ) (xs : List A) → All Q xs → All Q (sort xs)
  unfolding sort
  All-sort Q [] h = tt
  All-sort Q (x ∷ xs) h = All-place Q x (sort xs) h.0 (All-sort Q xs h.1)

  module _ {P : A → Type 0} (order : IsOrder P) where
    -- What may stand in front of `y` may stand in front of all that `y` may.
    All-trans :
        (x y : A) (ys : List A)
        → P x
        → P y
        → All P ys
        → before x y ≡ true
        → All (λ z. before y z ≡ true) ys
        → All (λ z. before x z ≡ true) ys
    All-trans x y [] px py ps e h = tt
    All-trans x y (z ∷ zs) px py ps e h =
        (order.trans x y z px py ps.0 e h.0, All-trans x y zs px py ps.1 e h.1)

    place-Sorted : (x : A) (xs : List A) → P x → All P xs → Sorted xs → Sorted (place x xs)
    unfolding place
    place-Sorted x [] px ps s = (tt, tt)
    place-Sorted x (y ∷ ys) px ps s = elim (Bool-cases (before x y)) [
      | inl e ↦ rw e ((e, All-trans x y ys px ps.0 ps.1 e s.0), s)
      | inr e ↦ rw e (
        All-place (λ z. before y z ≡ true) x ys (order.total x y px ps.0 e) s.0,
        place-Sorted x ys px ps.1 s.1,
      )
    ]

    pub sort-Sorted : (xs : List A) → All P xs → Sorted (sort xs)
    unfolding sort
    sort-Sorted [] h = tt
    sort-Sorted (x ∷ xs) h = place-Sorted x (sort xs) h.0 (All-sort P xs h.1) (sort-Sorted xs h.1)

    apart : (a x y : A) → P a → P x → P y → ties a x ≡ true → ties a y ≡ true → before x y ≢ false
    apart a x y pa px py f g e = ground (arith, order.trans x a y px pa py)

    place-keep :
        (a x : A) (xs : List A)
        → P a
        → P x
        → All P xs
        → keep (ties a) (place x xs) ≡ keep (ties a) (x ∷ xs)
    unfolding place
    place-keep a x [] pa px h = refl
    place-keep a x (y ∷ ys) pa px h = elim (Bool-cases (before x y)) [
      | inl e ↦ rw e refl
      | inr e ↦
          rw (e, place-keep a x ys pa px h.1)
            (exchange x y (ties a x) (ties a y) (keep (ties a) ys)
              (λ f g. apart a x y pa px h.0 f g e))
    ]

    -- Elements that tie keep the order in which they stood.
    pub sort-keep :
        (a : A) (xs : List A) → P a → All P xs → keep (ties a) (sort xs) ≡ keep (ties a) xs
    unfolding sort
    sort-keep a [] pa h = refl
    sort-keep a (x ∷ xs) pa h =
        place-keep a x (sort xs) pa h.0 (All-sort P xs h.1)
        ∙ ap (λ l. if ties a x then x ∷ l else l) (sort-keep a xs pa h.1)

-- A sorted list is determined by its elements, where elements that tie are equal.
module _ {A : Type 0} (before : A → A → Bool) (reflexive : (x : A) → before x x ≡ true)
    (antisym : (x y : A) → before x y ≡ true → before y x ≡ true → x ≡ y) where
  All-Mem : (x z : A) (xs : List A) → All (λ y. before x y ≡ true) xs → Mem z xs → before x z ≡ true
  All-Mem x z [] h m = absurd (not-mem-nil m)
  All-Mem x z (y ∷ ys) h m = ∥∥₁_elim (mem-cons.0 m) (hlevel) (λ d. elim d [
    | inl e ↦ subst (λ w. before x w ≡ true) (sym e) h.0
    | inr n ↦ All-Mem x z ys h.1 n
  ])

  first_before :
      (x z : A) (xs : List A) → All (λ y. before x y ≡ true) xs → Mem z (x ∷ xs) → before x z ≡ true
  first_before x z xs h m = All-Mem x z (x ∷ xs) (reflexive x, h) m

  pub Sorted-unique : (xs ys : List A) → Sorted before xs → Sorted before ys → Perm xs ys → xs ≡ ys
  Sorted-unique [] [] s t p = refl
  Sorted-unique [] (y ∷ ys) s t p = cc (Perm.eq-nil (Perm.symm p))
  Sorted-unique (x ∷ xs) [] s t p = cc (Perm.eq-nil p)
  Sorted-unique (x ∷ xs) (y ∷ ys) s t p =
      let e : x ≡ y =
        antisym x y (first_before x y xs s.0 ((Perm.mem_iff p).1 mem-cons_self))
          (first_before y x ys t.0 ((Perm.mem_iff p).0 mem-cons_self)) in
      ap₂ (λ a l. a ∷ l) e
        (Sorted-unique xs ys s.1 t.1
          (Perm.cons_inv (subst (λ a. Perm (x ∷ xs) (a ∷ ys)) (sym e) p)))
