-- ===== src/Client/Hlc/Laws.antt =====
-- The sorted heads of web/src/hlc.ts.
use diplomatic.Base.{
  All, Bool, List, Option, [], ap, arith, false, if◌then◌else◌, inl, inr, keep, none, refl, some,
  sym, true, ◌↔◌, ◌∷◌, ◌≡◌, ◌⊎◌,
}
use diplomatic.Base.Int.{
  ==ℤ_iff, eq_of_parts, leb_ℤ, neg_part, pos, pos_part, ℤ, ◌-ℤ◌, ◌<ℤ◌, ◌==ℤ◌, ◌≤ℤ◌, -ℤ_parts,
}
use diplomatic.Base.Sort.{All-sort, IsOrder, Sorted, sort-Perm, sort-Sorted, sort-keep, ties}
use diplomatic.Client.Hlc.{
  HlcHead, Number, compare_head_hlc_desc, compare_numbers, compare_times, finite,
  head_updated_at_ms, in_front, nan, sort_by_hlc_desc, stays,
}
use mathlib.Core.List.{Perm}

-- The time of an eid that can be parsed is in the range of a `Date`.
abbrev pub HasTime : Option Number → Type 0
HasTime (some nan) = ⊥
HasTime _ = Unit {0}

-- The first head is newer, or as new with no smaller counter; heads without a time are last.
abbrev Precedes : Option Number → Option Number → ℤ → ℤ → Type 0
Precedes _ none ca cb = Unit {0}
Precedes none (some t) ca cb = ⊥
Precedes (some (finite ta)) (some (finite tb)) ca cb = (tb <ℤ ta) ⊎ ((ta ≡ tb) × (cb ≤ℤ ca))
Precedes (some _) (some _) ca cb = ⊥

abbrev pub IsNewer : HlcHead → HlcHead → Type 0
IsNewer a b = Precedes (head_updated_at_ms a) (head_updated_at_ms b) a.ctr b.ctr

diff_iff : (a b : ℤ) → (leb_ℤ (a -ℤ b) (pos 0) ≡ true) ↔ (a ≤ℤ b)
diff_iff a b = let parts = -ℤ_parts a b in (λ e. ground arith, λ e. ground arith)

at_once : (a b : ℤ) (P : Type 0) → a ≡ b → (b <ℤ a) ⊎ ((a ≡ b) × P) → P
at_once a b P e (inl l) = absurd (omega (arith, l, ap pos_part e, ap neg_part e))
at_once a b P e (inr p) = p.1

at_most : (a b : ℤ) (P : Type 0) → (b <ℤ a) ⊎ ((a ≡ b) × P) → b ≤ℤ a
at_most a b P (inl l) = omega (arith, l)
at_most a b P (inr p) = omega (arith, ap pos_part p.0, ap neg_part p.0)

stays_iff :
    (ta tb : Option Number) (ca cb : ℤ)
    → HasTime ta
    → HasTime tb
    → (stays (compare_times ta tb ca cb) ≡ true) ↔ Precedes ta tb ca cb
unfolding compare_times compare_numbers stays
stays_iff none none ca cb h k = (λ e. tt, λ e. refl)
stays_iff (some t) none ca cb h k = (λ e. tt, λ e. refl)
stays_iff none (some t) ca cb h k = (λ e. cc, λ e. absurd e)
stays_iff (some (finite ta)) (some (finite tb)) ca cb h k = go (tb ==ℤ ta) refl
  where
    go :
        (t : Bool)
        → (tb ==ℤ ta) ≡ t
        → (stays (if tb ==ℤ ta then finite (cb -ℤ ca) else finite (tb -ℤ ta)) ≡ true)
          ↔ ((tb <ℤ ta) ⊎ ((ta ≡ tb) × (cb ≤ℤ ca)))
    go true e =
        let same : ta ≡ tb = sym ((==ℤ_iff tb ta).0 e) in
        let counters = diff_iff cb ca in
        rw e (λ l. inr (same, counters.0 l), λ p. counters.1 (at_once ta tb (cb ≤ℤ ca) same p))
    go false e =
        let times = diff_iff tb ta in
        rw e (λ l. inl (ground (arith, times.0 l)), λ p. times.1 (at_most ta tb (cb ≤ℤ ca) p))
stays_iff (some nan) tb ca cb h k = absurd h
stays_iff (some (finite t)) (some nan) ca cb h k = absurd k

Precedes-total :
    (ta tb : Option Number) (ca cb : ℤ)
    → HasTime ta
    → HasTime tb
    → Precedes ta tb ca cb ⊎ Precedes tb ta cb ca
Precedes-total ta none ca cb h k = inl tt
Precedes-total none (some t) ca cb h k = inr tt
Precedes-total (some (finite a)) (some (finite b)) ca cb h k =
    ground (arith, eq_of_parts a b, eq_of_parts b a)
Precedes-total (some nan) (some t) ca cb h k = absurd h
Precedes-total (some (finite a)) (some nan) ca cb h k = absurd k

Precedes-trans :
    (ta tb tc : Option Number) (ca cb cd : ℤ)
    → Precedes ta tb ca cb
    → Precedes tb tc cb cd
    → Precedes ta tc ca cd
Precedes-trans ta tb none ca cb cd p q = tt
Precedes-trans (some (finite a)) (some (finite b)) (some (finite c)) ca cb cd p q =
    ground (arith, eq_of_parts a c)
Precedes-trans none (some t) (some u) ca cb cd p q = absurd p
Precedes-trans ta none (some u) ca cb cd p q = absurd q
Precedes-trans (some nan) (some t) (some u) ca cb cd p q = absurd p
Precedes-trans (some (finite a)) (some nan) (some u) ca cb cd p q = absurd p
Precedes-trans (some (finite a)) (some (finite b)) (some nan) ca cb cd p q = absurd q

module _ {T : Type 0} (head_of : T → HlcHead) where
  -- The entity id's time, where it can be parsed, is a valid date.
  abbrev pub IsDated : T → Type 0
  IsDated x = HasTime (head_updated_at_ms (head_of x))

  in_front_iff :
      (x y : T)
      → IsDated x
      → IsDated y
      → (in_front head_of x y ≡ true) ↔ IsNewer (head_of x) (head_of y)
  unfolding in_front compare_head_hlc_desc
  in_front_iff x y h k =
      stays_iff (head_updated_at_ms (head_of x)) (head_updated_at_ms (head_of y)) (head_of x).ctr
        (head_of y).ctr h k

  in_front-IsOrder : IsOrder (in_front head_of) IsDated
  in_front-IsOrder = record {
    total = λ x y px py e. elim (Precedes-total _ _ (head_of x).ctr (head_of y).ctr px py) [
      | inl l ↦ cc ((in_front_iff x y px py).1 l)
      | inr r ↦ (in_front_iff y x py px).1 r
    ];
    trans = λ x y z px py pz e f. (in_front_iff x z px pz).1 (
        Precedes-trans _ (head_updated_at_ms (head_of y)) _ _ (head_of y).ctr _
          ((in_front_iff x y px py).0 e) ((in_front_iff y z py pz).0 f));
  }

  -- Newest first: each is newer than all that come behind it.
  abbrev pub NewestFirst : List T → Type 0
  NewestFirst [] = Unit {0}
  NewestFirst (x ∷ xs) = All (λ y. IsNewer (head_of x) (head_of y)) xs × NewestFirst xs

  each_behind :
      (x : T) (xs : List T)
      → IsDated x
      → All IsDated xs
      → All (λ y. in_front head_of x y ≡ true) xs
      → All (λ y. IsNewer (head_of x) (head_of y)) xs
  each_behind x [] px h s = tt
  each_behind x (y ∷ ys) px h s = ((in_front_iff x y px h.0).0 s.0, each_behind x ys px h.1 s.1)

  newest_first : (xs : List T) → All IsDated xs → Sorted (in_front head_of) xs → NewestFirst xs
  newest_first [] h s = tt
  newest_first (x ∷ xs) h s = (each_behind x xs h.0 h.1 s.0, newest_first xs h.1 s.1)

  -- Where every eid that can be parsed has a valid date, also that of `x`, sorting keeps the items,
  -- the newest comes first, by the sum of time and offset as a double and then by the counter, and the
  -- items that tie with `x` keep their order.
  pub sort_by_hlc_desc_lem :
      (x : T) (items : List T)
      → IsDated x
      → All IsDated items
      → Perm items (sort_by_hlc_desc head_of items)
        × NewestFirst (sort_by_hlc_desc head_of items)
        × (keep (ties (in_front head_of) x) (sort_by_hlc_desc head_of items)
            ≡ keep (ties (in_front head_of) x) items)
  unfolding sort_by_hlc_desc
  sort_by_hlc_desc_lem x items px h = (
    sort-Perm (in_front head_of) items,
    newest_first _ (All-sort (in_front head_of) IsDated items h)
        (sort-Sorted (in_front head_of) in_front-IsOrder items h),
    sort-keep (in_front head_of) in_front-IsOrder x items px h,
  )
