-- ===== src/Checksum/Sets.antt =====
-- What the checksum of shared/checksum.ts depends on.
use mathlib.Core.List.Perm
use diplomatic.Base.{
  All, Bool-cases, List, [], ap, arith, concat, drop, drop-append, inl, inr, length, length-append,
  map, refl, sym, take, take-append, true, ℕ, ◌↔◌, ◌∙◌, ◌∷◌, ◌≡◌, ◌≤◌,
}
use diplomatic.Base.Sort.{All-sort, Sorted-unique, sort, sort-Perm, sort-Sorted}
use diplomatic.Checksum.{
  EntRev, checksum_ent_revs, checksum_set, encode_ent_rev, encode_ent_revs, in_order, preimage,
}
use diplomatic.Checksum.Order.{Always, in_order-IsOrder, in_order-antisym}
use diplomatic.Codec.{Bytes}
use diplomatic.Exec.{ValStat, ok}
use mathlib.Core.List.{Perm}
use mathlib.Core.Path.{ap₂, subst}

reflexive : (a : Bytes) → in_order a a ≡ true
reflexive a = elim (Bool-cases (in_order a a)) [
  | inl e ↦ e
  | inr e ↦ in_order-IsOrder.total a a tt tt e
]

always : (items : List Bytes) → All Always items
always [] = tt
always (a ∷ items) = (tt, always items)

sort-Perm_eq :
    (items others : List Bytes) → Perm items others → sort in_order items ≡ sort in_order others
sort-Perm_eq items others p =
    Sorted-unique in_order reflexive in_order-antisym (sort in_order items) (sort in_order others)
      (sort-Sorted in_order in_order-IsOrder items (always items))
      (sort-Sorted in_order in_order-IsOrder others (always others))
      (Perm.trans (Perm.symm (sort-Perm in_order items)) (Perm.trans p (sort-Perm in_order others)))

-- Chunks of one length, not 0, can be told apart in their concatenation.
concat_injective :
    (n : ℕ) (xss yss : List Bytes)
    → 1 ≤ n
    → All (λ xs. length xs ≡ n) xss
    → All (λ xs. length xs ≡ n) yss
    → concat xss ≡ concat yss
    → xss ≡ yss
concat_injective n [] [] l h k e = refl
concat_injective n [] (ys ∷ yss) l h k e =
    absurd (omega (arith, l, k.0, length-append ys (concat yss), ap length e))
concat_injective n (xs ∷ xss) [] l h k e =
    absurd (omega (arith, l, h.0, length-append xs (concat xss), ap length e))
concat_injective n (xs ∷ xss) (ys ∷ yss) l h k e =
    ap₂ (λ a as'. a ∷ as')
      (sym (take-append xs (concat xss)) ∙ ap₂ take (h.0 ∙ sym k.0) e ∙ take-append ys (concat yss))
      (concat_injective n xss yss l h.1 k.1 (
        sym (drop-append xs (concat xss))
        ∙ ap₂ drop (h.0 ∙ sym k.0) e
        ∙ drop-append ys (concat yss)))

-- Two sets of records of one length, not 0, have the same preimage exactly where they hold the same
-- records as often, in any order.
pub preimage_iff :
    (n : ℕ) (items others : List Bytes)
    → 1 ≤ n
    → All (λ a. length a ≡ n) items
    → All (λ a. length a ≡ n) others
    → (preimage items ≡ preimage others) ↔ Perm items others
unfolding preimage
preimage_iff n items others l h k = (
  λ e.
      let same =
        concat_injective n (sort in_order items) (sort in_order others) l
          (All-sort in_order (λ a. length a ≡ n) items h)
          (All-sort in_order (λ a. length a ≡ n) others k) e in
      Perm.trans (sort-Perm in_order items)
        (subst (λ m. Perm m others) (sym same) (Perm.symm (sort-Perm in_order others))),
  λ p. ap concat (sort-Perm_eq items others p),
)

-- The revision can be encoded.
abbrev IsEncoded : EntRev → Type 0
IsEncoded rev = (rec : Bytes) × (encode_ent_rev rev ≡ ok rec)

abbrev recorded : ValStat Bytes → Bytes
recorded (ok rec) = rec
recorded _ = []

encode_ent_revs-map :
    (revs : List EntRev)
    → All IsEncoded revs
    → encode_ent_revs revs ≡ ok (map (λ rev. recorded (encode_ent_rev rev)) revs)
unfolding encode_ent_revs
encode_ent_revs-map [] h = refl
encode_ent_revs-map (rev ∷ revs) h = rw (h.0.1, encode_ent_revs-map revs h.1) refl

-- The checksum of revisions that can be encoded does not depend on their order.
pub checksum_ent_revs_lem :
    (blake3 : Bytes → Bytes) (revs others : List EntRev)
    → All IsEncoded revs
    → All IsEncoded others
    → Perm revs others
    → checksum_ent_revs blake3 revs ≡ checksum_ent_revs blake3 others
unfolding checksum_ent_revs checksum_set preimage
checksum_ent_revs_lem blake3 revs others h k p =
    rw (encode_ent_revs-map revs h, encode_ent_revs-map others k)
      (ap (λ items. ok (blake3 (concat items)))
        (sort-Perm_eq _ _ (Perm.map (λ rev. recorded (encode_ent_rev rev)) p)))
