-- ===== src/EntDb/Converge.antt =====
-- The order in which the operations on one entity reach `applyOp` of web/src/entdb/entdb.ts.
use diplomatic.Base.{
  All, Bool-cases, List, Option, [], ap, arith, false, inl, inr, none, refl, sym, true, ◌∙◌, ◌∷◌,
  ◌≡◌, ◌⊎◌,
}
use diplomatic.Base.Int.{eq_of_parts, ℤ}
use diplomatic.Codec.{Date, invalid_date, time}
use diplomatic.EntDb.{EntRow, Op, date_le}
use diplomatic.EntDb.Order.{IsTimed, merge, merge-merge, merge_all, op_date}

date_le_refl : (d : Date) {t : ℤ} → d ≡ time t → date_le d d ≡ true
date_le_refl d e = rw e (ground arith)

date_le_total :
    (a b : Date) {s t : ℤ} → a ≡ time s → b ≡ time t → date_le a b ≡ false → date_le b a ≡ true
date_le_total (time a) (time b) ea eb h = ground arith
date_le_total (time a) invalid_date ea eb h = cc
date_le_total invalid_date b ea eb h = cc

date_le_trans : (a b c : Date) → date_le a b ≡ true → date_le b c ≡ true → date_le a c ≡ true
date_le_trans (time a) (time b) (time c) p q = ground arith
date_le_trans (time a) (time b) invalid_date p q = cc
date_le_trans (time a) invalid_date c p q = cc
date_le_trans invalid_date b c p q = cc

date_le_antisym : (a b : Date) → date_le a b ≡ true → date_le b a ≡ true → a ≡ b
date_le_antisym (time a) (time b) p q = ap time (eq_of_parts a b (ground arith))
date_le_antisym (time a) invalid_date p q = cc
date_le_antisym invalid_date b p q = cc

module _ {T : Type 0} where
  abbrev pub In : Op T → List (Op T) → Type 0
  In op [] = ⊥
  In op (x ∷ xs) = (op ≡ x) ⊎ In op xs

  -- The same operations, in any order and as often as one likes.
  abbrev pub SameOps : List (Op T) → List (Op T) → Type 0
  SameOps ops ops' = (op : Op T) → (In op ops → In op ops') × (In op ops' → In op ops)

  -- No two operations have one time.
  abbrev pub IsDistinct : List (Op T) → Type 0
  IsDistinct ops = (a b : Op T) → In a ops → In b ops → op_date a ≡ op_date b → a ≡ b

  -- `v` is an operation of the list, none is later, and its row is what the list leaves.
  record Winner (ops : List (Op T)) (final : Option (EntRow T)) : Type 0 where
    op : Op T
    among : In op ops
    latest : (o : Op T) → In o ops → date_le (op_date o) (op_date op) ≡ true
    wins : final ≡ merge none op

  latest_of :
      (o op x : Op T) (xs : List (Op T))
      → ((o : Op T) → In o xs → date_le (op_date o) (op_date op) ≡ true)
      → date_le (op_date x) (op_date op) ≡ true
      → In o (x ∷ xs)
      → date_le (op_date o) (op_date op) ≡ true
  latest_of o op x xs rest h (inl e) = rw e h
  latest_of o op x xs rest h (inr i) = rest o i

  keep_first :
      (first x : Op T) (xs : List (Op T)) {final : Option (EntRow T)}
      → date_le (op_date x) (op_date first) ≡ true
      → Winner (first ∷ xs) final
      → Winner (first ∷ x ∷ xs) final
  keep_first first x xs le w = record {
    op = w.op;
    among = elim w.among [ inl e ↦ inl e | inr i ↦ inr (inr i) ];
    latest = λ o i.
        latest_of o w.op first (x ∷ xs)
          (λ o i.
            latest_of o w.op x xs (λ o i. w.latest o (inr i))
              (date_le_trans (op_date x) (op_date first) (op_date w.op) le
                (w.latest first (inl refl)))
              i)
          (w.latest first (inl refl)) i;
    wins = w.wins;
  }

  take_second :
      (first x : Op T) (xs : List (Op T)) {final : Option (EntRow T)}
      → date_le (op_date first) (op_date x) ≡ true
      → Winner (x ∷ xs) final
      → Winner (first ∷ x ∷ xs) final
  take_second first x xs le w = record {
    op = w.op;
    among = inr w.among;
    latest = λ o i.
        latest_of o w.op first (x ∷ xs) w.latest
          (date_le_trans (op_date first) (op_date x) (op_date w.op) le (w.latest x (inl refl))) i;
    wins = w.wins;
  }

  merge_all-Winner :
      (first : Op T) (ops : List (Op T))
      → IsTimed first
      → All IsTimed ops
      → Winner (first ∷ ops) (merge_all (merge none first) ops)
  unfolding merge_all
  merge_all-Winner first [] (t, e) ts = record {
    op = first;
    among = inl refl;
    latest = λ o i. latest_of o first first [] (λ o i. absurd i) (date_le_refl (op_date first) e) i;
    wins = refl;
  }
  merge_all-Winner first (x ∷ xs) tf (tx, ts) =
      let keep = merge_all-Winner first xs tf ts in
      let change = merge_all-Winner x xs tx ts in
      elim (Bool-cases (date_le (op_date x) (op_date first))) [
        | inl le ↦ rw (merge-merge first x tf tx, le) (keep_first first x xs le keep)
        | inr gt ↦
            rw (merge-merge first x tf tx, gt)
              (take_second first x xs (date_le_total (op_date x) (op_date first) (tx.1) (tf.1) gt)
                change)
      ]

  finals_agree :
      (ops ops' : List (Op T)) {a b : Option (EntRow T)}
      → SameOps ops ops'
      → IsDistinct ops
      → Winner ops a
      → Winner ops' b
      → a ≡ b
  finals_agree ops ops' same distinct v w =
      let v-in = (same v.op).0 v.among in
      let w-in = (same w.op).1 w.among in
      let e =
        distinct v.op w.op v.among w-in (
          date_le_antisym (op_date v.op) (op_date w.op) (w.latest v.op v-in)
            (v.latest w.op w-in)) in
      v.wins ∙ ap (merge none) e ∙ sym w.wins

  -- Two lists that hold the same operations of one entity, in any order and with any number of
  -- copies, leave the same row, where the eid of each operation can be parsed, its time is in range,
  -- and no two operations have one time.
  pub converges :
      (ops ops' : List (Op T))
      → All IsTimed ops
      → All IsTimed ops'
      → SameOps ops ops'
      → IsDistinct ops
      → merge_all none ops ≡ merge_all none ops'
  unfolding merge_all
  converges [] [] ts ts' same distinct = refl
  converges [] (y ∷ ys) ts ts' same distinct = absurd ((same y).1 (inl refl))
  converges (x ∷ xs) [] ts ts' same distinct = absurd ((same x).0 (inl refl))
  converges (x ∷ xs) (y ∷ ys) (tx, ts) (ty, ts') same distinct =
      finals_agree (x ∷ xs) (y ∷ ys) same distinct (merge_all-Winner x xs tx ts)
        (merge_all-Winner y ys ty ts')

  -- Where two operations have one time, the row is that of the first to come, so that the two orders
  -- leave two rows wherever the operations alone do.
  pub ties :
      (a b : Op T)
      → IsTimed a
      → IsTimed b
      → op_date a ≡ op_date b
      → (merge_all none (a ∷ b ∷ []) ≡ merge none a) × (merge_all none (b ∷ a ∷ []) ≡ merge none b)
  unfolding merge_all
  ties a b ta tb e =
      let le = date_le_refl (op_date a) (ta.1) in
      (merge-merge a b ta tb ∙ rw (← e, le) refl, merge-merge b a tb ta ∙ rw (← e, le) refl)
