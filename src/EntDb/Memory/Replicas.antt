-- ===== src/EntDb/Memory/Replicas.antt =====
-- Two replicas of web/src/entdb/memory.ts that get the same operations.
use diplomatic.Base.{All, Bool-cases, List, [], ap, false, inl, inr, refl, sym, true, ◌∙◌, ◌∷◌, ◌≡◌}
use diplomatic.Base.Keyed.{bytes_key, bytes_same, bytes_same_iff, lookup}
use diplomatic.Codec.{Bytes}
use diplomatic.EntDb.{Op, head_of}
use diplomatic.EntDb.Converge.{In, SameOps, converges}
use diplomatic.EntDb.Memory.{apply, get_row, no_ents}
use diplomatic.EntDb.Memory.Rows.{apply_lem, ops_of}
use diplomatic.EntDb.Order.{IsTimed, op_date}
use diplomatic.Exec.{ok}
use mathlib.Core.Path.{subst}

module _ {T : Type 0} where
  abbrev IsOn : Bytes → List (Op T) → Op T → Type 0
  IsOn eid ops op = In op ops × ((head_of op).eid ≡ eid)

  In-kept :
      (op x : Op T) (eid : Bytes) (xs : List (Op T))
      → (head_of x).eid ≡ eid
      → (In op (ops_of eid xs) → IsOn eid xs op)
      → In op (x ∷ ops_of eid xs)
      → IsOn eid (x ∷ xs) op
  In-kept op x eid xs e ih (inl p) = (inl p, ap (λ (o : Op T). (head_of o).eid) p ∙ e)
  In-kept op x eid xs e ih (inr j) = let (k, f) = ih j in (inr k, f)

  ops_of-kept :
      (x : Op T) (eid : Bytes) (xs : List (Op T))
      → bytes_same (head_of x).eid eid ≡ true
      → ops_of eid (x ∷ xs) ≡ x ∷ ops_of eid xs
  unfolding ops_of
  ops_of-kept x eid xs b = rw b refl

  ops_of-dropped :
      (x : Op T) (eid : Bytes) (xs : List (Op T))
      → bytes_same (head_of x).eid eid ≡ false
      → ops_of eid (x ∷ xs) ≡ ops_of eid xs
  unfolding ops_of
  ops_of-dropped x eid xs b = rw b refl

  ops_of_sound :
      (op : Op T) (eid : Bytes) (ops : List (Op T)) → In op (ops_of eid ops) → IsOn eid ops op
  ops_of_sound op eid [] i = absurd (unfold ops_of in i)
  ops_of_sound op eid (x ∷ xs) i = elim (Bool-cases (bytes_same (head_of x).eid eid)) [
    | inl b ↦
        In-kept op x eid xs ((bytes_same_iff (head_of x).eid eid).0 b) (ops_of_sound op eid xs)
          (subst (λ (l : List (Op T)). In op l) (ops_of-kept x eid xs b) i)
    | inr b ↦
        let (k, f) =
          ops_of_sound op eid xs
            (subst (λ (l : List (Op T)). In op l) (ops_of-dropped x eid xs b) i) in
        (inr k, f)
  ]

  ops_of_complete :
      (op : Op T) (ops : List (Op T)) → In op ops → In op (ops_of (head_of op).eid ops)
  ops_of_complete op [] i = absurd i
  ops_of_complete op (x ∷ xs) (inl p) =
      let b =
        (bytes_same_iff (head_of x).eid (head_of op).eid).1
          (ap (λ (o : Op T). (head_of o).eid) (sym p)) in
      subst (λ (l : List (Op T)). In op l) (sym (ops_of-kept x _ xs b)) (inl p)
  ops_of_complete op (x ∷ xs) (inr i) =
      let j = ops_of_complete op xs i in
      elim (Bool-cases (bytes_same (head_of x).eid (head_of op).eid)) [
        | inl b ↦ subst (λ (l : List (Op T)). In op l) (sym (ops_of-kept x _ xs b)) (inr j)
        | inr b ↦ subst (λ (l : List (Op T)). In op l) (sym (ops_of-dropped x _ xs b)) j
      ]

  ops_of-IsTimed :
      (eid : Bytes) (ops : List (Op T)) → All IsTimed ops → All IsTimed (ops_of eid ops)
  ops_of-IsTimed eid [] h = unfold ops_of in tt
  ops_of-IsTimed eid (x ∷ xs) (t, h) = elim (Bool-cases (bytes_same (head_of x).eid eid)) [
    | inl b ↦
        subst (λ (l : List (Op T)). All IsTimed l) (sym (ops_of-kept x eid xs b))
          (t, ops_of-IsTimed eid xs h)
    | inr b ↦
        subst (λ (l : List (Op T)). All IsTimed l) (sym (ops_of-dropped x eid xs b))
          (ops_of-IsTimed eid xs h)
  ]

  ops_of-In :
      (op : Op T) (eid : Bytes) (ops ops' : List (Op T))
      → (In op ops → In op ops')
      → In op (ops_of eid ops)
      → In op (ops_of eid ops')
  ops_of-In op eid ops ops' go i =
      let (k, e) = ops_of_sound op eid ops i in
      subst (λ (b : Bytes). In op (ops_of b ops')) e (ops_of_complete op ops' (go k))

  -- No two operations on one entity have one time.
  abbrev pub IsDistinctByEid : List (Op T) → Type 0
  IsDistinctByEid ops =
      (a b : Op T)
      → In a ops
      → In b ops
      → (head_of a).eid ≡ (head_of b).eid
      → op_date a ≡ op_date b
      → a ≡ b

  -- Two replicas that start empty and apply the same operations, in any order and with any number of copies,
  -- hold the same row for each eid, where the eid of each operation can be parsed, its time is in range,
  -- and no two operations on one entity have one time.
  pub replicas_agree :
      (ops ops' : List (Op T)) (eid : Bytes)
      → All IsTimed ops
      → All IsTimed ops'
      → SameOps ops ops'
      → IsDistinctByEid ops
      → get_row eid (apply ops no_ents).1.ents ≡ get_row eid (apply ops' no_ents).1.ents
  unfolding get_row lookup
  replicas_agree ops ops' eid ts ts' same distinct =
      let left = (apply_lem ops no_ents).2 eid in
      let right = (apply_lem ops' no_ents).2 eid in
      let agree =
        converges (ops_of eid ops) (ops_of eid ops') (ops_of-IsTimed eid ops ts)
          (ops_of-IsTimed eid ops' ts')
          (λ op. (ops_of-In op eid ops ops' ((same op).0), ops_of-In op eid ops' ops ((same op).1)))
          (λ a b i j e.
            let (k, f) = ops_of_sound a eid ops i in
            let (l, g) = ops_of_sound b eid ops j in distinct a b k l (f ∙ sym g) e) in
      ap ok (left ∙ agree ∙ sym right)
