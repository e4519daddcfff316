-- ===== src/EntDb/Order.antt =====
-- `applyOp` of web/src/entdb/entdb.ts in terms of the two times.
use diplomatic.Base.{
  Bool-cases, List, Option, [], if◌then◌else◌, inl, inr, none, refl, some, ◌∷◌, ◌≡◌,
}
use diplomatic.Base.Int.{ℤ}
use diplomatic.Codec.{Date, invalid_date, time}
use diplomatic.EntDb.{
  EntRow, Op, apply_op, date_le, date_plus, decide_op, delete_op, head_of, is_obsolete, mutate_op,
  next_row, parsed_op, row_updated_at,
}
use diplomatic.Exec.{ValStat, diverged, err, ok, thrown}
use diplomatic.Wire.Eid.{EntityId}
use diplomatic.Wire.MessageHead.{parse_eid}

abbrev pub date_of : ValStat EntityId → ℤ → Date
date_of (ok id) off = date_plus id.ts off
date_of _ off = invalid_date

module _ {T : Type 0} where
  abbrev settle : Option (EntRow T) → ValStat (EntRow T) → Option (EntRow T)
  settle curr (ok row) = some row
  settle curr _ = curr

  -- The row after an operation: the new one, or the old one where the operation fails.
  unfoldable pub merge : Option (EntRow T) → Op T → Option (EntRow T)
  merge curr op = settle curr (apply_op curr op)

  -- The operations that a client applies to one entity, in the order in which they come.
  unfoldable pub merge_all : Option (EntRow T) → List (Op T) → Option (EntRow T)
  merge_all curr [] = curr
  merge_all curr (op ∷ ops) = merge_all (merge curr op) ops

  -- The time of an operation: the creation time in its eid, and `off` milliseconds.
  abbrev pub op_date : Op T → Date
  op_date op = date_of (parse_eid (head_of op).eid) (head_of op).off

  -- The eid can be parsed, and the time lies in the range of a `Date`.
  abbrev pub IsTimed : Op T → Type 0
  IsTimed op = (t : ℤ) × (op_date op ≡ time t)

  parsed_of : (op : Op T) → IsTimed op → (id : EntityId) × (parse_eid (head_of op).eid ≡ ok id)
  parsed_of op (t, e) = go (parse_eid (head_of op).eid) refl e
    where
      go :
          (r : ValStat EntityId)
          → parse_eid (head_of op).eid ≡ r
          → date_of r (head_of op).off ≡ time t
          → (id : EntityId) × (parse_eid (head_of op).eid ≡ ok id)
      go (ok id) p q = (id, p)
      go (err s) p q = cc
      go thrown p q = cc
      go diverged p q = cc

  next_row-time : (op : Op T) (id : EntityId) (d : Date) → row_updated_at (next_row op id d) ≡ d
  unfolding next_row
  next_row-time (delete_op h) id d = refl
  next_row-time (mutate_op h m) id d = refl

  -- A first operation makes a row with its time.
  pub merge_first :
      (op : Op T)
      → IsTimed op
      → (row : EntRow T) × (merge none op ≡ some row) × (row_updated_at row ≡ op_date op)
  unfolding merge apply_op is_obsolete
  merge_first op timed =
      let (id, p) = parsed_of op timed in
      let d = date_plus id.ts (head_of op).off in
      (next_row op id d, rw p refl, rw p (next_row-time op id d))

  decide-merge :
      (row : EntRow T) (op : Op T) (id : EntityId) (d : Date)
      → settle (some row) (decide_op (some row) op id d) ≡ (
          if date_le d (row_updated_at row) then some row else settle none (decide_op none op id d))
  unfolding decide_op is_obsolete
  decide-merge row op id d = elim (Bool-cases (date_le d (row_updated_at row))) [
    | inl e ↦ rw e refl
    | inr e ↦ rw e refl
  ]

  merge-parsed :
      (curr : Option (EntRow T)) (op : Op T) (id : EntityId)
      → parse_eid (head_of op).eid ≡ ok id
      → merge curr op ≡ settle curr (decide_op curr op id (date_plus id.ts (head_of op).off))
  unfolding merge apply_op parsed_op
  merge-parsed curr op id p = rw p refl

  -- A later operation replaces the row, and any other leaves it.
  pub merge_second :
      (row : EntRow T) (op : Op T)
      → IsTimed op
      → merge (some row) op
        ≡ (if date_le (op_date op) (row_updated_at row) then some row else merge none op)
  merge_second row op timed =
      let (id, p) = parsed_of op timed in
      rw (merge-parsed (some row) op id p, merge-parsed none op id p, p)
        (decide-merge row op id (date_plus id.ts (head_of op).off))

  pub merge-merge :
      (first op : Op T)
      → IsTimed first
      → IsTimed op
      → merge (merge none first) op
        ≡ (if date_le (op_date op) (op_date first) then merge none first else merge none op)
  merge-merge first op tf to =
      let (row, e, d) = merge_first first tf in rw (e, ← d) (merge_second row op to)
