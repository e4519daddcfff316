-- ===== src/EntDb/Memory/Rows.antt =====
-- The rows of web/src/entdb/memory.ts after a list of operations, eid by eid.
use diplomatic.Base.{
  Bool-cases, List, Option, [], ap, arith, if◌then◌else◌, inl, inr, length, length-append, refl,
  sym, ◌+◌, ◌∙◌, ◌∷◌, ◌≡◌, ◌≢◌,
}
use diplomatic.Base.Keyed.{bytes_key, bytes_same, bytes_same_iff, lookup, lookup-insert}
use diplomatic.Codec.{Bytes, Date}
use diplomatic.Consts.{success}
use diplomatic.EntDb.{
  EntRow, Op, apply_op, decide_op, delete_op, head_of, is_obsolete, mutate_op, next_row, parsed_op,
}
use diplomatic.EntDb.Memory.{Run, apply, apply_each, apply_one, eid_of, note, put}
use diplomatic.EntDb.Order.{merge, merge_all}
use diplomatic.Exec.{Done, ValStat, continue, diverged, err, ok, thrown, ◌>>=◌}
use diplomatic.Wire.Eid.{EntityId}
use diplomatic.Wire.MessageHead.{parse_eid_settles}

module _ {T : Type 0} where
  -- The operations of a list that are on one entity.
  unfoldable pub ops_of : Bytes → List (Op T) → List (Op T)
  ops_of eid [] = []
  ops_of eid (op ∷ ops) =
      let rest = ops_of eid ops in if bytes_same (head_of op).eid eid then op ∷ rest else rest

  next_row-eid :
      (op : Op T) (id : EntityId) (t : Date) → eid_of (next_row op id t) ≡ (head_of op).eid
  unfolding next_row
  next_row-eid (delete_op h) id t = refl
  next_row-eid (mutate_op h m) id t = refl

  -- A row that an operation leaves has the operation's eid, and there is no third outcome.
  record Settled (op : Op T) (r : ValStat (EntRow T)) : Type 0 where
    calm : r ≢ thrown
    ends : r ≢ diverged
    keyed : (row : EntRow T) → r ≡ ok row → eid_of row ≡ (head_of op).eid

  decide_op-Settled :
      (curr : Option (EntRow T)) (op : Op T) (id : EntityId) (t : Date)
      → Settled op (decide_op curr op id t)
  unfolding decide_op
  decide_op-Settled curr op id t = elim (Bool-cases (is_obsolete curr t)) [
    | inl e ↦ rw e (record { calm = λ f. cc; ends = λ f. cc; keyed = λ row f. cc })
    | inr e ↦ rw e (record {
      calm = λ f. cc;
      ends = λ f. cc;
      keyed = λ row f.
          let same : next_row op id t ≡ row = cc in ap eid_of (sym same) ∙ next_row-eid op id t;
    })
  ]

  parsed_op-Settled :
      (curr : Option (EntRow T)) (op : Op T) (r : ValStat EntityId)
      → r ≢ thrown
      → r ≢ diverged
      → Settled op (parsed_op curr op r)
  unfolding parsed_op
  parsed_op-Settled curr op (ok id) c d = decide_op-Settled curr op id _
  parsed_op-Settled curr op (err s) c d = record {
    calm = λ f. cc;
    ends = λ f. cc;
    keyed = λ row f. cc;
  }
  parsed_op-Settled curr op thrown c d = absurd (c refl)
  parsed_op-Settled curr op diverged c d = absurd (d refl)

  apply_op-Settled : (curr : Option (EntRow T)) (op : Op T) → Settled op (apply_op curr op)
  unfolding apply_op
  apply_op-Settled curr op =
      let (c, d) = parse_eid_settles (head_of op).eid in parsed_op-Settled curr op _ c d

  -- What one round leaves: no exception, one more status, and the rows as the rule for single entities says.
  record Step (op : Op T) (r : Run T) (out : ValStat Done × Run T) : Type 0 where
    done : out.0 ≡ ok tt
    counted : length out.1.stats ≡ length r.stats + 1
    rows :
        (eid : Bytes)
        → lookup eid out.1.ents ≡ (
            if bytes_same (head_of op).eid eid
            then merge (lookup eid r.ents) op
            else lookup eid r.ents)

  note-Step :
      (op : Op T) (r : Run T) (out : ValStat (EntRow T))
      → apply_op (lookup (head_of op).eid r.ents) op ≡ out
      → Settled op out
      → Step op r (note (lookup (head_of op).eid r.ents) op out r)
  unfolding note put merge
  note-Step op r (ok next) e s = record {
    done = refl;
    counted = length-append r.stats (success ∷ []);
    rows = λ eid.
        rw (lookup-insert (eid_of next) eid next r.ents, s.keyed next refl)
          (elim (Bool-cases (bytes_same (head_of op).eid eid)) [
            | inl b ↦ rw (b, ← (bytes_same_iff (head_of op).eid eid).0 b, e) refl
            | inr b ↦ rw b refl
          ]);
  }
  note-Step op r (err st) e s = record {
    done = refl;
    counted = length-append r.stats (st ∷ []);
    rows = λ eid. (elim (Bool-cases (bytes_same (head_of op).eid eid)) [
      | inl b ↦ rw (b, ← (bytes_same_iff (head_of op).eid eid).0 b, e) refl
      | inr b ↦ rw b refl
    ]);
  }
  note-Step op r thrown e s = absurd (s.calm refl)
  note-Step op r diverged e s = absurd (s.ends refl)

  apply_one-Step : (op : Op T) (r : Run T) → Step op r (apply_one op r)
  unfolding apply_one
  apply_one-Step op r = note-Step op r _ refl (apply_op-Settled _ op)

  -- What a whole list leaves.
  record Applied (ops : List (Op T)) (r : Run T) (out : ValStat Done × Run T) : Type 0 where
    finished : out.0 ≡ ok tt
    all_counted : length out.1.stats ≡ length r.stats + length ops
    all_rows :
        (eid : Bytes) → lookup eid out.1.ents ≡ merge_all (lookup eid r.ents) (ops_of eid ops)

  continue-Applied :
      (op : Op T) (ops : List (Op T)) (r : Run T) (out : ValStat Done × Run T)
      → Step op r out
      → Applied ops out.1 (apply_each ops out.1)
      → Applied (op ∷ ops) r (continue out (λ u. apply_each ops))
  unfolding merge_all ops_of
  continue-Applied op ops r (ok u, r') st ap = record {
    finished = ap.finished;
    all_counted = omega (arith, ap.all_counted, st.counted);
    all_rows = λ eid. ap.all_rows eid ∙ (elim (Bool-cases (bytes_same (head_of op).eid eid)) [
      | inl b ↦ rw (st.rows eid, b) refl
      | inr b ↦ rw (st.rows eid, b) refl
    ]);
  }
  continue-Applied op ops r (err s, r') st ap = absurd (let e = st.done in cc)
  continue-Applied op ops r (thrown, r') st ap = absurd (let e = st.done in cc)
  continue-Applied op ops r (diverged, r') st ap = absurd (let e = st.done in cc)

  apply_each-Applied : (ops : List (Op T)) (r : Run T) → Applied ops r (apply_each ops r)
  unfolding apply_each ◌>>=◌ merge_all ops_of
  apply_each-Applied [] r = record {
    finished = refl;
    all_counted = omega arith;
    all_rows = λ eid. refl;
  }
  apply_each-Applied (op ∷ ops) r =
      continue-Applied op ops r (apply_one op r) (apply_one-Step op r)
        (apply_each-Applied ops (apply_one op r).1)

  -- `apply` returns on every list, with one status for each operation, and each row is what the operations
  -- on its eid make of the old row, one after another.
  pub apply_lem :
      (ops : List (Op T)) (ents : List (Bytes × EntRow T))
      → ((apply ops ents).0 ≡ ok tt)
        × (length (apply ops ents).1.stats ≡ length ops)
        × ((eid : Bytes)
            → lookup eid (apply ops ents).1.ents ≡ merge_all (lookup eid ents) (ops_of eid ops))
  unfolding apply
  apply_lem ops ents =
      let a = apply_each-Applied ops (record { ents = ents; stats = []; types = []; eids = [] }) in
      (a.finished, a.all_counted ∙ omega arith, a.all_rows)
