-- ===== src/Tests/EntDb.antt =====
-- The rule of the entity database at two operations on one entity.
use diplomatic.Wire.Eid
use diplomatic.Base.{
  [], ap, arith, concat, false, inl, inr, length, map, none, refl, some, sym, ℕ, ◌++◌, ◌∙◌, ◌∷◌,
  ◌≡◌, ◌≢◌,
}
use diplomatic.Base.Int.{pos, ℤ, ◌+ℤ◌}
use diplomatic.Base.Keyed.{bytes_key, lookup}
use diplomatic.Codec.{Bytes, time}
use diplomatic.Consts.{invalid_message, invalid_param, no_change, success}
use diplomatic.EntDb.{Op, OpHead, delete_op, mutate_op}
use diplomatic.EntDb.Converge.{IsDistinct, SameOps, converges, ties}
use diplomatic.EntDb.Memory.{apply, get_row, no_ents}
use diplomatic.EntDb.Memory.Replicas.{IsDistinctByEid, replicas_agree}
use diplomatic.EntDb.Memory.Rows.{apply_lem, ops_of}
use diplomatic.EntDb.Order.{merge, merge_all, op_date}
use diplomatic.EntDb.Query.{
  DateRange, date_matches, date_spec_may_match, date_spec_may_match_lem, within,
}
use diplomatic.EntDb.State.{results_from, results_skewed, successes}
use diplomatic.Exec.{err, ok}
use diplomatic.Wire.Eid.{EntityId}
use diplomatic.Wire.MessageHead.{parse_eid, parse_eid-wire}

abbrev early : EntityId
early = record { id = 1 ∷ []; ts = time (pos 1) }

abbrev head_at : ℤ → ℤ → OpHead
head_at off ctr = record { eid = concat (Eid.wire early); off = off; ctr = ctr }

abbrev pub write_op : ℤ → ℤ → ℕ → Op ℕ
write_op off ctr body =
    mutate_op (head_at off ctr) (record { type = 104 ∷ []; body = body; pid = none; tags = none })

abbrev pub delete_at : ℤ → Op ℕ
delete_at off = delete_op (head_at off (pos 0))

early_parsed : parse_eid (concat (Eid.wire early)) ≡ ok early
early_parsed = parse_eid-wire early (omega arith, omega arith)

abbrev written : Op ℕ
written = write_op (pos 5) (pos 0) 7

abbrev deleted : Op ℕ
deleted = delete_at (pos 9)

written_time : op_date written ≡ time (pos 6)
unfolding ◌+ℤ◌
written_time = rw early_parsed refl

deleted_time : op_date deleted ≡ time (pos 10)
unfolding ◌+ℤ◌
deleted_time = rw early_parsed refl

swapped : SameOps (written ∷ deleted ∷ []) (deleted ∷ written ∷ [])
swapped op = (
  λ i. elim i [ inl e ↦ inr (inl e) | inr (inl e) ↦ inl e | inr (inr e) ↦ absurd e ],
  λ i. elim i [ inl e ↦ inr (inl e) | inr (inl e) ↦ inl e | inr (inr e) ↦ absurd e ],
)

written-ne : op_date written ≢ op_date deleted
written-ne e = let f = sym written_time ∙ e ∙ deleted_time in cc

distinct : IsDistinct (written ∷ deleted ∷ [])
distinct a b (inl p) (inl q) e = p ∙ sym q
distinct a b (inl p) (inr (inl q)) e = absurd (written-ne (sym (ap op_date p) ∙ e ∙ ap op_date q))
distinct a b (inr (inl p)) (inl q) e =
    absurd (written-ne (sym (ap op_date q) ∙ sym e ∙ ap op_date p))
distinct a b (inr (inl p)) (inr (inl q)) e = p ∙ sym q
distinct a b (inl p) (inr (inr q)) e = absurd q
distinct a b (inr (inl p)) (inr (inr q)) e = absurd q
distinct a b (inr (inr p)) i e = absurd p

converges_example :
    merge_all none (written ∷ deleted ∷ []) ≡ merge_all none (deleted ∷ written ∷ [])
converges_example =
    converges (written ∷ deleted ∷ []) (deleted ∷ written ∷ [])
      ((pos 6, written_time), ((pos 10, deleted_time), tt))
      ((pos 10, deleted_time), ((pos 6, written_time), tt)) swapped distinct

abbrev rewritten : Op ℕ
rewritten = write_op (pos 5) (pos 1) 8

rewritten_time : op_date rewritten ≡ time (pos 6)
unfolding ◌+ℤ◌
rewritten_time = rw early_parsed refl

ties_example :
    (merge_all none (written ∷ rewritten ∷ []) ≡ merge none written)
    × (merge_all none (rewritten ∷ written ∷ []) ≡ merge none rewritten)
ties_example =
    ties written rewritten (pos 6, written_time) (pos 6, rewritten_time)
      (written_time ∙ sym rewritten_time)

distinct_by_eid : IsDistinctByEid (written ∷ deleted ∷ [])
distinct_by_eid a b i j same e = distinct a b i j e

replicas_agree_example :
    get_row (concat (Eid.wire early)) (apply (written ∷ deleted ∷ []) no_ents).1.ents
    ≡ get_row (concat (Eid.wire early)) (apply (deleted ∷ written ∷ []) no_ents).1.ents
replicas_agree_example =
    replicas_agree (written ∷ deleted ∷ []) (deleted ∷ written ∷ []) (concat (Eid.wire early))
      ((pos 6, written_time), ((pos 10, deleted_time), tt))
      ((pos 10, deleted_time), ((pos 6, written_time), tt)) swapped distinct_by_eid

apply_lem_example :
    ((apply (written ∷ deleted ∷ []) no_ents).0 ≡ ok tt)
    × (length (apply (written ∷ deleted ∷ []) no_ents).1.stats ≡ length (written ∷ deleted ∷ []))
    × ((eid : Bytes)
        → lookup eid (apply (written ∷ deleted ∷ []) no_ents).1.ents
          ≡ merge_all (lookup eid no_ents) (ops_of eid (written ∷ deleted ∷ [])))
apply_lem_example = apply_lem (written ∷ deleted ∷ []) no_ents

results_skewed_example :
    results_from 0
      (invalid_message ∷ successes (success ∷ no_change ∷ []))
      (success ∷ no_change ∷ [])
    ≡ some invalid_message ∷ (map some (no_change ∷ []) ++ (none ∷ []))
results_skewed_example = results_skewed invalid_message success (no_change ∷ []) (λ e. omega arith)

abbrev backwards : DateRange
backwards = record {
  start = time (pos 9);
  end = time (pos 3);
  exclude_start = false;
  exclude_end = false;
}

refused_range : date_spec_may_match (within backwards) ≡ err invalid_param
unfolding date_spec_may_match
refused_range = refl

date_spec_may_match_lem_example : date_matches (time (pos 5)) (within backwards) ≡ false
date_spec_may_match_lem_example =
    date_spec_may_match_lem (time (pos 5)) (within backwards) refused_range
