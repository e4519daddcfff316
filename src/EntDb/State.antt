-- ===== src/EntDb/State.antt =====
-- web/src/state.ts: messages become operations, and a batch of them is applied.
use diplomatic.Base.{
  List, Option, [], ap, arith, false, get_elem?, if◌then◌else◌, map, none, refl, some, suc, ℕ, ◌++◌,
  ◌+◌, ◌==◌, ◌∙◌, ◌∷◌, ◌≡◌, ◌≢◌,
}
use diplomatic.Codec.{Bytes, decoder}
use diplomatic.Consts.{Status, success}
use diplomatic.EntDb.{Op, OpHead, delete_op, mutate_op}
use diplomatic.Exec.{ValStat, diverged, err, ok, thrown}
use diplomatic.Wire.Ent.{EntBody, ent_codec}
use diplomatic.Wire.MessageHead.{MessageHead, typ_of}

-- `IMessage`
pub record Message : Type 0 where
  pub head : MessageHead
  pub bod : Option Bytes

op_head : MessageHead → OpHead
op_head msg = record { eid = msg.eid; off = msg.off; ctr = msg.ctr }

ent_op : MessageHead → ValStat EntBody → ValStat (Op (Option Bytes))
ent_op msg (ok ent) = ok (
    mutate_op (op_head msg)
      (record { type = typ_of msg.typ; body = ent.body; pid = ent.pid; tags = ent.tags }))
ent_op msg (err s) = err s
ent_op msg thrown = thrown
ent_op msg diverged = diverged

-- An empty body is a delete.
pub msg_to_op : Message → ValStat (Op (Option Bytes))
unfolding op_head ent_op
msg_to_op msg = elim msg.bod [
  | none ↦ ok (delete_op (op_head msg.head))
  | some [] ↦ ok (delete_op (op_head msg.head))
  | some (b ∷ bs) ↦ ent_op msg.head ((ent_codec.decode (decoder (b ∷ bs))).0)
]

add_parsed :
    ValStat (Op (Option Bytes))
    → ValStat (List (Op (Option Bytes)) × List Status)
    → ValStat (List (Op (Option Bytes)) × List Status)
add_parsed (ok op) (ok (ops, stats)) = ok (op ∷ ops, success ∷ stats)
add_parsed (err s) (ok (ops, stats)) = ok (ops, s ∷ stats)
add_parsed thrown rest = thrown
add_parsed diverged rest = diverged
add_parsed _ rest = rest

-- The operations that were parsed, and one status for each message.
pub parse_all : List Message → ValStat (List (Op (Option Bytes)) × List Status)
parse_all [] = ok ([], [])
parse_all (msg ∷ msgs) = add_parsed (msg_to_op msg) (parse_all msgs)

-- `results` of `StateManager.apply`: the status of a message that was parsed is `applyStats[i]` at the
-- message's index. `none` is `undefined`, behind the end of that array.
pub results_from : ℕ → List Status → List Status → List (Option Status)
results_from i [] stats = []
results_from i (p ∷ ps) stats =
    (if p == success then get_elem? stats i else some p) ∷ results_from (i + 1) ps stats

-- As many successes as there are statuses.
abbrev pub successes : List Status → List Status
successes [] = []
successes (s ∷ stats) = success ∷ successes stats

shifted :
    (i : ℕ) (ps stats : List Status) (s : Status)
    → results_from (suc i) ps (s ∷ stats) ≡ results_from i ps stats
unfolding results_from
shifted i [] stats s = refl
shifted i (p ∷ ps) stats s =
    ap (λ (l : List (Option Status)). (if p == success then get_elem? stats i else some p) ∷ l)
      (more (shifted (i + 1) ps stats s))
  where
    more :
        results_from (suc (i + 1)) ps (s ∷ stats) ≡ results_from (i + 1) ps stats
        → results_from (suc i + 1) ps (s ∷ stats) ≡ results_from (i + 1) ps stats
    more e = ap (λ (n : ℕ). results_from n ps (s ∷ stats)) (omega arith) ∙ e

-- Where every message of a batch was parsed, each one's result is its own status.
pub results_aligned :
    (stats : List Status) → results_from 0 (successes stats) stats ≡ map some stats
unfolding results_from
results_aligned [] = refl
results_aligned (s ∷ stats) =
    ap (λ (l : List (Option Status)). some s ∷ l)
      (shifted 0 (successes stats) stats s ∙ results_aligned stats)

over_run :
    (stats : List Status)
    → results_from 0 (success ∷ successes stats) stats ≡ map some stats ++ (none ∷ [])
unfolding results_from
over_run [] = refl
over_run (s ∷ stats) =
    ap (λ (l : List (Option Status)). some s ∷ l)
      (shifted 0 (success ∷ successes stats) stats s ∙ over_run stats)

-- Where the first message of a batch was not parsed and all others were, each of the others gets the status
-- of the one behind it, and the last gets none.
pub results_skewed :
    (bad s : Status) (stats : List Status)
    → bad ≢ success
    → results_from 0 (bad ∷ successes (s ∷ stats)) (s ∷ stats)
      ≡ some bad ∷ (map some stats ++ (none ∷ []))
unfolding results_from
results_skewed bad s stats h =
    let differ : (bad == success) ≡ false = ground (arith, h) in
    rw (differ, results_from)
      (ap (λ (l : List (Option Status)). some bad ∷ l)
        (shifted 0 (success ∷ successes stats) stats s ∙ over_run stats))
