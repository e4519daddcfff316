-- ===== src/EntDb/Memory.antt =====
-- web/src/entdb/memory.ts, with the option `indexes: false`: the rows by eid, and the application of
-- operations. Rows carry no realm label here, so `omitDefaultRealm` returns them as they are.
pub mod Rows
pub mod Replicas
use diplomatic.Base.{Bool, List, Option, [], false, if◌then◌else◌, none, some, ℕ, ◌++◌, ◌+◌, ◌∷◌}
use diplomatic.Base.Keyed.{bytes_key, bytes_same, erase, insert, lookup}
use diplomatic.Codec.{Bytes}
use diplomatic.Consts.{Status, success}
use diplomatic.EntDb.{
  EntRow, Entity, Op, apply_op, head_of, live, set_add, tombstone, types_changed,
}
use diplomatic.Exec.{Done, Exec, ValStat, diverged, err, ok, pure, thrown, ◌>>=◌, ◌>>◌}
use diplomatic.Text.{Str}

-- `ents`, and what `apply` returns.
pub record Run (T : Type 0) : Type 0 where
  pub ents : List (Bytes × EntRow T)
  pub stats : List Status
  pub types : List Str
  pub eids : List Bytes

add_types : List Str → List Str → List Str
add_types [] types = types
add_types (t ∷ ts) types = add_types ts (set_add t types)

module _ {T : Type 0} where
  abbrev pub no_ents : List (Bytes × EntRow T)
  no_ents = []

  abbrev pub eid_of : EntRow T → Bytes
  eid_of (live e) = e.eid
  eid_of (tombstone t) = t.eid

  pub put : EntRow T → List (Bytes × EntRow T) → List (Bytes × EntRow T)
  put row ents = insert (eid_of row) row ents

  pub del : Bytes → List (Bytes × EntRow T) → List (Bytes × EntRow T)
  del key ents = erase key ents

  -- One round of the loop of `apply`.
  note : Option (EntRow T) → Op T → ValStat (EntRow T) → Exec (Run T) Done
  unfolding add_types
  note curr op (ok next) r = (
    ok tt,
    record {
      ents = put next r.ents;
      stats = r.stats ++ (success ∷ []);
      types = add_types (types_changed curr next) r.types;
      eids = r.eids ++ ((head_of op).eid ∷ []);
    },
  )
  note curr op (err s) r = (ok tt, record r { stats = r.stats ++ (s ∷ []) })
  note curr op thrown r = (thrown, r)
  note curr op diverged r = (diverged, r)

  apply_one : Op T → Exec (Run T) Done
  unfolding note
  apply_one op r = let curr = lookup (head_of op).eid r.ents in note curr op (apply_op curr op) r

  pub apply_each : List (Op T) → Exec (Run T) Done
  apply_each [] = pure tt
  apply_each (op ∷ ops) = do apply_one op; apply_each ops

  -- `apply(ops)` on the rows `ents`.
  pub apply : List (Op T) → List (Bytes × EntRow T) → ValStat Done × Run T
  apply ops ents = apply_each ops (record { ents = ents; stats = []; types = []; eids = [] })

  pub get_row : Bytes → List (Bytes × EntRow T) → ValStat (Option (EntRow T))
  get_row eid ents = ok (lookup eid ents)

  only_live : Option (EntRow T) → Option (Entity T)
  only_live none = none
  only_live (some (live e)) = some e
  only_live (some (tombstone t)) = none

  pub get_ent : Bytes → List (Bytes × EntRow T) → ValStat (Option (Entity T))
  unfolding only_live
  get_ent eid ents = ok (only_live (lookup eid ents))

  -- The full scan of the rows.
  is_of_type : Str → EntRow T → Bool
  is_of_type type (live e) = bytes_same e.type type
  is_of_type type (tombstone t) = false

  pub count_entities : Str → List (Bytes × EntRow T) → ℕ
  unfolding is_of_type
  count_entities type [] = 0
  count_entities type ((key, row) ∷ ents) =
      (if is_of_type type row then 1 else 0) + count_entities type ents
