-- ===== src/EntDb.antt =====
-- web/src/entdb/entdb.ts: entities, operations on them, and the rule by which a newer operation wins.
pub mod Order
pub mod Converge
pub mod Memory
pub mod State
pub mod Query
use diplomatic.Wire.Eid
use diplomatic.Base.{
  Bool, List, Option, [], false, if◌then◌else◌, none, some, true, ◌++◌, ◌||◌, ◌∷◌,
}
use diplomatic.Base.Int.{leb_ℤ, ℤ, ◌+ℤ◌}
use diplomatic.Base.Keyed.{bytes_same}
use diplomatic.Codec.{Bytes, Date, invalid_date, new_date, time}
use diplomatic.Consts.{no_change}
use diplomatic.Exec.{ValStat, diverged, err, ok, thrown}
use diplomatic.Text.{Str}
use diplomatic.Wire.Eid.{EntityId}
use diplomatic.Wire.MessageHead.{parse_eid}

-- `IDeleteOp`, and what `IMutateOp` has beside it. `T` is the type of bodies.
pub record OpHead : Type 0 where
  pub eid : Bytes
  pub off : ℤ
  pub ctr : ℤ

pub record Mutation (T : Type 0) : Type 0 where
  pub type : Str
  pub body : T
  pub pid : Option Bytes
  pub tags : Option (List Str)

pub data Op (T : Type 0) : Type 0 where
  delete_op : OpHead → Op T
  mutate_op : OpHead → Mutation T → Op T

pub record Entity (T : Type 0) : Type 0 where
  pub eid : Bytes
  pub pid : Option Bytes
  pub tags : Option (List Str)
  pub type : Str
  pub created_at : Date
  pub updated_at : Date
  pub ctr : ℤ
  pub body : T

pub record Tombstone : Type 0 where
  pub eid : Bytes
  pub updated_at : Date
  pub ctr : ℤ

-- `IEntRow`
pub data EntRow (T : Type 0) : Type 0 where
  live : Entity T → EntRow T
  tombstone : Tombstone → EntRow T

module _ {T : Type 0} where
  abbrev pub head_of : Op T → OpHead
  head_of (delete_op h) = h
  head_of (mutate_op h m) = h

  pub is_live_ent : EntRow T → Bool
  is_live_ent (live e) = true
  is_live_ent (tombstone t) = false

  abbrev pub row_updated_at : EntRow T → Date
  row_updated_at (live e) = e.updated_at
  row_updated_at (tombstone t) = t.updated_at

-- `new Date(d.getTime() + ms)`
abbrev pub date_plus : Date → ℤ → Date
date_plus (time ms) off = new_date (ms +ℤ off)
date_plus invalid_date off = invalid_date

-- `a <= b`; a comparison with an invalid date is false.
abbrev pub date_le : Date → Date → Bool
date_le (time a) (time b) = leb_ℤ a b
date_le _ _ = false

contains : Str → List Str → Bool
contains t [] = false
contains t (s ∷ strs) = if bytes_same s t then true else contains t strs

-- The loop of `normalizeTags`: empty strings and strings that were seen are dropped.
normal_tags : List Str → List Str → List Str
normal_tags seen [] = []
normal_tags seen (t ∷ tags) =
    let fresh = t ∷ normal_tags (t ∷ seen) tags in
    let stale = normal_tags seen tags in if bytes_same t [] || contains t seen then stale else fresh

some_tags : List Str → Option (List Str)
some_tags [] = none
some_tags (t ∷ tags) = some (t ∷ tags)

pub normalize_tags : Option (List Str) → Option (List Str)
normalize_tags none = none
normalize_tags (some tags) = some_tags (normal_tags [] tags)

-- A `Set` of what is added, in order.
abbrev set_add : Str → List Str → List Str
set_add t set = if contains t set then set else set ++ (t ∷ [])

module _ {T : Type 0} where
  -- `curr !== undefined && opUpdatedAt <= curr.updatedAt`
  pub is_obsolete : Option (EntRow T) → Date → Bool
  is_obsolete none t = false
  is_obsolete (some row) t = date_le t (row_updated_at row)

  -- The row that an operation leaves where it wins.
  pub next_row : Op T → EntityId → Date → EntRow T
  next_row (mutate_op h m) id t = live (record {
    eid = h.eid;
    pid = m.pid;
    tags = normalize_tags m.tags;
    type = m.type;
    created_at = id.ts;
    updated_at = t;
    ctr = h.ctr;
    body = m.body;
  })
  next_row (delete_op h) id t = tombstone (record { eid = h.eid; updated_at = t; ctr = h.ctr })

  decide_op : Option (EntRow T) → Op T → EntityId → Date → ValStat (EntRow T)
  decide_op curr op id t = if is_obsolete curr t then err no_change else ok (next_row op id t)

  parsed_op : Option (EntRow T) → Op T → ValStat EntityId → ValStat (EntRow T)
  parsed_op curr op (ok id) = decide_op curr op id (date_plus id.ts (head_of op).off)
  parsed_op curr op (err s) = err s
  parsed_op curr op thrown = thrown
  parsed_op curr op diverged = diverged

  pub apply_op : Option (EntRow T) → Op T → ValStat (EntRow T)
  unfolding parsed_op decide_op
  apply_op curr op = parsed_op curr op (parse_eid (head_of op).eid)

  -- `typesChanged`: a `Set` of at most two types.
  add_live : EntRow T → List Str → List Str
  add_live (live e) types = set_add e.type types
  add_live (tombstone t) types = types

  pub types_changed : Option (EntRow T) → EntRow T → List Str
  unfolding add_live
  types_changed none next = add_live next []
  types_changed (some curr) next = add_live next (add_live curr [])
