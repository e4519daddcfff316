-- ===== src/Stores/Realm.antt =====
-- web/src/stores/realm.ts and memory/realms.ts: realm rows, whose index is the current counter of a label.
-- `MemoryRealmStore` is a map from labels to rows.
pub mod Puts
use diplomatic.Base.{List, Option, [], if◌then◌else◌, ltb, map, none, some, ℕ, ◌++◌, ◌∷◌}
use diplomatic.Base.Int.{pos, ℤ}
use diplomatic.Base.Keyed.{bytes_key, insert, lookup}
use diplomatic.Consts.{invalid_param}
use diplomatic.Exec.{Done, Exec, ValStat, err, modify, ok, query, ◌>>=◌, ◌>>◌}
use diplomatic.Text.{Str}

-- `IRealm`
pub record RealmRow : Type 0 where
  pub label : Str
  pub index : ℕ
  pub prior : Option (List ℕ)

-- What the source can tell of a value of type `unknown` that is no array of its own. A integer that is
-- no integer is `other`, as is any object.
pub data Scalar : Type 0 where
  text : Str → Scalar
  integer : ℤ → Scalar
  undefined : Scalar
  other : Scalar

pub data Field : Type 0 where
  scalar : Scalar → Field
  array : List Scalar → Field

-- An object with its label, index and prior.
pub data RawRealm : Type 0 where
  object : Scalar → Scalar → Field → RawRealm
  no_object : RawRealm

-- `realmLabel`
pub realm_label : Scalar → Option Str
realm_label (text (c ∷ cs)) = some (c ∷ cs)
realm_label _ = none

-- `isIndex`, with the index.
pub as_index : Scalar → Option ℕ
as_index (integer (pos n)) = some n
as_index _ = none

add_index : Option ℕ → Option (List ℕ) → Option (List ℕ)
add_index (some n) (some prior) = some (n ∷ prior)
add_index _ _ = none

decode_indexes : List Scalar → Option (List ℕ)
unfolding add_index
decode_indexes [] = some []
decode_indexes (raw ∷ raws) = add_index (as_index raw) (decode_indexes raws)

some_prior : List ℕ → Option (List ℕ)
some_prior [] = none
some_prior (n ∷ prior) = some (n ∷ prior)

with_prior : Str → ℕ → Field → Option RealmRow
unfolding some_prior
with_prior label index (scalar undefined) =
    some (record { label = label; index = index; prior = none })
with_prior label index (array raws) = elim (decode_indexes raws) [
  | some prior ↦ some (record { label = label; index = index; prior = some_prior prior })
  | none ↦ none
]
with_prior label index _ = none

with_index : Str → Option ℕ → Field → Option RealmRow
unfolding with_prior
with_index label (some index) prior = with_prior label index prior
with_index label none prior = none

pub decode_realm : RawRealm → Option RealmRow
unfolding with_index
decode_realm (object (text label) index prior) = with_index label (as_index index) prior
decode_realm _ = none

-- A row as a value of type `unknown`.
abbrev raw_prior : Option (List ℕ) → Field
raw_prior none = scalar undefined
raw_prior (some prior) = array (map (λ n. integer (pos n)) prior)

abbrev raw_of : Option RealmRow → RawRealm
raw_of none = no_object
raw_of (some row) = object (text row.label) (integer (pos row.index)) (raw_prior row.prior)

pub or_none : Option (List ℕ) → List ℕ
or_none none = []
or_none (some ns) = ns

-- `advanceRealm` once the index is one, over the row before it.
advance_from : Str → Option RealmRow → ℕ → ValStat RealmRow
unfolding or_none
advance_from label none index = ok (record { label = label; index = index; prior = none })
advance_from label (some prev) index =
    if ltb index prev.index
    then err invalid_param
    else if ltb prev.index index
    then ok (record {
      label = label;
      index = index;
      prior = some (or_none prev.prior ++ (prev.index ∷ []));
    })
    else ok (record { label = label; index = index; prior = prev.prior })

advance_to : Str → Option RealmRow → Option ℕ → ValStat RealmRow
unfolding advance_from
advance_to label prev none = err invalid_param
advance_to label prev (some index) = advance_from label prev index

pub advance_realm : Str → Option RealmRow → Scalar → ValStat RealmRow
unfolding advance_to
advance_realm label prev index = advance_to label prev (as_index index)

abbrev pub RealmStore : Type 0
RealmStore = List (Str × RealmRow)

list_rows : RealmStore → List RealmRow
list_rows [] = []
list_rows ((label, row) ∷ rows) = elim (decode_realm (raw_of (some row))) [
  | some decoded ↦ decoded ∷ list_rows rows
  | none ↦ list_rows rows
]

pub get_realm : Str → RealmStore → Option RealmRow
get_realm label rows = decode_realm (raw_of (lookup label rows))

pub list_realms : Exec RealmStore (List RealmRow)
list_realms = query (λ rows. ok (list_rows rows))

pub put_realm : Str → Scalar → Exec RealmStore Done
put_realm label index = do
  next ← query (λ rows. advance_realm label (get_realm label rows) index)
  modify (insert label next)

pub wipe_realms : Exec RealmStore Done
wipe_realms = modify (λ rows. [])
