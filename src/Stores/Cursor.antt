-- ===== src/Stores/Cursor.antt =====
-- web/src/stores/cursor.ts: the cursors of a host row, one for each realm, and the realms to ask for.
pub mod Realms
pub mod Asked
pub mod Project
use diplomatic.Base.{
  Bool, List, Option, [], false, if◌then◌else◌, none, some, true, ℕ, ◌&&◌, ◌++◌, ◌||◌, ◌∷◌,
}
use diplomatic.Base.Int.{ltb_ℤ, pos, ℤ, ◌==ℤ◌}
use diplomatic.Base.Keyed.{bytes_key, bytes_same}
use diplomatic.Stores.Keys.{decimal_ℤ, realm_key}
use diplomatic.Stores.Realm.{RealmRow, or_none}
use diplomatic.Text.{Str}
use diplomatic.Wire.Kdm.{Kdm, null_kdm}

pub record RealmCursor : Type 0 where
  pub kdm : Kdm
  pub last_seq : ℤ

pub record CursorRow : Type 0 where
  pub last_seq : ℤ
  pub seqs : Option (List RealmCursor)

-- A missing realm is the default one.
pub or_null : Option Kdm → Kdm
or_null none = null_kdm
or_null (some realm) = realm

pub same_realm : Kdm → Kdm → Bool
same_realm a b = bytes_same a.label b.label && (a.index ==ℤ b.index)

pub is_default_realm : Option Kdm → Bool
is_default_realm none = true
is_default_realm (some realm) = same_realm realm null_kdm

find_cursor : Kdm → List RealmCursor → Option RealmCursor
find_cursor realm [] = none
find_cursor realm (c ∷ cs) = if same_realm c.kdm realm then some c else find_cursor realm cs

-- `row.seqs?.find(…)`
find_seqs : Kdm → Option (List RealmCursor) → Option RealmCursor
unfolding find_cursor
find_seqs realm none = none
find_seqs realm (some seqs) = find_cursor realm seqs

-- `hit?.lastSeq ?? 0`
pub last_seq_of : Option RealmCursor → ℤ
last_seq_of none = pos 0
last_seq_of (some c) = c.last_seq

pub cursor_of : CursorRow → Option Kdm → ℤ
cursor_of row realm =
    if is_default_realm realm
    then row.last_seq
    else last_seq_of (find_seqs (or_null realm) row.seqs)

-- `add` of `realmKDMs`, over `out` and `seen`.
record Seen : Type 0 where
  out : List Kdm
  seen : List Str

has_key : Str → List Str → Bool
has_key key [] = false
has_key key (k ∷ keys) = bytes_same k key || has_key key keys

kdm_at : Str → ℕ → Kdm
kdm_at label index = record { label = label; index = pos index }

add_kdm : Str → ℕ → Seen → Seen
unfolding kdm_at has_key
add_kdm label index s =
    let key = realm_key (kdm_at label index) in
    if has_key key s.seen
    then s
    else record { out = s.out ++ (kdm_at label index ∷ []); seen = s.seen ++ (key ∷ []) }

add_kdms : Str → List ℕ → Seen → Seen
unfolding add_kdm
add_kdms label [] s = s
add_kdms label (index ∷ prior) s = add_kdms label prior (add_kdm label index s)

add_rows : List RealmRow → Seen → Seen
unfolding add_kdms
add_rows [] s = s
add_rows (row ∷ rows) s =
    add_rows rows (add_kdms row.label (or_none row.prior) (add_kdm row.label row.index s))

null_seen : Seen
null_seen = record { out = null_kdm ∷ []; seen = realm_key null_kdm ∷ [] }

pub realm_kdms : List RealmRow → List Kdm
unfolding add_rows null_seen
realm_kdms rows = (add_rows rows null_seen).out

find_row : Str → List RealmRow → Kdm
find_row label [] = record { label = label; index = pos 0 }
find_row label (row ∷ rows) =
    if bytes_same row.label label
    then record { label = row.label; index = pos row.index }
    else find_row label rows

pub realm_kdm : Option Str → List RealmRow → Kdm
unfolding find_row
realm_kdm none rows = null_kdm
realm_kdm (some []) rows = null_kdm
realm_kdm (some label) rows = find_row label rows

pub stored_realm : Kdm → Option Kdm
stored_realm realm = if is_default_realm (some realm) then none else some realm

-- `HostSeqsUpdate`
pub record HostSeqsUpdate : Type 0 where
  pub last_seq : Option ℤ
  pub set_last_seq : Option ℤ

later_seq : ℤ → Option ℤ → Option ℤ
later_seq cur none = none
later_seq cur (some seq) = if ltb_ℤ cur seq then some seq else none

next_from : ℤ → Option ℤ → Option ℤ → Option ℤ
unfolding later_seq
next_from cur (some seq) last = some seq
next_from cur none last = later_seq cur last

pub next_cursor : ℤ → HostSeqsUpdate → Option ℤ
unfolding next_from
next_cursor cur u = next_from cur u.set_last_seq u.last_seq

-- The loop of `projectCursors`, from its two variables.
split_cursors : List RealmCursor → ℤ → List RealmCursor → ℤ × List RealmCursor
split_cursors [] last_seq seqs = (last_seq, seqs)
split_cursors (c ∷ cs) last_seq seqs =
    let default = split_cursors cs c.last_seq seqs in
    let named = split_cursors cs last_seq (seqs ++ (c ∷ [])) in
    if is_default_realm (some c.kdm) then default else named

some_seqs : List RealmCursor → Option (List RealmCursor)
some_seqs [] = none
some_seqs (c ∷ cs) = some (c ∷ cs)

pub project_cursors : List RealmCursor → CursorRow
unfolding split_cursors some_seqs
project_cursors cursors =
    let (last_seq, seqs) = split_cursors cursors (pos 0) [] in
    record { last_seq = last_seq; seqs = some_seqs seqs }

-- `host:seq` in the default realm, and `host:label:index:seq` in any other.
pub download_key : Str → ℤ → Option Kdm → Str
download_key host seq realm =
    let r = or_null realm in
    if is_default_realm (some r)
    then host ++ (58 ∷ decimal_ℤ seq)
    else host ++ (58 ∷ (r.label ++ (58 ∷ (decimal_ℤ r.index ++ (58 ∷ decimal_ℤ seq)))))
