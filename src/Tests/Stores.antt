-- ===== src/Tests/Stores.antt =====
-- The client's tables at concrete rows.
use diplomatic.Base.{All, List, [], if◌then◌else◌, none, refl, some, ℕ, ◌∷◌, ◌≡◌}
use diplomatic.Base.Int.{pos, ◌≤ℤ◌}
use diplomatic.Base.Keyed.{bytes_key, insert, lookup-insert_self, nat_key}
use diplomatic.Exec.{ok}
use diplomatic.Stores.Cursor.{cursor_of, or_null, realm_kdms, same_realm}
use diplomatic.Stores.Cursor.Project.{max_ℤ}
use diplomatic.Stores.Cursor.Asked.{IsAsked, realm_kdms_lem}
use diplomatic.Stores.Hosts.{HostInfo, HostRow, HostStore, get_host, no_hosts, touch}
use diplomatic.Stores.Hosts.Calls.{HostCall, adds, after_calls, gets, records}
use diplomatic.Stores.Hosts.Forward.{cursors_never_regress}
use diplomatic.Stores.Hosts.Touch.{cursor_at, get_host-touch}
use diplomatic.Stores.Realm.{RealmRow, RealmStore, integer, put_realm}
use diplomatic.Stores.Realm.Puts.{IsPut, counters, put_realm_lem}
use diplomatic.Text.{Str}
use diplomatic.Wire.Kdm.{Kdm, null_kdm}
use mathlib.Core.List.{Mem, Nodup}

-- A realm at counter 2, with one counter before it.
abbrev work_rows : RealmStore
work_rows = (97 ∷ [], record { label = 97 ∷ []; index = 2; prior = some (1 ∷ []) }) ∷ []

put_realm_lem_example :
    IsPut (97 ∷ []) (integer (pos 3)) work_rows (put_realm (97 ∷ []) (integer (pos 3)) work_rows)
put_realm_lem_example = put_realm_lem (97 ∷ []) (integer (pos 3)) work_rows

abbrev work_realms : List RealmRow
work_realms = record { label = 97 ∷ []; index = 2; prior = some (1 ∷ []) } ∷ []

realm_kdms_lem_example :
    Nodup (realm_kdms work_realms)
    × Mem null_kdm (realm_kdms work_realms)
    × All
        (λ row.
          All
            (λ n. Mem (record { label = row.label; index = pos n }) (realm_kdms work_realms))
            (counters (some row)))
        work_realms
    × All (IsAsked work_realms) (realm_kdms work_realms)
realm_kdms_lem_example = realm_kdms_lem work_realms

abbrev home : Str
home = 104 ∷ []

abbrev home_info : HostInfo ℕ
home_info = record { handle = 7; label = home; idx = none }

abbrev home_row : HostRow ℕ
home_row = record {
  info = home_info;
  cursors = record { last_seq = pos 0; seqs = none };
  clock_offset = none;
  subscription = none;
}

abbrev home_store : HostStore ℕ
home_store = record { hosts = (home, home_row) ∷ []; cursors = [] }

abbrev work_kdm : Kdm
work_kdm = record { label = 97 ∷ []; index = pos 2 }

get_host-touch_example :
    (row' : HostRow ℕ) × ((get_host home (touch home (pos 5) (some work_kdm) home_store).1).0
      ≡ ok (some row'))
    × (cursor_of row'.cursors (some work_kdm) ≡ (
        if same_realm (or_null (some work_kdm)) (or_null (some work_kdm))
        then max_ℤ (cursor_at home (some work_kdm) home_store) (pos 5)
        else cursor_at home (some work_kdm) home_store))
unfolding insert
get_host-touch_example =
    get_host-touch home (pos 5) (some work_kdm) (some work_kdm) home_store home_row
      (record { hosts = (tt, tt); labels = (refl, tt); cursors = tt; buckets = tt })
      (lookup-insert_self home home_row [])

-- The host is linked and its cursor set; then it is asked for, and its cursor advances.
abbrev linked : List (HostCall ℕ)
linked =
    adds home_info
    ∷ records home (record { last_seq = none; set_last_seq = some (pos 9) }) none
    ∷ []

abbrev later_calls : List (HostCall ℕ)
later_calls =
    gets home ∷ records home (record { last_seq = some (pos 4); set_last_seq = none }) none ∷ []

cursors_never_regress_example :
    cursor_at home none (after_calls linked no_hosts)
    ≤ℤ cursor_at home none (after_calls later_calls (after_calls linked no_hosts))
cursors_never_regress_example = cursors_never_regress home none linked later_calls (tt, (refl, tt))
