-- ===== src/Stores/Hosts.antt =====
-- web/src/stores/memory/hosts.ts: `MemoryHostStore`, the rows of the linked hosts and their cursors.
-- Two handles are compared by the instance, as `===` does.
pub mod Invariant
pub mod Calls
pub mod Touch
pub mod Forward
use diplomatic.Base.{Bool, List, Option, [], false, if◌then◌else◌, none, some, true, ◌&&◌, ◌∷◌}
use diplomatic.Base.Int.{pos, ℤ, ◌==ℤ◌}
use diplomatic.Base.Keyed.{Key, bytes_key, erase, insert, lookup}
use diplomatic.Consts.{not_found}
use diplomatic.Exec.{Done, Exec, fail, modify, ok}
use diplomatic.Stores.Cursor.{CursorRow, HostSeqsUpdate, next_cursor, or_null, project_cursors}
use diplomatic.Stores.Cursor.Project.{Bucket, cursor_in, values}
use diplomatic.Stores.Keys.{realm_key}
use diplomatic.Text.{Str}
use diplomatic.Wire.Kdm.{Kdm}
use diplomatic.Wire.UsageQuota.{UsageQuota}

-- `ISubscriptionMetadata`
pub record Subscription : Type 0 where
  pub term : ℤ
  pub elapsed : ℤ
  pub stat : UsageQuota
  pub dyn : UsageQuota

-- `IHostConnectionInfo`
pub record HostInfo (H : Type 0) : Type 0 where
  pub handle : H
  pub label : Str
  pub idx : Option ℤ

-- `IHostMetadata`
pub record HostMeta : Type 0 where
  pub subscription : Subscription
  pub clock_offset : ℤ

-- `IHostRow`
pub record HostRow (H : Type 0) : Type 0 where
  pub info : HostInfo H
  pub cursors : CursorRow
  pub clock_offset : Option ℤ
  pub subscription : Option Subscription

pub record HostStore (H : Type 0) : Type 0 where
  pub hosts : List (Str × HostRow H)
  pub cursors : List (Str × Bucket)

-- `idx ?? 0`
abbrev idx_of : Option ℤ → ℤ
idx_of none = pos 0
idx_of (some idx) = idx

abbrev no_seqs : CursorRow
no_seqs = record { last_seq = pos 0; seqs = none }

pub or_bucket : Option Bucket → Bucket
or_bucket none = []
or_bucket (some b) = b

module _ {H : Type 0} where
  abbrev pub no_hosts : HostStore H
  no_hosts = record { hosts = []; cursors = [] }

  abbrev is_some : Option (HostRow H) → Bool
  is_some none = false
  is_some (some row) = true

  -- `recordSeqs` once the host is known: `cur`, and the bucket with the next cursor.
  pub store_cursor : Str → Kdm → Option ℤ → HostStore H → HostStore H
  store_cursor label r none s = s
  store_cursor label r (some next) s = record s {
    cursors =
        insert label
          (insert (realm_key r) (record { kdm = r; last_seq = next })
            (or_bucket (lookup label s.cursors)))
          s.cursors;
  }

  pub record_seqs : Str → HostSeqsUpdate → Option Kdm → Exec (HostStore H) Done
  unfolding store_cursor
  record_seqs label u realm = modify λ s.
      if is_some (lookup label s.hosts)
      then store_cursor label (or_null realm)
          (next_cursor (cursor_in (or_null realm) (or_bucket (lookup label s.cursors))) u) s
      else s

  pub touch : Str → ℤ → Option Kdm → Exec (HostStore H) Done
  touch label seq realm =
      record_seqs label (record { last_seq = some seq; set_last_seq = none }) realm

  -- `#projectRealmCursors`, over the cursors of the store.
  project : List (Str × Bucket) → HostRow H → HostRow H
  project cursors row = record row {
    cursors = project_cursors (values (or_bucket (lookup row.info.label cursors)));
  }

  -- The row that the store keeps is the one that is returned.
  put_row : Str → Option (HostRow H) → Exec (HostStore H) (Option (HostRow H))
  put_row label none s = (ok none, s)
  put_row label (some row) s =
      let row' = project s.cursors row in
      (ok (some row'), record s { hosts = insert label row' s.hosts })

  pub get_host : Str → Exec (HostStore H) (Option (HostRow H))
  unfolding put_row
  get_host label s = put_row label (lookup label s.hosts) s

  merge_meta : Str → HostMeta → Option (HostRow H) → Exec (HostStore H) Done
  merge_meta label m none = fail not_found
  merge_meta label m (some row) = modify λ s. record s {
    hosts =
        insert label
          (record row { clock_offset = some m.clock_offset; subscription = some m.subscription })
          s.hosts;
  }

  pub set_host : Str → HostMeta → Exec (HostStore H) Done
  unfolding merge_meta
  set_host label m s = merge_meta label m (lookup label s.hosts) s

  pub del_host : Str → Exec (HostStore H) Done
  del_host label =
      modify λ s. record { hosts = erase label s.hosts; cursors = erase label s.cursors }

  project_all : List (Str × Bucket) → List (Str × HostRow H) → List (Str × HostRow H)
  unfolding project
  project_all cursors [] = []
  project_all cursors ((label, row) ∷ rows) =
      (label, project cursors row) ∷ project_all cursors rows

  pub list_hosts : Exec (HostStore H) (List (HostRow H))
  unfolding project_all
  list_hosts s =
      let rows = project_all s.cursors s.hosts in (ok (values rows), record s { hosts = rows })

  pub wipe_hosts : Exec (HostStore H) Done
  wipe_hosts = modify (λ s. no_hosts)

module _ {H : Type 0} ⦃same_handle : Key H⦄ where
  same_link : HostInfo H → Option (HostRow H) → Bool
  same_link info none = false
  same_link info (some prev) =
      same_handle.same prev.info.handle info.handle && (idx_of prev.info.idx ==ℤ idx_of info.idx)

  -- What a safe re-link keeps of the row.
  relinked : HostInfo H → Option (HostRow H) → HostRow H
  relinked info none = record {
    info = info;
    cursors = no_seqs;
    clock_offset = none;
    subscription = none;
  }
  relinked info (some prev) = record {
    info = info;
    cursors = no_seqs;
    clock_offset = prev.clock_offset;
    subscription = prev.subscription;
  }

  pub add_host : HostInfo H → Exec (HostStore H) Done
  unfolding same_link relinked
  add_host info = modify λ s.
      if same_link info (lookup info.label s.hosts)
      then record s {
        hosts = insert info.label (relinked info (lookup info.label s.hosts)) s.hosts;
      }
      else record {
        hosts = insert info.label (relinked info none) s.hosts;
        cursors = erase info.label s.cursors;
      }
