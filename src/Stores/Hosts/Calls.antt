-- ===== src/Stores/Hosts/Calls.antt =====
-- The calls of the methods of web/src/stores/memory/hosts.ts, one after another.
use diplomatic.Base.{Bool-cases, List, Option, [], inl, inr, none, refl, some, ◌∷◌, ◌≡◌}
use diplomatic.Base.Keyed.{Key, bytes_key, erase, lookup}
use diplomatic.Exec.{modify}
use diplomatic.Stores.Cursor.{HostSeqsUpdate}
use diplomatic.Stores.Hosts.{
  HostInfo, HostMeta, HostRow, HostStore, add_host, del_host, get_host, list_hosts, record_seqs,
  relinked, same_link, set_host, wipe_hosts,
}
use diplomatic.Stores.Hosts.Invariant.{
  IsStore, del_host-IsStore, erase-IsStore, get_host-IsStore, insert-IsStore, list_hosts-IsStore,
  record_seqs-IsStore, set_host-IsStore,
}
use diplomatic.Text.{Str}
use diplomatic.Wire.Kdm.{Kdm}

-- The calls that change the store.
pub data HostCall (H : Type 0) : Type 0 where
  adds : HostInfo H → HostCall H
  records : Str → HostSeqsUpdate → Option Kdm → HostCall H
  gets : Str → HostCall H
  sets : Str → HostMeta → HostCall H
  dels : Str → HostCall H
  lists : HostCall H
  wipes : HostCall H

module _ {H : Type 0} ⦃same_handle : Key H⦄ where
  add_host-IsStore : (info : HostInfo H) (s : HostStore H) → IsStore s → IsStore (add_host info s).1
  unfolding add_host modify
  add_host-IsStore info s h = elim (Bool-cases (same_link info (lookup info.label s.hosts))) [
    | inl e ↦ rw e (insert-IsStore info.label _ s (keeps_label (lookup info.label s.hosts)) h)
    | inr e ↦ rw e (
        insert-IsStore info.label _ (record s { cursors = erase info.label s.cursors }) refl
          (erase-IsStore info.label s h))
  ]
    where
      keeps_label : (prev : Option (HostRow H)) → (relinked info prev).info.label ≡ info.label
      keeps_label none = refl
      keeps_label (some prev) = refl

  unfoldable pub after_call : HostCall H → HostStore H → HostStore H
  after_call (adds info) s = (add_host info s).1
  after_call (records label u realm) s = (record_seqs label u realm s).1
  after_call (gets label) s = (get_host label s).1
  after_call (sets label m) s = (set_host label m s).1
  after_call (dels label) s = (del_host label s).1
  after_call lists s = (list_hosts s).1
  after_call wipes s = (wipe_hosts s).1

  unfoldable pub after_calls : List (HostCall H) → HostStore H → HostStore H
  after_calls [] s = s
  after_calls (c ∷ cs) s = after_calls cs (after_call c s)

  pub after_call-IsStore : (c : HostCall H) (s : HostStore H) → IsStore s → IsStore (after_call c s)
  unfolding after_call wipe_hosts modify
  after_call-IsStore (adds info) s h = add_host-IsStore info s h
  after_call-IsStore (records label u realm) s h = record_seqs-IsStore label u realm s h
  after_call-IsStore (gets label) s h = get_host-IsStore label s h
  after_call-IsStore (sets label m) s h = set_host-IsStore label m s h
  after_call-IsStore (dels label) s h = del_host-IsStore label s h
  after_call-IsStore lists s h = list_hosts-IsStore s h
  after_call-IsStore wipes s h = record { hosts = tt; labels = tt; cursors = tt; buckets = tt }

  pub after_calls-IsStore :
      (cs : List (HostCall H)) (s : HostStore H) → IsStore s → IsStore (after_calls cs s)
  unfolding after_calls
  after_calls-IsStore [] s h = h
  after_calls-IsStore (c ∷ cs) s h =
      after_calls-IsStore cs (after_call c s) (after_call-IsStore c s h)
