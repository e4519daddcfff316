-- ===== src/Stores/Hosts/Forward.antt =====
-- The cursors of web/src/stores/memory/hosts.ts over a row of calls.
use diplomatic.Base.{
  All, Bool-cases, List, Option, [], ap, arith, false, inl, inr, none, refl, some, sym, ◌&&◌, ◌∙◌,
  ◌∷◌, ◌≡◌,
}
use diplomatic.Base.Int.{ℤ, ◌≤ℤ◌}
use diplomatic.Base.Keyed.{IsMap, Key, bytes_key, bytes_same, erase, lookup, lookup-erase}
use diplomatic.Base.Maps.{Holds}
use diplomatic.Exec.{fail, modify}
use diplomatic.Stores.Cursor.{HostSeqsUpdate, or_null, same_realm}
use diplomatic.Stores.Cursor.Project.{Bucket, next_cursor-Forward}
use diplomatic.Stores.Hosts.{
  HostMeta, HostRow, HostStore, add_host, del_host, get_host, is_some, list_hosts, merge_meta,
  no_hosts, put_row, record_seqs, same_link, set_host, store_cursor,
}
use diplomatic.Stores.Hosts.Calls.{
  HostCall, adds, after_call, after_call-IsStore, after_calls, after_calls-IsStore, dels, gets,
  lists, records, sets, wipes,
}
use diplomatic.Stores.Hosts.Invariant.{IsStore}
use diplomatic.Stores.Hosts.Touch.{cursor_at, same_cursor, store_cursor_lem}
use diplomatic.Text.{Str}
use diplomatic.Wire.Kdm.{Kdm}
use mathlib.Core.Path.{subst}

erased :
    (key label : Str) (cursors : List (Str × Bucket))
    → IsMap cursors
    → bytes_same key label ≡ false
    → lookup label (erase key cursors) ≡ lookup label cursors
erased key label cursors h e = lookup-erase key label cursors h ∙ rw e refl

module _ {H : Type 0} where
  -- Calls that do not take the cursors of this host away: no rewind, and no other link under its label.
  abbrev pub IsForward : Str → HostCall H → Type 0
  IsForward label (adds info) = bytes_same info.label label ≡ false
  IsForward label (records key u realm) = u.set_last_seq ≡ none
  IsForward label (dels key) = bytes_same key label ≡ false
  IsForward label wipes = ⊥
  IsForward label _ = Unit {0}

  store_cursor-Forward :
      (label key : Str) (realm wanted : Option Kdm) (next : Option ℤ) (s : HostStore H)
      → Holds (λ n. cursor_at label realm s ≤ℤ n) next
      → cursor_at key wanted s ≤ℤ cursor_at key wanted (store_cursor label (or_null realm) next s)
  unfolding store_cursor
  store_cursor-Forward label key realm wanted none s h = omega arith
  store_cursor-Forward label key realm wanted (some next) s h =
      rw (store_cursor_lem label key realm wanted next s)
        (elim (Bool-cases (bytes_same label key && same_realm (or_null realm) (or_null wanted))) [
          | inl f ↦
              rw f
                (subst (λ c. c ≤ℤ next) (sym (same_cursor label key realm wanted s ∙ rw f refl)) h)
          | inr f ↦ rw f (omega arith)
        ])

  record_seqs-Forward :
      (label key : Str) (u : HostSeqsUpdate) (realm wanted : Option Kdm) (s : HostStore H)
      → u.set_last_seq ≡ none
      → cursor_at key wanted s ≤ℤ cursor_at key wanted (record_seqs label u realm s).1
  unfolding record_seqs modify cursor_at
  record_seqs-Forward label key u realm wanted s e =
      elim (Bool-cases (is_some (lookup label s.hosts))) [
        | inl f ↦ rw f (store_cursor-Forward label key realm wanted _ s (next_cursor-Forward _ u e))
        | inr f ↦ rw f (omega arith)
      ]

  -- A step that leaves what is stored for this host.
  kept :
      (label : Str) (wanted : Option Kdm) (s t : HostStore H)
      → lookup label t.cursors ≡ lookup label s.cursors
      → cursor_at label wanted s ≤ℤ cursor_at label wanted t
  unfolding cursor_at
  kept label wanted s t e = rw e (omega arith)

  put_row-cursors :
      (label : Str) (row : Option (HostRow H)) (s : HostStore H)
      → (put_row label row s).1.cursors ≡ s.cursors
  unfolding put_row
  put_row-cursors label none s = refl
  put_row-cursors label (some row) s = refl

  merge_meta-cursors :
      (label : Str) (m : HostMeta) (row : Option (HostRow H)) (s : HostStore H)
      → (merge_meta label m row s).1.cursors ≡ s.cursors
  unfolding merge_meta fail modify
  merge_meta-cursors label m none s = refl
  merge_meta-cursors label m (some row) s = refl

module _ {H : Type 0} ⦃same_handle : Key H⦄ where
  after_call-Forward :
      (label : Str) (wanted : Option Kdm) (c : HostCall H) (s : HostStore H)
      → IsStore s
      → IsForward label c
      → cursor_at label wanted s ≤ℤ cursor_at label wanted (after_call c s)
  unfolding after_call add_host get_host set_host del_host list_hosts modify
  after_call-Forward label wanted (adds info) s h f =
      elim (Bool-cases (same_link info (lookup info.label s.hosts))) [
        | inl e ↦ rw e (kept label wanted s _ refl)
        | inr e ↦ rw e (kept label wanted s _ (erased info.label label s.cursors h.cursors f))
      ]
  after_call-Forward label wanted (records key u realm) s h f =
      record_seqs-Forward key label u realm wanted s f
  after_call-Forward label wanted (gets key) s h f =
      kept label wanted s _ (ap (lookup label) (put_row-cursors key (lookup key s.hosts) s))
  after_call-Forward label wanted (sets key m) s h f =
      kept label wanted s _ (ap (lookup label) (merge_meta-cursors key m (lookup key s.hosts) s))
  after_call-Forward label wanted (dels key) s h f =
      kept label wanted s _ (erased key label s.cursors h.cursors f)
  after_call-Forward label wanted lists s h f = kept label wanted s _ refl
  after_call-Forward label wanted wipes s h f = absurd f

  after_calls_forward :
      (label : Str) (wanted : Option Kdm) (cs : List (HostCall H)) (s : HostStore H)
      → IsStore s
      → All (IsForward label) cs
      → cursor_at label wanted s ≤ℤ cursor_at label wanted (after_calls cs s)
  unfolding after_calls
  after_calls_forward label wanted [] s h f = omega arith
  after_calls_forward label wanted (c ∷ cs) s h f =
      let one = after_call-Forward label wanted c s h f.0 in
      let rest =
        after_calls_forward label wanted cs (after_call c s) (after_call-IsStore c s h) f.1 in
      omega (arith, one, rest)

  -- After any calls on an empty store, no further calls make a cursor of a host smaller, where none
  -- of them rewinds a cursor with `setLastSeq`, deletes the host, links another host or the same one
  -- again under its label, or wipes the store.
  pub cursors_never_regress :
      (label : Str) (wanted : Option Kdm) (before calls : List (HostCall H))
      → All (IsForward label) calls
      → cursor_at label wanted (after_calls before no_hosts)
        ≤ℤ cursor_at label wanted (after_calls calls (after_calls before no_hosts))
  cursors_never_regress label wanted before calls f =
      after_calls_forward label wanted calls _
        (after_calls-IsStore before no_hosts
          (record { hosts = tt; labels = tt; cursors = tt; buckets = tt }))
        f
