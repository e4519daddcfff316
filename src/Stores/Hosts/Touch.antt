-- ===== src/Stores/Hosts/Touch.antt =====
-- The cursors that `touch` and `recordSeqs` of web/src/stores/memory/hosts.ts leave.
use diplomatic.Base.{
  Bool-cases, Option, ap, if◌then◌else◌, inl, inr, none, refl, some, true, ◌&&◌, ◌∙◌, ◌≡◌,
}
use diplomatic.Base.Int.{ltb_ℤ, ℤ}
use diplomatic.Base.Keyed.{bytes_key, bytes_same, bytes_same_iff, insert, lookup, lookup-insert}
use diplomatic.Base.Maps.{Holds}
use diplomatic.Exec.{modify, ok}
use diplomatic.Stores.Cursor.{cursor_of, or_null, same_realm}
use diplomatic.Stores.Cursor.Project.{
  cursor_in, cursor_in-insert, cursor_of-project_cursors, max_ℤ, next_cursor-later, same_realm_iff,
}
use diplomatic.Stores.Hosts.{
  HostRow, HostStore, get_host, is_some, or_bucket, project, put_row, record_seqs, store_cursor,
  touch,
}
use diplomatic.Stores.Hosts.Invariant.{IsStore, or_bucket-IsBucket, labelled, touch-IsStore}
use diplomatic.Stores.Keys.{realm_key}
use diplomatic.Text.{Str}
use diplomatic.Wire.Kdm.{Kdm}
use mathlib.Core.Path.{subst}

module _ {H : Type 0} where
  -- The cursor that is stored for a realm of a host.
  unfoldable pub cursor_at : Str → Option Kdm → HostStore H → ℤ
  cursor_at label realm s = cursor_in (or_null realm) (or_bucket (lookup label s.cursors))

  pub store_cursor_lem :
      (label key : Str) (realm wanted : Option Kdm) (next : ℤ) (s : HostStore H)
      → cursor_at key wanted (store_cursor label (or_null realm) (some next) s) ≡ (
          if bytes_same label key && same_realm (or_null realm) (or_null wanted)
          then next
          else cursor_at key wanted s)
  unfolding cursor_at store_cursor or_bucket
  store_cursor_lem label key realm wanted next s =
      rw
        (lookup-insert label key
          (insert (realm_key (or_null realm)) (record { kdm = or_null realm; last_seq = next })
            (or_bucket (lookup label s.cursors)))
          s.cursors)
        (elim (Bool-cases (bytes_same label key)) [
          | inl e ↦
              rw (e, ← (bytes_same_iff label key).0 e)
                (cursor_in-insert (or_null realm) (or_null wanted) next
                  (or_bucket (lookup label s.cursors)))
          | inr e ↦ rw e refl
        ])

  pub same_cursor :
      (label key : Str) (realm wanted : Option Kdm) (s : HostStore H)
      → cursor_at key wanted s ≡ (
          if bytes_same label key && same_realm (or_null realm) (or_null wanted)
          then cursor_at label realm s
          else cursor_at key wanted s)
  unfolding cursor_at
  same_cursor label key realm wanted s = elim (Bool-cases (bytes_same label key)) [
    | inl e ↦
        rw (e, ← (bytes_same_iff label key).0 e)
          (elim (Bool-cases (same_realm (or_null realm) (or_null wanted))) [
            | inl f ↦ rw (f, ← (same_realm_iff (or_null realm) (or_null wanted)).0 f) refl
            | inr f ↦ rw f refl
          ])
    | inr e ↦ rw e refl
  ]

  -- The cursor that a call of `touch` leaves.
  touch_lem :
      (label key : Str) (seq : ℤ) (realm wanted : Option Kdm) (s : HostStore H)
      → is_some (lookup label s.hosts) ≡ true
      → cursor_at key wanted (touch label seq realm s).1 ≡ (
          if bytes_same label key && same_realm (or_null realm) (or_null wanted)
          then max_ℤ (cursor_at label realm s) seq
          else cursor_at key wanted s)
  unfolding touch record_seqs modify cursor_at
  touch_lem label key seq realm wanted s e =
      let cur = cursor_at label realm s in
      rw (e, next_cursor-later cur seq)
        (elim (Bool-cases (ltb_ℤ cur seq)) [
          | inl f ↦ rw f (store_cursor_lem label key realm wanted seq s)
          | inr f ↦ rw f (same_cursor label key realm wanted s)
        ])

  -- The row that `get` returns shows the cursors that are stored.
  get_host_lem :
      (label : Str) (wanted : Option Kdm) (s : HostStore H) (row : HostRow H)
      → IsStore s
      → lookup label s.hosts ≡ some row
      → (row' : HostRow H) × ((get_host label s).0 ≡ ok (some row'))
        × (cursor_of row'.cursors wanted ≡ cursor_at label wanted s)
  unfolding get_host put_row project cursor_at
  get_host_lem label wanted s row h e = (
    project s.cursors row,
    rw e refl,
    rw (subst (Holds (λ r. r.info.label ≡ label)) e (labelled label s h)) (
        cursor_of-project_cursors (or_bucket (lookup label s.cursors)) wanted
          (or_bucket-IsBucket label s h)),
  )

  touch-hosts :
      (label : Str) (seq : ℤ) (realm : Option Kdm) (s : HostStore H)
      → (touch label seq realm s).1.hosts ≡ s.hosts
  unfolding touch record_seqs modify
  touch-hosts label seq realm s = elim (Bool-cases (is_some (lookup label s.hosts))) [
    | inl e ↦ rw e (go _)
    | inr e ↦ rw e refl
  ]
    where
      go : (next : Option ℤ) → (store_cursor label (or_null realm) next s).hosts ≡ s.hosts
      go none = refl
      go (some next) = refl

  -- After `touch` on a linked host, `get` returns its row, and the cursor that the row shows for a
  -- realm is the larger of the one before and the new seq where the realm is the one that was
  -- touched, and that before in any other realm.
  pub get_host-touch :
      (label : Str) (seq : ℤ) (realm wanted : Option Kdm) (s : HostStore H) (row : HostRow H)
      → IsStore s
      → lookup label s.hosts ≡ some row
      → (row' : HostRow H) × ((get_host label (touch label seq realm s).1).0 ≡ ok (some row'))
        × (cursor_of row'.cursors wanted ≡ (
            if same_realm (or_null realm) (or_null wanted)
            then max_ℤ (cursor_at label realm s) seq
            else cursor_at label wanted s))
  get_host-touch label seq realm wanted s row h e =
      let (row', get, cur) =
        get_host_lem label wanted (touch label seq realm s).1 row
          (touch-IsStore label seq realm s h)
          (ap (lookup label) (touch-hosts label seq realm s) ∙ e) in
      (
        row',
        get,
        cur
            ∙ touch_lem label label seq realm wanted s (rw e refl)
            ∙ rw ((bytes_same_iff label label).1 refl) refl,
      )
