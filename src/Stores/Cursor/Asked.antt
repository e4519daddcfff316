-- ===== src/Stores/Cursor/Asked.antt =====
-- The realms that `realmKDMs` of web/src/stores/cursor.ts asks for, and no other.
use diplomatic.Base.{All, Bool-cases, List, [], inl, inr, some, ℕ, ◌++◌, ◌∷◌}
use diplomatic.Base.Int.{pos}
use diplomatic.Stores.Cursor.{
  Seen, add_kdm, add_kdms, add_rows, has_key, kdm_at, null_seen, realm_kdms,
}
use diplomatic.Stores.Cursor.Realms.{realm_kdms-Covers}
use diplomatic.Stores.Keys.{realm_key}
use diplomatic.Stores.Realm.{RealmRow, or_none}
use diplomatic.Stores.Realm.Puts.{counters}
use diplomatic.Text.{Str}
use diplomatic.Wire.Kdm.{Kdm, null_kdm}
use mathlib.Core.List.{Mem, Nodup, mem-cons_of_mem, mem-cons_self}

-- A realm that the rows call for: the default one, or a counter of a row, the current or a prior one.
pub data IsAsked (rows : List RealmRow) : Kdm → Type 0 where
  default_realm : IsAsked rows null_kdm
  counter_of :
      (row : RealmRow) (n : ℕ)
      → Mem row rows
      → Mem n (counters (some row))
      → IsAsked rows (record { label = row.label; index = pos n })

All-snoc :
    {A : Type 0} (P : A → Type 0) (xs : List A) (x : A) → All P xs → P x → All P (xs ++ (x ∷ []))
All-snoc P [] x h p = (p, tt)
All-snoc P (y ∷ ys) x (q, h) p = (q, All-snoc P ys x h p)

All-Mem : {A : Type 0} (P : A → Type 0) (xs : List A) → ((x : A) → Mem x xs → P x) → All P xs
All-Mem P [] h = tt
All-Mem P (x ∷ xs) h = (h x mem-cons_self, All-Mem P xs (λ y m. h y (mem-cons_of_mem x m)))

-- A property of the realms so far, and of each realm that is added.
module _ (P : Kdm → Type 0) where
  add_kdm-All :
      (label : Str) (index : ℕ) (s : Seen)
      → All P s.out
      → P (kdm_at label index)
      → All P (add_kdm label index s).out
  unfolding add_kdm
  add_kdm-All label index s h p =
      elim (Bool-cases (has_key (realm_key (kdm_at label index)) s.seen)) [
        | inl e ↦ rw e h
        | inr e ↦ rw e (All-snoc P s.out (kdm_at label index) h p)
      ]

  add_kdms-All :
      (label : Str) (prior : List ℕ) (s : Seen)
      → All P s.out
      → All (λ n. P (kdm_at label n)) prior
      → All P (add_kdms label prior s).out
  unfolding add_kdms
  add_kdms-All label [] s h ps = h
  add_kdms-All label (index ∷ prior) s h (p, ps) =
      add_kdms-All label prior (add_kdm label index s) (add_kdm-All label index s h p) ps

  add_rows-All :
      (rows : List RealmRow) (s : Seen)
      → All P s.out
      → All (λ row. All (λ n. P (kdm_at row.label n)) (counters (some row))) rows
      → All P (add_rows rows s).out
  unfolding add_rows
  add_rows-All [] s h ps = h
  add_rows-All (row ∷ rows) s h ((p, priors), ps) =
      add_rows-All rows _
        (add_kdms-All row.label (or_none row.prior) (add_kdm row.label row.index s)
          (add_kdm-All row.label row.index s h p) priors)
        ps

realm_kdms-IsAsked : (rows : List RealmRow) → All (IsAsked rows) (realm_kdms rows)
unfolding realm_kdms kdm_at
realm_kdms-IsAsked rows =
    add_rows-All (IsAsked rows) rows null_seen (default_realm, tt)
      (All-Mem _ rows (λ row m. All-Mem _ (counters (some row)) (λ n k. counter_of row n m k)))

-- The realms to ask for are the default one and every counter of every row, the current one and the
-- prior ones: each of these is there, no other is, and none is there twice.
pub realm_kdms_lem :
    (rows : List RealmRow)
    → Nodup (realm_kdms rows)
      × Mem null_kdm (realm_kdms rows)
      × All
          (λ row.
            All
              (λ n. Mem (record { label = row.label; index = pos n }) (realm_kdms rows))
              (counters (some row)))
          rows
      × All (IsAsked rows) (realm_kdms rows)
realm_kdms_lem rows =
    let (once, default, covers) = realm_kdms-Covers rows in
    (once, default, covers, realm_kdms-IsAsked rows)
