-- ===== src/Stores/Realm/Puts.antt =====
-- What `put` of web/src/stores/memory/realms.ts leaves of the counters of a realm.
use mathlib.Core.List.Perm
use diplomatic.Base.{
  Bool-cases, List, Option, [], append-nil, arith, false, if◌then◌else◌, inl, inr, ltb, ltb→lt, map,
  none, refl, some, sym, ℕ, ◌++◌, ◌<◌, ◌∙◌, ◌∷◌, ◌≡◌, ◌≤◌,
}
use diplomatic.Base.Int.{pos}
use diplomatic.Base.Keyed.{bytes_key, bytes_same, bytes_same_iff, insert, lookup-insert}
use diplomatic.Consts.{invalid_param}
use diplomatic.Exec.{Done, ValStat, continue, err, modify, ok, query, ◌>>=◌}
use diplomatic.Stores.Realm.{
  RealmRow, RealmStore, Scalar, advance_from, advance_realm, advance_to, as_index, decode_indexes,
  decode_realm, get_realm, integer, or_none, put_realm, raw_of, raw_prior, some_prior, with_prior,
}
use diplomatic.Text.{Str}
use mathlib.Core.List.{Mem, mem-cons_of_mem, perm_middle}
use mathlib.Core.Path.{subst}

-- The counters of a row, the current one first.
abbrev pub counters : Option RealmRow → List ℕ
counters none = []
counters (some row) = row.index ∷ or_none row.prior

abbrev current : Option RealmRow → ℕ
current none = 0
current (some row) = row.index

-- The answer to a call of `put`, over the row of its label before and after.
pub data IsPut (label : Str) (raw : Scalar) (rows : RealmStore)
    : ValStat Done × RealmStore → Type 0 where
  no_index : as_index raw ≡ none → IsPut label raw rows (err invalid_param, rows)
  too_low :
      (n : ℕ)
      → as_index raw ≡ some n
      → n < current (get_realm label rows)
      → IsPut label raw rows (err invalid_param, rows)
  stored :
      (n : ℕ) (next : RealmRow) (rows' : RealmStore)
      → as_index raw ≡ some n
      → current (get_realm label rows) ≤ n
      → get_realm label rows' ≡ some next
      → next.index ≡ n
      → ((m : ℕ) → Mem m (counters (get_realm label rows)) → Mem m (counters (some next)))
      → ((key : Str) → bytes_same label key ≡ false → get_realm key rows' ≡ get_realm key rows)
      → IsPut label raw rows (ok tt, rows')

decode_indexes-map : (ns : List ℕ) → decode_indexes (map (λ (n : ℕ). integer (pos n)) ns) ≡ some ns
unfolding decode_indexes as_index
decode_indexes-map [] = refl
decode_indexes-map (n ∷ ns) = rw (decode_indexes-map ns) refl

-- No row is stored with an empty `prior`.
abbrev tidy : Option (List ℕ) → Option (List ℕ)
tidy none = none
tidy (some ns) = some_prior ns

decode-raw_of :
    (row : RealmRow)
    → decode_realm (raw_of (some row)) ≡ some (record row { prior = tidy row.prior })
unfolding decode_realm as_index with_prior
decode-raw_of row = go row.prior
  where
    go :
        (prior : Option (List ℕ))
        → with_prior row.label row.index (raw_prior prior)
          ≡ some (record row { prior = tidy prior })
    go none = refl
    go (some ns) = rw (with_prior, decode_indexes-map ns) refl

abbrev tidied : RealmRow → RealmRow
tidied row = record row { prior = tidy row.prior }

get_realm-insert :
    (label key : Str) (row : RealmRow) (rows : RealmStore)
    → get_realm key (insert label row rows)
      ≡ (if bytes_same label key then some (tidied row) else get_realm key rows)
unfolding get_realm
get_realm-insert label key row rows =
    rw (lookup-insert label key row rows) (elim (Bool-cases (bytes_same label key)) [
      | inl e ↦ rw (e, decode-raw_of row) refl
      | inr e ↦ rw e refl
    ])

or_none-tidy : (prior : Option (List ℕ)) → or_none (tidy prior) ≡ or_none prior
unfolding or_none some_prior
or_none-tidy none = refl
or_none-tidy (some []) = refl
or_none-tidy (some (n ∷ ns)) = refl

insert-IsPut :
    (label : Str) (raw : Scalar) (rows : RealmStore) (n : ℕ) (next : RealmRow)
    → as_index raw ≡ some n
    → current (get_realm label rows) ≤ n
    → next.index ≡ n
    → ((m : ℕ) → Mem m (counters (get_realm label rows)) → Mem m (counters (some next)))
    → IsPut label raw rows (ok tt, insert label next rows)
insert-IsPut label raw rows n next e l i keeps =
    stored n (tidied next) (insert label next rows) e l
      (get_realm-insert label label next rows ∙ rw ((bytes_same_iff label label).1 refl) refl) i
      (λ m h. rw (or_none-tidy next.prior) (keeps m h))
      (λ key f. get_realm-insert label key next rows ∙ rw f refl)

mem_cons : (m n : ℕ) {ns : List ℕ} → Mem m ns → Mem m (n ∷ ns)
mem_cons m n h = mem-cons_of_mem n h

moved : (m n : ℕ) (ns : List ℕ) → Mem m (n ∷ ns) → Mem m (ns ++ (n ∷ []))
moved m n ns h =
    (Perm.mem_iff (perm_middle ns [])).1 (subst (λ l. Mem m (n ∷ l)) (sym (append-nil ns)) h)

same : (i n : ℕ) → ltb n i ≡ false → ltb i n ≡ false → i ≡ n
same i n l k = ground arith

with_counter :
    (label : Str) (raw : Scalar) (rows : RealmStore) (n : ℕ) (prev : Option RealmRow)
    → as_index raw ≡ some n
    → get_realm label rows ≡ prev
    → IsPut label raw rows
        (continue (advance_from label prev n, rows) (λ next. modify (insert label next)))
unfolding advance_from modify
with_counter label raw rows n none e g =
    insert-IsPut label raw rows n _ e (rw g (omega arith)) refl
      (λ m h. mem_cons m n (subst (λ r. Mem m (counters r)) g h))
with_counter label raw rows n (some prev) e g = elim (Bool-cases (ltb n prev.index)) [
  | inl l ↦ rw l (too_low n e (rw g (ltb→lt n prev.index l)))
  | inr l ↦ rw l (elim (Bool-cases (ltb prev.index n)) [
    | inl k ↦ rw k (
        insert-IsPut label raw rows n _ e (rw g (ground arith)) refl (λ m h.
          mem_cons m n
            (moved m prev.index (or_none prev.prior) (subst (λ r. Mem m (counters r)) g h))))
    | inr k ↦ rw k (
        insert-IsPut label raw rows n _ e (rw g (ground arith)) refl (λ m h.
          subst (λ i. Mem m (i ∷ or_none prev.prior)) (same prev.index n l k)
            (subst (λ r. Mem m (counters r)) g h)))
  ])
]

-- A call of `put` is refused with InvalidParam and changes no row, exactly where the index is no
-- integer from 0 on or is below the current one; and otherwise it becomes the current one, every
-- counter of the realm stays known, and no other realm changes.
pub put_realm_lem :
    (label : Str) (raw : Scalar) (rows : RealmStore)
    → IsPut label raw rows (put_realm label raw rows)
unfolding put_realm advance_realm ◌>>=◌ query
put_realm_lem label raw rows = go (as_index raw) refl
  where
    go :
        (i : Option ℕ)
        → as_index raw ≡ i
        → IsPut label raw rows (
            continue
              (advance_to label (get_realm label rows) (as_index raw), rows)
              (λ next. modify (insert label next)))
    go none e = rw e (no_index e)
    go (some n) e = rw e (with_counter label raw rows n (get_realm label rows) e refl)
