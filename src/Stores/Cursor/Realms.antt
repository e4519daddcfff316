-- ===== src/Stores/Cursor/Realms.antt =====
-- `realmKDMs` of web/src/stores/cursor.ts leaves no realm out.
use mathlib.Core.List.Perm
use mathlib.Core.List.Pairwise
use diplomatic.Base.{
  All, Bool, Bool-cases, List, [], ap, append-nil, false, inl, inr, map, refl, some, sym, true, ℕ,
  ◌++◌, ◌||◌, ◌∙◌, ◌∷◌, ◌≡◌,
}
use diplomatic.Base.Int.{pos}
use diplomatic.Base.Keyed.{bytes_same, bytes_same_iff}
use diplomatic.Stores.Cursor.{
  Seen, add_kdm, add_kdms, add_rows, has_key, kdm_at, null_seen, realm_kdms,
}
use diplomatic.Stores.Keys.{realm_key, realm_key_injective}
use diplomatic.Stores.Realm.{RealmRow, or_none}
use diplomatic.Stores.Realm.Puts.{counters}
use diplomatic.Text.{Str}
use diplomatic.Wire.Kdm.{Kdm, null_kdm}
use mathlib.Core.List.{
  Mem, Nodup, Nodup-cons, mem-append_left, mem-append_right, mem-cons, mem-cons_of_mem,
  mem-cons_self, not-mem-nil, perm_middle,
}
use mathlib.Core.Logic.{∥∥₁_elim}
use mathlib.Core.Path.{subst}

-- The keys that were seen are those of the realms so far.
record IsSeen (s : Seen) : Type 0 where
  keys : s.seen ≡ map realm_key s.out
  once : Nodup s.out

later : (a b : Bool) → a ≡ false → (a || b) ≡ true → b ≡ true
later a b e f = cc

both_false : (a b : Bool) → (a || b) ≡ false → b ≡ false
both_false true b e = cc
both_false false b e = e

first_key :
    (realm k : Kdm) (ks : List Kdm)
    → realm ≡ k
    → has_key (realm_key realm) (map realm_key (k ∷ ks)) ≡ true
unfolding has_key
first_key realm k ks e =
    rw ((bytes_same_iff (realm_key k) (realm_key realm)).1 (ap realm_key (sym e))) refl

has_key-Mem :
    (realm : Kdm) (out : List Kdm)
    → has_key (realm_key realm) (map realm_key out) ≡ true
    → Mem realm out
unfolding has_key
has_key-Mem realm [] e = cc
has_key-Mem realm (k ∷ ks) e = elim (Bool-cases (bytes_same (realm_key k) (realm_key realm))) [
  | inl f ↦
      subst (λ r. Mem realm (r ∷ ks)) (sym (realm_key_injective k realm ((bytes_same_iff _ _).0 f)))
        mem-cons_self
  | inr f ↦
      mem-cons_of_mem k
        (has_key-Mem realm ks (later (bytes_same (realm_key k) (realm_key realm)) _ f e))
]

Mem-has_key :
    (realm : Kdm) (out : List Kdm)
    → has_key (realm_key realm) (map realm_key out) ≡ false
    → Mem realm out
    → ⊥
unfolding has_key
Mem-has_key realm [] e h = not-mem-nil h
Mem-has_key realm (k ∷ ks) e h = ∥∥₁_elim (mem-cons.0 h) (hlevel) (λ d. elim d [
  | inl q ↦ cc (e, first_key realm k ks q)
  | inr m ↦ Mem-has_key realm ks (both_false _ _ e) m
])

map-snoc :
    (out : List Kdm) (realm : Kdm)
    → map realm_key (out ++ (realm ∷ [])) ≡ map realm_key out ++ (realm_key realm ∷ [])
map-snoc [] realm = refl
map-snoc (k ∷ ks) realm = ap (λ l. realm_key k ∷ l) (map-snoc ks realm)

once_more :
    (realm : Kdm) (out : List Kdm) → Nodup out → (Mem realm out → ⊥) → Nodup (out ++ (realm ∷ []))
once_more realm out h n =
    Perm.nodup (Perm.symm (perm_middle out []))
      (subst (λ l. Nodup (realm ∷ l)) (sym (append-nil out)) (Nodup-cons.1 (n, h)))

add_kdm-IsSeen : (label : Str) (index : ℕ) (s : Seen) → IsSeen s → IsSeen (add_kdm label index s)
unfolding add_kdm
add_kdm-IsSeen label index s h =
    elim (Bool-cases (has_key (realm_key (kdm_at label index)) s.seen)) [
      | inl e ↦ rw e h
      | inr e ↦ rw e (record {
        keys =
            ap (λ l. l ++ (realm_key (kdm_at label index) ∷ [])) h.keys
            ∙ sym (map-snoc s.out (kdm_at label index));
        once = once_more (kdm_at label index) s.out h.once (
            Mem-has_key (kdm_at label index) s.out
              (ap (has_key (realm_key (kdm_at label index))) (sym h.keys) ∙ e));
      })
    ]

add_kdm-Mem :
    (label : Str) (index : ℕ) (s : Seen)
    → IsSeen s
    → Mem (kdm_at label index) (add_kdm label index s).out
unfolding add_kdm
add_kdm-Mem label index s h = elim (Bool-cases (has_key (realm_key (kdm_at label index)) s.seen)) [
  | inl e ↦ rw e (
      has_key-Mem (kdm_at label index) s.out
        (ap (has_key (realm_key (kdm_at label index))) (sym h.keys) ∙ e))
  | inr e ↦ rw e (mem-append_right s.out mem-cons_self)
]

add_kdm-keeps :
    (label : Str) (index : ℕ) (s : Seen) (realm : Kdm)
    → Mem realm s.out
    → Mem realm (add_kdm label index s).out
unfolding add_kdm
add_kdm-keeps label index s realm h =
    elim (Bool-cases (has_key (realm_key (kdm_at label index)) s.seen)) [
      | inl e ↦ rw e h
      | inr e ↦ rw e (mem-append_left (kdm_at label index ∷ []) h)
    ]

-- The realms that `s` has are in `t` too, with no realm twice.
record Grows (s t : Seen) : Type 0 where
  seen : IsSeen t
  keeps : (realm : Kdm) → Mem realm s.out → Mem realm t.out

add_kdms-Grows :
    (label : Str) (prior : List ℕ) (s : Seen) → IsSeen s → Grows s (add_kdms label prior s)
unfolding add_kdms
add_kdms-Grows label [] s h = record { seen = h; keeps = λ realm m. m }
add_kdms-Grows label (index ∷ prior) s h =
    let g = add_kdms-Grows label prior (add_kdm label index s) (add_kdm-IsSeen label index s h) in
    record { seen = g.seen; keeps = λ realm m. g.keeps realm (add_kdm-keeps label index s realm m) }

HasAll : Str → List ℕ → List Kdm → Type 0
HasAll label ns out = All (λ n. Mem (kdm_at label n) out) ns

HasAll-grows :
    (label : Str) (ns : List ℕ) (out out' : List Kdm)
    → ((realm : Kdm) → Mem realm out → Mem realm out')
    → HasAll label ns out
    → HasAll label ns out'
unfolding HasAll
HasAll-grows label [] out out' keeps h = tt
HasAll-grows label (n ∷ ns) out out' keeps h =
    (keeps _ h.0, HasAll-grows label ns out out' keeps h.1)

add_kdms-HasAll :
    (label : Str) (prior : List ℕ) (s : Seen)
    → IsSeen s
    → HasAll label prior (add_kdms label prior s).out
unfolding add_kdms HasAll
add_kdms-HasAll label [] s h = tt
add_kdms-HasAll label (index ∷ prior) s h =
    let h' = add_kdm-IsSeen label index s h in
    (
      (add_kdms-Grows label prior (add_kdm label index s) h').keeps _ (add_kdm-Mem label index s h),
      add_kdms-HasAll label prior (add_kdm label index s) h',
    )

abbrev Covers : List RealmRow → List Kdm → Type 0
Covers rows out = All (λ row. HasAll row.label (counters (some row)) out) rows

add_rows_lem :
    (rows : List RealmRow) (s : Seen)
    → IsSeen s
    → Grows s (add_rows rows s) × Covers rows (add_rows rows s).out
unfolding add_rows HasAll
add_rows_lem [] s h = (record { seen = h; keeps = λ realm m. m }, tt)
add_rows_lem (row ∷ rows) s h =
    let first = add_kdm-IsSeen row.label row.index s h in
    let g = add_kdms-Grows row.label (or_none row.prior) (add_kdm row.label row.index s) first in
    let (r, c) = add_rows_lem rows _ g.seen in
    (
      record {
        seen = r.seen;
        keeps =
            λ realm m. r.keeps realm (g.keeps realm (add_kdm-keeps row.label row.index s realm m));
      },
      (
        (
          r.keeps _ (g.keeps _ (add_kdm-Mem row.label row.index s h)),
          HasAll-grows row.label (or_none row.prior) _ _ r.keeps
              (add_kdms-HasAll row.label (or_none row.prior) (add_kdm row.label row.index s) first),
        ),
        c,
      ),
    )

-- What the rows call for is among the realms, and no realm is there twice.
pub realm_kdms-Covers :
    (rows : List RealmRow)
    → Nodup (realm_kdms rows)
      × Mem null_kdm (realm_kdms rows)
      × All
          (λ row.
            All
              (λ n. Mem (record { label = row.label; index = pos n }) (realm_kdms rows))
              (counters (some row)))
          rows
unfolding realm_kdms HasAll kdm_at
realm_kdms-Covers rows =
    let (g, c) =
      add_rows_lem rows null_seen
        (record { keys = refl; once = Nodup-cons.1 (not-mem-nil, Pairwise.nil) }) in
    (g.seen.once, g.keeps null_kdm mem-cons_self, c)
