-- ===== src/Stores/Cursor/Project.antt =====
-- `projectCursors` and `cursorOf` of web/src/stores/cursor.ts, over the cursors of one host.
use diplomatic.Base.{
  All, Bool, Bool-cases, List, Option, [], ap, append-nil, append_assoc, arith, false,
  if◌then◌else◌, inl, inr, keep, none, not, refl, some, sym, true, ◌&&◌, ◌++◌, ◌↔◌, ◌∙◌, ◌∷◌, ◌≡◌,
}
use diplomatic.Base.Int.{==ℤ_iff, ltb_ℤ, pos, ℤ, ◌==ℤ◌, ◌≤ℤ◌}
use diplomatic.Base.Keyed.{
  Fresh, IsMap, bytes_key, bytes_same, bytes_same_iff, insert, lookup, lookup-insert,
}
use diplomatic.Base.Maps.{Holds}
use diplomatic.Stores.Cursor.{
  HostSeqsUpdate, RealmCursor, cursor_of, find_cursor, find_seqs, is_default_realm, last_seq_of,
  later_seq, next_cursor, or_null, project_cursors, same_realm, some_seqs, split_cursors,
}
use diplomatic.Stores.Keys.{realm_key, realm_key_injective}
use diplomatic.Text.{Str}
use diplomatic.Wire.Kdm.{Kdm, null_kdm}
use mathlib.Core.Path.{ap₂, subst}

-- The cursors of a host by the keys of their realms.
abbrev pub Bucket : Type 0
Bucket = List (Str × RealmCursor)

pub values : {K V : Type 0} → List (K × V) → List V
values [] = []
values ((key, v) ∷ m) = v ∷ values m

-- Each cursor stands under the key of its realm, and no key stands twice.
abbrev IsKeyed : Bucket → Type 0
IsKeyed b = All (λ e. e.0 ≡ realm_key e.1.kdm) b

abbrev pub IsBucket : Bucket → Type 0
IsBucket b = IsMap b × IsKeyed b

pub same_realm_iff : (a b : Kdm) → (same_realm a b ≡ true) ↔ (a ≡ b)
unfolding same_realm
same_realm_iff a b = (
  λ e.
      let (l, i) = both (bytes_same a.label b.label) (a.index ==ℤ b.index) e in
      ap₂ (λ l i. record { label = l; index = i }) ((bytes_same_iff a.label b.label).0 l)
        ((==ℤ_iff a.index b.index).0 i),
  λ e. rw (e, (bytes_same_iff b.label b.label).1 refl) ((==ℤ_iff b.index b.index).1 refl),
)
  where
    both : (a b : Bool) → (a && b) ≡ true → (a ≡ true) × (b ≡ true)
    both true b e = (refl, e)
    both false b e = cc

pub realm_key_iff : (a b : Kdm) → bytes_same (realm_key a) (realm_key b) ≡ same_realm a b
realm_key_iff a b = elim (Bool-cases (same_realm a b)) [
  | inl e ↦ (bytes_same_iff _ _).1 (ap realm_key ((same_realm_iff a b).0 e)) ∙ sym e
  | inr e ↦ elim (Bool-cases (bytes_same (realm_key a) (realm_key b))) [
    | inl f ↦ cc ((same_realm_iff a b).1 (realm_key_injective a b ((bytes_same_iff _ _).0 f)))
    | inr f ↦ f ∙ sym e
  ]
]

-- The cursor of a realm, 0 where there is none.
pub cursor_in : Kdm → Bucket → ℤ
cursor_in realm b = last_seq_of (lookup (realm_key realm) b)

is_named : RealmCursor → Bool
is_named c = not (same_realm c.kdm null_kdm)

split_cursors-seqs :
    (cs : List RealmCursor) (last_seq : ℤ) (seqs : List RealmCursor)
    → (split_cursors cs last_seq seqs).1 ≡ seqs ++ keep is_named cs
unfolding split_cursors is_named is_default_realm
split_cursors-seqs [] last_seq seqs = sym (append-nil seqs)
split_cursors-seqs (c ∷ cs) last_seq seqs = elim (Bool-cases (same_realm c.kdm null_kdm)) [
  | inl e ↦ rw e (split_cursors-seqs cs c.last_seq seqs)
  | inr e ↦ rw e (
      split_cursors-seqs cs last_seq (seqs ++ (c ∷ []))
      ∙ append_assoc seqs (c ∷ []) (keep is_named cs))
]

other_realm :
    (a b : Kdm)
    → same_realm a null_kdm ≡ true
    → same_realm b null_kdm ≡ false
    → same_realm a b ≡ false
other_realm a b e n = elim (Bool-cases (same_realm a b)) [
  | inl f ↦ cc (n, subst (λ r. same_realm r null_kdm ≡ true) ((same_realm_iff a b).0 f) e)
  | inr f ↦ f
]

find_cursor-lookup :
    (realm : Kdm) (b : Bucket)
    → same_realm realm null_kdm ≡ false
    → IsKeyed b
    → find_cursor realm (keep is_named (values b)) ≡ lookup (realm_key realm) b
unfolding find_cursor lookup is_named values
find_cursor-lookup realm [] n h = refl
find_cursor-lookup realm ((key, c) ∷ b) n h =
    rw (h.0, realm_key_iff c.kdm realm)
      (elim (Bool-cases (same_realm c.kdm null_kdm)) [
        | inl e ↦ rw (e, other_realm c.kdm realm e n) (find_cursor-lookup realm b n h.1)
        | inr e ↦ rw (e, find_cursor-lookup realm b n h.1) refl
      ])

split_cursors-last :
    (b : Bucket) (last_seq : ℤ) (seqs : List RealmCursor)
    → Fresh (realm_key null_kdm) b
    → IsKeyed b
    → (split_cursors (values b) last_seq seqs).0 ≡ last_seq
unfolding split_cursors is_default_realm lookup values
split_cursors-last [] last_seq seqs n h = refl
split_cursors-last ((key, c) ∷ b) last_seq seqs n h =
    let e : same_realm c.kdm null_kdm ≡ false =
      sym (realm_key_iff c.kdm null_kdm)
      ∙ subst (λ k. bytes_same k (realm_key null_kdm) ≡ false) h.0 n.0 in
    rw e (split_cursors-last b last_seq (seqs ++ (c ∷ [])) n.1 h.1)

split_cursors-default :
    (b : Bucket) (seqs : List RealmCursor)
    → IsBucket b
    → (split_cursors (values b) (pos 0) seqs).0 ≡ cursor_in null_kdm b
unfolding split_cursors is_default_realm lookup values cursor_in last_seq_of
split_cursors-default [] seqs h = refl
split_cursors-default ((key, c) ∷ b) seqs (m, k) =
    rw (k.0, realm_key_iff c.kdm null_kdm)
      (elim (Bool-cases (same_realm c.kdm null_kdm)) [
        | inl e ↦ rw e (
            split_cursors-last b c.last_seq seqs
              (subst (λ r. Fresh r b) (k.0 ∙ ap realm_key ((same_realm_iff c.kdm null_kdm).0 e))
                m.0)
              k.1)
        | inr e ↦ rw e (split_cursors-default b (seqs ++ (c ∷ [])) (m.1, k.1))
      ])

some_seqs-find :
    (realm : Kdm) (cs : List RealmCursor) → find_seqs realm (some_seqs cs) ≡ find_cursor realm cs
unfolding find_seqs some_seqs find_cursor
some_seqs-find realm [] = refl
some_seqs-find realm (c ∷ cs) = refl

-- Projecting the cursors of a host onto its row and reading one of them gives what is stored under
-- the key of the realm, and 0 where nothing is, for each realm.
pub cursor_of-project_cursors :
    (b : Bucket) (realm : Option Kdm)
    → IsBucket b
    → cursor_of (project_cursors (values b)) realm ≡ cursor_in (or_null realm) b
unfolding cursor_of project_cursors is_default_realm cursor_in or_null
cursor_of-project_cursors b none h = split_cursors-default b [] h
cursor_of-project_cursors b (some realm) h = elim (Bool-cases (same_realm realm null_kdm)) [
  | inl e ↦ rw (e, (same_realm_iff realm null_kdm).0 e) (split_cursors-default b [] h)
  | inr e ↦
      rw (e, some_seqs-find realm, split_cursors-seqs (values b) (pos 0) [])
        (ap last_seq_of (find_cursor-lookup realm b e h.1))
]

pub cursor_in-insert :
    (r realm : Kdm) (seq : ℤ) (b : Bucket)
    → cursor_in realm (insert (realm_key r) (record { kdm = r; last_seq = seq }) b)
      ≡ (if same_realm r realm then seq else cursor_in realm b)
unfolding cursor_in last_seq_of
cursor_in-insert r realm seq b =
    rw
      (
        lookup-insert (realm_key r) (realm_key realm) (record { kdm = r; last_seq = seq }) b,
        realm_key_iff r realm,
      )
      (elim (Bool-cases (same_realm r realm)) [ inl e ↦ rw e refl | inr e ↦ rw e refl ])

abbrev pub max_ℤ : ℤ → ℤ → ℤ
max_ℤ a b = if ltb_ℤ a b then b else a

-- Without `setLastSeq`, the cursor changes only to a larger one.
pub next_cursor-later :
    (cur seq : ℤ)
    → next_cursor cur (record { last_seq = some seq; set_last_seq = none })
      ≡ (if ltb_ℤ cur seq then some seq else none)
unfolding next_cursor
next_cursor-later cur seq = refl

pub next_cursor-Forward :
    (cur : ℤ) (u : HostSeqsUpdate)
    → u.set_last_seq ≡ none
    → Holds (λ next. cur ≤ℤ next) (next_cursor cur u)
unfolding next_cursor later_seq
next_cursor-Forward cur u e = rw e (go u.last_seq)
  where
    go : (seq : Option ℤ) → Holds (λ next. cur ≤ℤ next) (later_seq cur seq)
    go none = tt
    go (some seq) = elim (Bool-cases (ltb_ℤ cur seq)) [
      | inl f ↦ rw f (ground (arith, f))
      | inr f ↦ rw f tt
    ]
