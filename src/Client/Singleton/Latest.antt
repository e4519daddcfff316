-- ===== src/Client/Singleton/Latest.antt =====
-- The content that `SingletonStateManager` of shared/singleton.ts keeps.
use diplomatic.Base.{
  All, Bool-cases, List, [], ap, arith, false, inl, inr, none, refl, true, ◌+◌, ◌∷◌, ◌≡◌, ◌⊎◌,
}
use diplomatic.Base.Int.{ltb_ℤ, ℤ, ◌<ℤ◌, ◌≤ℤ◌}
use diplomatic.Client.Singleton.{
  Singleton, apply_singleton, is_about, is_present, new_singleton, supersedes, take_message,
  take_messages,
}
use diplomatic.EntDb.State.{Message}
use diplomatic.Text.{Str}
use mathlib.Core.List.{Mem, mem-cons_of_mem, mem-cons_self}
use mathlib.Core.Path.{subst}

module _ (type : Str) where
  -- What holds of a state and of the one that the messages leave.
  record IsTaken (msgs : List Message) (s r : Singleton) : Type 0 where
    all :
        All
          (λ m.
            is_about type m ≡ true → (is_present r.latest ≡ true) × (m.head.off ≤ℤ r.latest_off))
          msgs
    old : is_present s.latest ≡ true → (is_present r.latest ≡ true) × (s.latest_off ≤ℤ r.latest_off)
    found :
        (r ≡ s)
        ⊎ ((m : Message) × Mem m msgs
            × (is_about type m ≡ true)
            × (r.latest ≡ m.bod)
            × (r.latest_off ≡ m.head.off))

  -- Each message about the singleton has a body.
  abbrev pub HaveBodies : List Message → Type 0
  HaveBodies msgs = All (λ m. is_about type m ≡ true → is_present m.bod ≡ true) msgs

  kept :
      (msg : Message) (msgs : List Message) (s r : Singleton)
      → (is_about type msg ≡ true → (is_present s.latest ≡ true) × (msg.head.off ≤ℤ s.latest_off))
      → IsTaken msgs s r
      → IsTaken (msg ∷ msgs) s r
  kept msg msgs s r h t = record {
    all = (λ q. let (p, l) = h q in let (p', l') = t.old p in (p', omega (arith, l, l')), t.all);
    old = t.old;
    found = elim t.found [
      | inl e ↦ inl e
      | inr (m, i, a, b, o) ↦ inr (m, mem-cons_of_mem msg i, a, b, o)
    ];
  }

  renewed :
      (msg : Message) (msgs : List Message) (s r : Singleton)
      → is_about type msg ≡ true
      → is_present msg.bod ≡ true
      → supersedes msg s ≡ true
      → IsTaken msgs
          (record { latest = msg.bod; latest_off = msg.head.off; emitted = s.emitted + 1 })
          r
      → IsTaken (msg ∷ msgs) s r
  unfolding supersedes
  renewed msg msgs s r a b c t =
      let (p, l) = t.old b in
      record {
        all = (λ q. (p, l), t.all);
        old = λ q. (p, later q l);
        found = elim t.found [
          | inl e ↦ inr (
            msg,
            mem-cons_self,
            a,
            ap (λ (x : Singleton). x.latest) e,
            ap (λ (x : Singleton). x.latest_off) e,
          )
          | inr (m, i, a', b', o) ↦ inr (m, mem-cons_of_mem msg i, a', b', o)
        ];
      }
    where
      later :
          is_present s.latest ≡ true → msg.head.off ≤ℤ r.latest_off → s.latest_off ≤ℤ r.latest_off
      later q l = ground (arith, q, c, l)

  take_messages-IsTaken :
      (msgs : List Message) (s : Singleton)
      → HaveBodies msgs
      → IsTaken msgs s (take_messages type msgs s)
  unfolding take_messages take_message
  take_messages-IsTaken [] s h = record { all = tt; old = λ q. (q, omega arith); found = inl refl }
  take_messages-IsTaken (msg ∷ msgs) s h = elim (Bool-cases (is_about type msg)) [
    | inl a ↦ elim (Bool-cases (supersedes msg s)) [
      | inl c ↦ rw (a, c) (renewed msg msgs s _ a (h.0 a) c (take_messages-IsTaken msgs _ h.1))
      | inr c ↦
          rw (a, c)
            (kept msg msgs s _ (λ q. unfold supersedes in ground (arith, c))
              (take_messages-IsTaken msgs s h.1))
    ]
    | inr a ↦ rw a (kept msg msgs s _ (λ q. cc) (take_messages-IsTaken msgs s h.1))
  ]

  -- The content after a batch on a new manager.
  pub data IsLatest (msgs : List Message) (r : Singleton) : Type 0 where
    nothing_about : All (λ m. is_about type m ≡ false) msgs → r.latest ≡ none → IsLatest msgs r
    newest :
        (m : Message)
        → Mem m msgs
        → is_about type m ≡ true
        → r.latest ≡ m.bod
        → All (λ m'. is_about type m' ≡ true → m'.head.off ≤ℤ m.head.off) msgs
        → IsLatest msgs r

  absent : (r : Singleton) → r ≡ new_singleton → is_present r.latest ≡ true → ⊥
  unfolding is_present
  absent r e p = cc (p, ap (λ (x : Singleton). is_present x.latest) e)

  none_about :
      (msgs : List Message) (r : Singleton)
      → r ≡ new_singleton
      → All
          (λ m.
            is_about type m ≡ true → (is_present r.latest ≡ true) × (m.head.off ≤ℤ r.latest_off))
          msgs
      → All (λ m. is_about type m ≡ false) msgs
  none_about [] r e h = tt
  none_about (m ∷ msgs) r e h = (
    elim (Bool-cases (is_about type m)) [ inl a ↦ absurd (absent r e (h.0 a).0) | inr a ↦ a ],
    none_about msgs r e h.1,
  )

  offsets_bounded :
      (msgs : List Message) (r : Singleton) (off : ℤ)
      → r.latest_off ≡ off
      → All
          (λ m.
            is_about type m ≡ true → (is_present r.latest ≡ true) × (m.head.off ≤ℤ r.latest_off))
          msgs
      → All (λ m. is_about type m ≡ true → m.head.off ≤ℤ off) msgs
  offsets_bounded [] r off e h = tt
  offsets_bounded (m ∷ msgs) r off e h =
      ((λ q. subst (λ z. m.head.off ≤ℤ z) e (h.0 q).1), offsets_bounded msgs r off e h.1)

  -- After a batch on a new manager there is no content only where no message is about the singleton;
  -- and otherwise it is the body of one of them, such that none of them has a higher offset. Each
  -- message about the singleton is to have a body.
  pub apply_singleton_lem :
      (msgs : List Message)
      → HaveBodies msgs
      → IsLatest msgs (apply_singleton type msgs new_singleton).1
  unfolding apply_singleton
  apply_singleton_lem msgs h =
      let r = take_messages type msgs new_singleton in
      let t = take_messages-IsTaken msgs new_singleton h in
      elim t.found [
        | inl e ↦ nothing_about (none_about msgs r e t.all) (ap (λ (x : Singleton). x.latest) e)
        | inr (m, i, a, b, o) ↦ newest m i a b (offsets_bounded msgs r m.head.off o t.all)
      ]

  -- A message without a body that takes the place of an older one with content: in this order the
  -- content is gone, and in the other order the older content is back.
  pub singleton_order :
      (gone old : Message)
      → is_about type gone ≡ true
      → is_about type old ≡ true
      → gone.bod ≡ none
      → old.head.off <ℤ gone.head.off
      → ((apply_singleton type (old ∷ gone ∷ []) new_singleton).1.latest ≡ none)
        × ((apply_singleton type (gone ∷ old ∷ []) new_singleton).1.latest ≡ old.bod)
  unfolding apply_singleton take_messages take_message supersedes is_present
  singleton_order gone old a b n l =
      let later : ltb_ℤ old.head.off gone.head.off ≡ true = ground (arith, l) in
      (
        elim (Bool-cases (is_present old.bod)) [
          | inl p ↦ rw (a, b, later, p, n) refl
          | inr p ↦ rw (a, b, later, p, n) refl
        ],
        rw (a, b, n) refl,
      )
