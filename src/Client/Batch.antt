-- ===== src/Client/Batch.antt =====
-- web/src/batch.ts: items are split into requests by a budget of bytes.
-- `size_of` is the caller's function.
use diplomatic.Base.{
  All, Bool, Bool-cases, List, [], ap, append-nil, append_assoc, arith, concat, concat-append,
  false, if◌then◌else◌, inl, inr, leb, length, length-append, ltb, not, refl, sym, true, ℕ, ◌&&◌,
  ◌++◌, ◌+◌, ◌∙◌, ◌∷◌, ◌≡◌, ◌≤◌, ◌⊎◌,
}
use mathlib.Core.Path.{subst}

-- The three variables of the loop.
record Batcher {ℓ} (A : Type ℓ) : Type ℓ where
  batches : List (List A)
  batch : List A
  bytes : ℕ

module _ {ℓ} {A : Type ℓ} where
  abbrev no_batch : Batcher A
  no_batch = record { batches = []; batch = []; bytes = 0 }

  abbrev is_empty : List A → Bool
  is_empty [] = true
  is_empty (x ∷ xs) = false

  is_empty-nil : (xs : List A) → is_empty xs ≡ true → xs ≡ []
  is_empty-nil [] e = refl
  is_empty-nil (x ∷ xs) e = cc

  is_empty-length : (xs : List A) → is_empty xs ≡ false → 1 ≤ length xs
  is_empty-length [] e = cc
  is_empty-length (x ∷ xs) e = omega arith

  push_batch : Batcher A → Batcher A
  push_batch b = record { batches = b.batches ++ (b.batch ∷ []); batch = []; bytes = 0 }

  make_room : ℕ → ℕ → Batcher A → Batcher A
  make_room limit size b =
      if not (is_empty b.batch) && ltb limit (b.bytes + size) then push_batch b else b

  push_item : A → ℕ → Batcher A → Batcher A
  push_item item size b = record {
    batches = b.batches;
    batch = b.batch ++ (item ∷ []);
    bytes = b.bytes + size;
  }

  push_full : ℕ → Batcher A → Batcher A
  push_full limit b = if leb limit b.bytes then push_batch b else b

  -- One round of the loop.
  add_item : ℕ → ℕ → A → Batcher A → Batcher A
  unfolding make_room push_item push_full
  add_item limit size item b = push_full limit (push_item item size (make_room limit size b))

  add_items : (A → ℕ) → ℕ → List A → Batcher A → Batcher A
  add_items size_of limit [] b = b
  add_items size_of limit (x ∷ xs) b = add_items size_of limit xs (add_item limit (size_of x) x b)

  push_last : Batcher A → List (List A)
  push_last b = if is_empty b.batch then b.batches else b.batches ++ (b.batch ∷ [])

  pub batch_by_bytes : List A → (A → ℕ) → ℕ → List (List A)
  batch_by_bytes items size_of limit = push_last (add_items size_of limit items no_batch)

  abbrev pub total : (A → ℕ) → List A → ℕ
  total size_of [] = 0
  total size_of (x ∷ xs) = size_of x + total size_of xs

  -- A request that may be sent: it has an item, and it is within the budget or one item alone.
  abbrev pub IsBatch : (A → ℕ) → ℕ → List A → Type 0
  IsBatch size_of limit xs = (1 ≤ length xs) × ((length xs ≡ 1) ⊎ (total size_of xs ≤ limit))

  All-append :
      (P : List A → Type 0) (xss : List (List A)) (xs : List A)
      → All P xss
      → P xs
      → All P (xss ++ (xs ∷ []))
  All-append P [] xs h p = (p, tt)
  All-append P (ys ∷ yss) xs h p = (h.0, All-append P yss xs h.1 p)

  total-append :
      (size_of : A → ℕ) (xs : List A) (x : A)
      → total size_of (xs ++ (x ∷ [])) ≡ total size_of xs + size_of x
  total-append size_of [] x = omega arith
  total-append size_of (y ∷ ys) x = omega (arith, total-append size_of ys x)

module _ {ℓ} {A : Type ℓ} (size_of : A → ℕ) (limit : ℕ) where
  -- What holds between two rounds, where `items` are those that were added. The open batch has
  -- room left, or the item alone that fills it.
  record IsBatching (items : List A) (b : Batcher A) : Type ℓ where
    whole : concat b.batches ++ b.batch ≡ items
    fit : All (IsBatch size_of limit) b.batches
    counted : b.bytes ≡ total size_of b.batch
    fits : (b.bytes ≤ limit) ⊎ (length b.batch ≡ 1)

  push_batch-IsBatching :
      (items : List A) (b : Batcher A)
      → IsBatching items b
      → 1 ≤ length b.batch
      → IsBatching items (push_batch b)
  unfolding push_batch
  push_batch-IsBatching items b h n = record {
    whole = rw (append-nil, concat-append, append-nil) h.whole;
    fit = All-append (IsBatch size_of limit) b.batches b.batch h.fit (n, fits);
    counted = refl;
    fits = inl (omega arith);
  }
    where
      fits : (length b.batch ≡ 1) ⊎ (total size_of b.batch ≤ limit)
      fits = elim h.fits [ inl e ↦ inr (omega (arith, h.counted)) | inr e ↦ inl e ]

  make_room-IsBatching :
      (items : List A) (size : ℕ) (b : Batcher A)
      → IsBatching items b
      → IsBatching items (make_room limit size b)
        × (((make_room limit size b).bytes + size ≤ limit) ⊎ ((make_room limit size b).batch ≡ []))
  unfolding make_room push_batch
  make_room-IsBatching items size b h = go (is_empty b.batch) refl (ltb limit (b.bytes + size)) refl
    where
      go :
          (n : Bool)
          → is_empty b.batch ≡ n
          → (t : Bool) → ltb limit (b.bytes + size) ≡ t
          → IsBatching items (make_room limit size b)
            × (((make_room limit size b).bytes + size ≤ limit)
                ⊎ ((make_room limit size b).batch ≡ []))
      go true e t f = rw e (h, inr (is_empty-nil b.batch e))
      go false e true f =
          rw (e, f) (push_batch-IsBatching items b h (is_empty-length b.batch e), inr refl)
      go false e false f = rw (e, f) (h, inl (ground arith))

  push_item-IsBatching :
      (items : List A) (item : A) (b : Batcher A)
      → IsBatching items b
      → (b.bytes + size_of item ≤ limit) ⊎ (b.batch ≡ [])
      → IsBatching (items ++ (item ∷ [])) (push_item item (size_of item) b)
  unfolding push_item
  push_item-IsBatching items item b h r = record {
    whole =
        sym (append_assoc (concat b.batches) b.batch (item ∷ []))
        ∙ ap (λ l. l ++ (item ∷ [])) h.whole;
    fit = h.fit;
    counted = omega (arith, h.counted, total-append size_of b.batch item);
    fits = elim r [ inl e ↦ inl e | inr e ↦ inr (rw e refl) ];
  }

  push_full-IsBatching :
      (items : List A) (b : Batcher A)
      → IsBatching items b
      → 1 ≤ length b.batch
      → IsBatching items (push_full limit b)
  unfolding push_full
  push_full-IsBatching items b h n = elim (Bool-cases (leb limit b.bytes)) [
    | inl e ↦ rw e (push_batch-IsBatching items b h n)
    | inr e ↦ rw e h
  ]

  add_item-IsBatching :
      (items : List A) (item : A) (b : Batcher A)
      → IsBatching items b
      → IsBatching (items ++ (item ∷ [])) (add_item limit (size_of item) item b)
  unfolding add_item push_item
  add_item-IsBatching items item b h =
      let (h', r) = make_room-IsBatching items (size_of item) b h in
      push_full-IsBatching _ _ (push_item-IsBatching items item _ h' r)
        (omega (arith, length-append (make_room limit (size_of item) b).batch (item ∷ [])))

  add_items-IsBatching :
      (items more : List A) (b : Batcher A)
      → IsBatching items b
      → IsBatching (items ++ more) (add_items size_of limit more b)
  unfolding add_items
  add_items-IsBatching items [] b h = rw append-nil h
  add_items-IsBatching items (x ∷ xs) b h =
      subst (λ l. IsBatching l (add_items size_of limit (x ∷ xs) b))
        (append_assoc items (x ∷ []) xs)
        (add_items-IsBatching (items ++ (x ∷ [])) xs _ (add_item-IsBatching items x b h))

  push_last_lem :
      (items : List A) (b : Batcher A)
      → IsBatching items b
      → (concat (push_last b) ≡ items) × All (IsBatch size_of limit) (push_last b)
  unfolding push_last push_batch
  push_last_lem items b h = go (is_empty b.batch) refl
    where
      go :
          (n : Bool)
          → is_empty b.batch ≡ n
          → (concat (push_last b) ≡ items) × All (IsBatch size_of limit) (push_last b)
      go true e = rw e (
        sym (append-nil _)
            ∙ subst (λ l. concat b.batches ++ l ≡ items) (is_empty-nil b.batch e) h.whole,
        h.fit,
      )
      go false e =
          let p = push_batch-IsBatching items b h (is_empty-length b.batch e) in
          rw e (sym (append-nil _) ∙ p.whole, p.fit)

  -- The requests hold the items in their order, each once, and every request has an item and is
  -- within the budget of bytes, unless it is one item alone.
  pub batch_by_bytes_lem :
      (items : List A)
      → (concat (batch_by_bytes items size_of limit) ≡ items)
        × All (IsBatch size_of limit) (batch_by_bytes items size_of limit)
  unfolding batch_by_bytes
  batch_by_bytes_lem items = push_last_lem items _ (
      add_items-IsBatching [] items no_batch
        (record { whole = refl; fit = tt; counted = refl; fits = inl (omega arith) }))
