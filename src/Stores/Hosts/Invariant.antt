-- ===== src/Stores/Hosts/Invariant.antt =====
-- What the methods of web/src/stores/memory/hosts.ts keep of the two maps.
use diplomatic.Base.{All, Bool-cases, List, Option, [], inl, inr, none, some, sym, ◌∙◌, ◌∷◌, ◌≡◌}
use diplomatic.Base.Int.{ℤ}
use diplomatic.Base.Keyed.{
  Fresh, IsMap, bytes_key, bytes_same_iff, erase, insert, insert-IsMap, lookup,
}
use diplomatic.Base.Maps.{All-erase, All-insert, Holds, erase-IsMap, lookup-Holds}
use diplomatic.Exec.{fail, modify}
use diplomatic.Stores.Cursor.{HostSeqsUpdate, or_null}
use diplomatic.Stores.Cursor.Project.{Bucket, IsBucket}
use diplomatic.Stores.Hosts.{
  HostMeta, HostRow, HostStore, del_host, get_host, is_some, list_hosts, merge_meta, or_bucket,
  project, project_all, put_row, record_seqs, set_host, store_cursor, touch,
}
use diplomatic.Stores.Keys.{realm_key}
use diplomatic.Text.{Str}
use diplomatic.Wire.Kdm.{Kdm}

insert-IsBucket :
    (r : Kdm) (seq : ℤ) (b : Bucket)
    → IsBucket b
    → IsBucket (insert (realm_key r) (record { kdm = r; last_seq = seq }) b)
insert-IsBucket r seq b h = (
  insert-IsMap (realm_key r) _ b h.0,
  All-insert (λ e. e.0 ≡ realm_key e.1.kdm) (realm_key r) _ b
      (λ j e. (bytes_same_iff j (realm_key r)).0 e) h.1,
)

module _ {H : Type 0} where
  -- No label stands twice, each row has the label that it stands under, and each host's cursors
  -- stand under the keys of their realms.
  pub record IsStore (s : HostStore H) : Type 0 where
    pub hosts : IsMap s.hosts
    pub labels : All (λ e. e.0 ≡ e.1.info.label) s.hosts
    pub cursors : IsMap s.cursors
    pub buckets : All (λ e. IsBucket e.1) s.cursors

module _ {H : Type 0} where
  -- A row that is found has the label that was asked for.
  pub labelled :
      (label : Str) (s : HostStore H)
      → IsStore s
      → Holds (λ row. row.info.label ≡ label) (lookup label s.hosts)
  labelled label s h =
      lookup-Holds (λ e. e.0 ≡ e.1.info.label) (λ row. row.info.label ≡ label) label s.hosts
        (λ j row e p. sym p ∙ (bytes_same_iff j label).0 e) h.labels

  pub or_bucket-IsBucket :
      (label : Str) (s : HostStore H) → IsStore s → IsBucket (or_bucket (lookup label s.cursors))
  unfolding or_bucket
  or_bucket-IsBucket label s h =
      go (lookup label s.cursors)
        (lookup-Holds (λ e. IsBucket e.1) IsBucket label s.cursors (λ j b e p. p) h.buckets)
    where
      go : (b : Option Bucket) → Holds IsBucket b → IsBucket (or_bucket b)
      go none h = (tt, tt)
      go (some b) h = h

  -- A row is replaced by one with the same label.
  pub insert-IsStore :
      (label : Str) (row : HostRow H) (s : HostStore H)
      → row.info.label ≡ label
      → IsStore s
      → IsStore (record s { hosts = insert label row s.hosts })
  insert-IsStore label row s e h = record {
    hosts = insert-IsMap label row s.hosts h.hosts;
    labels =
        All-insert (λ e. e.0 ≡ e.1.info.label) label row s.hosts
          (λ j f. (bytes_same_iff j label).0 f ∙ sym e) h.labels;
    cursors = h.cursors;
    buckets = h.buckets;
  }

  pub erase-IsStore :
      (label : Str) (s : HostStore H)
      → IsStore s
      → IsStore (record s { cursors = erase label s.cursors })
  erase-IsStore label s h = record {
    hosts = h.hosts;
    labels = h.labels;
    cursors = erase-IsMap label s.cursors h.cursors;
    buckets = All-erase (λ e. IsBucket e.1) label s.cursors h.buckets;
  }

  store_cursor-IsStore :
      (label : Str) (r : Kdm) (next : Option ℤ) (s : HostStore H)
      → IsStore s
      → IsStore (store_cursor label r next s)
  unfolding store_cursor
  store_cursor-IsStore label r none s h = h
  store_cursor-IsStore label r (some next) s h = record {
    hosts = h.hosts;
    labels = h.labels;
    cursors = insert-IsMap label _ s.cursors h.cursors;
    buckets =
        All-insert (λ e. IsBucket e.1) label _ s.cursors
          (λ j e. insert-IsBucket r next _ (or_bucket-IsBucket label s h)) h.buckets;
  }

  pub record_seqs-IsStore :
      (label : Str) (u : HostSeqsUpdate) (realm : Option Kdm) (s : HostStore H)
      → IsStore s
      → IsStore (record_seqs label u realm s).1
  unfolding record_seqs modify
  record_seqs-IsStore label u realm s h = elim (Bool-cases (is_some (lookup label s.hosts))) [
    | inl e ↦ rw e (store_cursor-IsStore label (or_null realm) _ s h)
    | inr e ↦ rw e h
  ]

  pub touch-IsStore :
      (label : Str) (seq : ℤ) (realm : Option Kdm) (s : HostStore H)
      → IsStore s
      → IsStore (touch label seq realm s).1
  unfolding touch
  touch-IsStore label seq realm s h = record_seqs-IsStore label _ realm s h

  pub get_host-IsStore : (label : Str) (s : HostStore H) → IsStore s → IsStore (get_host label s).1
  unfolding get_host project
  get_host-IsStore label s h = go (lookup label s.hosts) (labelled label s h)
    where
      go :
          (row : Option (HostRow H))
          → Holds (λ r. r.info.label ≡ label) row
          → IsStore (put_row label row s).1
      go none l = h
      go (some row) l = insert-IsStore label (project s.cursors row) s l h

  pub set_host-IsStore :
      (label : Str) (m : HostMeta) (s : HostStore H) → IsStore s → IsStore (set_host label m s).1
  unfolding set_host fail modify
  set_host-IsStore label m s h = go (lookup label s.hosts) (labelled label s h)
    where
      go :
          (row : Option (HostRow H))
          → Holds (λ r. r.info.label ≡ label) row
          → IsStore (merge_meta label m row s).1
      go none l = h
      go (some row) l = insert-IsStore label _ s l h

  pub del_host-IsStore : (label : Str) (s : HostStore H) → IsStore s → IsStore (del_host label s).1
  unfolding del_host modify
  del_host-IsStore label s h = record {
    hosts = erase-IsMap label s.hosts h.hosts;
    labels = All-erase (λ e. e.0 ≡ e.1.info.label) label s.hosts h.labels;
    cursors = erase-IsMap label s.cursors h.cursors;
    buckets = All-erase (λ e. IsBucket e.1) label s.cursors h.buckets;
  }

  project_all-Fresh :
      (key : Str) (cursors : List (Str × Bucket)) (rows : List (Str × HostRow H))
      → Fresh key rows
      → Fresh key (project_all cursors rows)
  unfolding project_all
  project_all-Fresh key cursors [] h = tt
  project_all-Fresh key cursors ((label, row) ∷ rows) h =
      (h.0, project_all-Fresh key cursors rows h.1)

  project_all-IsMap :
      (cursors : List (Str × Bucket)) (rows : List (Str × HostRow H))
      → IsMap rows
      → IsMap (project_all cursors rows)
  unfolding project_all
  project_all-IsMap cursors [] h = tt
  project_all-IsMap cursors ((label, row) ∷ rows) h =
      (project_all-Fresh label cursors rows h.0, project_all-IsMap cursors rows h.1)

  project_all-labels :
      (cursors : List (Str × Bucket)) (rows : List (Str × HostRow H))
      → All (λ e. e.0 ≡ e.1.info.label) rows
      → All (λ e. e.0 ≡ e.1.info.label) (project_all cursors rows)
  unfolding project_all
  project_all-labels cursors [] h = tt
  project_all-labels cursors ((label, row) ∷ rows) h = (h.0, project_all-labels cursors rows h.1)

  pub list_hosts-IsStore : (s : HostStore H) → IsStore s → IsStore (list_hosts s).1
  unfolding list_hosts
  list_hosts-IsStore s h = record {
    hosts = project_all-IsMap s.cursors s.hosts h.hosts;
    labels = project_all-labels s.cursors s.hosts h.labels;
    cursors = h.cursors;
    buckets = h.buckets;
  }
