-- ===== src/Storage/Refines.antt =====
-- The store over the database does what the map promises.
use polarix.Prelude.{
  ◌≡◌, refl, sym, ap, subst, ◌∙◌, ◌≢◌, ◌⊎◌, inl, inr, Option, none, some, List, [], ◌∷◌,
  if◌then◌else◌, Option-cases, Text, is_empty,
}
use polarix.Storage.Database.{
  Bytes, Json, Key, Sql, Statement, busy_timeout, create_table, journal_mode, synchronous,
}
use polarix.Storage.{
  Answer, Storage, answer_of, default_db_path, done, ensure_db, open_locked, run_statements,
  with_db,
}
use polarix.Storage.Map.{IsDatabaseError, IsRow, IsView, KeyMap, path_of}

-- `r` does what `spec` says, or reports an error of the database and leaves the map as it was.
abbrev pub IsGood :
    {D V : Type 0} → Sql D → Json V → KeyMap V → KeyMap V × Answer V → Storage D × Answer V → Type 0
IsGood sql json m spec r =
    (IsDatabaseError r.1 × IsView sql json r.0 m) ⊎ ((r.1 ≡ spec.1) × IsView sql json r.0 spec.0)

module _ {D V : Type 0} (sql : Sql D) (json : Json V) where
  -- Opening keeps the rows at the path; the path is that of the open database, unless it fails.
  IsOpened : Storage D → Text → Storage D × Option Text → Type 0
  IsOpened s path (t, e) =
      (t.db_path ≡ s.db_path)
      × ((k : Key) → sql.rows t.files path k ≡ sql.rows s.files path k)
      × (((e ≡ none) × (t.db ≡ some path)) ⊎ ((e ≢ none) × (t.db ≡ s.db)))

  run_statements-IsOpened :
      (cs : List Statement) (s : Storage D) (path : Text)
      → IsOpened s path (run_statements sql json s path cs)
  unfolding IsOpened run_statements
  run_statements-IsOpened [] s path = (refl, λ k. refl, inl (refl, refl))
  run_statements-IsOpened (c ∷ cs) s path = elim (Option-cases (sql.exec s.files path c).1) [
    | inr (x, e) ↦
        rw (e, run_statements)
          (
            refl,
            λ k. sql.exec_rows s.files path c k,
            inr (λ n. let clash : some x ≡ none = n in cc, refl),
          )
    | inl e ↦
        let next = record s { files = (sql.exec s.files path c).0 } in
        let (kept, rest, ends) = run_statements-IsOpened cs next path in
        rw (e, run_statements) (kept, λ k. rest k ∙ sql.exec_rows s.files path c k, ends)
  ]

  open_locked-IsOpened :
      (s : Storage D) (path : Text) → IsOpened s path (open_locked sql json s path)
  unfolding IsOpened open_locked
  open_locked-IsOpened s path = elim (Option-cases (sql.dial s.files path).1) [
    | inr (x, e) ↦
        rw (e, open_locked)
          (
            refl,
            λ k. sql.dial_rows s.files path k,
            inr (λ n. let clash : some x ≡ none = n in cc, refl),
          )
    | inl e ↦
        let next = record s { files = (sql.dial s.files path).0 } in
        let (kept, rest, ends) =
          run_statements-IsOpened (journal_mode ∷ busy_timeout ∷ synchronous ∷ create_table ∷ [])
            next path in
        rw (e, open_locked) (kept, λ k. rest k ∙ sql.dial_rows s.files path k, ends)
  ]

  -- The view is that of the rows at the path.
  unfoldable pub IsViewAt : Storage D → Text → KeyMap V → Type 0
  IsViewAt s path m = (k : Key) → IsRow sql json (sql.rows s.files path k) (m k)

  view_kept :
      (s t : Storage D) (path : Text) (m : KeyMap V)
      → ((k : Key) → sql.rows t.files path k ≡ sql.rows s.files path k)
      → IsViewAt s path m
      → IsViewAt t path m
  unfolding IsViewAt
  view_kept s t path m kept h k =
      subst (λ (o : Option Bytes). IsRow sql json o (m k)) (sym (kept k)) (h k)

  or_default : Text → Text
  or_default p = if is_empty p then default_db_path else p

  or_default-twice : (p : Text) → or_default (or_default p) ≡ or_default p
  unfolding or_default
  or_default-twice [] = refl
  or_default-twice (c ∷ p) = refl

  path_open : (s : Storage D) (path : Text) → s.db ≡ some path → path_of sql json s ≡ path
  path_open s path e = rw e refl

  path_closed : (s : Storage D) → s.db ≡ none → path_of sql json s ≡ or_default s.db_path
  unfolding or_default
  path_closed s e = rw e refl

  opened-path :
      (s : Storage D) (path : Text) (r : Storage D × Option Text)
      → IsOpened s path r
      → s.db ≡ none
      → or_default s.db_path ≡ path
      → path_of sql json r.0 ≡ path
  unfolding IsOpened
  opened-path s path (t, e) (kept, rest, ends) closed default = elim ends [
    | inl (fine, at) ↦ path_open t path at
    | inr (error, at) ↦ path_closed t (at ∙ closed) ∙ ap or_default kept ∙ default
  ]

  ensure_db-view :
      (s : Storage D) (m : KeyMap V)
      → IsView sql json s m
      → let (t, path, e) = ensure_db sql json s in (IsViewAt t path m × (path_of sql json t ≡ path))
  unfolding ensure_db IsViewAt IsOpened or_default
  ensure_db-view s m h = elim (Option-cases s.db) [
    | inr (path, at) ↦
        rw (at, ensure_db)
          (subst (λ (p : Text). IsViewAt s p m) (path_open s path at) h, path_open s path at)
    | inl closed ↦
        let path = or_default s.db_path in
        let next = record s { db_path = path } in
        let o = open_locked-IsOpened next path in
        rw (closed, ensure_db)
          (
            view_kept next (open_locked sql json next path).0 path m o.1
                (subst (λ (p : Text). IsViewAt s p m) (path_closed s closed) h),
            opened-path next path (open_locked sql json next path) o closed
                (or_default-twice s.db_path),
          )
  ]

  -- An operation that is good with the open database is good.
  pub with_db-IsGood :
      (s : Storage D) (m : KeyMap V) (spec : KeyMap V × Answer V)
      (next : Storage D → Text → Storage D × Answer V)
      → IsView sql json s m
      → ((t : Storage D) (path : Text)
          → IsViewAt t path m
          → path_of sql json t ≡ path
          → IsGood sql json m spec (next t path))
      → IsGood sql json m spec (with_db sql json s next)
  unfolding IsViewAt
  with_db-IsGood s m spec next h good =
      let (view, at) = ensure_db-view s m h in
      elim (Option-cases (ensure_db sql json s).2) [
        | inl e ↦ rw (e, with_db) (good (ensure_db sql json s).0 (ensure_db sql json s).1 view at)
        | inr (x, e) ↦ rw (e, with_db) (inl (tt, rw at view))
      ]

  -- A change of the rows that is the map's change, or fails and changes nothing.
  pub changed-IsGood :
      (t : Storage D) (path : Text) (m n : KeyMap V) (r : D × Option Text)
      → IsViewAt t path m
      → path_of sql json t ≡ path
      → (r.1 ≡ none → IsViewAt (record t { files = r.0 }) path n)
      → ((x : Text) (k : Key) → r.1 ≡ some x → sql.rows r.0 path k ≡ sql.rows t.files path k)
      → IsGood sql json m (n, done) (record t { files = r.0 }, answer_of r.1)
  unfolding IsViewAt
  changed-IsGood t path m n (files, e) h at fine fails = elim (Option-cases e) [
    | inl none_at ↦ rw none_at (
        inr (
          refl,
          subst (λ (p : Text). IsViewAt (record t { files = files }) p n) (sym at) (fine none_at),
        ))
    | inr (x, some_at) ↦ rw some_at (
        inl (
          tt,
          subst (λ (p : Text). IsViewAt (record t { files = files }) p m) (sym at)
              (view_kept t (record t { files = files }) path m (λ k. fails x k some_at) h),
        ))
  ]
