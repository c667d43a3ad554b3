-- ===== src/Sqlite/Batch/Atomic.antt =====
-- A batch is stored completely or not at all, over a library that keeps its transactions.
use ormpp.Base.{
  ℕ, ◌+◌, ◌==◌, Bool, true, false, List, [], ◌∷◌, map, Option, none, some, if◌then◌else◌, Bytes,
  codes, length, Bool-cases, inl, inr, ◌⊎◌, ◌≡◌, refl, sym, ap, ◌∙◌,
}
use mathlib.Core.Path.{subst}
use ormpp.Utility.Keys.{Entity, Registry}
use ormpp.Sqlite.{
  StepResult, row, done, failed, Bound, Library, Driver, reset_error, set_last_error, with_handle,
  set_errmsg, checked, begin, commit, rollback,
}
use ormpp.Sqlite.Statement.{
  OptType, Object, Field, bound_of, bound_members, set_param_bind, bind_all, bind_next, counted,
  after_step, after_bind, stmt_execute, closed, guarded, prepared,
}
use ormpp.Sqlite.Batch.{
  rolled_back, after_reset, after_item, insert_all, opened, transact, sized, insert_or_update_impl,
}

-- What SQLite documents of its transactions, on what the connection reads (`content`) and what it would read after a
-- rollback (`saved`, which is `content` where no transaction is open). `Ready` says that the current statement writes
-- rows and is no transaction command, `Open` that a transaction is open besides. A step that fails may have rolled back.
pub record Transactional {Db Tables : Type 0} (lib : Library Db) (content saved : Db → Tables)
    (Ready Open : Db → Type 0) : Type 0 where
  pub begin_keeps : (h : Db) → content (lib.exec (codes "BEGIN") h).1 ≡ content h
  pub begin_saves :
      (h : Db)
      → (lib.exec (codes "BEGIN") h).0 ≡ true
      → saved (lib.exec (codes "BEGIN") h).1 ≡ content h
  pub begin_opens :
      (h : Db)
      → Ready h
      → (lib.exec (codes "BEGIN") h).0 ≡ true
      → Open (lib.exec (codes "BEGIN") h).1
  pub rollback_restores : (h : Db) → content (lib.exec (codes "ROLLBACK") h).1 ≡ saved h
  pub commit_fails :
      (h : Db)
      → Open h
      → (lib.exec (codes "COMMIT") h).0 ≡ false
      → saved (lib.exec (codes "COMMIT") h).1 ≡ saved h
  pub prepare_keeps : (sql : Bytes) (h : Db) → content (lib.prepare sql h).1 ≡ content h
  pub bind_saved :
      (i : ℕ) (value : Bound) (h : Db)
      → Open h
      → (saved (lib.bind i value h).1 ≡ saved h) × Open (lib.bind i value h).1
  pub step_saved : (h : Db) → Open h → saved (lib.step h).1 ≡ saved h
  pub step_opens : (h : Db) → Open h → (lib.step h).0 ≡ done → Open (lib.step h).1
  pub reset_saved : (h : Db) → Open h → saved (lib.reset h).1 ≡ saved h
  pub reset_opens : (h : Db) → Open h → (lib.reset h).0 ≡ true → Open (lib.reset h).1
  pub finalize_keeps : (h : Db) → content (lib.finalize h).1 ≡ content h
  pub finalize_saved : (h : Db) → saved (lib.finalize h).1 ≡ saved h

-- A COMMIT failed, `h` is where that and the guard of the statement have left the library, and a rollback would
-- bring these tables back.
abbrev pub CommitFailed : {Db Tables : Type 0} → Library Db → (Db → Tables) → Tables → Db → Type 0
CommitFailed {Db} lib saved s h =
    (g : Db) × ((lib.exec (codes "COMMIT") g).0 ≡ false)
    × (h ≡ (lib.finalize (lib.exec (codes "COMMIT") g).1).1)
    × (saved h ≡ s)

module _ {Db Tables : Type 0} (lib : Library Db) (content saved : Db → Tables)
    (Ready Open : Db → Type 0) (laws : Transactional lib content saved Ready Open) where
  -- The transaction that would bring these tables back is open.
  abbrev Live : Tables → Db → Type 0
  Live s h = (saved h ≡ s) × Open h

  bind_all-Live :
      (values : List Field) (i : ℕ) (s : Tables) (h : Db)
      → Live s h
      → Live s (bind_all lib values i h).1
  unfolding bind_all set_param_bind
  bind_all-Live [] i s h e = e
  bind_all-Live (v ∷ values) i s h (e, running) =
      let (same, still) = laws.bind_saved (i + 1) (bound_of v) h running in
      next_Live (λ g. bind_all-Live values (i + 1) s g) (set_param_bind lib v (i + 1) h)
        (same ∙ e, still)
    where
      next_Live :
          ((g : Db) → Live s g → Live s (bind_all lib values (i + 1) g).1)
          → (r : Bool × Db) → Live s r.1
          → Live s (bind_next lib (bind_all lib values (i + 1)) r).1
      next_Live more (true, g) e = more g e
      next_Live more (false, g) e = e

  -- What one object leaves of the transaction `s`: open, where there is a result
  abbrev pub Went : Tables → Option ℕ × Driver Db → Type 0
  Went s (some n, d) = Live s d.handle × (d.transaction ≡ true)
  Went s (none, d) = (saved d.handle ≡ s) × (d.transaction ≡ true)

  step_Went :
      (type : OptType) (d : Driver Db) (r : StepResult × Db) (s : Tables)
      → d.transaction ≡ true
      → saved r.1 ≡ s
      → (r.0 ≡ done → Open r.1)
      → Went s (after_step lib type d r)
  unfolding set_errmsg set_last_error
  step_Went type d (done, h) s on e running = counted_Went (counted lib type (lib.changes h))
    where
      counted_Went : (o : Option ℕ) → Went s (o, with_handle d h)
      counted_Went (some n) = ((e, running refl), on)
      counted_Went none = (e, on)
  step_Went type d (row, h) s on e running = (e, on)
  step_Went type d (failed, h) s on e running = (e, on)

  bind_Went :
      (type : OptType) (d : Driver Db) (r : Bool × Db) (s : Tables)
      → d.transaction ≡ true
      → Live s r.1
      → Went s (after_bind lib type d r)
  unfolding set_errmsg set_last_error
  bind_Went type d (true, h) s on (e, running) =
      step_Went type d (lib.step h) s on (laws.step_saved h running ∙ e) (laws.step_opens h running)
  bind_Went type d (false, h) s on (e, running) = (e, on)

  stmt_execute-Went :
      (r : Registry) (t : Entity) (members : List Bytes) (object : Object) (type : OptType)
      (has_args : Bool) (s : Tables) (d : Driver Db)
      → d.transaction ≡ true
      → Live s d.handle
      → Went s (stmt_execute lib r t members object type has_args d)
  unfolding stmt_execute
  stmt_execute-Went r t members object type has_args s d on e =
      bind_Went type d
        (bind_all lib (map object (bound_members r t members type has_args)) 0 d.handle) s on
        (bind_all-Live (map object (bound_members r t members type has_args)) 0 s d.handle e)

  rollback_content : (d : Driver Db) → content (rollback lib d).1.handle ≡ saved d.handle
  unfolding rollback set_errmsg set_last_error reset_error
  rollback_content d = back (lib.exec (codes "ROLLBACK") d.handle) (laws.rollback_restores d.handle)
    where
      back :
          (r : Bool × Db)
          → content r.1 ≡ saved d.handle
          → content (checked lib (reset_error d) r).1.handle ≡ saved d.handle
      back (true, h) e = e
      back (false, h) e = e

  rolled_back_content :
      (d : Driver Db) → d.transaction ≡ true → content (rolled_back lib d).handle ≡ saved d.handle
  unfolding rolled_back
  rolled_back_content d on =
      ap (λ b. content (if b then (rollback lib d).1 else d).handle) on ∙ rollback_content d

  -- The loop under a transaction: at its end it is still open, or the connection reads what was saved.
  abbrev Held : Tables → Bool × Driver Db → Type 0
  Held s (true, d) = Live s d.handle × (d.transaction ≡ true)
  Held s (false, d) = content d.handle ≡ s

  reset_Held :
      (more : Driver Db → Bool × Driver Db) (s : Tables) (d : Driver Db) (r : Bool × Db)
      → saved r.1 ≡ s
      → (r.0 ≡ true → Open r.1)
      → d.transaction ≡ true
      → ((e : Driver Db) → Live s e.handle → e.transaction ≡ true → Held s (more e))
      → Held s (after_reset lib more d r)
  unfolding set_errmsg set_last_error
  reset_Held more s d (true, h) e running on go = go (with_handle d h) (e, running refl) on
  reset_Held more s d (false, h) e running on go = rolled_back_content (with_handle d h) on ∙ e

  item_Held :
      (more : Driver Db → Bool × Driver Db) (s : Tables) (r : Option ℕ × Driver Db)
      → Went s r
      → ((e : Driver Db) → Live s e.handle → e.transaction ≡ true → Held s (more e))
      → Held s (after_item lib more r)
  item_Held more s (none, d) (e, on) go = rolled_back_content d on ∙ e
  item_Held more s (some n, d) ((e, running), on) go =
      reset_Held more s d (lib.reset d.handle) (laws.reset_saved d.handle running ∙ e)
        (laws.reset_opens d.handle running) on go

  -- What a failed batch leaves before the guard: the content from before, or what a failed COMMIT leaves.
  abbrev Undone : Tables → Bool × Driver Db → Type 0
  Undone s (true, d) = Unit
  Undone s (false, d) =
      (content d.handle ≡ s)
      ⊎ ((g : Db) × ((lib.exec (codes "COMMIT") g).0 ≡ false)
          × (d.handle ≡ (lib.exec (codes "COMMIT") g).1)
          × (saved d.handle ≡ s))

  module _ (run : Object → Driver Db → Option ℕ × Driver Db)
      (went : (o : Object) (s : Tables) (d : Driver Db)
        → d.transaction ≡ true
        → Live s d.handle
        → Went s (run o d)) where
    insert_all-Held :
        (objects : List Object) (s : Tables) (d : Driver Db)
        → Live s d.handle
        → d.transaction ≡ true
        → Held s (insert_all lib run objects d)
    unfolding insert_all
    insert_all-Held [] s d e on = (e, on)
    insert_all-Held (o ∷ objects) s d e on =
        item_Held (insert_all lib run objects) s (run o d) (went o s d on e)
          (λ f g k. insert_all-Held objects s f g k)

    commit-Undone : (s : Tables) (d : Driver Db) → Live s d.handle → Undone s (commit lib d)
    unfolding commit set_errmsg set_last_error reset_error
    commit-Undone s d (e, running) = go (lib.exec (codes "COMMIT") d.handle) refl
      where
        go :
            (r : Bool × Db)
            → r ≡ lib.exec (codes "COMMIT") d.handle
            → Undone s (checked lib (reset_error d) r)
        go (true, h) q = tt
        go (false, h) q =
            let refused : (lib.exec (codes "COMMIT") d.handle).0 ≡ false =
              sym (ap (λ (p : Bool × Db). p.0) q) in
            let at : h ≡ (lib.exec (codes "COMMIT") d.handle).1 = ap (λ (p : Bool × Db). p.1) q in
            inr
              (d.handle, refused, at, ap saved at ∙ laws.commit_fails d.handle running refused ∙ e)

    finish_Undone :
        (s : Tables) (r : Bool × Driver Db) → Held s r → Undone s (opened lib (commit lib) r)
    finish_Undone s (true, d) h = commit-Undone s d h.0
    finish_Undone s (false, d) h = inl h

    begun_Undone :
        (objects : List Object) (s : Tables) (d : Driver Db) (r : Bool × Db)
        → d.transaction ≡ true
        → content r.1 ≡ s
        → (r.0 ≡ true → Live s r.1)
        → Undone s (
            opened lib
              (commit lib)
              (opened lib (insert_all lib run objects) (checked lib (reset_error d) r)))
    unfolding set_errmsg set_last_error reset_error
    begun_Undone objects s d (true, h) on e f =
        let begun : Driver Db = with_handle (reset_error d) h in
        finish_Undone s (insert_all lib run objects begun)
          (insert_all-Held objects s begun (f refl) on)
    begun_Undone objects s d (false, h) on e f = inl e

    transact-Undone :
        (objects : List Object) (d : Driver Db)
        → d.transaction ≡ true
        → Ready d.handle
        → Undone (content d.handle) (transact lib run objects d)
    unfolding transact begin
    transact-Undone objects d on ready =
        let begun : Bool × Db = lib.exec (codes "BEGIN") d.handle in
        subst
          (λ b. Undone (content d.handle) (
            if b
            then opened lib (commit lib)
                (opened lib (insert_all lib run objects) (checked lib (reset_error d) begun))
            else insert_all lib run objects d))
          (sym on)
          (begun_Undone objects (content d.handle) d begun on (laws.begin_keeps d.handle)
            (λ ok. (laws.begin_saves d.handle ok, laws.begin_opens d.handle ready ok)))

  -- The same of the result, behind the guard of the statement
  abbrev Final : Tables → Option ℕ × Driver Db → Type 0
  Final s (some n, d) = Unit
  Final s (none, d) = (content d.handle ≡ s) ⊎ CommitFailed lib saved s d.handle

  closed_handle : (d : Driver Db) (r : ℕ × Db) → (closed lib d r).handle ≡ r.1
  unfolding set_last_error
  closed_handle d (status, h) = elim (Bool-cases (status == 0)) [ inl e ↦ rw e | inr e ↦ rw e ]

  counted-Final :
      (get_insert_id : Bool) (n : ℕ) (s : Tables) (r : Bool × Driver Db)
      → Undone s r
      → Final s (guarded lib (sized lib get_insert_id n r))
  counted-Final get_insert_id n s (true, d) h = tt
  counted-Final get_insert_id n s (false, d) (inl h) =
      inl (ap content (closed_handle d (lib.finalize d.handle)) ∙ laws.finalize_keeps d.handle ∙ h)
  counted-Final get_insert_id n s (false, d) (inr (g, refused, at, e)) =
      let shut : (closed lib d (lib.finalize d.handle)).handle ≡ (lib.finalize d.handle).1 =
        closed_handle d (lib.finalize d.handle) in
      inr (
        g,
        refused,
        shut ∙ ap (λ k. (lib.finalize k).1) at,
        ap saved shut ∙ laws.finalize_saved d.handle ∙ e,
      )

  prepared-Final :
      (run : Driver Db → Option ℕ × Driver Db) (d : Driver Db) (r : Bool × Db)
      → content r.1 ≡ content d.handle
      → (r.0 ≡ true → Ready r.1)
      → d.transaction ≡ true
      → ((e : Driver Db)
          → e.transaction ≡ true
          → Ready e.handle
          → Final (content e.handle) (guarded lib (run e)))
      → Final (content d.handle) (prepared lib none run d r)
  unfolding set_errmsg set_last_error reset_error
  prepared-Final run d (false, h) e ready on go = inl e
  prepared-Final run d (true, h) e ready on go =
      let f : Driver Db = reset_error (with_handle d h) in
      subst (λ s. Final s (guarded lib (run f))) e (go f on (ready refl))

  left :
      (s : Tables) (result : Option ℕ × Driver Db)
      → Final s result
      → result.0 ≡ none
      → (content result.1.handle ≡ s) ⊎ CommitFailed lib saved s result.1.handle
  left s (none, d) h e = h
  left s (some n, d) h e = cc e

  -- With transactions on, a batch whose text writes rows and which returns nothing has stored nothing: the connection
  -- reads what it read before, or else a COMMIT failed as its last step but the guard of the statement, and a rollback
  -- would bring that back. It holds of each failure: of the statement, the BEGIN, a bind, a step and a reset.
  pub insert_or_update_impl-atomic :
      (r : Registry) (t : Entity) (members : List Bytes) (objects : List Object) (sql : Bytes)
      (type : OptType) (get_insert_id has_args : Bool) (d : Driver Db)
      → d.transaction ≡ true
      → ((lib.prepare sql d.handle).0 ≡ true → Ready (lib.prepare sql d.handle).1)
      → (insert_or_update_impl lib r t members objects sql type get_insert_id has_args d).0 ≡ none
      → let after : Db =
          (insert_or_update_impl lib r t members objects sql type get_insert_id has_args
            d).1.handle in
        (content after ≡ content d.handle) ⊎ CommitFailed lib saved (content d.handle) after
  unfolding insert_or_update_impl
  insert_or_update_impl-atomic r t members objects sql type get_insert_id has_args d on ready =
      let run : Object → Driver Db → Option ℕ × Driver Db =
        λ object. stmt_execute lib r t members object type has_args in
      let body : Driver Db → Option ℕ × Driver Db =
        λ e. sized lib get_insert_id (length objects) (transact lib run objects e) in
      left (content d.handle) (prepared lib none body d (lib.prepare sql d.handle)) (
        prepared-Final body d (lib.prepare sql d.handle) (laws.prepare_keeps sql d.handle) ready on
          (λ e f written.
            counted-Final get_insert_id (length objects) (content e.handle)
              (transact lib run objects e)
              (transact-Undone run (λ o s g. stmt_execute-Went r t members o type has_args s g)
                objects e f written)))
