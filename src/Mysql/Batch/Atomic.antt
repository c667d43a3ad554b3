-- ===== src/Mysql/Batch/Atomic.antt =====
-- A batch is stored completely or not at all, over a library that keeps its transactions.
use ormpp.Base.{
  ℕ, Bool, true, false, ◌&&◌, List, [], ◌∷◌, map, Option, none, some, if◌then◌else◌, Bytes, codes,
  length, inl, inr, ◌⊎◌, ◌≡◌, refl, sym, ap, ◌∙◌,
}
use mathlib.Core.Path.{subst}
use ormpp.Utility.Keys.{Entity, Registry}
use ormpp.Mysql.{
  Library, Driver, Parameter, reset_error, set_last_error, with_con, set_error, set_stmt_error,
  checked, begin, commit, rollback,
}
use ormpp.Mysql.Parameters.{set_param_bind}
use ormpp.Mysql.Statement.{
  OptType, Object, bound_members, closed, guarded, stmt_call, after_init, executing, stored,
  with_prepared, stmt_execute,
}
use ormpp.Mysql.Statement.Closed.{closed_con}
use ormpp.Mysql.Batch.{
  rolled_back, after_item, insert_all, and_then, transact, sized, insert_or_update_impl,
}

-- What the manual states of transactions with a table engine that has them, on what the connection reads (`content`)
-- and what it would read after a rollback (`saved`, which is `content` where no transaction is open). `Ready` says that
-- the current statement writes rows and is no transaction command, `Open` that a transaction is open besides. A
-- statement or a COMMIT that fails may have rolled back, and a ROLLBACK may be refused.
pub record Transactional {Db Tables : Type 0} (lib : Library Db) (content saved : Db → Tables)
    (Ready Open : Db → Type 0) : Type 0 where
  pub begin_keeps : (h : Db) → content (lib.query (codes "BEGIN") h).1 ≡ content h
  pub begin_saves :
      (h : Db)
      → (lib.query (codes "BEGIN") h).0 ≡ true
      → saved (lib.query (codes "BEGIN") h).1 ≡ content h
  pub begin_opens :
      (h : Db)
      → Ready h
      → (lib.query (codes "BEGIN") h).0 ≡ true
      → Open (lib.query (codes "BEGIN") h).1
  pub rollback_restores :
      (h : Db)
      → (lib.query (codes "ROLLBACK") h).0 ≡ true
      → content (lib.query (codes "ROLLBACK") h).1 ≡ saved h
  pub rollback_fails :
      (h : Db)
      → (lib.query (codes "ROLLBACK") h).0 ≡ false
      → saved (lib.query (codes "ROLLBACK") h).1 ≡ saved h
  pub commit_fails :
      (h : Db)
      → Open h
      → (lib.query (codes "COMMIT") h).0 ≡ false
      → saved (lib.query (codes "COMMIT") h).1 ≡ saved h
  pub init_keeps : (h : Db) → content (lib.stmt_init h).1 ≡ content h
  pub prepare_keeps : (sql : Bytes) (h : Db) → content (lib.stmt_prepare sql h).1 ≡ content h
  pub bind_saved :
      (ps : List Parameter) (h : Db)
      → Open h
      → (saved (lib.stmt_bind_param ps h).1 ≡ saved h) × Open (lib.stmt_bind_param ps h).1
  pub execute_saved : (h : Db) → Open h → saved (lib.stmt_execute h).1 ≡ saved h
  pub execute_opens :
      (h : Db) → Open h → (lib.stmt_execute h).0 ≡ true → Open (lib.stmt_execute h).1
  pub close_keeps : (h : Db) → content (lib.stmt_close h).1 ≡ content h
  pub close_saved : (h : Db) → saved (lib.stmt_close h).1 ≡ saved h

module _ {Db Tables : Type 0} (lib : Library Db) (content saved : Db → Tables) where
  -- A COMMIT or a ROLLBACK failed and has left the connection so, and a rollback would bring these tables back.
  abbrev pub Refused : Tables → Db → Type 0
  Refused s h =
      (sql : Bytes) × ((sql ≡ codes "COMMIT") ⊎ (sql ≡ codes "ROLLBACK"))
      × (g : Db) × ((lib.query sql g).0 ≡ false)
      × (h ≡ (lib.query sql g).1)
      × (saved h ≡ s)

  -- What a failed batch leaves: the connection reads these tables, or else a COMMIT or a ROLLBACK was refused as the
  -- last step but the guard of the statement, and a rollback would bring them back.
  abbrev pub Restorable : Tables → Db → Type 0
  Restorable s h =
      (content h ≡ s) ⊎ ((g : Db) × (h ≡ (lib.stmt_close g).1) × (saved h ≡ s) × Refused s g)

  refused :
      (sql : Bytes) (s : Tables) (h : Db) (r : Bool × Db)
      → (sql ≡ codes "COMMIT") ⊎ (sql ≡ codes "ROLLBACK")
      → r ≡ lib.query sql h
      → r.0 ≡ false
      → saved r.1 ≡ s
      → Refused s r.1
  refused sql s h r which q bad e =
      (sql, which, h, sym (ap (λ (p : Bool × Db). p.0) q) ∙ bad, ap (λ (p : Bool × Db). p.1) q, e)

  -- Before the guard
  abbrev Ended : Tables → Db → Type 0
  Ended s h = (content h ≡ s) ⊎ Refused s h

  abbrev Undone : Tables → Bool × Driver Db → Type 0
  Undone s (true, d) = Unit
  Undone s (false, d) = Ended s d.con

  -- The same of the result
  abbrev Final : Tables → Option ℕ × Driver Db → Type 0
  Final s (some n, d) = Unit
  Final s (none, d) = Restorable s d.con

module _ {Db Tables : Type 0} (lib : Library Db) (content saved : Db → Tables)
    (Ready Open : Db → Type 0) (laws : Transactional lib content saved Ready Open) where
  -- The transaction that would bring these tables back is open.
  abbrev Live : Tables → Driver Db → Type 0
  Live s d = (saved d.con ≡ s) × Open d.con × (d.transaction ≡ true)

  -- The loop under a transaction
  abbrev Held : Tables → Bool × Driver Db → Type 0
  Held s (true, d) = Live s d
  Held s (false, d) = Ended lib content saved s d.con

  -- What one object leaves of the transaction `s`: open, where there is a result
  abbrev Went : Tables → Option ℕ × Driver Db → Type 0
  Went s (some n, d) = Live s d
  Went s (none, d) = (saved d.con ≡ s) × (d.transaction ≡ true)

  -- A call on the statement, and what follows it
  call_Went :
      (more : Driver Db → Option ℕ × Driver Db) (d : Driver Db) (r : Bool × Db) (s : Tables)
      → d.transaction ≡ true
      → saved r.1 ≡ s
      → (r.0 ≡ true → Open r.1)
      → ((e : Driver Db) → Live s e → Went s (more e))
      → Went s (stmt_call lib none more d r)
  unfolding set_stmt_error set_last_error
  call_Went more d (true, con) s on e running go = go (with_con d con) (e, running refl, on)
  call_Went more d (false, con) s on e running go = (e, on)

  stored-Went :
      (type : OptType) (s : Tables) (d : Driver Db) → Live s d → Went s (stored lib type d)
  stored-Went type s d (e, running, on) = by_result (stored lib type d).0
    where
      by_result : (o : Option ℕ) → Went s (o, d)
      by_result (some n) = (e, running, on)
      by_result none = (e, on)

  stmt_execute-Went :
      (r : Registry) (t : Entity) (members : List Bytes) (object : Object) (type : OptType)
      (has_args : Bool) (s : Tables) (d : Driver Db)
      → Live s d
      → Went s (stmt_execute lib r t members object type has_args d)
  unfolding stmt_execute executing
  stmt_execute-Went r t members object type has_args s d (e, running, on) =
      let ps : List Parameter =
        map (λ name. set_param_bind (object name)) (bound_members r t members type has_args) in
      let (same, still) = laws.bind_saved ps d.con running in
      call_Went (executing lib none (stored lib type)) d (lib.stmt_bind_param ps d.con) s on
        (same ∙ e) (λ ok. still)
        (λ f (kept, opened, flag).
          call_Went (stored lib type) f (lib.stmt_execute f.con) s flag
            (laws.execute_saved f.con opened ∙ kept) (laws.execute_opens f.con opened)
            (stored-Went type s))

  rolled_back-Ended :
      (d : Driver Db) (s : Tables)
      → d.transaction ≡ true
      → saved d.con ≡ s
      → Ended lib content saved s (rolled_back lib d).con
  unfolding rolled_back rollback set_error set_last_error reset_error
  rolled_back-Ended d s on e =
      subst (λ b. Ended lib content saved s (if b then (rollback lib d).1 else d).con) (sym on)
        (back (lib.query (codes "ROLLBACK") d.con) refl (laws.rollback_restores d.con)
          (laws.rollback_fails d.con))
    where
      back :
          (r : Bool × Db)
          → r ≡ lib.query (codes "ROLLBACK") d.con
          → (r.0 ≡ true → content r.1 ≡ saved d.con)
          → (r.0 ≡ false → saved r.1 ≡ saved d.con)
          → Ended lib content saved s (checked lib (reset_error d) r).1.con
      back (true, h) q f g = inl (f refl ∙ e)
      back (false, h) q f g = inr (
          refused lib content saved (codes "ROLLBACK") s d.con (false, h) (inr refl) q refl
            (g refl ∙ e))

  module _ (run : Object → Driver Db → Option ℕ × Driver Db)
      (went : (o : Object) (s : Tables) (d : Driver Db) → Live s d → Went s (run o d)) where
    insert_all-Held :
        (objects : List Object) (s : Tables) (d : Driver Db)
        → Live s d
        → Held s (insert_all lib run objects d)
    unfolding insert_all
    insert_all-Held [] s d e = e
    insert_all-Held (o ∷ objects) s d e =
        item (insert_all lib run objects) (run o d) (went o s d e)
          (λ f g. insert_all-Held objects s f g)
      where
        item :
            (more : Driver Db → Bool × Driver Db) (r : Option ℕ × Driver Db)
            → Went s r
            → ((f : Driver Db) → Live s f → Held s (more f))
            → Held s (after_item lib more r)
        item more (none, f) (e, on) go = rolled_back-Ended f s on e
        item more (some n, f) e go = go f e

    commit-Undone :
        (s : Tables) (d : Driver Db) → Live s d → Undone lib content saved s (commit lib d)
    unfolding commit set_error set_last_error reset_error
    commit-Undone s d (e, running, on) =
        go (lib.query (codes "COMMIT") d.con) refl (laws.commit_fails d.con running)
      where
        go :
            (r : Bool × Db)
            → r ≡ lib.query (codes "COMMIT") d.con
            → (r.0 ≡ false → saved r.1 ≡ saved d.con)
            → Undone lib content saved s (checked lib (reset_error d) r)
        go (true, h) q f = tt
        go (false, h) q f = inr (
            refused lib content saved (codes "COMMIT") s d.con (false, h) (inl refl) q refl
              (f refl ∙ e))

    finish_Undone :
        (s : Tables) (r : Bool × Driver Db)
        → Held s r
        → Undone lib content saved s (and_then lib (commit lib) r)
    finish_Undone s (true, d) h = commit-Undone s d h
    finish_Undone s (false, d) h = h

    begun_Undone :
        (objects : List Object) (s : Tables) (d : Driver Db) (r : Bool × Db)
        → d.transaction ≡ true
        → content r.1 ≡ s
        → (r.0 ≡ true → saved r.1 ≡ s)
        → (r.0 ≡ true → Open r.1)
        → Undone lib content saved s (
            and_then lib
              (commit lib)
              (and_then lib (insert_all lib run objects) (checked lib (reset_error d) r)))
    unfolding set_error set_last_error reset_error
    begun_Undone objects s d (true, h) on e f running =
        let begun : Driver Db = with_con (reset_error d) h in
        finish_Undone s (insert_all lib run objects begun)
          (insert_all-Held objects s begun (f refl, running refl, on))
    begun_Undone objects s d (false, h) on e f running = inl e

    transact-Undone :
        (objects : List Object) (d : Driver Db)
        → d.transaction ≡ true
        → Ready d.con
        → Undone lib content saved (content d.con) (transact lib false run objects d)
    unfolding transact begin
    transact-Undone objects d on ready =
        let begun : Bool × Db = lib.query (codes "BEGIN") d.con in
        subst
          (λ b. Undone lib content saved (content d.con) (
            if b && true
            then and_then lib (commit lib)
                (and_then lib (insert_all lib run objects) (checked lib (reset_error d) begun))
            else insert_all lib run objects d))
          (sym on)
          (begun_Undone objects (content d.con) d begun on (laws.begin_keeps d.con)
            (laws.begin_saves d.con) (laws.begin_opens d.con ready))

  sized-Final :
      (n : ℕ) (s : Tables) (r : Bool × Driver Db)
      → Undone lib content saved s r
      → Final lib content saved s (guarded lib (sized lib false n r))
  unfolding guarded
  sized-Final n s (true, d) h = tt
  sized-Final n s (false, d) h =
      let shut : (closed lib d (lib.stmt_close d.con)).con ≡ (lib.stmt_close d.con).1 =
        closed_con lib d (lib.stmt_close d.con) in
      elim h [
        | inl e ↦ inl (ap content shut ∙ laws.close_keeps d.con ∙ e)
        | inr e ↦
            let (_, _, _, _, _, kept) = e in
            inr (d.con, shut, ap saved shut ∙ laws.close_saved d.con ∙ kept, e)
      ]

  prepared-Final :
      (sql : Bytes) (run : Driver Db → Option ℕ × Driver Db) (d : Driver Db)
      → d.transaction ≡ true
      → ((h : Db) → (lib.stmt_prepare sql h).0 ≡ true → Ready (lib.stmt_prepare sql h).1)
      → ((e : Driver Db)
          → e.transaction ≡ true
          → Ready e.con
          → Final lib content saved (content e.con) (guarded lib (run e)))
      → Final lib content saved (content d.con) (with_prepared lib none sql run d)
  unfolding with_prepared set_error set_stmt_error set_last_error reset_error
  prepared-Final sql run d on ready go = made (lib.stmt_init d.con) (laws.init_keeps d.con)
    where
      prepared :
          (e : Driver Db) (r : Bool × Db)
          → e.transaction ≡ true
          → content r.1 ≡ content d.con
          → (r.0 ≡ true → Ready r.1)
          → Final lib content saved
              (content d.con)
              (stmt_call lib none (λ f. guarded lib (run (reset_error f))) e r)
      prepared e (true, h) on f written =
          let g : Driver Db = reset_error (with_con e h) in
          subst (λ s. Final lib content saved s (guarded lib (run g))) f (go g on (written refl))
      prepared e (false, h) on f written = inl f

      made :
          (r : Bool × Db)
          → content r.1 ≡ content d.con
          → Final lib content saved (content d.con) (
              after_init lib none
                (λ e.
                  stmt_call lib none
                    (λ f. guarded lib (run (reset_error f)))
                    e
                    (lib.stmt_prepare sql e.con))
                d
                r)
      made (true, h) e =
          prepared (with_con d h) (lib.stmt_prepare sql h) on (laws.prepare_keeps sql h ∙ e)
            (ready h)
      made (false, h) e = inl e

  left :
      (s : Tables) (result : Option ℕ × Driver Db)
      → Final lib content saved s result
      → result.0 ≡ none
      → Restorable lib content saved s result.1.con
  left s (none, d) h e = h
  left s (some n, d) h e = cc e

  -- With transactions on and no key asked for, a vector whose text writes rows and whose insert or update returns
  -- nothing has stored nothing: the connection reads what it read before, or else a COMMIT or a ROLLBACK was refused as
  -- the last step but the guard of the statement, and a rollback would bring that back. It holds of each failure: of
  -- the statement, the BEGIN, a bind and an execution.
  pub insert_or_update_impl-Restorable :
      (r : Registry) (t : Entity) (members : List Bytes) (objects : List Object) (sql : Bytes)
      (type : OptType) (has_args : Bool) (d : Driver Db)
      → d.transaction ≡ true
      → ((h : Db) → (lib.stmt_prepare sql h).0 ≡ true → Ready (lib.stmt_prepare sql h).1)
      → (insert_or_update_impl lib r t members objects sql type false has_args d).0 ≡ none
      → Restorable lib content saved
          (content d.con)
          (insert_or_update_impl lib r t members objects sql type false has_args d).1.con
  unfolding insert_or_update_impl
  insert_or_update_impl-Restorable r t members objects sql type has_args d on ready =
      let run : Object → Driver Db → Option ℕ × Driver Db =
        λ object. stmt_execute lib r t members object type has_args in
      let body : Driver Db → Option ℕ × Driver Db =
        λ e. sized lib false (length objects) (transact lib false run objects e) in
      left (content d.con) (with_prepared lib none sql body d) (
        prepared-Final sql body d on ready (λ e f written.
          sized-Final (length objects) (content e.con) (transact lib false run objects e) (
            transact-Undone run (λ o s g. stmt_execute-Went r t members o type has_args s g) objects
              e f written)))
