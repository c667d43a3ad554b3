-- ===== src/Mysql/Statement/Closed.antt =====
-- The statements of the library that are open before and after a call of the driver.
use ormpp.Base.{
  ℕ, suc, ◌+◌, ◌-◌, ◌==◌, Bool, true, false, List, ◌∷◌, [], map, Option, none, some, if◌then◌else◌,
  Bytes, Bool-cases, inl, inr, ◌≡◌, refl, ap, ◌∙◌, arith,
}
use ormpp.Utility.Keys.{Entity, Registry}
use ormpp.Utility.Update.{generate_delete_sql}
use ormpp.Mysql.{
  Library, Driver, Parameter, Column, reset_error, set_last_error, with_con, set_error,
  set_stmt_error,
}
use ormpp.Mysql.Parameters.{Field, set_param_bind}
use ormpp.Mysql.Statement.{
  OptType, Object, bound_members, closed, guarded, stmt_call, with_statement, with_prepared,
  execute, bind_arguments, delete_records_s, stmt_execute, returned, after_init, executing,
  affected, deleted, stored, insert_or_update_one,
}

-- How the calls of the library change the number of its open statements
pub record Counted {Db : Type 0} (lib : Library Db) (live : Db → ℕ) : Type 0 where
  pub init_opens : (h : Db) → (lib.stmt_init h).0 ≡ true → live (lib.stmt_init h).1 ≡ suc (live h)
  pub init_fails : (h : Db) → (lib.stmt_init h).0 ≡ false → live (lib.stmt_init h).1 ≡ live h
  pub close_closes : (h : Db) → live (lib.stmt_close h).1 ≡ live h - 1
  pub prepare_keeps : (sql : Bytes) (h : Db) → live (lib.stmt_prepare sql h).1 ≡ live h
  pub bind_keeps : (ps : List Parameter) (h : Db) → live (lib.stmt_bind_param ps h).1 ≡ live h
  pub result_keeps : (cs : List Column) (h : Db) → live (lib.stmt_bind_result cs h).1 ≡ live h
  pub execute_keeps : (h : Db) → live (lib.stmt_execute h).1 ≡ live h
  pub metadata_keeps : (h : Db) → live (lib.stmt_result_metadata h).1 ≡ live h
  pub free_keeps : (h : Db) → live (lib.free_result h) ≡ live h
  pub fetch_keeps : (h : Db) → live (lib.stmt_fetch h).1 ≡ live h

module _ {Db : Type 0} (lib : Library Db) (live : Db → ℕ) where
  -- What is run on a statement leaves as many open as it finds.
  abbrev pub Keeps : {A : Type 0} → (Driver Db → A × Driver Db) → Type 0
  Keeps run = (d : Driver Db) → live (run d).1.con ≡ live d.con

  -- 1 where a statement is made and its text is refused
  abbrev pub refused_text : Bytes → Driver Db → ℕ
  refused_text sql d =
      let (made, con) = lib.stmt_init d.con in
      if made then (if (lib.stmt_prepare sql con).0 then 0 else 1) else 0

  pub stmt_call-live :
      {A : Type 0} (refused : A) (more : Driver Db → A × Driver Db) (d : Driver Db) (r : Bool × Db)
      (n : ℕ)
      → Keeps more
      → live r.1 ≡ n
      → live (stmt_call lib refused more d r).1.con ≡ n
  unfolding set_stmt_error set_last_error
  stmt_call-live refused more d (true, con) n h e = h (with_con d con) ∙ e
  stmt_call-live refused more d (false, con) n h e = e

pub closed_con :
    {Db : Type 0} (lib : Library Db) (d : Driver Db) (r : ℕ × Db) → (closed lib d r).con ≡ r.1
unfolding closed set_last_error
closed_con lib d (status, h) = elim (Bool-cases (status == 0)) [ inl e ↦ rw e | inr e ↦ rw e ]

module _ {Db : Type 0} (lib : Library Db) (live : Db → ℕ) (counted : Counted lib live) where
  pub guarded-live :
      {A : Type 0} (r : A × Driver Db) (n : ℕ)
      → live r.1.con ≡ suc n
      → live (guarded lib r).1.con ≡ n
  unfolding guarded
  guarded-live (result, d) n e =
      ap live (closed_con lib d (lib.stmt_close d.con))
      ∙ omega (arith, counted.close_closes d.con, e)

  pub with_statement-live :
      {A : Type 0} (refused : A) (sql : Bytes) (run : Driver Db → A × Driver Db)
      → Keeps lib live run
      → Keeps lib live (with_statement lib refused sql run)
  unfolding with_statement reset_error set_error set_last_error
  with_statement-live refused sql run h d =
      made (lib.stmt_init d.con) (counted.init_opens d.con) (counted.init_fails d.con)
    where
      made :
          (r : Bool × Db)
          → (r.0 ≡ true → live r.1 ≡ suc (live d.con))
          → (r.0 ≡ false → live r.1 ≡ live d.con)
          → live
              (after_init lib refused
                (λ e.
                  let f = reset_error e in
                  guarded lib (stmt_call lib refused run f (lib.stmt_prepare sql f.con)))
                d
                r).1.con
            ≡ live d.con
      made (true, con) e f =
          let g : Driver Db = reset_error (with_con d con) in
          guarded-live (stmt_call lib refused run g (lib.stmt_prepare sql con)) (live d.con) (
            stmt_call-live lib live refused run g (lib.stmt_prepare sql con) (suc (live d.con)) h
              (counted.prepare_keeps sql con ∙ e refl))
      made (false, con) e f = f refl

  with_prepared-live :
      {A : Type 0} (refused : A) (sql : Bytes) (run : Driver Db → A × Driver Db) (d : Driver Db)
      → Keeps lib live run
      → live (with_prepared lib refused sql run d).1.con ≡ refused_text lib live sql d + live d.con
  unfolding with_prepared reset_error set_error set_last_error set_stmt_error
  with_prepared-live refused sql run d h =
      made (lib.stmt_init d.con) (counted.init_opens d.con) (counted.init_fails d.con)
    where
      prepared :
          (e : Driver Db) (r : Bool × Db)
          → live r.1 ≡ suc (live d.con)
          → live (stmt_call lib refused (λ f. guarded lib (run (reset_error f))) e r).1.con
            ≡ (if r.0 then 0 else 1) + live d.con
      prepared e (true, con) f =
          let g : Driver Db = reset_error (with_con e con) in
          omega (arith, guarded-live (run g) (live d.con) (h g ∙ f))
      prepared e (false, con) f = omega (arith, f)

      made :
          (r : Bool × Db)
          → (r.0 ≡ true → live r.1 ≡ suc (live d.con))
          → (r.0 ≡ false → live r.1 ≡ live d.con)
          → live
              (after_init lib refused
                (λ e.
                  stmt_call lib refused
                    (λ f. guarded lib (run (reset_error f)))
                    e
                    (lib.stmt_prepare sql e.con))
                d
                r).1.con
            ≡ (if r.0 then (if (lib.stmt_prepare sql r.1).0 then 0 else 1) else 0) + live d.con
      made (true, con) e f =
          prepared (with_con d con) (lib.stmt_prepare sql con)
            (counted.prepare_keeps sql con ∙ e refl)
      made (false, con) e f = omega (arith, f refl)

  pub executing-Keeps :
      {A : Type 0} (refused : A) (more : Driver Db → A × Driver Db)
      → Keeps lib live more
      → Keeps lib live (executing lib refused more)
  unfolding executing
  executing-Keeps refused more h d =
      stmt_call-live lib live refused more d (lib.stmt_execute d.con) (live d.con) h
        (counted.execute_keeps d.con)

  execute-Keeps : (sql : Bytes) → Keeps lib live (execute lib sql)
  unfolding execute
  execute-Keeps sql =
      with_statement-live false sql (executing lib false (affected lib))
        (executing-Keeps false (affected lib) (λ f. refl))

  pub bind_arguments-Keeps :
      {A : Type 0} (refused : A) (args : List Field) (more : Driver Db → A × Driver Db)
      → Keeps lib live more
      → Keeps lib live (bind_arguments lib refused args more)
  unfolding bind_arguments
  bind_arguments-Keeps refused [] more h d = h d
  bind_arguments-Keeps refused (arg ∷ args) more h d =
      stmt_call-live lib live refused more d
        (lib.stmt_bind_param (map set_param_bind (arg ∷ args)) d.con) (live d.con) h
        (counted.bind_keeps (map set_param_bind (arg ∷ args)) d.con)

  delete_records_s-Keeps :
      (t : Entity) (str : Bytes) (args : List Field)
      → Keeps lib live (delete_records_s lib t str args)
  unfolding delete_records_s
  delete_records_s-Keeps t str args =
      let run : Driver Db → ℕ × Driver Db = executing lib 0 (deleted lib) in
      with_statement-live 0 (generate_delete_sql str t) (bind_arguments lib 0 args run)
        (bind_arguments-Keeps 0 args run (executing-Keeps 0 (deleted lib) (λ f. refl)))

  pub stmt_execute-Keeps :
      (r : Registry) (t : Entity) (members : List Bytes) (object : Object) (type : OptType)
      (has_args : Bool)
      → Keeps lib live (stmt_execute lib r t members object type has_args)
  unfolding stmt_execute
  stmt_execute-Keeps r t members object type has_args d =
      let ps : List Parameter =
        map (λ name. set_param_bind (object name)) (bound_members r t members type has_args) in
      stmt_call-live lib live none (executing lib none (stored lib type)) d
        (lib.stmt_bind_param ps d.con) (live d.con)
        (executing-Keeps none (stored lib type) (λ f. refl)) (counted.bind_keeps ps d.con)

  returned_con :
      (get_insert_id : Bool) (r : Option ℕ × Driver Db)
      → (returned lib get_insert_id r).1.con ≡ r.1.con
  returned_con get_insert_id (none, d) = refl
  returned_con get_insert_id (some n, d) = refl

  -- `execute` and `delete_records_s` close each statement that they make, whatever fails on the way. The insert
  -- or update of one object does so too, but for a statement whose text the library refuses, which stays open.
  pub insert_or_update_one-live :
      (r : Registry) (t : Entity) (members : List Bytes) (object : Object) (args : List Field)
      (type : OptType) (get_insert_id has_args : Bool) (sql : Bytes) (d : Driver Db)
      → (live (execute lib sql d).1.con ≡ live d.con)
        × (live (delete_records_s lib t sql args d).1.con ≡ live d.con)
        × (live
              (insert_or_update_one lib r t members object sql type get_insert_id has_args d).1.con
            ≡ refused_text lib live sql d + live d.con)
  unfolding insert_or_update_one
  insert_or_update_one-live r t members object args type get_insert_id has_args sql d =
      let run : Driver Db → Option ℕ × Driver Db =
        λ e. returned lib get_insert_id (stmt_execute lib r t members object type has_args e) in
      (
        execute-Keeps sql d,
        delete_records_s-Keeps t sql args d,
        with_prepared-live none sql run d (λ e.
            ap live
              (returned_con get_insert_id (stmt_execute lib r t members object type has_args e))
            ∙ stmt_execute-Keeps r t members object type has_args e),
      )
