-- ===== src/MysqlAsync/Insert/Sent.antt =====
-- What a batch sends.
use ormpp.Base.{
  ℕ, ◌+◌, Bool, true, false, List, [], ◌∷◌, ◌++◌, Option, none, some, Bytes, codes, ◌≡◌, refl, sym,
  ap, ◌∙◌,
}
use mathlib.Core.Path.{subst}
use ormpp.Utility.Keys.{Entity, Registry, mysql}
use ormpp.Utility.Insert.{generate_insert_sql}
use ormpp.MysqlAsync.Arguments.{plain}
use ormpp.MysqlAsync.Arguments.Substitution.{fill, before_all_nil, replace_all-fill}
use ormpp.MysqlAsync.Insert.{
  OptType, is_insert, Object, struct_values, format_struct_sql, Loop, inserted, refused, thrown,
  go_on, insert_next, insert_loop, committed, finish, after_begin, insert_many, insert_vector,
}

-- The statement of an object is one pass over the statement of its type.
format_struct_sql-fill :
    (r : Registry) (t : Entity) (sql : Bytes) (object : Object) (type : OptType) (nbe : Bool)
    → format_struct_sql r t sql object type nbe
      ≡ fill nbe plain sql (struct_values r t object type nbe)
unfolding format_struct_sql
format_struct_sql-fill r t sql object type nbe =
    replace_all-fill nbe (struct_values r t object type nbe) [] sql
    ∙ sym (before_all_nil (fill nbe plain sql (struct_values r t object type nbe)))

module _ {S : Type 0} (execute : Bytes → S → Bool × S) (last_affect_rows : S → ℕ)
    (nbe : S → Bool) where
  abbrev pub run_next : (S → Bool × S) → Bool × S → Bool × S
  run_next more (true, s) = more s
  run_next more (false, s) = (false, s)

  -- Statements one after another, up to the first that fails
  abbrev pub run_all : List Bytes → S → Bool × S
  run_all [] s = (true, s)
  run_all (sql ∷ sqls) s = run_next (run_all sqls) (execute sql s)

  run_all-append :
      (sqls more : List Bytes) (s : S) {s' : S}
      → run_all sqls s ≡ (true, s')
      → run_all (sqls ++ more) s ≡ run_all more s'
  run_all-append [] more s e = ap (λ (r : Bool × S). run_all more r.1) e
  run_all-append (sql ∷ sqls) more s {s'} e =
      go (execute sql s) (λ s1 f. run_all-append sqls more s1 f) e
    where
      go :
          (r : Bool × S)
          → ((s1 : S) → run_all sqls s1 ≡ (true, s') → run_all (sqls ++ more) s1 ≡ run_all more s')
          → run_next (run_all sqls) r ≡ (true, s')
          → run_next (run_all (sqls ++ more)) r ≡ run_all more s'
      go (true, s1) ih f = ih s1 f
      go (false, s1) ih f = cc f

  module _ (format : Object → Bool → Option Bytes) where
    -- The statements of the objects, each with the escape mode that the state before it has
    abbrev pub Formats : S → List Object → List Bytes → Type 0
    Formats s [] [] = Unit
    Formats s [] (sql ∷ sqls) = ⊥
    Formats s (o ∷ os) [] = ⊥
    Formats s (o ∷ os) (sql ∷ sqls) =
        (format o (nbe s) ≡ some sql) × Formats (execute sql s).1 os sqls

    abbrev pub Ran : List Object → S → Loop execute last_affect_rows nbe × S → Type 0
    Ran objects s (inserted n, s') =
        (sqls : List Bytes) × Formats s objects sqls × (run_all sqls s ≡ (true, s'))
    Ran objects s (_, s') = Unit

    more_Ran :
        (object : Object) (objects : List Object) (sql : Bytes) (s1 : S) (s : S)
        (result : Loop execute last_affect_rows nbe × S)
        → format object (nbe s) ≡ some sql
        → execute sql s ≡ (true, s1)
        → Ran objects s1 result
        → Ran (object ∷ objects) s result
    more_Ran object objects sql s1 s (inserted n, s') e f (sqls, g, h) = (
      sql ∷ sqls,
      (e, subst (λ (r : Bool × S). Formats r.1 objects sqls) (sym f) g),
      ap (run_next (run_all sqls)) f ∙ h,
    )
    more_Ran object objects sql s1 s (refused, s') e f h = tt
    more_Ran object objects sql s1 s (thrown, s') e f h = tt

    loop_Ran :
        (objects : List Object) (affected : ℕ) (s : S)
        → Ran objects s (insert_loop execute last_affect_rows nbe format objects affected s)
    unfolding insert_loop
    loop_Ran [] affected s = ([], tt, refl)
    loop_Ran (object ∷ objects) affected s =
        formatted (format object (nbe s)) refl (λ a s1. loop_Ran objects a s1)
      where
        executed :
            (sql : Bytes) (r : Bool × S)
            → format object (nbe s) ≡ some sql
            → execute sql s ≡ r
            → ((a : ℕ) (s1 : S)
                → Ran objects s1 (insert_loop execute last_affect_rows nbe format objects a s1))
            → Ran (object ∷ objects) s (
                go_on execute last_affect_rows nbe
                  (insert_loop execute last_affect_rows nbe format objects)
                  affected
                  r)
        executed sql (true, s1) e f ih =
            more_Ran object objects sql s1 s
              (insert_loop execute last_affect_rows nbe format objects
                (affected + last_affect_rows s1) s1)
              e f (ih (affected + last_affect_rows s1) s1)
        executed sql (false, s1) e f ih = tt

        formatted :
            (o : Option Bytes)
            → format object (nbe s) ≡ o
            → ((a : ℕ) (s1 : S)
                → Ran objects s1 (insert_loop execute last_affect_rows nbe format objects a s1))
            → Ran (object ∷ objects) s (
                insert_next execute last_affect_rows nbe
                  (insert_loop execute last_affect_rows nbe format objects)
                  affected
                  o
                  s)
        formatted none e ih = tt
        formatted (some sql) e ih = executed sql (execute sql s) e refl ih

    -- A batch that returned a number has run all its statements between BEGIN and COMMIT.
    abbrev pub Sent : List Object → S → Option ℕ × S → Type 0
    Sent objects s (none, s') = Unit
    Sent objects s (some n, s') =
        (sqls : List Bytes) × Formats (execute (codes "BEGIN") s).1 objects sqls
        × (run_all (codes "BEGIN" ∷ (sqls ++ codes "COMMIT" ∷ [])) s ≡ (true, s'))

    finish-Sent :
        (objects : List Object) (s s1 : S) (result : Loop execute last_affect_rows nbe × S)
        → execute (codes "BEGIN") s ≡ (true, s1)
        → Ran objects s1 result
        → Sent objects s (finish execute last_affect_rows nbe result)
    finish-Sent objects s s1 (refused, s') e h = tt
    finish-Sent objects s s1 (thrown, s') e h = tt
    finish-Sent objects s s1 (inserted n, s') e (sqls, f, g) =
        last (execute (codes "COMMIT") s') refl
      where
        last :
            (r : Bool × S)
            → execute (codes "COMMIT") s' ≡ r
            → Sent objects s (committed execute last_affect_rows nbe n r)
        last (false, s2) h = tt
        last (true, s2) h = (
          sqls,
          subst (λ (r : Bool × S). Formats r.1 objects sqls) (sym e) f,
          ap (run_next (run_all (sqls ++ codes "COMMIT" ∷ []))) e
              ∙ run_all-append sqls (codes "COMMIT" ∷ []) s1 g
              ∙ ap (run_next (run_all [])) h,
        )

    begin-Sent :
        (objects : List Object) (s : S) (r : Bool × S)
        → execute (codes "BEGIN") s ≡ r
        → Sent objects s (
            after_begin execute last_affect_rows nbe
              (insert_loop execute last_affect_rows nbe format objects 0)
              r)
    begin-Sent objects s (false, s1) e = tt
    begin-Sent objects s (true, s1) e =
        finish-Sent objects s s1 (insert_loop execute last_affect_rows nbe format objects 0 s1) e
          (loop_Ran objects 0 s1)

    insert_many-Sent :
        (object : Object) (objects : List Object) (s : S)
        → Sent
            (object ∷ objects)
            s
            (insert_many execute last_affect_rows nbe format true (object ∷ objects) s)
    unfolding insert_many
    insert_many-Sent object objects s =
        begin-Sent (object ∷ objects) s (execute (codes "BEGIN") s) refl

    when_some :
        (objects : List Object) (s : S) (n : ℕ) (result : Option ℕ × S)
        → Sent objects s result
        → result.0 ≡ some n
        → (sqls : List Bytes) × Formats (execute (codes "BEGIN") s).1 objects sqls
          × (run_all (codes "BEGIN" ∷ (sqls ++ codes "COMMIT" ∷ [])) s ≡ (true, result.1))
    when_some objects s n (none, s') h e = cc e
    when_some objects s n (some m, s') h e = h

  Formats-along :
      (f g : Object → Bool → Option Bytes)
      → ((o : Object) (escapes_off : Bool) → f o escapes_off ≡ g o escapes_off)
      → (s : S) (objects : List Object) (sqls : List Bytes) → Formats f s objects sqls
      → Formats g s objects sqls
  Formats-along f g e s [] [] h = h
  Formats-along f g e s [] (sql ∷ sqls) h = elim h [ ]
  Formats-along f g e s (o ∷ os) [] h = elim h [ ]
  Formats-along f g e s (o ∷ os) (sql ∷ sqls) (h, k) =
      (sym (e o (nbe s)) ∙ h, Formats-along f g e (execute sql s).1 os sqls k)

  -- With transactions on, a batch of the asynchronous MySQL driver returns a number only if BEGIN, one statement for each
  -- object in order and COMMIT have all succeeded, and sends nothing else; the statement of an object is
  -- that of its type with the values of its members put in for the placeholders, in one pass, in the
  -- escape mode that the statements before it have left.
  pub insert_vector-run_all :
      (r : Registry) (t : Entity) (type : OptType) (object : Object) (objects : List Object) (s : S)
      (n : ℕ)
      → (insert_vector execute last_affect_rows nbe r t type true (object ∷ objects) s).0 ≡ some n
      → (sqls : List Bytes) × Formats
          (λ o escapes_off.
            fill escapes_off plain
              (generate_insert_sql mysql (is_insert type) r t [])
              (struct_values r t o type escapes_off))
          (execute (codes "BEGIN") s).1
          (object ∷ objects)
          sqls
        × (run_all (codes "BEGIN" ∷ (sqls ++ codes "COMMIT" ∷ [])) s ≡ (
          true,
          (insert_vector execute last_affect_rows nbe r t type true (object ∷ objects) s).1,
        ))
  unfolding insert_vector
  insert_vector-run_all r t type object objects s n e =
      let sql : Bytes = generate_insert_sql mysql (is_insert type) r t [] in
      let format : Object → Bool → Option Bytes =
        λ o escapes_off. format_struct_sql r t sql o type escapes_off in
      let (sqls, f, g) =
        when_some format (object ∷ objects) s n
          (insert_many execute last_affect_rows nbe format true (object ∷ objects) s)
          (insert_many-Sent format object objects s) e in
      (
        sqls,
        Formats-along format _ (λ o escapes_off. format_struct_sql-fill r t sql o type escapes_off)
            (execute (codes "BEGIN") s).1 (object ∷ objects) sqls f,
        g,
      )
