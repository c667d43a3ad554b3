-- ===== src/MysqlAsync/Insert.antt =====
-- ormpp/mysql_async.hpp, `escape_identifier`, `format_struct_sql` and `insert_impl` of one object and of many.
-- `execute`, `last_affect_rows_` and the escape mode, which a statement may change, are parameters here, on a state; MysqlAsync/Response has the driver's own.
-- `numeric_limits<int>::min()` is `none`.
pub mod Sent
mod Examples
use ormpp.Base.{
  ℕ, ◌+◌, Bool, true, false, not, ◌&&◌, List, [], ◌∷◌, ◌++◌, Option, none, some, ◌==◌,
  if◌then◌else◌, Bytes, codes,
}
use ormpp.Utility.Keys.{Entity, Registry, mysql, is_auto_key, get_conflict_keys, is_conflict_key}
use ormpp.Utility.Insert.{generate_insert_sql}
use ormpp.MysqlAsync.Arguments.{Argument, to_query_arg_impl, replace_all}

-- The loop of `escape_identifier`
unfoldable pub double_backticks : Bytes → Bytes
double_backticks [] = []
double_backticks (c ∷ input) =
    (if c == b'`' then b'`' ∷ b'`' ∷ [] else c ∷ []) ++ double_backticks input

unfoldable pub escape_identifier : Bytes → Bytes
unfolding double_backticks
escape_identifier input = b'`' ∷ (double_backticks input ++ b'`' ∷ [])

pub data OptType : Type 0 where
  insert : OptType
  update : OptType
  replace : OptType

abbrev pub is_insert : OptType → Bool
is_insert insert = true
is_insert _ = false

abbrev pub is_update : OptType → Bool
is_update update = true
is_update _ = false

-- An object: the value of each of its members
abbrev pub Object : Type 0
Object = Bytes → Argument

-- A loop over the members that pushes the values of those that pass the test
unfoldable pub push_values : (Bytes → Bool) → Object → Bool → List Bytes → List Bytes
unfolding to_query_arg_impl
push_values test object no_backslash_escapes [] = []
push_values test object no_backslash_escapes (name ∷ names) =
    (if test name then to_query_arg_impl (object name) no_backslash_escapes ∷ [] else [])
    ++ push_values test object no_backslash_escapes names

-- The values of `format_struct_sql` without further arguments
unfoldable pub struct_values : Registry → Entity → Object → OptType → Bool → List Bytes
unfolding push_values escape_identifier
struct_values r t object type no_backslash_escapes =
    push_values (λ name. not (is_insert type && is_auto_key r t name)) object no_backslash_escapes
      t.member_names
    ++ (if is_update type
        then push_values
            (λ name. is_conflict_key (get_conflict_keys mysql [] r t) (escape_identifier name))
            object no_backslash_escapes t.member_names
        else [])

unfoldable pub format_struct_sql :
    Registry → Entity → Bytes → Object → OptType → Bool → Option Bytes
unfolding struct_values replace_all
format_struct_sql r t sql object type no_backslash_escapes =
    replace_all sql 0 (struct_values r t object type no_backslash_escapes) no_backslash_escapes

module _ {S : Type 0} (execute : Bytes → S → Bool × S) (last_affect_rows : S → ℕ)
    (no_backslash_escapes : S → Bool) where
  abbrev pub affected_of : Bool × S → Option ℕ × S
  affected_of (true, s) = (some (last_affect_rows s), s)
  affected_of (false, s) = (none, s)

  -- An exception of the formatting is caught.
  abbrev pub execute_formatted : Option Bytes → S → Option ℕ × S
  execute_formatted none s = (none, s)
  execute_formatted (some sql) s = affected_of (execute sql s)

  unfoldable pub insert_one : Registry → Entity → OptType → Object → S → Option ℕ × S
  unfolding format_struct_sql generate_insert_sql
  insert_one r t type object s =
      execute_formatted
        (format_struct_sql r t (generate_insert_sql mysql (is_insert type) r t []) object type
          (no_backslash_escapes s))
        s

  -- How the loop over the objects ends: all are inserted, a statement failed, or an exception was thrown
  pub data Loop : Type 0 where
    inserted : ℕ → Loop
    refused : Loop
    thrown : Loop

  abbrev pub go_on : (ℕ → S → Loop × S) → ℕ → Bool × S → Loop × S
  go_on more affected (false, s) = (refused, s)
  go_on more affected (true, s) = more (affected + last_affect_rows s) s

  abbrev pub insert_next : (ℕ → S → Loop × S) → ℕ → Option Bytes → S → Loop × S
  insert_next more affected none s = (thrown, s)
  insert_next more affected (some sql) s = go_on more affected (execute sql s)

  unfoldable pub insert_loop : (Object → Bool → Option Bytes) → List Object → ℕ → S → Loop × S
  insert_loop format [] affected s = (inserted affected, s)
  insert_loop format (object ∷ objects) affected s =
      insert_next (insert_loop format objects) affected (format object (no_backslash_escapes s)) s

  abbrev pub committed : ℕ → Bool × S → Option ℕ × S
  committed affected (true, s) = (some affected, s)
  committed affected (false, s) = (none, s)

  -- Behind the loop, where a transaction was begun: an exception leaves it as it is.
  abbrev pub finish : Loop × S → Option ℕ × S
  finish (inserted affected, s) = committed affected (execute (codes "COMMIT") s)
  finish (refused, s) = (none, (execute (codes "ROLLBACK") s).1)
  finish (thrown, s) = (none, s)

  abbrev pub finish_plain : Loop × S → Option ℕ × S
  finish_plain (inserted affected, s) = (some affected, s)
  finish_plain (_, s) = (none, s)

  abbrev pub after_begin : (S → Loop × S) → Bool × S → Option ℕ × S
  after_begin loop (true, s) = finish (loop s)
  after_begin loop (false, s) = (none, s)

  abbrev pub has_objects : List Object → Bool
  has_objects [] = false
  has_objects (object ∷ objects) = true

  unfoldable pub insert_many :
      (Object → Bool → Option Bytes) → Bool → List Object → S → Option ℕ × S
  unfolding insert_loop
  insert_many format transaction objects s =
      if transaction && has_objects objects
      then after_begin (insert_loop format objects 0) (execute (codes "BEGIN") s)
      else finish_plain (insert_loop format objects 0 s)

  unfoldable pub insert_vector : Registry → Entity → OptType → Bool → List Object → S → Option ℕ × S
  unfolding insert_many format_struct_sql generate_insert_sql
  insert_vector r t type transaction objects s =
      insert_many
        (λ object escapes_off.
          format_struct_sql r t (generate_insert_sql mysql (is_insert type) r t []) object type
            escapes_off)
        transaction objects s
