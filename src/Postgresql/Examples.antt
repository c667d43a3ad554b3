-- ===== src/Postgresql/Examples.antt =====
-- The theorems on the PostgreSQL driver, over a small server: a table of texts and its transactions.
use ormpp.Base.{
  ℕ, Bool, true, false, List, [], ◌∷◌, map, Option, none, some, if◌then◌else◌, Bytes, codes, equal,
  to_string, decimal, ◌≡◌, refl, arith,
}
use ormpp.Utility.Keys.{Entity, Registry}
use ormpp.Utility.Escape.{plus, minus, to_str}
use ormpp.Sqlite.Statement.{insert}
use ormpp.Postgresql.{Status, command_ok, fatal_error, Result, Library, Driver, prepare}
use ormpp.Postgresql.Values.{
  characters, letter, integer, integer_kind, signed32, letter_kind, text_kind, Member,
  set_param_values, passed, assign, assign_text, atoi,
}
use ormpp.Postgresql.Values.RoundTrip.{assign-passed}
use ormpp.Postgresql.Statement.{Object, insert_or_update_impl}
use ormpp.Postgresql.Query.{Item, object, value, tuple_rows, assign_members, query_tuples}
use ormpp.Postgresql.Query.Flat.{
  members_of, joined, NoQuestionMark, tuple_rows-assign_members, query_tuples-none,
}

-- A table of one column without doubles, and the table that BEGIN has saved
record Server : Type 0 where
  table : List Bytes
  kept_table : List Bytes

abbrev member : Bytes → List Bytes → Bool
member s [] = false
member s (t ∷ ts) = if equal s t then true else member s ts

abbrev answer : Status → Result
answer status = record {
  status = status;
  error_message = codes "duplicate key value";
  cmd_tuples = codes "1";
  tuples = [];
}

abbrev run_sql : Bytes → Server → Result × Server
run_sql sql h =
    if equal sql (codes "begin;")
    then (answer command_ok, record h { kept_table = h.table })
    else if equal sql (codes "rollback;")
    then (answer command_ok, record h { table = h.kept_table })
    else (answer command_ok, h)

abbrev text_of : List (Option Bytes) → Bytes
text_of (some s ∷ values) = s
text_of _ = []

abbrev insert_unless : Bool → Bytes → Server → Result × Server
insert_unless true text h = (answer fatal_error, h)
insert_unless false text h = (answer command_ok, record h { table = text ∷ h.table })

abbrev run_insert : List (Option Bytes) → Server → Result × Server
run_insert values h = insert_unless (member (text_of values) h.table) (text_of values) h

abbrev server : Library Server
server = record {
  connectdb = λ conninfo h. h;
  is_connected = λ h. true;
  error_of = λ h. [];
  finish = λ h. h;
  exec = run_sql;
  prepare = λ sql n h. (answer command_ok, h);
  exec_prepared = run_insert;
  memory_behind = 0 ∷ [];
  to_chars = to_str;
  format_float = λ bits. [];
  atof = λ s. 0;
  atoi_beyond = λ s. plus 2147483647;
  atoll_beyond = λ s. plus 9223372036854775807;
}

abbrev driver : Driver Server
driver = record {
  con = record { table = codes "b" ∷ []; kept_table = [] };
  connected = true;
  last_affect_rows = 0;
  has_error = false;
  last_error = [];
  transaction = true;
}

abbrev names : Entity
names = record { struct_name = codes "names"; member_names = codes "name" ∷ [] }

abbrev no_keys : Registry
no_keys = record { auto_key_map = []; conflict_map = [] }

abbrev name_object : Bytes → Object
name_object s name = characters s

-- The second name is there already.
abbrev batch : List Object
batch = name_object (codes "a") ∷ name_object (codes "b") ∷ []

abbrev result : Option ℕ × Driver Server
result =
    insert_or_update_impl server no_keys names [] batch
      (codes "insert into names(name) values($1) ") insert false false driver

abbrev number_member : Member
number_member = record { optional = true; kind = integer_kind signed32 }

assign-passed_example :
    assign server number_member (passed server (set_param_values server (integer (minus 41))))
    ≡ integer (minus 41)
unfolding to_str to_string decimal
assign-passed_example =
    assign-passed server number_member (integer (minus 41)) (λ v h. refl)
      (signed32, refl, refl, omega arith, omega arith)

-- A `char` is passed as the letter and read as a number.
letter_lost :
    assign server
      (record { optional = false; kind = letter_kind })
      (passed server (set_param_values server (letter b'a')))
    ≡ letter 0
unfolding assign assign_text atoi passed set_param_values
letter_lost = refl

abbrev items : List Item
items =
    object (number_member ∷ number_member ∷ [])
    ∷ value (record { optional = false; kind = text_kind })
    ∷ []

abbrev rows : List (List (Option Bytes))
rows = (some (codes "1") ∷ none ∷ some (codes "x") ∷ []) ∷ []

tuple_rows-assign_members_example :
    map joined (tuple_rows server items rows)
    ≡ map (assign_members server (members_of items) 0) rows
tuple_rows-assign_members_example = tuple_rows-assign_members server items rows (omega arith)

no_mark : NoQuestionMark server (codes "select * from t where id=$1")
no_mark = (
  refl,
  (
    refl,
    (
      refl,
      (
        refl,
        (
          refl,
          (
            refl,
            (
              refl,
              (
                refl,
                (
                  refl,
                  (
                    refl,
                    (
                      refl,
                      (
                        refl,
                        (
                          refl,
                          (
                            refl,
                            (
                              refl,
                              (
                                refl,
                                (
                                  refl,
                                  (
                                    refl,
                                    (
                                      refl,
                                      (
                                        refl,
                                        (refl, (refl, (refl, (refl, (refl, (refl, (refl, tt))))))),
                                      ),
                                    ),
                                  ),
                                ),
                              ),
                            ),
                          ),
                        ),
                      ),
                    ),
                  ),
                ),
              ),
            ),
          ),
        ),
      ),
    ),
  ),
)

query_tuples-none_example :
    query_tuples server items (codes "select * from t where id=$1") (plus 3 ∷ []) driver ≡ none
query_tuples-none_example =
    query_tuples-none server items (codes "select * from t where id=$1") (plus 3) [] driver refl
      no_mark
