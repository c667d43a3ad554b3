-- ===== src/Postgresql.antt =====
-- ormpp/postgresql.hpp: the driver over libpq. The connection is a parameter `Db` with the calls that the driver
-- makes; a result is the value that the library gives for it. The driver adds its members.
pub mod Values
pub mod Statement
pub mod Query
mod Examples
use ormpp.Base.{
  ℕ, ◌+◌, ◌*◌, ◌-◌, Bool, true, false, Option, none, some, List, [], ◌∷◌, ◌++◌, Bytes, codes,
  to_string, leb, ◌&&◌, if◌then◌else◌, pop_back,
}
use ormpp.Utility.Keys.{Entity}
use ormpp.Utility.Select.{skip_space}
use ormpp.Utility.Escape.{Value}

-- `PQresultStatus`; a result that is a null pointer is told from one that failed.
pub data Status : Type 0 where
  command_ok : Status
  tuples_ok : Status
  fatal_error : Status
  null_result : Status

-- A result with its rows; a cell is NULL or its text.
pub record Result : Type 0 where
  pub status : Status
  pub error_message : Bytes
  pub cmd_tuples : Bytes
  pub tuples : List (List (Option Bytes))

-- `memory_behind` is what stands in memory behind a buffer that is read as a C string and has no zero; `to_chars`
-- is iguana's text of an integer, `format_float` is `sprintf` with `%f`, and `atof` reads a number, of which the bits are kept;
-- `atoi_beyond` and `atoll_beyond` are what `atoi` and `atoll` give of a number beyond their range. A `Bool` says CONNECTION_OK.
pub record Library (Db : Type 0) : Type 0 where
  pub connectdb : Bytes → Db → Db
  pub is_connected : Db → Bool
  pub error_of : Db → Bytes
  pub finish : Db → Db
  pub exec : Bytes → Db → Result × Db
  pub prepare : Bytes → ℕ → Db → Result × Db
  pub exec_prepared : List (Option Bytes) → Db → Result × Db
  pub memory_behind : Bytes
  pub to_chars : Value → Bytes
  pub format_float : ℕ → Bytes
  pub atof : Bytes → ℕ
  pub atoi_beyond : Bytes → Value
  pub atoll_beyond : Bytes → Value

pub record Driver (Db : Type 0) : Type 0 where
  pub con : Db
  -- `con_ != nullptr`
  pub connected : Bool
  pub last_affect_rows : ℕ
  pub has_error : Bool
  pub last_error : Bytes
  pub transaction : Bool

pub record Login : Type 0 where
  pub host : Bytes
  pub user : Bytes
  pub passwd : Bytes
  pub db : Bytes
  pub timeout : Option ℕ
  pub port : Option ℕ

abbrev pub is_command_ok : Status → Bool
is_command_ok command_ok = true
is_command_ok _ = false

abbrev pub is_tuples_ok : Status → Bool
is_tuples_ok tuples_ok = true
is_tuples_ok _ = false

-- The digits of a number, as `strtoull`, `atoi` and `atoll` read them, on from `n`
unfoldable pub read_digits : ℕ → Bytes → ℕ
read_digits n [] = n
read_digits n (c ∷ cs) =
    let later = read_digits (n * 10 + (c - b'0')) cs in
    if leb b'0' c && leb c b'9' then later else n

-- `std::strtoull` in base 10, of a text without a sign
abbrev pub strtoull : Bytes → ℕ
strtoull s = read_digits 0 (skip_space s)

-- An optional number of `generate_conn_sql`
abbrev number_option : Bytes → Option ℕ → Bytes
number_option key none = []
number_option key (some n) = key ++ (to_string n ++ b' ' ∷ [])

unfoldable pub generate_conn_sql : Login → Bytes
generate_conn_sql login = pop_back (
    (codes "host=" ++ (login.host ++ codes " "))
    ++ ((codes "user=" ++ (login.user ++ codes " "))
        ++ ((codes "password=" ++ (login.passwd ++ codes " "))
            ++ ((codes "dbname=" ++ (login.db ++ codes " "))
                ++ (number_option (codes "connect_timeout=") login.timeout
                    ++ number_option (codes "port=") login.port)))))

module _ {Db : Type 0} where
  unfoldable pub reset_error : Driver Db → Driver Db
  reset_error d = record d { has_error = false; last_error = [] }

  unfoldable pub set_last_error : Bytes → Driver Db → Driver Db
  set_last_error last_error d = record d { has_error = true; last_error = last_error }

  unfoldable pub set_enable_transaction : Bool → Driver Db → Driver Db
  set_enable_transaction enable d = record d { transaction = enable }

  abbrev pub with_con : Driver Db → Db → Driver Db
  with_con d con = record d { con = con }

  unfoldable pub settled_by : Status → Bytes → Driver Db → Driver Db
  unfolding set_last_error
  settled_by command_ok message d = d
  settled_by tuples_ok message d = d
  settled_by fatal_error message d = set_last_error message d
  settled_by null_result message d = d

  -- `~guard_statment`
  unfoldable pub settled : Result → Driver Db → Driver Db
  unfolding settled_by
  settled res d = settled_by res.status res.error_message d

  abbrev settle : {A : Type 0} → Result → A × Driver Db → A × Driver Db
  settle res (result, d) = (result, settled res d)

  -- A call that gives a result, and what is done with it under the guard
  unfoldable pub guarded :
      {A : Type 0} → (Result → Driver Db → A × Driver Db) → Driver Db → Result × Db → A × Driver Db
  unfolding reset_error settled
  guarded run d (res, con) = settle res (run res (reset_error (with_con d con)))

  module _ (lib : Library Db) where
    -- `begin`, `commit`, `rollback` and `create_datatable` return whether the status is PGRES_COMMAND_OK.
    abbrev pub succeeded : Result → Driver Db → Bool × Driver Db
    succeeded res d = (is_command_ok res.status, d)

    unfoldable pub begin : Driver Db → Bool × Driver Db
    unfolding guarded
    begin d = guarded succeeded d (lib.exec (codes "begin;") d.con)

    unfoldable pub commit : Driver Db → Bool × Driver Db
    unfolding guarded
    commit d = guarded succeeded d (lib.exec (codes "commit;") d.con)

    unfoldable pub rollback : Driver Db → Bool × Driver Db
    unfolding guarded
    rollback d = guarded succeeded d (lib.exec (codes "rollback;") d.con)

    -- `prepare`, with the number of members of the type
    unfoldable pub prepare : Bytes → ℕ → Driver Db → Bool × Driver Db
    unfolding guarded
    prepare sql members_count d = guarded succeeded d (lib.prepare sql members_count d.con)

    abbrev executed : Result → Driver Db → Bool × Driver Db
    executed res d =
        if is_command_ok res.status
        then (true, record d { last_affect_rows = strtoull res.cmd_tuples })
        else (false, record d { last_affect_rows = 0 })

    unfoldable pub execute : Bytes → Driver Db → Bool × Driver Db
    unfolding guarded read_digits skip_space
    execute sql d = guarded executed d (lib.exec sql d.con)

    unfoldable pub ping : Driver Db → Bool
    ping d = lib.is_connected d.con

    unfoldable pub disconnect : Driver Db → Bool × Driver Db
    disconnect d =
        (true, (if d.connected then record d { con = lib.finish d.con; connected = false } else d))

    -- A connection that is there is not finished first.
    unfoldable pub connect : Login → Driver Db → Bool × Driver Db
    unfolding reset_error set_last_error generate_conn_sql
    connect login d =
        let con = lib.connectdb (generate_conn_sql login) d.con in
        let e = record (reset_error d) { con = con; connected = true } in
        if lib.is_connected con then (true, e) else (false, set_last_error (lib.error_of con) e)
