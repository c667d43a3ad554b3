-- ===== src/Mysql.antt =====
-- ormpp/mysql.hpp: the driver over the client library of MySQL. The library's connection, with the statement that
-- `stmt_` points to, is a parameter `Db` with the calls that the driver makes; the driver adds its members.
pub mod Parameters
pub mod Statement
pub mod Batch
pub mod Rows
pub mod Query
pub mod Tuple
mod Examples
use ormpp.Base.{
  ℕ, zero, suc, Bool, true, false, Option, none, some, List, [], Bytes, codes, if◌then◌else◌,
}
use ormpp.Utility.Types.{Scalar}

-- The `MYSQL_TYPE_` constants that the driver names; the server may give others for a column.
pub data BufferType : Type 0 where
  tiny_buffer : BufferType
  short_buffer : BufferType
  long_buffer : BufferType
  longlong_buffer : BufferType
  float_buffer : BufferType
  double_buffer : BufferType
  null_buffer : BufferType
  string_buffer : BufferType
  var_string_buffer : BufferType
  blob_buffer : BufferType
  medium_blob_buffer : BufferType
  long_blob_buffer : BufferType
  other_buffer : ℕ → BufferType

-- `MYSQL_BIND` of a parameter: what `buffer` points to is a number, or `buffer_length` bytes.
pub data Buffer : Type 0 where
  no_buffer : Buffer
  bits : ℕ → Buffer
  bytes : Bytes → Buffer

pub record Parameter : Type 0 where
  pub buffer_type : BufferType
  pub is_unsigned : Bool
  pub buffer : Buffer

-- `MYSQL_BIND` of a column; `buffer_length` is not set for a number.
pub record Column : Type 0 where
  pub column_type : BufferType
  pub column_unsigned : Bool
  pub buffer_length : ℕ

-- What a fetch writes at a column's address
pub data Cell : Type 0 where
  null_cell : Cell
  number_cell : ℕ → Cell
  bytes_cell : Bytes → Cell

-- The result of `mysql_stmt_fetch`: 0, MYSQL_DATA_TRUNCATED, MYSQL_NO_DATA or 1
pub data Fetch : Type 0 where
  fetched : List Cell → Fetch
  truncated : List Cell → Fetch
  no_data : Fetch
  fetch_failed : Fetch

pub record Login : Type 0 where
  pub host : Bytes
  pub user : Bytes
  pub passwd : Bytes
  pub db : Bytes
  pub timeout : Option ℕ
  pub port : Option ℕ

-- A `Bool` says that the call succeeded.
pub record Library (Db : Type 0) : Type 0 where
  pub init : Db → Bool × Db
  pub connect_timeout : ℕ → Db → Bool × Db
  pub charset_name : Bytes → Db → Db
  pub real_connect : Login → ℕ → Db → Bool × Db
  pub close : Db → Db
  pub ping : Db → Bool × Db
  pub query : Bytes → Db → Bool × Db
  pub error : Db → Bytes
  pub stmt_init : Db → Bool × Db
  pub stmt_prepare : Bytes → Db → Bool × Db
  pub stmt_bind_param : List Parameter → Db → Bool × Db
  pub stmt_bind_result : List Column → Db → Bool × Db
  pub stmt_execute : Db → Bool × Db
  pub stmt_affected_rows : Db → ℕ
  pub stmt_insert_id : Db → ℕ
  pub stmt_result_metadata : Db → Bool × Db
  pub fetch_field_direct : ℕ → Db → Option (BufferType × ℕ)
  pub free_result : Db → Db
  pub stmt_fetch : Db → Fetch × Db
  pub stmt_fetch_column : ℕ → Db → Option ℕ
  pub stmt_error : Db → Bytes
  pub stmt_close : Db → ℕ × Db

pub record Driver (Db : Type 0) : Type 0 where
  pub con : Db
  -- `con_ != nullptr`
  pub connected : Bool
  pub last_affect_rows : ℕ
  pub has_error : Bool
  pub last_error : Bytes
  pub transaction : Bool

module _ {Db : Type 0} where
  unfoldable pub reset_error : Driver Db → Driver Db
  reset_error d = record d { has_error = false; last_error = [] }

  unfoldable pub set_last_error : Bytes → Driver Db → Driver Db
  set_last_error last_error d = record d { has_error = true; last_error = last_error }

  unfoldable pub set_enable_transaction : Bool → Driver Db → Driver Db
  set_enable_transaction enable d = record d { transaction = enable }

  abbrev pub with_con : Driver Db → Db → Driver Db
  with_con d con = record d { con = con }

  module _ (lib : Library Db) where
    -- `set_last_error(mysql_error(con_))` and `set_last_error(mysql_stmt_error(stmt_))`
    unfoldable pub set_error : Driver Db → Driver Db
    unfolding set_last_error
    set_error d = set_last_error (lib.error d.con) d

    unfoldable pub set_stmt_error : Driver Db → Driver Db
    unfolding set_last_error
    set_stmt_error d = set_last_error (lib.stmt_error d.con) d

    -- The test of a call's result, at the end of a function
    abbrev pub checked : Driver Db → Bool × Db → Bool × Driver Db
    checked d (true, con) = (true, with_con d con)
    checked d (false, con) = (false, set_error (with_con d con))

    unfoldable pub begin : Driver Db → Bool × Driver Db
    unfolding reset_error set_error
    begin d = checked (reset_error d) (lib.query (codes "BEGIN") d.con)

    unfoldable pub commit : Driver Db → Bool × Driver Db
    unfolding reset_error set_error
    commit d = checked (reset_error d) (lib.query (codes "COMMIT") d.con)

    unfoldable pub rollback : Driver Db → Bool × Driver Db
    unfolding reset_error set_error
    rollback d = checked (reset_error d) (lib.query (codes "ROLLBACK") d.con)

    unfoldable pub disconnect : Driver Db → Bool × Driver Db
    disconnect d =
        (true, (if d.connected then record d { con = lib.close d.con; connected = false } else d))

    unfoldable pub ping : Driver Db → Bool × Driver Db
    ping d = let (alive, con) = lib.ping d.con in (alive, with_con d con)

    abbrev port_of : Option ℕ → ℕ
    port_of none = 0
    port_of (some n) = n

    -- From `mysql_options` for the character set on
    unfoldable pub connect_charset : Login → Driver Db → Bool × Driver Db
    unfolding set_error
    connect_charset login d =
        checked d
          (lib.real_connect login (port_of login.port) (lib.charset_name (codes "utf8mb4") d.con))

    abbrev after_timeout : Login → Driver Db → Bool × Db → Bool × Driver Db
    after_timeout login d (true, con) = connect_charset login (with_con d con)
    after_timeout login d (false, con) = (false, set_error (with_con d con))

    -- `if (timeout > 0)`, with a timeout that is not negative
    unfoldable pub connect_options : Login → Option ℕ → Driver Db → Bool × Driver Db
    unfolding connect_charset set_error
    connect_options login none d = connect_charset login d
    connect_options login (some zero) d = connect_charset login d
    connect_options login (some (suc n)) d =
        after_timeout login d (lib.connect_timeout (suc n) d.con)

    abbrev after_init : Login → Driver Db → Bool × Db → Bool × Driver Db
    after_init login d (true, con) =
        connect_options login login.timeout (record d { con = con; connected = true })
    after_init login d (false, con) = (
      false,
      set_last_error (codes "mysql init failed") (record d { con = con; connected = false }),
    )

    unfoldable pub connect : Login → Driver Db → Bool × Driver Db
    unfolding connect_options reset_error set_last_error
    connect login d =
        let closed = if d.connected then lib.close d.con else d.con in
        after_init login (reset_error d) (lib.init closed)
