-- ===== src/Tables/Drivers.antt =====
-- `create_datatable` of ormpp/mysql.hpp, ormpp/sqlite.hpp and ormpp/postgresql.hpp: the statement is made and run.
use ormpp.Base.{Bool, List, ◌++◌, Bytes, codes}
use ormpp.Utility.Keys.{Entity, Registry}
use ormpp.Tables.{Constraint, mysql_createtb_sql, sqlite_createtb_sql, postgresql_createtb_sql}
use ormpp.Mysql
use ormpp.Sqlite
use ormpp.Postgresql

unfoldable pub mysql_create_datatable :
    {Db : Type 0}
    → Mysql.Library Db
    → Registry
    → Entity
    → List (Bytes × Bytes)
    → List Constraint
    → Mysql.Driver Db
    → Bool × Mysql.Driver Db
unfolding mysql_createtb_sql Mysql.reset_error Mysql.set_error
mysql_create_datatable lib r t columns args d =
    Mysql.checked lib (Mysql.reset_error d)
      (lib.query (mysql_createtb_sql r t columns args ++ codes " DEFAULT CHARSET=utf8mb4") d.con)

abbrev with_registry : {A : Type 0} → Registry → A → A × Registry
with_registry r a = (a, r)

-- The registry is what `generate_createtb_sql` leaves, whether the statement succeeds or not.
unfoldable pub sqlite_create_datatable :
    {Db : Type 0}
    → Sqlite.Library Db
    → Registry
    → Entity
    → List (Bytes × Bytes)
    → List Constraint
    → Sqlite.Driver Db
    → (Bool × Sqlite.Driver Db) × Registry
unfolding sqlite_createtb_sql Sqlite.reset_error Sqlite.set_errmsg
sqlite_create_datatable lib r t columns args d =
    let (sql, registered) = sqlite_createtb_sql r t columns args in
    with_registry registered (Sqlite.checked lib (Sqlite.reset_error d) (lib.exec sql d.handle))

unfoldable pub postgresql_create_datatable :
    {Db : Type 0}
    → Postgresql.Library Db
    → Registry
    → Entity
    → List (Bytes × Bytes)
    → List Constraint
    → Postgresql.Driver Db
    → Bool × Postgresql.Driver Db
unfolding postgresql_createtb_sql Postgresql.guarded
postgresql_create_datatable lib r t columns args d =
    Postgresql.guarded (Postgresql.succeeded lib) d
      (lib.exec (postgresql_createtb_sql r t columns args) d.con)
