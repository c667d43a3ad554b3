-- ===== src/Lib.antt =====
-- ormpp is an object-relational mapper for MySQL, SQLite and PostgreSQL. A program describes structs;
-- ormpp writes the SQL text for them, sends it through a driver, and keeps connections in pools. This
-- library models the text, the pools, and the drivers, over their client libraries.
--
-- The parts and their files
--
-- - Base: the names that the modules share. A `std::string` is a list of bytes (`Bytes`), and `codes`
--   gives the bytes of a literal. `to_string` is `std::to_string` of a number.
-- - Utility is ormpp/utility.hpp, the statements that need no builder. Utility/Escape has
--   `escape_sql_string` and `to_str`; Utility/Keys the names of a struct, the two static key maps
--   (`Registry`, passed explicitly), `split` and the conflict keys; Utility/Insert
--   `generate_insert_sql`; Utility/Update `generate_update_sql` and `generate_delete_sql`; Utility/Select
--   `contains_select`, `generate_query_sql` and `get_sql`; Utility/Types the type names of
--   ormpp/type_mapping.hpp and `get_type_names`. A struct is
--   what the reflection library gives of it: its name and those of its members (`Entity`). The
--   predicates that `generate_update_sql` takes as templates are lists of texts.
-- - Query is ormpp/query.hpp. Query/Where has `where_condition`, `col_info` and the operators;
--   Query/Partition the range partitions; Query/Placeholder the numbering of placeholders for
--   PostgreSQL; Query/Delete the update and delete
--   contexts with their execution; Query/Update the stages of the update builder; Query/Alter
--   `alter_table_builder`; Query/Create `create_table_builder`; Query/Builder `query_builder`: its context and text, and in
--   Query/Builder/Stages its stages and the histories of calls on them. Stages of one builder share
--   the context through a `shared_ptr`; the model has one context and the stages that a client holds,
--   and a call on any of them changes the one context. The database of a builder is a parameter: what
--   its `execute` does to a state, and `get_last_affect_rows` of the state.
-- - Pool/Sync is ormpp/connection_pool.hpp, `init`, `get` and the deleter of a handle. Pool/Async is
--   ormpp/async_connection_pool.hpp: `Task` says at which `co_await` a coroutine stands, `resume` takes
--   it from there to the next one, and `step` and `run` are the pool under calls and resumptions in any
--   order.
-- - MysqlAsync is ormpp/mysql_async.hpp, the driver that speaks the protocol of MySQL itself.
--   MysqlAsync/Reader has `packet_reader` and the `append_` functions; MysqlAsync/Packets the packets and
--   their parsers; MysqlAsync/Frames `read_packet` and `write_packet`; MysqlAsync/Response
--   `read_query_response`, `command_simple` and `execute` on a connection (`Link`: the bytes that come in, those
--   that have gone out, and the members); MysqlAsync/Handshake and MysqlAsync/Auth the handshake, the two scrambles
--   and `handle_auth_response`, with the hashes and the RSA encryption of OpenSSL as parameters, and MysqlAsync/Connect `connect`;
--   MysqlAsync/Arguments `escape_mysql_string`, `blob_to_hex`, `to_query_arg_impl` and `format_query_args`;
--   MysqlAsync/Insert `format_struct_sql` and `insert_impl`, over `execute` as a parameter;
--   MysqlAsync/Rows `assign_text_value` and `map_reflectable_row`.
--   What the server does is written from the protocol: `ok_payload`, `column_payload`, `row_payload`,
--   `handshake_payload`.
-- - Sqlite is ormpp/sqlite.hpp over the SQLite library as a record of calls (`Library`): Sqlite itself has the
--   errors and the transaction calls, Sqlite/Statement binding, `stmt_execute`, the guard of a statement and `execute`,
--   Sqlite/Batch the insert of many objects, Sqlite/Update the insert and update of one object and of many, Sqlite/Query
--   `query_s` of a struct and `delete_records_s`, Sqlite/Tuple the queries of tuples. What
--   SQLite documents of its transactions is the record `Transactional`, a hypothesis, and so with the other drivers.
-- - Mysql is ormpp/mysql.hpp over the client library of MySQL, again a record `Library`: Mysql itself has the
--   connection, the errors and the transactions, Mysql/Parameters the binding of values, Mysql/Statement the two
--   guards of a statement, `execute`, deletes, and the insert and update of one object, Mysql/Batch those of many,
--   Mysql/Rows the buffers of a result (`Slot`) with `set_value` and the loop that fetches, Mysql/Query the queries of
--   structs and Mysql/Tuple those of tuples. A member that the source leaves uninitialised is the argument
--   `indeterminate`.
-- - Postgresql is ormpp/postgresql.hpp over libpq: Postgresql itself has the connection, the guard of a result and
--   the transactions, Postgresql/Values `set_param_values` and `assign`, Postgresql/Statement the insert, update and
--   delete, Postgresql/Query the queries. A result is a value (`Result`) with its rows. iguana's `to_chars`,
--   `%f` of `sprintf`, `atof`, and the memory behind a buffer without a zero are parts of its `Library`.
-- - Tables is `generate_createtb_sql` of the three drivers and `generate_create_table_sql` of ormpp/mysql_async.hpp, with
--   the constraints of ormpp/entity.hpp; Tables/Drivers `create_datatable`.
--
-- How they interact: the builders of Query write values with `escape_sql_string` and `to_str`, name
-- tables with `get_short_struct_name`, and number markers as their last step on PostgreSQL. The pools
-- use a driver only by its answers, which come with each event. The insert of Sqlite takes its text from
-- Utility/Insert, as do Mysql and Postgresql, which take that of an update from Utility/Update and that of a query
-- from Utility/Select. In MysqlAsync an answer is read by Packets from what Frames has put together, and a statement
-- goes out through Arguments and Frames.
--
-- Choices. Between two suspensions a coroutine runs alone, as the source posts to one strand; the
-- steps of the model are these pieces. What a driver or a clock answers is part of the event. Counters
-- are numbers; the decrements that the source does without a guard wrap at 2 ^ 64 as written there.
-- `replace_loop`, the `while (true)` of the placeholders, runs on fuel: one more than the text has
-- bytes, as each round uses up one byte that has not been searched. So do `read_packet` and the loop over
-- the rows, on one more than the bytes that have come in, as each packet takes four of them, and `write_packet`,
-- on one more than the payload has bytes; `query_s` of Sqlite and of Mysql and `handle_auth_response` take the fuel
-- as an argument, which is enough where it exceeds the number of rows. Values in SQL are integers, texts, blobs and NULL; the text of floating-point numbers is not modelled,
-- and SQLite is handed their bits. An `int` of the asynchronous driver is kept as its 32 bits. An exception is a value, and where only
-- its being thrown matters, `none`.
--
-- Not modelled: of ormpp/sqlite.hpp the opening and closing of a database; members of
-- results that are string views, in SQLite also arrays of `char`; of
-- ormpp/mysql_async.hpp the opening of the socket, rows as tuples, the queries and `update`;
-- ormpp/dbng.hpp, which forwards to the drivers; ormpp/ormpp_cfg.hpp, which reads a file; the type CString
-- of Windows; the helpers of ormpp/utility.hpp on tuples at compile time; logging, statistics and the
-- destructors of the pools; and the vendored directories iguana, frozen and thirdparty.
pub mod Base
pub mod Utility
pub mod Query
pub mod Pool
pub mod Mysql
pub mod MysqlAsync
pub mod Postgresql
pub mod Sqlite
pub mod Tables
