-- ===== src/Mysql/Tuple/Counted.antt =====
-- A query of tuples finds a placeholder for each of its arguments.
use ormpp.Base.{◌+◌, ◌≤◌, Option, some, Bytes, ◌≡◌}
use ormpp.Mysql.Tuple.{count}

-- The first placeholder is taken, and every other one stays.
abbrev Taken : Bytes → Option Bytes → Type 0
Taken sql o = (t : Bytes) × (o ≡ some t) × (count b'?' sql ≤ count b'?' t + 1)
