-- ===== src/Postgresql/Statement/Atomic.antt =====
-- A batch is stored completely or not at all, over a server that keeps its transactions.
use ormpp.Base.{ℕ, Bool, true, false, List, Option, none, some, Bytes, codes, ◌⊎◌, ◌≡◌}
use ormpp.Postgresql.{Result, Library, Driver, is_command_ok, prepare}

-- Whether a result is PGRES_COMMAND_OK
abbrev pub done : {Db : Type 0} → Result × Db → Bool
done r = is_command_ok r.0.status

-- What the manual states of transactions, on what the connection reads (`content`) and what it would read after a
-- rollback (`saved`, which is `content` where no transaction is open). `Begun` says that a transaction is open, also one
-- that an error has aborted, and `Open` that the statement prepared in it writes rows and is no transaction command.
-- A COMMIT that fails may have rolled back, and a ROLLBACK may be refused.
pub record Transactional {Db Tables : Type 0} (lib : Library Db) (content saved : Db → Tables)
    (Begun Open : Db → Type 0) : Type 0 where
  pub begin_keeps : (h : Db) → content (lib.exec (codes "begin;") h).1 ≡ content h
  pub begin_saves :
      (h : Db)
      → done (lib.exec (codes "begin;") h) ≡ true
      → (saved (lib.exec (codes "begin;") h).1 ≡ content h) × Begun (lib.exec (codes "begin;") h).1
  pub rollback_restores :
      (h : Db)
      → done (lib.exec (codes "rollback;") h) ≡ true
      → content (lib.exec (codes "rollback;") h).1 ≡ saved h
  pub rollback_fails :
      (h : Db)
      → done (lib.exec (codes "rollback;") h) ≡ false
      → saved (lib.exec (codes "rollback;") h).1 ≡ saved h
  pub commit_fails :
      (h : Db)
      → Open h
      → done (lib.exec (codes "commit;") h) ≡ false
      → saved (lib.exec (codes "commit;") h).1 ≡ saved h
  pub prepare_saved :
      (sql : Bytes) (n : ℕ) (h : Db) → Begun h → saved (lib.prepare sql n h).1 ≡ saved h
  pub exec_saved :
      (values : List (Option Bytes)) (h : Db)
      → Open h
      → (saved (lib.exec_prepared values h).1 ≡ saved h) × Open (lib.exec_prepared values h).1

module _ {Db Tables : Type 0} (lib : Library Db) (content saved : Db → Tables) where
  -- A COMMIT, a ROLLBACK or the preparing of `sql` failed and has left the connection so, and a rollback would bring
  -- these tables back.
  abbrev pub Refused : Bytes → ℕ → Tables → Db → Type 0
  Refused sql n s h =
      (r : Result × Db) × (((g : Db) × (r ≡ lib.exec (codes "commit;") g))
        ⊎ (((g : Db) × (r ≡ lib.exec (codes "rollback;") g))
            ⊎ ((g : Db) × (r ≡ lib.prepare sql n g))))
      × (done r ≡ false)
      × (h ≡ r.1)
      × (saved h ≡ s)

  -- The connection reads these tables, or else the last call was refused, and a rollback would bring them back.
  abbrev pub Restorable : Bytes → ℕ → Tables → Db → Type 0
  Restorable sql n s h = (content h ≡ s) ⊎ Refused sql n s h

  module _ (sql : Bytes) (count : ℕ) where
    abbrev Final : Tables → Option ℕ × Driver Db → Type 0
    Final s (some n, d) = Unit
    Final s (none, d) = Restorable sql count s d.con

module _ {Db Tables : Type 0} (lib : Library Db) (content saved : Db → Tables)
    (Begun Open : Db → Type 0) (laws : Transactional lib content saved Begun Open) (sql : Bytes)
    (count : ℕ) where
  -- The transaction that would bring these tables back is open.
  abbrev Live : Tables → Driver Db → Type 0
  Live s d = (saved d.con ≡ s) × Open d.con × (d.transaction ≡ true)

  -- The loop under a transaction
  abbrev Held : Tables → Option ℕ × Driver Db → Type 0
  Held s (some n, d) = Live s d
  Held s (none, d) = Restorable lib content saved sql count s d.con
