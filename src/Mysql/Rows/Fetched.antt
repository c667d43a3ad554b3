-- ===== src/Mysql/Rows/Fetched.antt =====
-- The loop over the rows, against the rows that the library gives.
use ormpp.Base.{ℕ, zero, suc, ◌+◌, ◌<◌, List, [], ◌∷◌, map, length, ◌≡◌, refl, sym, ap, ◌∙◌, arith}
use mathlib.Core.Path.{subst}
use ormpp.Mysql.{
  Column, Cell, Fetch, fetched, truncated, no_data, fetch_failed, Library, Driver, with_con,
}
use ormpp.Mysql.Parameters.{Field}
use ormpp.Mysql.Rows.{
  Member, Slot, fresh, store, store_all, reset_all, set_value, set_values, fetch_row, before_rows,
  next_row, fetch_rows,
}
use ormpp.Mysql.Rows.Decoded.{decode, Fits, slot_lem}

abbrev pub decode_row : List (Member × Column) → List Cell → List Field
decode_row [] cells = []
decode_row ((m, c) ∷ shapes) [] = []
decode_row ((m, c) ∷ shapes) (cell ∷ cells) = decode m cell ∷ decode_row shapes cells

abbrev first_or_zero : List ℕ → ℕ
first_or_zero [] = 0
first_or_zero (n ∷ ns) = n

abbrev rest_of : List ℕ → List ℕ
rest_of [] = []
rest_of (n ∷ ns) = ns

-- The slots in front of a fetch: every buffer is filled with zeros, the numbers are what the rows before left.
abbrev pub ready : List (Member × Column) → List ℕ → List Slot
ready [] storages = []
ready ((m, c) ∷ shapes) storages =
    fresh m c (first_or_zero storages) ∷ ready shapes (rest_of storages)

cons_cong : {A : Type 0} {a b : A} {s t : List A} → a ≡ b → s ≡ t → a ∷ s ≡ b ∷ t
cons_cong {b = b} {s = s} e f = ap (λ x. x ∷ s) e ∙ ap (◌∷◌ b) f

module _ {Db : Type 0} (lib : Library Db) where
  abbrev pub RowFits : List (Member × Column) → ℕ → Db → List Cell → Type 0
  RowFits [] i con [] = Unit
  RowFits (shape ∷ shapes) i con (cell ∷ cells) =
      Fits lib shape i con cell × RowFits shapes (i + 1) con cells
  RowFits shapes i con cells = ⊥

  -- From `con` on, the fetches give these rows, which have room in the buffers, and then `last`.
  abbrev pub Gives : List (Member × Column) → List (List Cell) → Db → Fetch → Db → Type 0
  Gives shapes [] con last end = lib.stmt_fetch con ≡ (last, end)
  Gives shapes (cells ∷ rows) con last end =
      (next : Db) × (lib.stmt_fetch con ≡ (fetched cells, next))
      × RowFits shapes 0 next cells
      × Gives shapes rows next last end

  -- No row: the rows are at their end, or the fetch has failed.
  abbrev pub Ends : Fetch → Type 0
  Ends no_data = Unit
  Ends fetch_failed = Unit
  Ends fetch = ⊥

  module _ (indeterminate : ℕ) where
    abbrev RowRead :
        List (Member × Column)
        → List Cell
        → Driver Db
        → List Field × (List Slot × Driver Db)
        → Type 0
    RowRead shapes cells d r =
        (r.0 ≡ decode_row shapes cells)
        × (((storages : List ℕ) × (r.1.0 ≡ ready shapes storages)) × (r.1.1.con ≡ d.con))

    row_lem :
        (shapes : List (Member × Column)) (cells : List Cell) (storages : List ℕ) (i : ℕ)
        (d : Driver Db)
        → RowFits shapes i d.con cells
        → RowRead shapes cells d (fetch_row lib indeterminate cells (ready shapes storages) i d)
    unfolding fetch_row store_all set_values reset_all
    row_lem [] [] storages i d h = (refl, ((storages, refl), refl))
    row_lem [] (cell ∷ cells) storages i d h = absurd h
    row_lem (shape ∷ shapes) [] storages i d h = absurd h
    row_lem ((m, c) ∷ shapes) (cell ∷ cells) storages i d h =
        let st : ℕ = first_or_zero storages in
        let (value, ((kept, slot), con)) =
          slot_lem lib indeterminate m.optional m.kind c st i d cell h.0 in
        let e : Driver Db = (set_value lib indeterminate (store cell (fresh m c st)) i d).1 in
        let (values, ((others, slots), cons)) =
          row_lem shapes cells (rest_of storages) (i + 1) e
            (subst (λ x. RowFits shapes (i + 1) x cells) (sym con) h.1) in
        (cons_cong value values, ((kept ∷ others, cons_cong slot slots), cons ∙ con))

    ended :
        (more : List Slot → Driver Db → List (List Field) × Driver Db) (slots : List Slot)
        (d : Driver Db) (last : Fetch) (end : Db)
        → Ends last
        → next_row lib indeterminate more slots d (last, end) ≡ ([], with_con d end)
    ended more slots d (fetched cells) end h = absurd h
    ended more slots d (truncated cells) end h = absurd h
    ended more slots d no_data end h = refl
    ended more slots d fetch_failed end h = refl

    abbrev Result : List (List Field) → Db → List (List Field) × Driver Db → Type 0
    Result rows end r = (r.0 ≡ rows) × (r.1.con ≡ end)

    row_Result :
        (row : List Field) (row' : List Field) (rows : List (List Field)) (end : Db)
        (r : List (List Field) × Driver Db)
        → row ≡ row'
        → Result rows end r
        → Result (row' ∷ rows) end (before_rows lib row r)
    row_Result row row' rows end (got, d) e (f, g) = (cons_cong e f, g)

    pub fetch_rows_lem :
        (shapes : List (Member × Column)) (rows : List (List Cell)) (fuel : ℕ) (storages : List ℕ)
        (d : Driver Db) (last : Fetch) (end : Db)
        → Ends last
        → length rows < fuel
        → Gives shapes rows d.con last end
        → Result
            (map (decode_row shapes) rows)
            end
            (fetch_rows lib indeterminate fuel (ready shapes storages) d)
    unfolding fetch_rows
    fetch_rows_lem shapes rows zero storages d last end h k g = elim k [ ]
    fetch_rows_lem shapes [] (suc fuel) storages d last end h k g =
        let slots : List Slot = ready shapes storages in
        let more : List Slot → Driver Db → List (List Field) × Driver Db =
          fetch_rows lib indeterminate fuel in
        subst (Result [] end)
          (sym (ap (next_row lib indeterminate more slots d) g ∙ ended more slots d last end h))
          (refl, refl)
    fetch_rows_lem shapes (cells ∷ rows) (suc fuel) storages d last end h k (next, e, fits, g) =
        let slots : List Slot = ready shapes storages in
        let more : List Slot → Driver Db → List (List Field) × Driver Db =
          fetch_rows lib indeterminate fuel in
        let read : List Field × (List Slot × Driver Db) =
          fetch_row lib indeterminate cells slots 0 (with_con d next) in
        let (row, ((kept, same), con)) = row_lem shapes cells storages 0 (with_con d next) fits in
        let later : Result (map (decode_row shapes) rows) end (more (ready shapes kept) read.1.1) =
          fetch_rows_lem shapes rows fuel kept read.1.1 last end h (omega (arith, k))
            (subst (λ x. Gives shapes rows x last end) (sym con) g) in
        subst (Result (map (decode_row shapes) (cells ∷ rows)) end)
          (sym (ap (next_row lib indeterminate more slots d) e))
          (row_Result read.0 (decode_row shapes cells) (map (decode_row shapes) rows) end
            (more read.1.0 read.1.1) row
            (subst (λ s. Result (map (decode_row shapes) rows) end (more s read.1.1)) (sym same)
              later))
