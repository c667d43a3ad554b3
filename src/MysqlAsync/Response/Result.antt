-- ===== src/MysqlAsync/Response/Result.antt =====
-- A result set that the server sends is the result that the driver gives.
use ormpp.Base.{
  ℕ, ◌+◌, ◌<◌, ◌%◌, true, false, List, [], ◌∷◌, ◌++◌, map, Option, none, some, Bytes, length,
  length-append, append_assoc, append-nil, All, ◌≡◌, refl, sym, ap, ◌∙◌, arith,
}
use ormpp.MysqlAsync.Reader.{append_lenenc_int, read_lenenc_int}
use ormpp.MysqlAsync.Reader.RoundTrip.{uint64_mod, read_lenenc_int-append}
use ormpp.MysqlAsync.Packets.{OkPacket, ColumnDefinition, is_err_packet, is_ok_packet, parsed}
use ormpp.MysqlAsync.Packets.RoundTrip.{Fits, ok_payload, row_payload}
use ormpp.MysqlAsync.Frames.{prepend, read_packet, write_packet}
use ormpp.MysqlAsync.Frames.RoundTrip.{written_and_read}
use ormpp.MysqlAsync.Response.{
  Link, gives, go_on, ◌>>=◌, ◌>>◌, receive, escapes_backslash, read_columns, read_rows,
  set_affected, read_result_set, read_query_response,
}
use ormpp.MysqlAsync.Response.Delivery.{
  Delivered, at, Delivered-split, receive_lem, Described, column_payloads, AreShort,
  read_columns_lem, IsRow, settled, read_rows_lem,
}

-- The packets of a result set as the protocol lays them out: the number of columns, their definitions,
-- the rows, and an ok packet under the header 0xfe
abbrev pub result_packets :
    List (Bytes × ColumnDefinition) → List (List (Option Bytes)) → OkPacket → List Bytes
result_packets ds rows eof =
    append_lenenc_int (length ds)
    ∷ (column_payloads ds ++ (map row_payload rows ++ (ok_payload 0xfe eof ∷ [])))

Described-length :
    (ds : List (Bytes × ColumnDefinition)) (cs : List ColumnDefinition)
    → Described ds cs
    → length cs ≡ length ds
Described-length [] [] h = refl
Described-length [] (c ∷ cs) h = elim h [ ]
Described-length (d ∷ ds) [] h = elim h [ ]
Described-length ((catalog, d) ∷ ds) (c ∷ cs) h = omega (arith, Described-length ds cs h.1)

-- A number of columns that is not 0 is no error and no ok packet.
count_is_count :
    (n : ℕ)
    → 0 < n
    → n < uint64_mod
    → (is_err_packet (append_lenenc_int n) ≡ false)
      × (is_ok_packet (append_lenenc_int n) ≡ false)
      × (parsed (read_lenenc_int (append_lenenc_int n)) ≡ some n)
unfolding is_err_packet is_ok_packet append_lenenc_int
count_is_count n pos h = (
  ground arith,
  ground arith,
  ap (λ s. parsed (read_lenenc_int s)) (sym (append-nil (append_lenenc_int n)))
      ∙ rw (read_lenenc_int-append n [] h) refl,
)

read_query_response_parts :
    (link after behind end : Link) (p : Bytes) (n : ℕ) (columns : List ColumnDefinition)
    (rows : List (List (Option Bytes)))
    → receive link ≡ (gives p, after)
    → is_err_packet p ≡ false
    → is_ok_packet p ≡ false
    → parsed (read_lenenc_int p) ≡ some n
    → read_columns n after ≡ (gives columns, behind)
    → read_rows (length behind.incoming + 1) (length columns) behind ≡ (gives rows, end)
    → read_query_response link ≡ (
      gives (record { has_resultset = true; ok = none; columns = columns; rows = rows }),
      record end { last_affect_rows = length rows % 4294967296 },
    )
unfolding read_query_response read_result_set set_affected
read_query_response_parts link after behind end p n columns rows e no_err no_ok f g h =
    rw (e, no_err, no_ok, f, g, h, ◌>>=◌, ◌>>◌, go_on) refl

-- The packets one behind the other, each in its frames
abbrev pub write_packets : ℕ → List Bytes → Option (Bytes × ℕ)
write_packets id [] = some ([], id)
write_packets id (p ∷ ps) = elim (write_packet id p) [
  | none ↦ none
  | some (out, next) ↦ prepend out (write_packets next ps)
]

-- Each packet is longer than nothing.
pub write_packets-Delivered :
    (id : ℕ) (ps : List Bytes)
    → (out : Bytes) × (last : ℕ) × (write_packets id ps ≡ some (out, last))
      × ((rest : Bytes) → Delivered ps (out ++ rest) id rest last)
write_packets-Delivered id [] = ([], id, refl, λ rest. (refl, refl))
write_packets-Delivered id (p ∷ ps) =
    let (out, next, e, long, read) = written_and_read id p in
    let (more, last, f, d) = write_packets-Delivered next ps in
    (
      out ++ more,
      last,
      rw (write_packets, e, f) refl,
      λ rest. (
        more ++ rest,
        next,
        ap read_packet (append_assoc out more rest) ∙ read (more ++ rest),
        omega (arith, ap length (append_assoc out more rest), length-append out (more ++ rest)),
        d rest,
      ),
    )

-- The link behind a result set
abbrev pub answered : Link → Bytes → ℕ → OkPacket → ℕ → Link
answered link rest last eof rows = record link {
  incoming = rest;
  sequence_id = last;
  last_affect_rows = rows % 4294967296;
  last_insert_id = eof.last_insert_id;
  status_flags = eof.status_flags;
  backslash_escapes = escapes_backslash eof.status_flags;
}

pub result_set_read :
    (link : Link) (ds : List (Bytes × ColumnDefinition)) (rows : List (List (Option Bytes)))
    (eof : OkPacket) (s : Bytes) (id : ℕ) (rest : Bytes) (last : ℕ)
    → 0 < length ds
    → length ds < uint64_mod
    → AreShort ds
    → All (IsRow (length ds)) rows
    → Fits eof
    → length (ok_payload 0xfe eof) < 9
    → Delivered (result_packets ds rows eof) s id rest last
    → (columns : List ColumnDefinition) × Described ds columns
      × (read_query_response (at link s id) ≡ (
        gives (record { has_resultset = true; ok = none; columns = columns; rows = rows }),
        answered link rest last eof (length rows),
      ))
result_set_read link ds rows eof s id rest last pos h shorts are_rows fits short
      (behind, next, e, l, d) =
    let (middle, between, d1, d2) =
      Delivered-split (column_payloads ds) (map row_payload rows ++ (ok_payload 0xfe eof ∷ []))
        behind next rest last d in
    let (columns, f, described) = read_columns_lem link ds behind next middle between shorts d1 in
    let (no_err, no_ok, count) = count_is_count (length ds) pos h in
    let same : length columns ≡ length ds = Described-length ds columns described in
    (
      columns,
      described,
      read_query_response_parts (at link s id) (at link behind next) (at link middle between)
          (settled (at link rest last) eof) (append_lenenc_int (length ds)) (length ds) columns rows
          (receive_lem link s behind (append_lenenc_int (length ds)) id next e) no_err no_ok count f
          (ap (λ n. read_rows (length middle + 1) n (at link middle between)) same
            ∙ read_rows_lem link (length ds) (length middle + 1) rows eof middle between rest last
                are_rows fits short (omega arith) d2),
    )
