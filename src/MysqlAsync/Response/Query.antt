-- ===== src/MysqlAsync/Response/Query.antt =====
-- A statement and its result set: `query_text`.
use ormpp.Base.{
  ℕ, ◌<◌, true, List, ◌∷◌, ◌++◌, Option, none, some, Bytes, length, All, ◌≡◌, refl, sym, ◌∙◌,
}
use mathlib.Core.Path.{subst}
use mathlib.Core.Option.{some-injective}
use ormpp.MysqlAsync.Reader.RoundTrip.{uint64_mod}
use ormpp.MysqlAsync.Packets.{OkPacket, ColumnDefinition}
use ormpp.MysqlAsync.Packets.RoundTrip.{Fits, ok_payload}
use ormpp.MysqlAsync.Frames.{write_packet}
use ormpp.MysqlAsync.Frames.RoundTrip.{read_packet-write_packet}
use ormpp.MysqlAsync.Response.{
  Link, Answer, gives, go_on, ◌>>=◌, ◌>>◌, send, start_command, read_query_response, QueryResult,
  command_simple, query_text,
}
use ormpp.MysqlAsync.Response.Delivery.{Delivered, Described, AreShort, IsRow}
use ormpp.MysqlAsync.Response.Result.{
  result_packets, write_packets, write_packets-Delivered, answered, result_set_read,
}

pub send_lem :
    (link : Link) (payload out : Bytes) (next : ℕ)
    → write_packet link.sequence_id payload ≡ some (out, next)
    → send payload link
      ≡ (gives tt, record link { outgoing = link.outgoing ++ out; sequence_id = next })
unfolding send
send_lem link payload out next e = rw (send, e) refl

query_text_parts :
    (link sent : Link) (sql : Bytes) (result : Answer QueryResult × Link)
    → send (3 ∷ sql) (record link { sequence_id = 0 }) ≡ (gives tt, sent)
    → read_query_response sent ≡ result
    → query_text sql link ≡ result
unfolding query_text command_simple start_command
query_text_parts link sent sql result e f = rw (e, f, ◌>>◌, ◌>>=◌, go_on) refl

-- A statement is sent in one packet with the id 0, whatever its length, and the result set that the server sends for it, each
-- packet in its frames, is answered completely: with its rows, value by value, and its columns (their texts
-- one field late), the number of rows as the affected rows, the insert id and the status of the last packet,
-- and the bytes behind it left on the socket. The last packet is at most 8 bytes long, which holds where it has no info text.
pub query_text-write_packets :
    (link : Link) (sql : Bytes) (ds : List (Bytes × ColumnDefinition))
    (rows : List (List (Option Bytes))) (eof : OkPacket) (id : ℕ) (out : Bytes) (last : ℕ)
    (rest : Bytes)
    → 0 < length ds
    → length ds < uint64_mod
    → AreShort ds
    → All (IsRow (length ds)) rows
    → Fits eof
    → length (ok_payload 0xfe eof) < 9
    → write_packets id (result_packets ds rows eof) ≡ some (out, last)
    → (sent : Bytes) × (next : ℕ) × (columns : List ColumnDefinition) × (write_packet 0 (3 ∷ sql)
        ≡ some (sent, next))
      × Described ds columns
      × (query_text sql (record link { incoming = out ++ rest }) ≡ (
        gives (record { has_resultset = true; ok = none; columns = columns; rows = rows }),
        answered (record link { outgoing = link.outgoing ++ sent }) rest last eof (length rows),
      ))
query_text-write_packets link sql ds rows eof id out last rest pos h shorts are_rows fits short
      written =
    let ps : List Bytes = result_packets ds rows eof in
    let (sent, next, w, read) = read_packet-write_packet 0 (3 ∷ sql) in
    let (o, l, e, d) = write_packets-Delivered id ps in
    let same : (o, l) ≡ (out, last) = some-injective (o, l) (out, last) (sym e ∙ written) in
    let delivered : Delivered ps (out ++ rest) id rest last =
      subst (λ r. Delivered ps (r.0 ++ rest) id rest r.1) same (d rest) in
    let begun : Link = record link { incoming = out ++ rest } in
    let asked : Link = record begun { outgoing = link.outgoing ++ sent; sequence_id = next } in
    let (columns, described, answer) =
      result_set_read asked ds rows eof (out ++ rest) next rest last pos h shorts are_rows fits
        short delivered in
    (
      sent,
      next,
      columns,
      w,
      described,
      query_text_parts begun asked sql _
          (send_lem (record begun { sequence_id = 0 }) (3 ∷ sql) sent next w) answer,
    )
