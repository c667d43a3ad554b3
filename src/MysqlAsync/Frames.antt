-- ===== src/MysqlAsync/Frames.antt =====
-- ormpp/mysql_async.hpp, `read_packet` and `write_packet`: how a payload is cut into frames with a
-- length and a sequence id. The socket is the bytes that come in, or those that have been written.
pub mod RoundTrip
use ormpp.Base.{
  ℕ, zero, suc, ◌+◌, ◌%◌, Bool, true, false, List, [], ◌∷◌, ◌++◌, Option, none, some, ◌==◌, ltb,
  leb, if◌then◌else◌, Bytes, length, take, drop, min,
}
use ormpp.MysqlAsync.Reader.{Reader, ◌>>=◌, ◌>>◌, pure, le_bytes, read_byte, read_le, read_string}

abbrev pub max_packet_chunk : ℕ
max_packet_chunk = 0x00ffffff

-- `sequence_id_++` on a byte
abbrev pub next_id : ℕ → ℕ
next_id sequence_id = (sequence_id + 1) % 256

unfoldable pub frame : ℕ → Bytes → Bytes
frame sequence_id chunk = le_bytes 3 (length chunk) ++ sequence_id ∷ chunk

-- The header of a frame and its bytes: the id and the chunk
unfoldable pub read_frame : Reader (ℕ × Bytes)
read_frame = do
  payload_size ← read_le 3
  sequence_id ← read_byte
  chunk ← read_string payload_size
  pure (sequence_id, chunk)

-- `for (;;)` of `read_packet`: the fuel bounds the frames. `none` is the exception of a read behind the
-- end of the stream. The result has the payload and the new `sequence_id_`.
unfoldable pub read_loop : ℕ → ℕ → Bytes → Reader (Bytes × ℕ)
unfolding read_frame
read_loop zero limit payload s = none
read_loop (suc fuel) limit payload s = elim (read_frame s) [
  | none ↦ none
  | some ((sequence_id, chunk), rest) ↦
      let later = read_loop fuel limit (payload ++ chunk) rest in
      if length chunk == limit then later else some ((payload ++ chunk, next_id sequence_id), rest)
]

unfoldable pub read_packet : Reader (Bytes × ℕ)
unfolding read_loop
read_packet s = read_loop (length s + 1) max_packet_chunk [] s

abbrev pub prepend : Bytes → Option (Bytes × ℕ) → Option (Bytes × ℕ)
prepend out none = none
prepend out (some (more, sequence_id)) = some (out ++ more, sequence_id)

-- The end of the loop of `write_packet`, where the payload ends with this chunk: a full last chunk is
-- followed by an empty frame.
unfoldable pub last_frame : ℕ → ℕ → Bytes → Bytes × ℕ
last_frame limit sequence_id chunk =
    if length chunk == limit
    then (
      frame sequence_id chunk ++ (0 ∷ 0 ∷ 0 ∷ next_id sequence_id ∷ []),
      next_id (next_id sequence_id),
    )
    else (frame sequence_id chunk, next_id sequence_id)

-- `do … while (offset < payload.size())`: here on the payload behind the offset. `none` is that the
-- fuel ran out.
unfoldable pub write_loop : ℕ → ℕ → ℕ → Bytes → Option (Bytes × ℕ)
unfolding frame last_frame
write_loop zero limit sequence_id payload = none
write_loop (suc fuel) limit sequence_id payload =
    let chunk_size = min (length payload) limit in
    let chunk = take chunk_size payload in
    elim (drop chunk_size payload) [
      | [] ↦ some (last_frame limit sequence_id chunk)
      | c ∷ cs ↦
          prepend (frame sequence_id chunk)
            (write_loop fuel limit (next_id sequence_id) (drop chunk_size payload))
    ]

unfoldable pub write_packet : ℕ → Bytes → Option (Bytes × ℕ)
unfolding write_loop
write_packet sequence_id payload =
    write_loop (length payload + 1) max_packet_chunk sequence_id payload
