-- ===== src/MysqlAsync/Frames/RoundTrip.antt =====
-- A payload of any length is read back from its frames.
use ormpp.Base.{
  ℕ, zero, suc, ◌+◌, ◌-◌, ◌<◌, ◌≤◌, true, false, [], ◌∷◌, ◌++◌, Option, some, ◌==◌, leb,
  if◌then◌else◌, Bytes, length, take, drop, min, take-drop, length-drop, length-take, take_all,
  drop_all, length-append, append_assoc, append-nil, nonempty, Bool-cases, inl, inr, ◌≡◌, refl, sym,
  ap, ◌∙◌, arith,
}
use mathlib.Core.Path.{subst}
use ormpp.MysqlAsync.Reader.{◌>>=◌, le_bytes, read_byte, read_le, read_string}
use ormpp.MysqlAsync.Reader.RoundTrip.{read_le-le_bytes, read_string-append}
use ormpp.MysqlAsync.Frames.{
  max_packet_chunk, next_id, frame, read_frame, read_loop, read_packet, prepend, last_frame,
  write_loop, write_packet,
}

read_byte_cons : (c : ℕ) (s : Bytes) → read_byte (c ∷ s) ≡ some (c, s)
unfolding read_byte
read_byte_cons c s = refl

read_frame_parts :
    (size id : ℕ) (chunk s behind_size behind_id rest : Bytes)
    → read_le 3 s ≡ some (size, behind_size)
    → read_byte behind_size ≡ some (id, behind_id)
    → read_string size behind_id ≡ some (chunk, rest)
    → read_frame s ≡ some ((id, chunk), rest)
unfolding read_frame
read_frame_parts size id chunk s behind_size behind_id rest e f g = rw (e, f, g, ◌>>=◌) refl

read_frame-frame :
    (id : ℕ) (chunk rest : Bytes)
    → length chunk < 16777216
    → read_frame (frame id chunk ++ rest) ≡ some ((id, chunk), rest)
unfolding frame
read_frame-frame id chunk rest h =
    let behind : Bytes = id ∷ (chunk ++ rest) in
    ap read_frame (append_assoc (le_bytes 3 (length chunk)) (id ∷ chunk) rest)
    ∙ read_frame_parts (length chunk) id chunk (le_bytes 3 (length chunk) ++ behind) behind
        (chunk ++ rest) rest (read_le-le_bytes 3 (length chunk) behind h)
        (read_byte_cons id (chunk ++ rest)) (read_string-append chunk rest)

length-frame : (id : ℕ) (chunk : Bytes) → length (frame id chunk) ≡ length chunk + 4
unfolding frame le_bytes
length-frame id chunk = omega arith

read_loop-frame :
    (fuel limit id : ℕ) (payload chunk rest : Bytes)
    → length chunk < 16777216
    → read_loop (suc fuel) limit payload (frame id chunk ++ rest) ≡ (
        let later = read_loop fuel limit (payload ++ chunk) rest in
        if length chunk == limit then later else some ((payload ++ chunk, next_id id), rest))
unfolding read_loop
read_loop-frame fuel limit id payload chunk rest h =
    rw (read_frame-frame id chunk rest h, read_loop) refl

-- What was written, and that it is read back behind any payload read before, with any bytes behind it
-- and fuel for each byte and one more frame.
record Written (limit id : ℕ) (payload : Bytes) (result : Option (Bytes × ℕ)) : Type 0 where
  out : Bytes
  last_id : ℕ
  written : result ≡ some (out, last_id)
  long_enough : length payload + 4 ≤ length out
  read_back :
      (fuel : ℕ) (before rest : Bytes)
      → length payload + 1 < fuel
      → read_loop fuel limit before (out ++ rest) ≡ some ((before ++ payload, last_id), rest)

module _ (limit : ℕ) (small : limit < 16777216) where
  -- One frame that is not full ends the payload.
  read_short :
      (id fuel : ℕ) (before payload rest : Bytes)
      → length payload < limit
      → 0 < fuel
      → read_loop fuel limit before (frame id payload ++ rest)
        ≡ some ((before ++ payload, next_id id), rest)
  read_short id zero before payload rest h k = elim k [ ]
  read_short id (suc fuel) before payload rest h k =
      let e : (length payload == limit) ≡ false = ground arith in
      read_loop-frame fuel limit id before payload rest (omega arith) ∙ rw e

  -- A full frame lets the reading go on.
  read_full :
      (id fuel : ℕ) (before chunk rest : Bytes)
      → length chunk ≡ limit
      → read_loop (suc fuel) limit before (frame id chunk ++ rest)
        ≡ read_loop fuel limit (before ++ chunk) rest
  read_full id fuel before chunk rest h =
      let e : (length chunk == limit) ≡ true = ground arith in
      read_loop-frame fuel limit id before chunk rest (omega arith) ∙ rw e

  short_Written :
      (id : ℕ) (payload : Bytes)
      → length payload < limit
      → Written limit id payload (some (last_frame limit id payload))
  unfolding last_frame
  short_Written id payload h =
      let e : (length payload == limit) ≡ false = ground arith in
      record {
        out = frame id payload;
        last_id = next_id id;
        written = rw e;
        long_enough = omega (arith, length-frame id payload);
        read_back = λ fuel before rest k. read_short id fuel before payload rest h (omega arith);
      }

  read_both :
      (id fuel : ℕ) (before payload rest : Bytes)
      → length payload ≡ limit
      → 0 < limit
      → 1 < fuel
      → read_loop fuel limit before ((frame id payload ++ (0 ∷ 0 ∷ 0 ∷ next_id id ∷ [])) ++ rest)
        ≡ some ((before ++ payload, next_id (next_id id)), rest)
  unfolding frame le_bytes
  read_both id zero before payload rest h pos k = elim k [ ]
  read_both id (suc fuel) before payload rest h pos k =
      ap (read_loop (suc fuel) limit before)
        (append_assoc (frame id payload) (0 ∷ 0 ∷ 0 ∷ next_id id ∷ []) rest)
      ∙ read_full id fuel before payload (frame (next_id id) [] ++ rest) h
      ∙ read_short (next_id id) fuel (before ++ payload) [] rest pos (omega arith)
      ∙ rw (append-nil (before ++ payload)) refl

  -- A full last chunk and the empty frame behind it
  full_Written :
      (id : ℕ) (payload : Bytes)
      → length payload ≡ limit
      → 0 < limit
      → Written limit id payload (some (last_frame limit id payload))
  unfolding last_frame
  full_Written id payload h pos =
      let e : (length payload == limit) ≡ true = ground arith in
      let end : Bytes = 0 ∷ 0 ∷ 0 ∷ next_id id ∷ [] in
      record {
        out = frame id payload ++ end;
        last_id = next_id (next_id id);
        written = rw e;
        long_enough = omega (arith, length-append (frame id payload) end, length-frame id payload);
        read_back = λ fuel before rest k. read_both id fuel before payload rest h pos (omega arith);
      }

  -- The last chunk
  last_Written :
      (id : ℕ) (payload : Bytes)
      → length payload ≤ limit
      → 0 < limit
      → Written limit id payload (some (last_frame limit id payload))
  last_Written id payload h pos = elim (Bool-cases (length payload == limit)) [
    | inl e ↦ full_Written id payload (ground arith) pos
    | inr e ↦ short_Written id payload (ground arith)
  ]

  more_read :
      (id : ℕ) (payload : Bytes) (result : Option (Bytes × ℕ))
      → limit < length payload
      → 0 < limit
      → (more : Written limit (next_id id) (drop limit payload) result) (fuel : ℕ)
        (before rest : Bytes)
      → length payload + 1 < fuel
      → read_loop fuel limit before ((frame id (take limit payload) ++ more.out) ++ rest)
        ≡ some ((before ++ payload, more.last_id), rest)
  more_read id payload result h pos more zero before rest k = elim k [ ]
  more_read id payload result h pos more (suc fuel) before rest k =
      let left : length (drop limit payload) ≡ length payload - limit = length-drop limit payload in
      ap (read_loop (suc fuel) limit before)
        (append_assoc (frame id (take limit payload)) more.out rest)
      ∙ read_full id fuel before (take limit payload) (more.out ++ rest)
          (length-take limit payload (omega arith))
      ∙ more.read_back fuel (before ++ take limit payload) rest (omega arith)
      ∙ rw (append_assoc before (take limit payload) (drop limit payload), take-drop limit payload)
          refl

  -- A full chunk before what is written already
  more_Written :
      (id : ℕ) (payload : Bytes) (result : Option (Bytes × ℕ))
      → limit < length payload
      → 0 < limit
      → Written limit (next_id id) (drop limit payload) result
      → Written limit id payload (prepend (frame id (take limit payload)) result)
  more_Written id payload result h pos more =
      let full : length (take limit payload) ≡ limit = length-take limit payload (omega arith) in
      let left : length (drop limit payload) ≡ length payload - limit = length-drop limit payload in
      record {
        out = frame id (take limit payload) ++ more.out;
        last_id = more.last_id;
        written = rw (more.written);
        long_enough = omega (
          arith,
          length-append (frame id (take limit payload)) more.out,
          length-frame id (take limit payload),
          more.long_enough,
        );
        read_back = λ fuel before rest k. more_read id payload result h pos more fuel before rest k;
      }

  write_loop_last :
      (fuel id : ℕ) (payload : Bytes)
      → length payload ≤ limit
      → write_loop (suc fuel) limit id payload ≡ some (last_frame limit id payload)
  unfolding write_loop
  write_loop_last fuel id payload h =
      let e : min (length payload) limit ≡ length payload = omega arith in
      rw (write_loop, e, drop_all payload, e, take_all payload) refl

  write_loop_split :
      (fuel id size : ℕ) (payload : Bytes) (c : ℕ) (cs : Bytes)
      → min (length payload) limit ≡ size
      → drop size payload ≡ c ∷ cs
      → write_loop (suc fuel) limit id payload
        ≡ prepend (frame id (take size payload)) (write_loop fuel limit (next_id id) (c ∷ cs))
  unfolding write_loop
  write_loop_split fuel id size payload c cs e f = rw (write_loop, e, f, e, f) refl

  write_loop_more :
      (fuel id : ℕ) (payload : Bytes)
      → limit < length payload
      → write_loop (suc fuel) limit id payload
        ≡ prepend
            (frame id (take limit payload))
            (write_loop fuel limit (next_id id) (drop limit payload))
  write_loop_more fuel id payload h =
      let left : length (drop limit payload) ≡ length payload - limit = length-drop limit payload in
      let (c, cs, f) = nonempty (drop limit payload) (omega arith) in
      write_loop_split fuel id limit payload c cs (omega arith) f
      ∙ ap
          (λ behind.
            prepend (frame id (take limit payload)) (write_loop fuel limit (next_id id) behind))
          (sym f)

  -- Enough fuel: one step for each byte and one more
  write_loop-Written :
      (fuel id : ℕ) (payload : Bytes)
      → 0 < limit
      → length payload < fuel
      → Written limit id payload (write_loop fuel limit id payload)
  write_loop-Written zero id payload pos k = elim k [ ]
  write_loop-Written (suc fuel) id payload pos k =
      let left : length (drop limit payload) ≡ length payload - limit = length-drop limit payload in
      elim (Bool-cases (leb (length payload) limit)) [
        | inl e ↦
            subst (Written limit id payload) (sym (write_loop_last fuel id payload (ground arith)))
              (last_Written id payload (ground arith) pos)
        | inr e ↦
            subst (Written limit id payload) (sym (write_loop_more fuel id payload (ground arith)))
              (more_Written id payload (write_loop fuel limit (next_id id) (drop limit payload))
                (ground arith) pos
                (write_loop-Written fuel (next_id id) (drop limit payload) pos (ground arith)))
      ]

pub written_and_read :
    (id : ℕ) (payload : Bytes)
    → (out : Bytes) × (last_id : ℕ) × (write_packet id payload ≡ some (out, last_id))
      × (4 ≤ length out)
      × ((rest : Bytes) → read_packet (out ++ rest) ≡ some ((payload, last_id), rest))
unfolding write_packet read_packet
written_and_read id payload =
    let w : Written max_packet_chunk id payload (write_packet id payload) =
      write_loop-Written max_packet_chunk (omega arith) (length payload + 1) id payload
        (omega arith) (omega arith) in
    (
      w.out,
      w.last_id,
      w.written,
      omega (arith, w.long_enough),
      λ rest.
          w.read_back (length (w.out ++ rest) + 1) [] rest
            (omega (arith, length-append (w.out) rest, w.long_enough)),
    )

-- A payload of any length, empty and of full frames too, is written completely (the loop ends), and
-- `read_packet` reads exactly it back, with the id behind its last frame, and leaves what follows.
pub read_packet-write_packet :
    (id : ℕ) (payload : Bytes)
    → (out : Bytes) × (last_id : ℕ) × (write_packet id payload ≡ some (out, last_id))
      × ((rest : Bytes) → read_packet (out ++ rest) ≡ some ((payload, last_id), rest))
read_packet-write_packet id payload =
    let (out, last_id, e, long, read) = written_and_read id payload in (out, last_id, e, read)
