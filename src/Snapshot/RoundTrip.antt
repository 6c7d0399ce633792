-- ===== src/Snapshot/RoundTrip.antt =====
-- What Persist has written, BytesFromSnapshot reads.
use scheduler.Base.{
  and_then, ℕ, zero, suc, ◌+◌, ◌-◌, ◌*◌, ◌/◌, ◌^◌, ◌<◌, ◌≡◌, refl, ◌∙◌, ap, subst, subst₂, Bool,
  true, false, ◌&&◌, List, [], ◌++◌, none, some, length, leb, ltb, nat_beq, if◌then◌else◌, arith,
  take-length, drop-length, append_assoc, length-append, append-nil,
}
use scheduler.Base.Words.{add64, slt, word64}
use scheduler.Snapshot.{
  Outside, Sink, database, failed, write_uint, write_uint64, read_uint64, max_uint64, sink_write,
  sink_close, persist, or_cancel, slice, read_sized, read_compressed, read_plain, decompressed,
  read_first, bytes_from_snapshot,
}

-- 256 to the `n`.
abbrev bound : ℕ → ℕ
bound zero = 1
bound (suc n) = 256 * bound n

read-write_uint : (n v : ℕ) → v < bound n → read_uint64 (write_uint n v) ≡ v
unfolding read_uint64 write_uint
read-write_uint zero v h = omega (arith, h)
read-write_uint (suc n) v h =
    let rest = read-write_uint n (v / 256) (omega (arith, h)) in omega (arith, rest)

read-write_uint64 : (v : ℕ) → v < 2 ^ 64 → read_uint64 (write_uint64 v) ≡ v
read-write_uint64 v h = read-write_uint 8 v h

length-write_uint : (n v : ℕ) → length (write_uint n v) ≡ n
unfolding write_uint
length-write_uint zero v = refl
length-write_uint (suc n) v = let rest = length-write_uint n (v / 256) in omega (arith, rest)

-- A slice between two parts.
slice_between :
    (pre bytes rest spare : List ℕ)
    → slice (length pre) (length pre + length bytes) (pre ++ (bytes ++ rest)) spare ≡ some bytes
slice_between pre bytes rest spare =
    let apart : (pre ++ (bytes ++ rest)) ++ spare ≡ pre ++ (bytes ++ (rest ++ spare)) =
      append_assoc pre (bytes ++ rest) spare ∙ ap (λ l. pre ++ l) (append_assoc bytes rest spare) in
    let total : length (pre ++ (bytes ++ (rest ++ spare)))
        ≡ length pre + (length bytes + length (rest ++ spare)) =
      length-append pre (bytes ++ (rest ++ spare))
      ∙ ap (λ n. length pre + n) (length-append bytes (rest ++ spare)) in
    let inside : (leb (length pre) (length pre + length bytes)
          && leb (length pre + length bytes) (length (pre ++ (bytes ++ (rest ++ spare)))))
        ≡ true =
      rw total (ground arith) in
    let width : length pre + length bytes - length pre ≡ length bytes = omega arith in
    rw (apart, inside, width, drop-length pre (bytes ++ (rest ++ spare)))
      (ap some (take-length bytes (rest ++ spare)))

slice_at :
    (pre bytes rest spare : List ℕ) (low high : ℕ)
    → length pre ≡ low
    → length pre + length bytes ≡ high
    → slice low high (pre ++ (bytes ++ rest)) spare ≡ some bytes
slice_at pre bytes rest spare low high l h =
    subst₂ (λ (i j : ℕ). slice i j (pre ++ (bytes ++ rest)) spare ≡ some bytes) l h
      (slice_between pre bytes rest spare)

read_sized_compressed :
    (o : Outside) (size : ℕ) (b bytes spare db : List ℕ)
    → slice 16 (16 + size) b spare ≡ some bytes
    → o.decompress bytes ≡ some db
    → 0 < size
    → size < 2 ^ 63
    → read_sized o true 16 size b spare ≡ some (database (some db))
read_sized_compressed o size b bytes spare db part whole some_bytes few =
    let test : ltb 0 size ≡ true = ground arith in
    let end : add64 16 size ≡ 16 + size = omega arith in
    ap (λ t. if t then read_compressed o 16 size b spare else some (database none)) test
    ∙ ap (λ h. and_then (slice 16 h b spare) (λ x. some (decompressed (o.decompress x)))) end
    ∙ ap (λ p. and_then p (λ x. some (decompressed (o.decompress x)))) part
    ∙ ap (λ x. some (decompressed x)) whole

-- What is read of a snapshot with a compressed database.
read_parts :
    (o : Outside) (spare db magic size bytes : List ℕ)
    → length magic ≡ 8
    → length size ≡ 8
    → read_uint64 magic ≡ max_uint64
    → read_uint64 size ≡ length bytes
    → o.decompress bytes ≡ some db
    → 0 < length bytes
    → length bytes < 2 ^ 63
    → bytes_from_snapshot o spare (magic ++ (size ++ bytes)) ≡ some (database (some db))
unfolding bytes_from_snapshot read_first
read_parts o spare db magic size bytes eight eight' marked sized whole some_bytes few =
    let b = magic ++ (size ++ bytes) in
    let first : slice 0 8 b spare ≡ some magic =
      slice_at [] magic (size ++ bytes) spare 0 8 refl (omega (arith, eight)) in
    let second : slice 8 16 b spare ≡ some size =
      slice_at magic size bytes spare 8 16 eight (omega (arith, eight, eight')) in
    let both : length (magic ++ size) ≡ 16 =
      length-append magic size ∙ omega (arith, eight, eight') in
    let third : slice 16 (16 + length bytes) b spare ≡ some bytes =
      subst (λ l. slice 16 (16 + length bytes) l spare ≡ some bytes)
        (ap (λ l. (magic ++ size) ++ l) (append-nil bytes) ∙ append_assoc magic size bytes)
        (slice_at (magic ++ size) bytes [] spare 16 (16 + length bytes) (omega (arith, both))
          (omega (arith, both))) in
    ap (λ p. and_then p (read_first o b spare)) first
    ∙ ap
        (λ n.
          if nat_beq n max_uint64
          then (and_then (slice 8 16 b spare) (λ x. read_sized o true 16 (read_uint64 x) b spare))
          else read_sized o false 8 n b spare)
        marked
    ∙ ap (λ p. and_then p (λ x. read_sized o true 16 (read_uint64 x) b spare)) second
    ∙ ap (λ n. read_sized o true 16 n b spare) sized
    ∙ read_sized_compressed o (length bytes) b bytes spare db third whole some_bytes few

-- A sink that takes all that is written to it, and closes.
abbrev pub TakesAll : Outside → Type 0
TakesAll o = ((w bytes : List ℕ) → o.accepts w bytes ≡ true) × (o.closes ≡ true)

abbrev pub empty_sink : Sink
empty_sink = record { written = []; closed = false; cancelled = false }

sink_write_all :
    (o : Outside) (bytes : List ℕ) (k : Sink)
    → TakesAll o
    → sink_write o bytes k ≡ some (record k { written = k.written ++ bytes })
unfolding sink_write
sink_write_all o bytes k takes =
    ap (λ t. if t then some (record k { written = k.written ++ bytes }) else none)
      (takes.0 k.written bytes)

-- Three parts are written one after the other, and the sink is closed.
three_parts :
    (o : Outside) (a b c : List ℕ) (k : Sink)
    → TakesAll o
    → (and_then
        (sink_write o a k)
        λ k1. and_then (sink_write o b k1) λ k2. and_then (sink_write o c k2) λ k3. sink_close o k3)
      ≡ some (record k { written = ((k.written ++ a) ++ b) ++ c; closed = true })
unfolding sink_close
three_parts o a b c k takes =
    let k1 : Sink = record k { written = k.written ++ a } in
    let k2 : Sink = record k { written = (k.written ++ a) ++ b } in
    let k3 : Sink = record k { written = ((k.written ++ a) ++ b) ++ c } in
    ap
      (λ x.
        and_then x λ k1.
          and_then (sink_write o b k1) λ k2. and_then (sink_write o c k2) λ k3. sink_close o k3)
      (sink_write_all o a k takes)
    ∙ ap (λ x. and_then x λ k2. and_then (sink_write o c k2) λ k3. sink_close o k3)
        (sink_write_all o b k1 takes)
    ∙ ap (λ x. and_then x λ k3. sink_close o k3) (sink_write_all o c k2 takes)
    ∙ ap (λ t. if t then some (record k3 { closed = true }) else none) takes.1

-- Persist writes to the sink a snapshot from which BytesFromSnapshot reads the database: if the sink
-- takes all and closes, and gzip gives bytes (some, and fewer than 2^63) that it decompresses to the
-- database, then Persist returns no error, leaves the sink closed, and what is written reads as the
-- database, whatever stands after it in the reader's buffer.
pub persist-bytes_from_snapshot :
    (o : Outside) (spare db : List ℕ)
    → TakesAll o
    → o.decompress (o.compress db) ≡ some db
    → 0 < length (o.compress db)
    → length (o.compress db) < 2 ^ 63
    → ((persist o db empty_sink).0 ≡ true)
      × ((persist o db empty_sink).1.closed ≡ true)
      × (bytes_from_snapshot o spare (persist o db empty_sink).1.written
          ≡ some (database (some db)))
unfolding persist
persist-bytes_from_snapshot o spare db takes whole some_bytes few =
    let bytes = o.compress db in
    let magic = write_uint64 max_uint64 in
    let size = write_uint64 (word64 (length bytes)) in
    let small : word64 (length bytes) < 2 ^ 64 = omega arith in
    let end : persist o db empty_sink
        ≡ (true, record { written = (magic ++ size) ++ bytes; closed = true; cancelled = false }) =
      ap (or_cancel empty_sink) (three_parts o magic size bytes empty_sink takes) in
    let sized : read_uint64 size ≡ length bytes =
      read-write_uint64 (word64 (length bytes)) small ∙ omega arith in
    (
      ap (λ (x : Bool × Sink). x.0) end,
      ap (λ (x : Bool × Sink). x.1.closed) end,
      ap (λ (x : Bool × Sink). bytes_from_snapshot o spare x.1.written) end
          ∙ ap (bytes_from_snapshot o spare) (append_assoc magic size bytes)
          ∙ read_parts o spare db magic size bytes (length-write_uint 8 max_uint64)
              (length-write_uint 8 (word64 (length bytes)))
              (read-write_uint64 max_uint64 (omega arith)) sized whole some_bytes few,
    )

read_sized_plain :
    (o : Outside) (size : ℕ) (b db spare : List ℕ)
    → slice 8 (8 + size) b spare ≡ some db
    → length b ≡ 8 + size
    → 0 < size
    → size < 2 ^ 62
    → read_sized o false 8 size b spare ≡ some (database (some db))
read_sized_plain o size b db spare part total some_bytes few =
    let test : ltb 0 size ≡ true = ground arith in
    let end : add64 8 size ≡ 8 + size = omega arith in
    let long : slt (8 + size) (8 + size) ≡ false = ground arith in
    ap (λ t. if t then read_plain 8 size b spare else some (database none)) test
    ∙ ap
        (λ h.
          if slt (length b) h
          then some failed
          else and_then (slice 8 h b spare) (λ x. some (database (some x))))
        end
    ∙ ap
        (λ n.
          if slt n (8 + size)
          then some failed
          else and_then (slice 8 (8 + size) b spare) (λ x. some (database (some x))))
        total
    ∙ ap
        (λ t.
          if t
          then some failed
          else and_then (slice 8 (8 + size) b spare) (λ x. some (database (some x))))
        long
    ∙ ap (λ p. and_then p (λ x. some (database (some x)))) part

read_plain_parts :
    (o : Outside) (spare size db : List ℕ)
    → length size ≡ 8
    → read_uint64 size ≡ length db
    → 0 < length db
    → length db < 2 ^ 62
    → bytes_from_snapshot o spare (size ++ db) ≡ some (database (some db))
unfolding bytes_from_snapshot read_first
read_plain_parts o spare size db eight sized some_bytes few =
    let b = size ++ db in
    let first : slice 0 8 b spare ≡ some size =
      slice_at [] size db spare 0 8 refl (omega (arith, eight)) in
    let unmarked : nat_beq (length db) max_uint64 ≡ false = ground arith in
    let part : slice 8 (8 + length db) b spare ≡ some db =
      subst (λ l. slice 8 (8 + length db) (size ++ l) spare ≡ some db) (append-nil db)
        (slice_at size db [] spare 8 (8 + length db) eight (omega (arith, eight))) in
    let total : length b ≡ 8 + length db = length-append size db ∙ omega (arith, eight) in
    ap (λ p. and_then p (read_first o b spare)) first
    ∙ ap
        (λ n.
          if nat_beq n max_uint64
          then (and_then (slice 8 16 b spare) (λ x. read_sized o true 16 (read_uint64 x) b spare))
          else read_sized o false 8 n b spare)
        sized
    ∙ ap
        (λ t.
          if t
          then (and_then (slice 8 16 b spare) (λ x. read_sized o true 16 (read_uint64 x) b spare))
          else read_sized o false 8 (length db) b spare)
        unmarked
    ∙ read_sized_plain o (length db) b db spare part total some_bytes few

-- A snapshot in the format of earlier versions, the size and the bytes of a database that is not empty
-- (and shorter than 2^62), is read as that database.
pub bytes_from_snapshot-plain :
    (o : Outside) (spare db : List ℕ)
    → 0 < length db
    → length db < 2 ^ 62
    → bytes_from_snapshot o spare (write_uint64 (length db) ++ db) ≡ some (database (some db))
bytes_from_snapshot-plain o spare db some_bytes few =
    read_plain_parts o spare (write_uint64 (length db)) db (length-write_uint 8 (length db))
      (read-write_uint64 (length db) (omega arith)) some_bytes few
