-- ===== src/Snapshot.antt =====
-- pkg/fsm/fsm_snapshot.go and BytesFromSnapshot of pkg/utils/misc.go: the bytes of a snapshot of the
-- database. A byte is a number below 256.
pub mod RoundTrip
pub mod Whole
mod Examples
use scheduler.Base.{
  and_then, ℕ, zero, suc, ◌+◌, ◌-◌, ◌*◌, ◌/◌, ◌%◌, ◌^◌, Bool, true, false, ◌&&◌, List, [], ◌∷◌,
  ◌++◌, Option, none, some, length, take, drop, leb, ltb, nat_beq, if◌then◌else◌,
}
use scheduler.Base.Words.{add64, slt, word64}

-- binary.Write of a uint64 in little-endian order, with `n` bytes.
unfoldable pub write_uint : ℕ → ℕ → List ℕ
write_uint zero v = []
write_uint (suc n) v = v % 256 ∷ write_uint n (v / 256)

-- WriteUint64
abbrev pub write_uint64 : ℕ → List ℕ
write_uint64 v = write_uint 8 v

-- ReadUint64; of eight bytes it does not fail.
unfoldable pub read_uint64 : List ℕ → ℕ
read_uint64 [] = 0
read_uint64 (b ∷ bs) = b + 256 * read_uint64 bs

abbrev pub max_uint64 : ℕ
max_uint64 = 2 ^ 64 - 1

-- gzip, and the sink of the raft library, which may refuse what is written to it.
pub record Outside : Type 0 where
  pub compress : List ℕ → List ℕ
  pub decompress : List ℕ → Option (List ℕ)
  pub accepts : List ℕ → List ℕ → Bool
  pub closes : Bool

pub record Sink : Type 0 where
  pub written : List ℕ
  pub closed : Bool
  pub cancelled : Bool

unfoldable pub sink_write : Outside → List ℕ → Sink → Option Sink
sink_write o bytes k =
    if o.accepts k.written bytes then some (record k { written = k.written ++ bytes }) else none

unfoldable pub sink_close : Outside → Sink → Option Sink
sink_close o k = if o.closes then some (record k { closed = true }) else none

-- The function in Persist that writes the parts.
unfoldable pub write_parts : Outside → List ℕ → Sink → Option Sink
unfolding sink_write sink_close write_uint
write_parts o db k = and_then (sink_write o (write_uint64 max_uint64) k) λ k1.
    and_then (sink_write o (write_uint64 (word64 (length (o.compress db)))) k1)
      λ k2. and_then (sink_write o (o.compress db) k2) λ k3. sink_close o k3

-- Cancel drops what was written.
abbrev pub or_cancel : Sink → Option Sink → Bool × Sink
or_cancel k none = (false, record k { cancelled = true })
or_cancel k (some k') = (true, k')

-- Persist: whether it returns no error, and the sink.
unfoldable pub persist : Outside → List ℕ → Sink → Bool × Sink
unfolding write_parts
persist o db k = or_cancel k (write_parts o db k)

-- b[low:high], whose bounds are checked against the capacity of `b`: `spare` are the bytes after its
-- end. `none` is a panic.
abbrev pub slice : ℕ → ℕ → List ℕ → List ℕ → Option (List ℕ)
slice low high b spare =
    if leb low high && leb high (length (b ++ spare))
    then some (take (high - low) (drop low (b ++ spare)))
    else none

-- The database (a nil slice is `none`), or an error.
pub data Read : Type 0 where
  database : Option (List ℕ) → Read
  failed : Read

abbrev pub decompressed : Option (List ℕ) → Read
decompressed none = failed
decompressed (some db) = database (some db)

abbrev pub read_compressed : Outside → ℕ → ℕ → List ℕ → List ℕ → Option Read
read_compressed o offset size b spare =
    and_then (slice offset (add64 offset size) b spare)
      λ bytes. some (decompressed (o.decompress bytes))

abbrev pub read_plain : ℕ → ℕ → List ℕ → List ℕ → Option Read
read_plain offset size b spare =
    if slt (length b) (add64 offset size)
    then some failed
    else and_then (slice offset (add64 offset size) b spare) λ bytes. some (database (some bytes))

abbrev pub read_sized : Outside → Bool → ℕ → ℕ → List ℕ → List ℕ → Option Read
read_sized o compressed offset size b spare =
    if ltb 0 size
    then (if compressed
        then read_compressed o offset size b spare
        else read_plain offset size b spare)
    else some (database none)

-- After the first eight bytes: a size, or the mark of a compressed database, whose size follows.
unfoldable pub read_first : Outside → List ℕ → List ℕ → List ℕ → Option Read
unfolding read_uint64
read_first o b spare first =
    if nat_beq (read_uint64 first) max_uint64
    then (and_then (slice 8 16 b spare) λ second. read_sized o true 16 (read_uint64 second) b spare)
    else read_sized o false 8 (read_uint64 first) b spare

-- BytesFromSnapshot, of the bytes that the reader gives. `none` is a panic.
unfoldable pub bytes_from_snapshot : Outside → List ℕ → List ℕ → Option Read
unfolding read_first
bytes_from_snapshot o spare b = and_then (slice 0 8 b spare) (read_first o b spare)
