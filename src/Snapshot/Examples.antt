-- ===== src/Snapshot/Examples.antt =====
-- Small snapshots, and the theorems at them.
use scheduler.Base.{ℕ, ◌≡◌, ◌⊎◌, refl, true, false, List, [], ◌∷◌, ◌++◌, Option, none, some, arith}
use scheduler.Snapshot.{
  Outside, database, write_uint, write_uint64, max_uint64, read_uint64, persist,
  bytes_from_snapshot,
}
use scheduler.Snapshot.Whole.{persist_lem}
use scheduler.Snapshot.RoundTrip.{empty_sink, persist-bytes_from_snapshot}

abbrev tail_of : List ℕ → Option (List ℕ)
tail_of [] = none
tail_of (b ∷ bs) = some bs

-- A compression that puts one byte before the data.
abbrev outside : Outside
outside = record {
  compress = λ b. 31 ∷ b;
  decompress = tail_of;
  accepts = λ w bytes. true;
  closes = true;
}

read_back : read_uint64 (write_uint64 770) ≡ 770
unfolding read_uint64 write_uint
read_back = refl

written : (persist outside (7 ∷ 9 ∷ []) empty_sink).1.written ≡ (
    255 ∷ 255 ∷ 255 ∷ 255 ∷ 255 ∷ 255 ∷ 255 ∷ 255 ∷ 3 ∷ 0 ∷ 0 ∷ 0 ∷ 0 ∷ 0 ∷ 0 ∷ 0 ∷ 31 ∷ 7 ∷ 9 ∷ [])
unfolding persist write_uint
written = refl

persist-bytes_from_snapshot_example :
    ((persist outside (7 ∷ 9 ∷ []) empty_sink).0 ≡ true)
    × ((persist outside (7 ∷ 9 ∷ []) empty_sink).1.closed ≡ true)
    × (bytes_from_snapshot outside (0 ∷ []) (persist outside (7 ∷ 9 ∷ []) empty_sink).1.written
        ≡ some (database (some (7 ∷ 9 ∷ []))))
persist-bytes_from_snapshot_example =
    persist-bytes_from_snapshot outside (0 ∷ []) (7 ∷ 9 ∷ []) ((λ w bytes. refl), refl) refl
      (omega arith) (omega arith)

-- A sink that refuses everything after the first eight bytes.
abbrev narrow : Outside
narrow = record outside { accepts = λ w bytes. elim w [ [] ↦ true | b ∷ bs ↦ false ] }

persist_lem_example :
    (persist narrow (7 ∷ []) empty_sink ≡ (
      true,
      record {
        written = (write_uint64 max_uint64 ++ write_uint64 2) ++ 31 ∷ 7 ∷ [];
        closed = true;
        cancelled = false;
      },
    ))
    ⊎ (persist narrow (7 ∷ []) empty_sink
        ≡ (false, record { written = []; closed = false; cancelled = true }))
persist_lem_example = persist_lem narrow (7 ∷ [])
