-- ===== src/Snapshot/Whole.antt =====
-- A sink that refuses a part is cancelled.
use scheduler.Base.{
  and_then, ℕ, ◌≡◌, ◌⊎◌, ◌∙◌, ap, inl, inr, true, false, List, [], ◌++◌, Option, none, some, length,
  if◌then◌else◌, Bool-cases,
}
use scheduler.Base.Words.{word64}
use scheduler.Snapshot.{
  Outside, Sink, write_uint64, max_uint64, sink_write, sink_close, persist, or_cancel,
}
use scheduler.Snapshot.RoundTrip.{empty_sink}

sink_write-cases :
    (o : Outside) (bytes : List ℕ) (k : Sink)
    → (sink_write o bytes k ≡ none)
      ⊎ (sink_write o bytes k ≡ some (record k { written = k.written ++ bytes }))
unfolding sink_write
sink_write-cases o bytes k = elim (Bool-cases (o.accepts k.written bytes)) [
  | inl taken ↦
      inr (ap (λ t. if t then some (record k { written = k.written ++ bytes }) else none) taken)
  | inr refused ↦
      inl (ap (λ t. if t then some (record k { written = k.written ++ bytes }) else none) refused)
]

sink_close-cases :
    (o : Outside) (k : Sink)
    → (sink_close o k ≡ none) ⊎ (sink_close o k ≡ some (record k { closed = true }))
unfolding sink_close
sink_close-cases o k = elim (Bool-cases o.closes) [
  | inl taken ↦ inr (ap (λ t. if t then some (record k { closed = true }) else none) taken)
  | inr refused ↦ inl (ap (λ t. if t then some (record k { closed = true }) else none) refused)
]

-- A call whose step has one of two results.
either_way :
    {A : Type 0} (x : Option A) (a : A) (f : A → Option A)
    → (x ≡ none) ⊎ (x ≡ some a)
    → (and_then x f ≡ none) ⊎ (and_then x f ≡ f a)
either_way x a f (inl e) = inl (ap (λ y. and_then y f) e)
either_way x a f (inr e) = inr (ap (λ y. and_then y f) e)

after :
    {A : Type 0} (x y z : Option A)
    → (x ≡ none) ⊎ (x ≡ y)
    → (y ≡ none) ⊎ (y ≡ z)
    → (x ≡ none) ⊎ (x ≡ z)
after x y z (inl e) h = inl e
after x y z (inr e) (inl f) = inl (e ∙ f)
after x y z (inr e) (inr f) = inr (e ∙ f)

three_parts-cases :
    (o : Outside) (a b c : List ℕ) (k : Sink)
    → ((and_then (sink_write o a k) λ k1.
          and_then (sink_write o b k1) λ k2. and_then (sink_write o c k2) λ k3. sink_close o k3)
        ≡ none)
      ⊎ ((and_then (sink_write o a k) λ k1.
            and_then (sink_write o b k1) λ k2. and_then (sink_write o c k2) λ k3. sink_close o k3)
          ≡ some (record k { written = ((k.written ++ a) ++ b) ++ c; closed = true }))
three_parts-cases o a b c k =
    let k1 : Sink = record k { written = k.written ++ a } in
    let k2 : Sink = record k { written = (k.written ++ a) ++ b } in
    let k3 : Sink = record k { written = ((k.written ++ a) ++ b) ++ c } in
    after _ _ _
      (either_way (sink_write o a k) k1
        (λ k1.
          and_then (sink_write o b k1) λ k2. and_then (sink_write o c k2) λ k3. sink_close o k3)
        (sink_write-cases o a k))
      (after _ _ _
        (either_way (sink_write o b k1) k2
          (λ k2. and_then (sink_write o c k2) λ k3. sink_close o k3) (sink_write-cases o b k1))
        (after _ _ _
          (either_way (sink_write o c k2) k3 (λ k3. sink_close o k3) (sink_write-cases o c k2))
          (sink_close-cases o k3)))

-- A snapshot is whole or cancelled: for any sink, either Persist returns no error and the sink is closed
-- with all three parts in it, or it returns an error, and the sink is cancelled and not closed.
pub persist_lem :
    (o : Outside) (db : List ℕ)
    → (persist o db empty_sink ≡ (
      true,
      record {
        written =
            (write_uint64 max_uint64 ++ write_uint64 (word64 (length (o.compress db))))
            ++ o.compress db;
        closed = true;
        cancelled = false;
      },
    ))
      ⊎ (persist o db empty_sink
          ≡ (false, record { written = []; closed = false; cancelled = true }))
unfolding persist
persist_lem o db =
    elim (three_parts-cases o (write_uint64 max_uint64)
      (write_uint64 (word64 (length (o.compress db)))) (o.compress db) empty_sink) [
        | inr whole ↦ inl (ap (or_cancel empty_sink) whole)
        | inl refused ↦ inr (ap (or_cancel empty_sink) refused)
      ]
