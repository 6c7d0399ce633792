-- ===== src/HttpJobs/Batches.antt =====
-- The batches of BatchByBytes of pkg/utils/batcher.go, and the jobs by callback url of
-- pkg/service/executor/executors/http_post.go.
use native.Mathlib.Nat.{mul-add-mod_self_right, mod-eq_of_lt, mod_self}
use scheduler.Base.{
  ℕ, zero, suc, ◌+◌, ◌*◌, ◌%◌, ◌<◌, ◌≤◌, ◌≡◌, refl, sym, ◌∙◌, ap, subst, nat_beq, ltb, ◌&&◌, true,
  false, arith, List, [], ◌∷◌, ◌++◌, map, length, concat, String, some, append_assoc, length-append,
  Bool-cases, inl, inr, comparable_string,
}
use scheduler.Base.Groups.{or_empty, with_key, group_by-with_key}
use scheduler.Base.Maps.{lookup}
use scheduler.Models.{Job}
use scheduler.Sql.Values.{ok}
use scheduler.HttpJobs.{
  BytesOutside, url_job_cache, bytes_loop, batches_of, batches_by_size, batch_by_bytes,
}

-- Batches of `n` jobs each, but for the last, which has one at least.
abbrev pub IsCut : ℕ → List (List Job) → Type 0
IsCut n [] = Unit
IsCut n (b ∷ []) = (0 < length b) × (length b ≤ n)
IsCut n (b ∷ c ∷ bs) = (length b ≡ n) × IsCut n (c ∷ bs)

IsCut-full :
    (n : ℕ) (b : List Job) (bs : List (List Job))
    → 0 < n
    → length b ≡ n
    → IsCut n bs
    → IsCut n (b ∷ bs)
IsCut-full n b [] h e cut = (omega (arith, h, e), omega (arith, e))
IsCut-full n b (c ∷ bs) h e cut = (e, cut)

not_full : (q n k : ℕ) → 0 < k → k < n → (nat_beq ((q * n + k) % n) 0 && ltb 0 (q * n + k)) ≡ false
not_full q n k h lt =
    let rest : (q * n + k) % n ≡ k = mul-add-mod_self_right q n k ∙ mod-eq_of_lt lt in
    ground (arith, h, rest)

full : (q n : ℕ) → 0 < n → (nat_beq ((q * n + n) % n) 0 && ltb 0 (q * n + n)) ≡ true
full q n h =
    let rest : (q * n + n) % n ≡ 0 = mul-add-mod_self_right q n n ∙ mod_self n in
    let b : nat_beq ((q * n + n) % n) 0 ≡ true = ground (arith, rest) in
    let c : ltb 0 (q * n + n) ≡ true = ground (arith, h) in rw (b, c) refl

module _ (o : BytesOutside) (text : List Job → String)
    (marshals : (jobs : List Job) → o.marshal jobs ≡ some (text jobs)) where
  -- The batches that follow some results.
  abbrev Cuts : ℕ → ℕ → List String → List Job → List Job → Type 0
  Cuts n i results current jobs =
      (bs : List (List Job)) × (bytes_loop o n i results current jobs ≡ ok (results ++ map text bs))
      × (concat bs ≡ current ++ jobs)
      × IsCut n bs

  bytes_loop_room :
      (n i : ℕ) (results : List String) (next : Job) (current jobs : List Job)
      → (nat_beq (i % n) 0 && ltb 0 i) ≡ false
      → bytes_loop o n i results current (next ∷ jobs)
        ≡ bytes_loop o n (i + 1) results (current ++ next ∷ []) jobs
  unfolding bytes_loop
  bytes_loop_room n i results next current jobs h = rw (h, bytes_loop) refl

  bytes_loop_full :
      (n i : ℕ) (results : List String) (next : Job) (current jobs : List Job)
      → (nat_beq (i % n) 0 && ltb 0 i) ≡ true
      → bytes_loop o n i results current (next ∷ jobs)
        ≡ bytes_loop o n (i + 1) (results ++ text current ∷ []) (next ∷ []) jobs
  unfolding bytes_loop
  bytes_loop_full n i results next current jobs h = rw (h, bytes_loop, marshals current) refl

  bytes_loop-Cuts :
      (n q : ℕ) (results : List String) (job : Job) (current jobs : List Job)
      → 0 < n
      → length (job ∷ current) ≤ n
      → Cuts n (q * n + length (job ∷ current)) results (job ∷ current) jobs
  unfolding bytes_loop
  bytes_loop-Cuts n q results job current [] h fits =
      ((job ∷ current) ∷ [], rw (marshals (job ∷ current)) refl, refl, (omega arith, fits))
  bytes_loop-Cuts n q results job current (next ∷ jobs) h fits =
      elim (Bool-cases (ltb (length (job ∷ current)) n)) [
        | inl room ↦
            let less : length (job ∷ current) < n = ground (arith, room) in
            let longer = length-append current (next ∷ []) in
            let (bs, e, joined, cut) =
              bytes_loop-Cuts n q results job (current ++ next ∷ []) jobs h
                (omega (arith, longer, less)) in
            let index : q * n + length (job ∷ current ++ next ∷ [])
                ≡ q * n + length (job ∷ current) + 1 =
              omega (arith, longer) in
            (
              bs,
              bytes_loop_room n (q * n + length (job ∷ current)) results next (job ∷ current) jobs
                    (not_full q n (length (job ∷ current)) (omega arith) less)
                  ∙ ap (λ i. bytes_loop o n i results (job ∷ current ++ next ∷ []) jobs) (sym index)
                  ∙ e,
              joined ∙ append_assoc (job ∷ current) (next ∷ []) jobs,
              cut,
            )
        | inr none_left ↦
            let whole : length (job ∷ current) ≡ n = ground (arith, none_left, fits) in
            let (bs, e, joined, cut) =
              bytes_loop-Cuts n (q + 1) (results ++ text (job ∷ current) ∷ []) next [] jobs h
                (omega (arith, h)) in
            let index : (q + 1) * n + 1 ≡ q * n + length (job ∷ current) + 1 =
              grind (arith, whole) in
            (
              (job ∷ current) ∷ bs,
              bytes_loop_full n (q * n + length (job ∷ current)) results next (job ∷ current) jobs (
                    subst (λ k. (nat_beq ((q * n + k) % n) 0 && ltb 0 (q * n + k)) ≡ true)
                      (sym whole) (full q n h))
                  ∙ ap
                      (λ i.
                        bytes_loop o n i (results ++ text (job ∷ current) ∷ []) (next ∷ []) jobs)
                      (sym index)
                  ∙ e
                  ∙ ap ok (append_assoc results (text (job ∷ current) ∷ []) (map text bs)),
              ap (λ l. (job ∷ current) ++ l) joined,
              IsCut-full n (job ∷ current) bs h whole cut,
            )
      ]

  -- BatchByBytes returns the JSON texts of batches of the given jobs, at least one: joined, the batches are
  -- the jobs in order; each has as many jobs as were computed from the size of the first one, but for the
  -- last, which has at least one and no more. If every list of jobs has a JSON text, and that number is not
  -- 0, whatever its sign.
  pub batch_by_bytes-IsCut :
      (max_batch_size_mb n : ℕ) (job : Job) (jobs : List Job)
      → o.items_per_batch (o.size (text (job ∷ []))) max_batch_size_mb ≡ n
      → 0 < n
      → (bs : List (List Job)) × (batch_by_bytes o max_batch_size_mb (job ∷ jobs)
          ≡ ok (map text bs))
        × (concat bs ≡ job ∷ jobs)
        × IsCut n bs
  unfolding bytes_loop
  batch_by_bytes-IsCut max_batch_size_mb zero job jobs number h = absurd (omega (arith, h))
  batch_by_bytes-IsCut max_batch_size_mb (suc n) job jobs number h =
      let first : 0 + 1 ≡ 0 * suc n + length (job ∷ []) = omega arith in
      let (bs, e, joined, cut) = bytes_loop-Cuts (suc n) 0 [] job [] jobs h (omega arith) in
      (
        bs,
        ap (batches_by_size o max_batch_size_mb (job ∷ jobs)) (marshals (job ∷ []))
            ∙ ap (λ k. batches_of o k (job ∷ jobs)) number
            ∙ bytes_loop_room (suc n) 0 [] job [] jobs (ground arith)
            ∙ ap (λ i. bytes_loop o (suc n) i [] (job ∷ []) jobs) first
            ∙ e,
        joined,
        cut,
      )

-- The jobs that ExecuteHTTPJob posts to a url are the given ones with that callback url, in order.
pub url_job_cache-with_key :
    (url : String) (jobs : List Job)
    → or_empty (lookup url (url_job_cache jobs []))
      ≡ with_key (λ (j : Job). j.callback_url) url jobs
unfolding lookup
url_job_cache-with_key url jobs = group_by-with_key (λ (j : Job). j.callback_url) url jobs []
