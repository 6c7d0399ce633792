-- ===== src/Queue/Servers.antt =====
-- getNextServerToQueue and the allocation map.
use mathlib.Core.List.{Mem, Perm, mem-cons, mem-cons_self, mem-cons_of_mem, not-mem-nil}
use mathlib.Core.List.Perm
use mathlib.Core.HLevel.{⊥_prop, Π_prop}
use mathlib.Core.Logic.Or
use native.Mathlib.Bridge.{le_prop}
use scheduler.Base.{
  ℕ, ◌≤◌, ◌<◌, ◌≡◌, refl, ◌∙◌, ap, ◌≢◌, [], ◌∷◌, none, some, arith, ltb, ◌==◌, comparable_uint,
  nat_beq_iff, Bool-cases, inl, inr, ◌⊎◌, not, ◌&&◌,
}
use scheduler.Base.Words.{max_int64}
use scheduler.Base.Maps.{Map, lookup, store, lookup-store}
use scheduler.Queue.{next_server, get_next_server_to_queue}

abbrev pub IsRegistered : ℕ → Map ℕ ℕ → Type 0
IsRegistered n m = lookup n m ≢ none

pub mem_of_lookup : (k v : ℕ) (m : Map ℕ ℕ) → lookup k m ≡ some v → Mem (k, v) m
unfolding lookup
mem_of_lookup k v [] h = cc
mem_of_lookup k v ((j, w) ∷ m) h = elim (Bool-cases (j == k)) [
  | inl e ↦
      let w≡v : w ≡ v = ground (arith, e) in
      let j≡k : j ≡ k = ground (arith, e) in rw (← j≡k, ← w≡v) mem-cons_self
  | inr e ↦ mem-cons_of_mem (j, w) (mem_of_lookup k v m (ground (arith, e)))
]

IsRegistered-first : (k j w : ℕ) (m : Map ℕ ℕ) → k ≡ j → IsRegistered k ((j, w) ∷ m)
unfolding lookup
IsRegistered-first k j w m e n = ground (arith, nat_beq_iff j k)

IsRegistered-later : (k j w : ℕ) (m : Map ℕ ℕ) → IsRegistered k m → IsRegistered k ((j, w) ∷ m)
unfolding lookup
IsRegistered-later k j w m h n = elim (Bool-cases (j == k)) [
  | inl e ↦ ground (arith, e)
  | inr e ↦ h (ground (arith, e))
]

pub mem-IsRegistered : (k v : ℕ) (m : Map ℕ ℕ) → Mem (k, v) m → IsRegistered k m
mem-IsRegistered k v [] h = absurd (not-mem-nil h)
mem-IsRegistered k v ((j, w) ∷ m) h =
    Or.elim (Π_prop (λ _. ⊥_prop)) (mem-cons.0 h)
      (λ e. IsRegistered-first k j w m (ap (λ (p : ℕ × ℕ). p.0) e))
      (λ tail. IsRegistered-later k j w m (mem-IsRegistered k v m tail))

pub store-IsRegistered : (k n v : ℕ) (m : Map ℕ ℕ) → IsRegistered k m → IsRegistered k (store n v m)
store-IsRegistered k n v m h e = elim (Bool-cases (n == k)) [
  | inl t ↦ ground (arith, t, lookup-store n k v m)
  | inr f ↦ h (ground (arith, f, lookup-store n k v m))
]

pub IsRegistered-store :
    (k n v : ℕ) (m : Map ℕ ℕ) → IsRegistered n m → IsRegistered k (store n v m) → IsRegistered k m
IsRegistered-store k n v m hn h e = elim (Bool-cases (n == k)) [
  | inl t ↦ hn (let n≡k : n ≡ k = ground (arith, t) in rw n≡k e)
  | inr f ↦ h (lookup-store n k v m ∙ rw f e)
]

-- No entry of another node has an allocation below `b`.
abbrev pub IsLeast : ℕ → ℕ → Map ℕ ℕ → Type 0
IsLeast self b m = (e : ℕ × ℕ) → Mem e m → e.0 ≢ self → b ≤ e.1

IsLeast-cons :
    (self b s a : ℕ) (m : Map ℕ ℕ)
    → (s ≢ self → b ≤ a)
    → IsLeast self b m
    → IsLeast self b ((s, a) ∷ m)
IsLeast-cons self b s a m h low e mem other =
    Or.elim le_prop (mem-cons.0 mem) (λ here. rw here (h (rw here at other)))
      (λ there. low e there other)

-- What a scan from (`server`, `least`) over `m` may return: its start, or an entry of another node.
abbrev Scans : ℕ → ℕ → ℕ → Map ℕ ℕ → ℕ → Type 0
Scans self least server m r =
    (b : ℕ) × (((b ≡ least) × (r ≡ server)) ⊎ ((b < least) × Mem (r, b) m × (r ≢ self)))
    × IsLeast self b m

taken_found :
    (self least s a b r : ℕ) (m : Map ℕ ℕ)
    → a < least
    → s ≢ self
    → ((b ≡ a) × (r ≡ s)) ⊎ ((b < a) × Mem (r, b) m × (r ≢ self))
    → (b < least) × Mem (r, b) ((s, a) ∷ m) × (r ≢ self)
taken_found self least s a b r m lt other (inl (e, f)) =
    (omega arith, rw (e, f) mem-cons_self, rw f other)
taken_found self least s a b r m lt other (inr (l, mem, o)) =
    (omega arith, mem-cons_of_mem (s, a) mem, o)

scan_taken :
    (self least server s a r : ℕ) (m : Map ℕ ℕ)
    → a < least
    → s ≢ self
    → Scans self a s m r
    → Scans self least server ((s, a) ∷ m) r
scan_taken self least server s a r m lt other (b, found, low) = (
  b,
  inr (taken_found self least s a b r m lt other found),
  IsLeast-cons self b s a m (λ _. grind (arith, found)) low,
)

scan_skipped :
    (self least server s a r : ℕ) (m : Map ℕ ℕ)
    → (s ≢ self → least ≤ a)
    → Scans self least server m r
    → Scans self least server ((s, a) ∷ m) r
scan_skipped self least server s a r m skip (b, inl (e, f), low) =
    (b, inl (e, f), IsLeast-cons self b s a m (λ o. omega (arith, skip o)) low)
scan_skipped self least server s a r m skip (b, inr (l, mem, o), low) = (
  b,
  inr (l, mem-cons_of_mem (s, a) mem, o),
  IsLeast-cons self b s a m (λ o'. omega (arith, skip o')) low,
)

next_server-Scans :
    (self least server : ℕ) (m : Map ℕ ℕ)
    → Scans self least server m (next_server self least server m)
unfolding next_server
next_server-Scans self least server [] = (least, inl (refl, refl), λ e h. absurd (not-mem-nil h))
next_server-Scans self least server ((s, a) ∷ m) =
    elim (Bool-cases (ltb a least && not (s == self))) [
      | inl t ↦ rw t (
          scan_taken self least server s a _ m (ground (arith, t)) (λ e. ground (arith, t))
            (next_server-Scans self a s m))
      | inr f ↦ rw f (
          scan_skipped self least server s a _ m (λ o. ground (arith, f, nat_beq_iff s self))
            (next_server-Scans self least server m))
    ]

-- In whatever order the map is visited: if some other node is below MaxInt64, the server chosen is
-- a node of the map other than the caller, and no other node has a smaller allocation.
pub get_next_server_to_queue-IsLeast :
    (self s a : ℕ) (m visited : Map ℕ ℕ)
    → Perm visited m
    → Mem (s, a) m
    → s ≢ self
    → a < max_int64
    → (b : ℕ) × Mem (get_next_server_to_queue self visited, b) m
      × (get_next_server_to_queue self visited ≢ self)
      × IsLeast self b m
unfolding get_next_server_to_queue
get_next_server_to_queue-IsLeast self s a m visited p mem other lt =
    chosen (next_server-Scans self max_int64 0 visited)
  where
    chosen :
        Scans self max_int64 0 visited (next_server self max_int64 0 visited)
        → (b : ℕ) × Mem (next_server self max_int64 0 visited, b) m
          × (next_server self max_int64 0 visited ≢ self)
          × IsLeast self b m
    chosen (b, inl (e, f), low) =
        absurd (omega (arith, low (s, a) (Perm.subset (Perm.symm p) (s, a) mem) other))
    chosen (b, inr (l, found, o), low) =
        (b, Perm.subset p _ found, o, λ e h. low e (Perm.subset (Perm.symm p) e h))
