-- ===== src/Resilience/Registry/Laws.antt =====
-- The registry of circuitbreaker.go as a map from keys to shared breakers.
use virtrigaud.Prelude.{
  ℕ, zero, suc, ◌<◌, ◌≡◌, ◌≢◌, refl, String, List, [], ◌∷◌, length, length-append, Option, none,
  some, arith, str_eq, eq_iff, Option-cases, ◌⊎◌, inl, inr, Bool-cases,
}
use virtrigaud.Prelude.Dict.{Dict, lookup, erase, lookup-insert, lookup-erase}
use virtrigaud.Resilience.Breaker.{CircuitBreaker, Config, closed, new_circuit_breaker, reset}
use virtrigaud.Resilience.Registry.{
  Registry, new_registry, key, create, locked_get_or_create, get_or_create, get, remove, reset_at,
  reset_each, reset_all,
}

-- The breaker behind a pointer.
unfoldable pub at : List CircuitBreaker → ℕ → Option CircuitBreaker
at [] i = none
at (cb ∷ heap) zero = some cb
at (cb ∷ heap) (suc i) = at heap i

-- Whatever other callers do while no lock is held, after GetOrCreate the key leads to the breaker that
-- it returned.
pub get-get_or_create :
    (name provider_type provider : String) (between : Registry → Registry) (r : Registry)
    → let (b, r') = get_or_create name provider_type provider between r in
      get name provider_type provider r' ≡ some b
unfolding get_or_create get
get-get_or_create name pt p between r = ground (
  arith,
  lookup-insert (key pt p name) (key pt p name) (length (between r).heap) (between r).breakers,
  eq_iff (key pt p name) (key pt p name),
)

-- Two callers of one key share one breaker: after a GetOrCreate, whatever other callers did between
-- its two locks, a second one with the same key returns the same pointer and changes nothing.
pub get_or_create_shares :
    (name provider_type provider : String) (between between' : Registry → Registry) (r : Registry)
    → let (b, r') = get_or_create name provider_type provider between r in
      get_or_create name provider_type provider between' r' ≡ (b, r')
unfolding get_or_create
get_or_create_shares name pt p between between' r = ground (
  arith,
  lookup-insert (key pt p name) (key pt p name) (length (between r).heap) (between r).breakers,
  eq_iff (key pt p name) (key pt p name),
)

-- Distinct keys never lead to one breaker, and every pointer in the map is live.
pub record IsValid (r : Registry) : Type 0 where
  pub live : (k : String) (i : ℕ) → lookup k r.breakers ≡ some i → i < length r.heap
  pub unshared :
      (j k : String) (i : ℕ) → lookup j r.breakers ≡ some i → lookup k r.breakers ≡ some i → j ≡ k

pub new-IsValid : (c : Config) → IsValid (new_registry c)
unfolding new_registry lookup
new-IsValid c = record { live = λ k i h. ground arith; unshared = λ j k i h h'. ground arith }

create-live :
    (k name : String) (r : Registry)
    → IsValid r
    → (j : String) (i : ℕ) → lookup j (create k name r).1.breakers ≡ some i
    → i < length (create k name r).1.heap
unfolding create
create-live k name r v j i h = ground (
  arith,
  lookup-insert k j (length r.heap) r.breakers,
  v.live j i,
  length-append r.heap (new_circuit_breaker name r.config ∷ []),
)

create-unshared :
    (k name : String) (r : Registry)
    → IsValid r
    → (j j' : String) (i : ℕ) → lookup j (create k name r).1.breakers ≡ some i
    → lookup j' (create k name r).1.breakers ≡ some i
    → j ≡ j'
unfolding create
create-unshared k name r v j j' i h h' = ground (
  arith,
  lookup-insert k j (length r.heap) r.breakers,
  lookup-insert k j' (length r.heap) r.breakers,
  eq_iff k j,
  eq_iff k j',
  v.live j i,
  v.live j' i,
  v.unshared j j' i,
)

create-IsValid : (k name : String) (r : Registry) → IsValid r → IsValid (create k name r).1
create-IsValid k name r v = record {
  live = create-live k name r v;
  unshared = create-unshared k name r v;
}

locked-IsValid :
    (k name : String) (r : Registry) → IsValid r → IsValid (locked_get_or_create k name r).1
unfolding locked_get_or_create
locked-IsValid k name r v = elim (Option-cases (lookup k r.breakers)) [
  | inl e ↦ rw (e, locked_get_or_create) (create-IsValid k name r v)
  | inr (b, e) ↦ rw (e, locked_get_or_create) v
]

-- GetOrCreate keeps the registry valid: if what other callers do between its two locks does, no two
-- keys come to share a breaker and no pointer dangles.
pub get_or_create-IsValid :
    (name provider_type provider : String) (between : Registry → Registry) (r : Registry)
    → IsValid r
    → IsValid (between r)
    → IsValid (get_or_create name provider_type provider between r).1
unfolding get_or_create
get_or_create-IsValid name pt p between r v v' =
    elim (Option-cases (lookup (key pt p name) r.breakers)) [
      | inl e ↦ rw (e, get_or_create) (locked-IsValid (key pt p name) name (between r) v')
      | inr (b, e) ↦ rw (e, get_or_create) v
    ]

-- Remove keeps the registry valid too, and forgets its own key only.
pub remove-IsValid :
    (name provider_type provider : String) (r : Registry)
    → IsValid r
    → IsValid (remove name provider_type provider r)
unfolding remove
remove-IsValid name pt p r v = record {
  live = λ k i h. v.live k i (kept k i h);
  unshared = λ j k i h h'. v.unshared j k i (kept j i h) (kept k i h');
}
  where
    kept :
        (j : String) (i : ℕ)
        → lookup j (erase (key pt p name) r.breakers) ≡ some i
        → lookup j r.breakers ≡ some i
    kept j i h = ground (arith, lookup-erase (key pt p name) j r.breakers)

at-reset_at :
    (i j : ℕ) (heap : List CircuitBreaker) (cb : CircuitBreaker)
    → at (reset_at i heap) j ≡ some cb
    → ((i ≡ j) × (cb.state ≡ closed)) ⊎ ((i ≢ j) × (at heap j ≡ some cb))
unfolding at reset_at reset
at-reset_at i j [] cb h = ground arith
at-reset_at zero zero (b ∷ heap) cb h = ground arith
at-reset_at zero (suc j) (b ∷ heap) cb h = ground arith
at-reset_at (suc i) zero (b ∷ heap) cb h = ground arith
at-reset_at (suc i) (suc j) (b ∷ heap) cb h = ground (arith, at-reset_at i j heap cb)

-- Whatever stands at `j` in the heap is closed.
abbrev ClosedAt : List CircuitBreaker → ℕ → Type 0
ClosedAt heap j = (cb : CircuitBreaker) → at heap j ≡ some cb → cb.state ≡ closed

ClosedAt-reset_at :
    (i j : ℕ) (heap : List CircuitBreaker) → ClosedAt heap j → ClosedAt (reset_at i heap) j
ClosedAt-reset_at i j heap h cb e = elim (at-reset_at i j heap cb e) [
  | inl (p, q) ↦ q
  | inr (p, q) ↦ h cb q
]

ClosedAt-reset_self : (i : ℕ) (heap : List CircuitBreaker) → ClosedAt (reset_at i heap) i
ClosedAt-reset_self i heap cb e = elim (at-reset_at i i heap cb e) [
  | inl (p, q) ↦ q
  | inr (p, q) ↦ absurd (p refl)
]

ClosedAt-reset_each :
    (m : Dict ℕ) (j : ℕ) (heap : List CircuitBreaker)
    → ClosedAt heap j
    → ClosedAt (reset_each m heap) j
unfolding reset_each
ClosedAt-reset_each [] j heap h = h
ClosedAt-reset_each ((k, i) ∷ m) j heap h =
    ClosedAt-reset_each m j (reset_at i heap) (ClosedAt-reset_at i j heap h)

reset_each-registered :
    (m : Dict ℕ) (k : String) (i : ℕ) (heap : List CircuitBreaker)
    → lookup k m ≡ some i
    → ClosedAt (reset_each m heap) i
unfolding reset_each lookup
reset_each-registered [] k i heap h = absurd (ground arith)
reset_each-registered ((j, p) ∷ m) k i heap h = elim (Bool-cases (str_eq j k)) [
  | inl hit ↦
      let same : p ≡ i = ground arith in
      rw (← same) (ClosedAt-reset_each m p (reset_at p heap) (ClosedAt-reset_self p heap))
  | inr miss ↦ reset_each-registered m k i (reset_at p heap) (ground arith)
]

-- Reset of the registry leaves every breaker that a key leads to closed.
pub reset_all-closed :
    (name provider_type provider : String) (r : Registry) (i : ℕ) (cb : CircuitBreaker)
    → get name provider_type provider r ≡ some i
    → at (reset_all r).heap i ≡ some cb
    → cb.state ≡ closed
unfolding get reset_all
reset_all-closed name pt p r i cb h = reset_each-registered r.breakers (key pt p name) i r.heap h cb
