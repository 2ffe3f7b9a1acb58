-- ===== src/Resilience/Registry.antt =====
-- internal/resilience/circuitbreaker.go, the registry. Breakers are shared by pointer: a pointer is an
-- index into `heap`, where every breaker that was ever created stays.
pub mod Laws
pub mod Key
mod Tests
use virtrigaud.Prelude.{
  ℕ, zero, suc, Bool, true, false, String, List, [], ◌∷◌, ◌++◌, map, sprintf, length, Option, none,
  some, if◌then◌else◌,
}
use virtrigaud.Prelude.Dict.{Dict, lookup, insert, erase}
use virtrigaud.Resilience.Breaker.{CircuitBreaker, Config, new_circuit_breaker, reset}

pub record Registry : Type 0 where
  pub breakers : Dict ℕ
  pub config : Config
  pub heap : List CircuitBreaker

-- NewRegistry with a configuration that is not nil
unfoldable pub new_registry : Config → Registry
new_registry config = record { breakers = []; config = config; heap = [] }

-- fmt.Sprintf("%s:%s:%s", providerType, provider, name)
unfoldable pub key : String → String → String → String
key provider_type provider name = sprintf (provider_type ∷ ":" ∷ provider ∷ ":" ∷ name ∷ [])

-- NewCircuitBreaker and the write to the map, at the end of GetOrCreate.
create : String → String → Registry → ℕ × Registry
create k name r = (
  length r.heap,
  record r {
    breakers = insert k (length r.heap) r.breakers;
    heap = r.heap ++ new_circuit_breaker name r.config ∷ [];
  },
)

-- The part of GetOrCreate that holds the write lock, with its second look at the map.
locked_get_or_create : String → String → Registry → ℕ × Registry
unfolding create
locked_get_or_create k name r = elim (lookup k r.breakers) [
  | some breaker ↦ (breaker, r)
  | none ↦ create k name r
]

-- GetOrCreate. `between` is what other callers do to the registry after the read lock is given up
-- and before the write lock is taken.
unfoldable pub get_or_create :
    String → String → String → (Registry → Registry) → Registry → ℕ × Registry
unfolding locked_get_or_create
get_or_create name provider_type provider between r =
    let k = key provider_type provider name in
    elim (lookup k r.breakers) [
      | some breaker ↦ (breaker, r)
      | none ↦ locked_get_or_create k name (between r)
    ]

-- Get
unfoldable pub get : String → String → String → Registry → Option ℕ
get name provider_type provider r = lookup (key provider_type provider name) r.breakers

-- Remove
unfoldable pub remove : String → String → String → Registry → Registry
remove name provider_type provider r = record r {
  breakers = erase (key provider_type provider name) r.breakers;
}

-- breaker.Reset() through a pointer
unfoldable pub reset_at : ℕ → List CircuitBreaker → List CircuitBreaker
reset_at i [] = []
reset_at zero (cb ∷ heap) = reset cb ∷ heap
reset_at (suc i) (cb ∷ heap) = cb ∷ reset_at i heap

reset_each : Dict ℕ → List CircuitBreaker → List CircuitBreaker
reset_each [] heap = heap
reset_each ((k, i) ∷ m) heap = reset_each m (reset_at i heap)

-- Reset of every breaker in the registry
unfoldable pub reset_all : Registry → Registry
unfolding reset_each
reset_all r = record r { heap = reset_each r.breakers r.heap }
