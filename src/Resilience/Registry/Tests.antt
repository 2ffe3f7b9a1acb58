-- ===== src/Resilience/Registry/Tests.antt =====
-- The registry of circuitbreaker.go with one and two breakers.
use virtrigaud.Prelude.{◌≡◌, refl, [], ◌∷◌, some}
use virtrigaud.Prelude.Dict.{lookup}
use virtrigaud.Resilience.Breaker.{
  CircuitBreaker, open_state, default_config, new_circuit_breaker, reset,
}
use virtrigaud.Resilience.Registry.{
  Registry, new_registry, key, get_or_create, get, reset_at, reset_all,
}
use virtrigaud.Resilience.Registry.Laws.{at}

abbrev empty_registry : Registry
unfolding new_registry
empty_registry = new_registry default_config

-- Another caller registers the same breaker between the two locks.
abbrev other_caller : Registry → Registry
other_caller r = (get_or_create "rpc" "libvirt" "kvm1" (λ s. s) r).1

abbrev tripped : CircuitBreaker
unfolding new_circuit_breaker
tripped = record (new_circuit_breaker "rpc" default_config) { state = open_state; failures = 12 }

abbrev one_open : Registry
unfolding key new_circuit_breaker
one_open = record {
  breakers = (key "libvirt" "kvm1" "rpc", 0) ∷ [];
  config = default_config;
  heap = tripped ∷ [];
}

one_open_registered : get "rpc" "libvirt" "kvm1" one_open ≡ some 0
unfolding get key lookup new_circuit_breaker
one_open_registered = refl

one_open-reset : at (reset_all one_open).heap 0 ≡ some (reset tripped)
unfolding at reset_all key reset_at new_circuit_breaker
one_open-reset = refl

-- With colons in the parts two breakers can have one key.
keys_collide : key "a:b" "c" "n" ≡ key "a" "b:c" "n"
unfolding key
keys_collide = refl
