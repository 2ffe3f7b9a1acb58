-- ===== src/Transport/Tests.antt =====
-- The gRPC client of client.go on small inputs, with a concrete reading of status errors.
use virtrigaud.Prelude.{ℕ, refl, String, List, [], ◌∷◌, Option, none, some}
use virtrigaud.Contracts.Errors.{GoError, nil, status_error, Code, ok, unknown, code_not_found}
use virtrigaud.Resilience.Breaker.{CircuitBreaker, closed, open_state}
use virtrigaud.Transport.Status.{StatusApi}
use virtrigaud.Transport.Tasks.{Client, Event, task_started, task_done}

from_error : GoError → Option (Code × String)
from_error nil = some (ok, "")
from_error (status_error c m) = some (c, m)
from_error _ = none

code : GoError → Code
code nil = ok
code (status_error c m) = c
code _ = unknown

abbrev direct : StatusApi
unfolding from_error code
direct = record {
  from_error = from_error;
  code = code;
  from_status = λ c m. refl;
  code_status = λ c m. refl;
}

abbrev healthy : CircuitBreaker
healthy = record {
  config = record { failure_threshold = 2; reset_timeout = 50; half_open_max_calls = 3 };
  state = closed;
  failures = 0;
  last_failure_time = 0;
  half_open_calls = 0;
  gauge = 0;
  failures_total = 0;
  name = "rpc";
}

abbrev tripped : CircuitBreaker
tripped = record healthy { state = open_state; failures = 2; last_failure_time = 100; gauge = 2 }

-- An RPC that finds no VM.
abbrev describe : ℕ → GoError × ℕ × ℕ
describe w = (status_error code_not_found "no such VM", 12, w)

abbrev idle : Client
idle = record { inflight_tasks = []; gauge = 0 }

abbrev calls : List Event
calls =
    task_started "t1" ∷ task_started "t2" ∷ task_started "t1" ∷ task_done "t1" ∷ task_done "t9" ∷ []
