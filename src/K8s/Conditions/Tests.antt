-- ===== src/K8s/Conditions/Tests.antt =====
-- Conditions of a small status.
use virtrigaud.Prelude.{refl, [], ◌∷◌}
use virtrigaud.K8s.Conditions.{Condition, condition_false}
use virtrigaud.K8s.Conditions.Laws.{IsDistinct, types}

abbrev ready : Condition
ready = record {
  type = "Ready";
  status = condition_false;
  observed_generation = 0;
  last_transition_time = 5;
  reason = "Creating";
  message = "";
}

ready-IsDistinct : IsDistinct (ready ∷ [])
unfolding IsDistinct types
ready-IsDistinct = (refl, tt)
