-- ===== src/Breaker/Tests.antt =====
-- A breaker with a threshold of 2 and a timeout of 30 s.
use authclaw_mvp.Common.{ℕ, ◌≡◌, refl, none, some, List, [], ◌∷◌, arith, length, leb, if◌then◌else◌}
use authclaw_mvp.Breaker.{CircuitState, CircuitBreaker, new, enter, on_success, on_failure}
use authclaw_mvp.Breaker.Interleaving.{
  start, next, Sound, failed, fail_times, probe, Reachable-Sound, open_probes, new_opens,
}

abbrev times : List ℕ
times = 5 ∷ 10 ∷ []

abbrev after_two : CircuitBreaker
after_two = fail_times times (new 2 30)

Reachable-Sound_example : Sound 2 30 (on_failure (new 2 30) 5)
Reachable-Sound_example = Reachable-Sound 2 30 (omega arith) (next start (failed (new 2 30) 5))

open_probes_example :
    (enter after_two 40 ≡ some (probe after_two))
    × ((on_success (probe after_two)).state ≡ CircuitState.closed)
    × ((on_success (probe after_two)).failure_count ≡ 0)
    × (enter (on_failure (probe after_two) 41) 70 ≡ none)
unfolding new on_failure
open_probes_example = open_probes after_two 40 41 70 refl (omega arith) (omega arith)

new_opens_example :
    after_two.state ≡ (if leb 2 (length times) then CircuitState.opened else CircuitState.closed)
new_opens_example = new_opens 2 30 times (omega arith)

-- A second call is let in while a probe runs.
two_probes : enter (probe after_two) 40 ≡ some (probe after_two)
unfolding new on_failure enter
two_probes = refl
