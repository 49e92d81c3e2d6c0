-- ===== src/Client/Tests.antt =====
-- The client's theorems at concrete inputs.
use vanus.Base.{[], arith, get_elem?, refl, some, ℕ, ◌<◌, ◌∷◌, ◌≡◌}
use vanus.Client.Policy.{RoundRobin, choose, new_round_robin, next_log, refresh}
use vanus.Client.Policy.Fair.{call_results, no_log_left_out}

abbrev three_logs : RoundRobin
three_logs = record new_round_robin { idx = 4; cached = 30 ∷ 20 ∷ 10 ∷ [] }

no_log_left_out_example :
    (i : ℕ) × ((i < 3) × (get_elem? (call_results (10 ∷ 20 ∷ 30 ∷ []) 3 three_logs) i ≡ some 20))
unfolding new_round_robin
no_log_left_out_example =
    no_log_left_out (10 ∷ 20 ∷ 30 ∷ []) 1 three_logs refl (omega arith) (omega arith)

three_calls : call_results (10 ∷ 20 ∷ 30 ∷ []) 3 three_logs ≡ 10 ∷ 30 ∷ 20 ∷ []
unfolding call_results next_log refresh choose new_round_robin
three_calls = refl

-- A listing with other logs, but as many: the logs that are cached are used on.
stale_logs : call_results (40 ∷ 50 ∷ 60 ∷ []) 3 three_logs ≡ 10 ∷ 30 ∷ 20 ∷ []
unfolding call_results next_log refresh choose new_round_robin
stale_logs = refl
