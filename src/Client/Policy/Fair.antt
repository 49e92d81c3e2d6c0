-- ===== src/Client/Policy/Fair.antt =====
-- No log is left out by round robin.
use native.Mathlib.Nat.{mod-add-mod, mod-eq_of_lt, add-mod_right, mod-lt}
use native.Mathlib.Decide.{dec_lt}
use vanus.Base.{
  ==_of, List, [], ap, arith, get_elem?, get_or, length, some, suc, sym, zero, ℕ, ◌%◌, ◌+◌, ◌-◌,
  ◌<◌, ◌^◌, ◌∙◌, ◌∷◌, ◌≡◌,
}
use vanus.Client.Policy.{
  RoundRobin, choose, listed, next_error, next_is, next_log, refresh, waiting,
}

reaches : (a n j : ℕ) → j < n → (i : ℕ) × ((i < n) × ((a + i) % n ≡ j))
reaches a n j h =
    let r = a % n in
    let small : r < n = mod-lt a (omega arith) in
    elim (dec_lt j r) [
      | no k ↦
          let up : r + (j - r) ≡ j = omega arith in
          (
            j - r,
            (omega arith, sym (mod-add-mod a n (j - r)) ∙ (ap (λ t. t % n) up ∙ mod-eq_of_lt h)),
          )
      | yes k ↦
          let around : r + (j + n - r) ≡ j + n = omega arith in
          (
            j + n - r,
            (
              omega arith,
              sym (mod-add-mod a n (j + n - r))
                  ∙ (ap (λ t. t % n) around ∙ (add-mod_right j n ∙ mod-eq_of_lt h)),
            ),
          )
    ]

-- What `k` successive calls return while the eventbus lists the same logs.
unfoldable pub call_results : List ℕ → ℕ → RoundRobin → List ℕ
call_results logs zero w = []
call_results logs (suc k) w = elim (next_log w (listed logs ∷ [])) [
  | next_is log w' rest ↦ log ∷ call_results logs k w'
  | next_error rest ↦ []
  | waiting ↦ []
]

next_log-cached :
    (w : RoundRobin) (logs : List ℕ)
    → 0 < length logs
    → length logs ≡ length w.cached
    → w.idx + 1 < 2 ^ 64
    → next_log w (listed logs ∷ [])
      ≡ next_is
          (get_or w.cached ((w.idx + 1) % length w.cached) 0)
          (record w { idx = w.idx + 1 })
          []
unfolding next_log refresh choose
next_log-cached w [] h q small = absurd (omega arith)
next_log-cached w (x ∷ xs) h q small =
    let kept = ==_of (length (x ∷ xs)) (length w.cached) q in
    let idx : (w.idx + 1) % 2 ^ 64 ≡ w.idx + 1 = mod-eq_of_lt small in rw (kept, idx)

call_results-position :
    (logs : List ℕ) (k i : ℕ) (w : RoundRobin)
    → 0 < length logs
    → length logs ≡ length w.cached
    → w.idx + k < 2 ^ 64
    → i < k
    → get_elem? (call_results logs k w) i
      ≡ some (get_or w.cached ((w.idx + 1 + i) % length w.cached) 0)
unfolding call_results
call_results-position logs zero i w h q small below = absurd (omega arith)
call_results-position logs (suc k) zero w h q small below =
    let same : w.idx + 1 + 0 ≡ w.idx + 1 = omega arith in
    rw (next_log-cached w logs h q (omega arith), call_results) (rw same)
call_results-position logs (suc k) (suc i) w h q small below =
    let w' : RoundRobin = record w { idx = w.idx + 1 } in
    let same : w.idx + 1 + 1 + i ≡ w.idx + 1 + suc i = omega arith in
    rw (next_log-cached w logs h q (omega arith), call_results)
      (call_results-position logs k i w' h q (omega arith) (omega arith)
        ∙ ap (λ t. some (get_or w.cached (t % length w.cached) 0)) same)

-- While the eventbus lists as many logs as are cached, and the counter does not reach 2^64, each
-- of the cached logs is what NextLog returns in one of as many successive calls as there are logs.
pub no_log_left_out :
    (logs : List ℕ) (j : ℕ) (w : RoundRobin)
    → length logs ≡ length w.cached
    → w.idx + length w.cached < 2 ^ 64
    → j < length w.cached
    → (i : ℕ) × ((i < length w.cached)
        × (get_elem? (call_results logs (length w.cached) w) i ≡ some (get_or w.cached j 0)))
no_log_left_out logs j w q small h =
    let found = reaches (w.idx + 1) (length w.cached) j h in
    (
      found.0,
      (
        found.1.0,
        call_results-position logs (length w.cached) found.0 w (omega arith) q small found.1.0
            ∙ ap (λ t. some (get_or w.cached t 0)) found.1.1,
      ),
    )
