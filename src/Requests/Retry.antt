-- ===== src/Requests/Retry.antt =====
-- src/transport/interceptors.ts, `createRetryInterceptor`: the loop over the attempts.
use mcp4openapi.Prelude.{
  ℕ, zero, suc, Bool, true, false, not, ◌&&◌, Option, none, some, List, [], ◌∷◌, any, ◌==◌,
  if◌then◌else◌,
}
use mcp4openapi.Requests.Status.{RequestError, Outcome, returned, thrown, all_attempts_failed}

pub record RetryConfig : Type 0 where
  pub max_attempts : ℕ
  pub backoff_ms : List ℕ
  pub retry_on_status : List ℕ

abbrev pub item : ℕ → List ℕ → Option ℕ
item i [] = none
item zero (n ∷ ns) = some n
item (suc i) (n ∷ ns) = item i ns

abbrev pub last_item : List ℕ → Option ℕ
last_item [] = none
last_item (n ∷ []) = some n
last_item (n ∷ m ∷ ns) = last_item (m ∷ ns)

-- `backoff_ms[attempt] || backoff_ms[backoff_ms.length - 1]`: a wait of 0 gives way to the last.
abbrev pub backoff : RetryConfig → ℕ → Option ℕ
backoff config attempt = elim (item attempt config.backoff_ms) [
  | none ↦ last_item config.backoff_ms
  | some n ↦ if n == 0 then last_item config.backoff_ms else some n
]

-- `next` is the rest of the chain and `sleep` the wait, both on the state of the world.
module _ {W : Type 0} (next : W → Outcome × W) (sleep : Option ℕ → W → W)
    (config : RetryConfig) where
  abbrev pub is_listed : ℕ → Bool
  is_listed status = any (λ n. n == status) config.retry_on_status

  -- `left` attempts are left, of which `attempt` is the number of the next.
  unfoldable pub attempts : ℕ → ℕ → Option RequestError → W → Outcome × W
  attempts zero attempt none w = (thrown all_attempts_failed, w)
  attempts zero attempt (some e) w = (thrown e, w)
  attempts (suc left) attempt last_error w =
      let (outcome, w') = next w in
      elim outcome [
        | returned r ↦ elim (is_listed r.status && not (left == 0)) [
          | true ↦ attempts left (suc attempt) last_error (sleep (backoff config attempt) w')
          | false ↦ (returned r, w')
        ]
        | thrown e ↦
            attempts left (suc attempt) (some e)
              (if left == 0 then w' else sleep (backoff config attempt) w')
      ]

  unfoldable pub retry : W → Outcome × W
  retry w = attempts config.max_attempts 0 none w
