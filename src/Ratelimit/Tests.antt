-- ===== src/Ratelimit/Tests.antt =====
-- The token bucket at concrete inputs, and the theorems about it there.
use baby.Common.{
  ◌≡◌, ◌≤◌, ◌*◌, ◌/◌, ◌&&◌, ◌+◌, refl, true, false, some, none, List, [], ◌∷◌, count, arith,
}
use baby.Ratelimit.{TokenBucket, try_acquire, acquire_wait}
use baby.Ratelimit.History.{Call, Log, run, fresh, within}
use baby.Ratelimit.Window.{allowed, try_acquire-allowed, window_bound}
use baby.Ratelimit.Wait.{Served, acquire_wait_returns, acquire_wait_starves}

abbrev calls : List Call
calls =
    (record { after = 0; background = true })
    ∷ (record { after = 10; background = true })
    ∷ (record { after = 10; background = false })
    ∷ (record { after = 10; background = false })
    ∷ (record { after = 59990; background = false })
    ∷ []

-- Three slots a minute, a third of them for background calls: the second call is refused for the
-- share, the fourth is granted, and the fifth comes when the first stamp has left the window.
abbrev log : Log
log = run (fresh 3 1 3) calls

run-calls :
    log.granted
    ≡ (record { time = 0; background = true })
      ∷ (record { time = 20; background = false })
      ∷ (record { time = 30; background = false })
      ∷ (record { time = 60020; background = false })
      ∷ []
unfolding run try_acquire
run-calls = refl

try_acquire-allowed_example :
    (try_acquire (log.last + 5) true log.bucket).0
    ≡ allowed 3 (3 * 1 / 3) true (log.last + 5) log.granted
try_acquire-allowed_example = try_acquire-allowed 3 1 3 calls 5 true

window_bound_example :
    (count (within 20) log.granted ≤ 3)
    × (count (λ s. within 20 s && s.background) log.granted ≤ 3 * 1 / 3)
window_bound_example = window_bound 3 1 3 calls 20

abbrev full : TokenBucket
full = record {
  rpm = 1;
  share_num = 1;
  share_den = 1;
  stamps = (record { time = 100; background = false }) ∷ [];
}

acquire_wait-full :
    acquire_wait 3 (λ t. 7) 1000 false full
    ≡ some (60107, record full { stamps = (record { time = 60107; background = false }) ∷ [] })
unfolding acquire_wait
acquire_wait-full = refl

acquire_wait_returns_example : Served 1000 true (acquire_wait 241 (λ t. 7) 1000 true full)
acquire_wait_returns_example =
    acquire_wait_returns (λ t. 7) 1000 true full (omega arith) (omega arith)

abbrev halved : TokenBucket
halved = record { rpm = 1; share_num = 1; share_den = 2; stamps = [] }

acquire_wait_starves_example : acquire_wait 500 (λ t. 0) 0 true halved ≡ none
acquire_wait_starves_example = acquire_wait_starves 500 (λ t. 0) 0 halved refl
