-- ===== src/Health/Tests.antt =====
-- The health monitor at concrete signals, and the theorems about it there.
use baby.Common.{◌≡◌, ◌≢◌, refl, true, false, List, [], ◌∷◌, arith}
use baby.Health.{
  Monitor, new, cloud, degraded, offline, failure, success, probe, ping, ping_raised, Signal,
  Watched, receive_all, error, note_failure, dns_fail, probe_answered, ping_answered,
}
use baby.Health.Recovery.{recovery_needs_run, stale_ping}

abbrev fresh : Monitor
fresh = new 3 90000

abbrev idle : Monitor → Watched
idle m = record { monitor = m; pinging = false }

-- A dead network, a probe that finds it back, two more, a call that succeeds: three good signals in
-- `degraded`, and `cloud` again.
abbrev outage : List Signal
outage = failure 10 dns_fail ∷ probe true ∷ probe true ∷ probe true ∷ success ∷ []

outage-state : (receive_all (idle fresh) outage).monitor.state ≡ cloud
unfolding receive_all
outage-state = refl

-- A failure lands while the ping is awaited.
stale :
    (receive_all (idle fresh) (
      failure 1 error
      ∷ probe true
      ∷ probe true
      ∷ probe true
      ∷ failure 2 dns_fail
      ∷ ping true
      ∷ [])).monitor.state
    ≡ cloud
unfolding receive_all
stale = refl

abbrev failing : Monitor
failing = record fresh { state = degraded; streak = 2 }

-- Two good signals, a failure, an answer to no ping, and two more.
abbrev mixed : List Signal
mixed = success ∷ success ∷ failure 5 error ∷ ping true ∷ probe true ∷ success ∷ ping_raised ∷ []

recovery_needs_run_example :
    (receive_all (idle (record failing { streak = 0 })) mixed).monitor.state ≢ cloud
recovery_needs_run_example =
    recovery_needs_run (idle (record failing { streak = 0 })) 0 mixed refl (λ e. ground arith)
      (omega arith) (omega arith)

stale_ping_example :
    let m' = note_failure 7 dns_fail (probe_answered true failing).0 in
    (m'.state ≡ offline) × (m'.streak ≡ 0) × ((ping_answered true m').state ≡ cloud)
unfolding probe_answered
stale_ping_example = stale_ping failing 7 refl
