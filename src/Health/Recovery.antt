-- ===== src/Health/Recovery.antt =====
-- When the monitor leaves and enters the state `cloud`.
use baby.Common.{
  ℕ, suc, ◌+◌, ◌≤◌, ◌<◌, ◌≡◌, ◌≢◌, refl, Bool, true, false, List, [], ◌∷◌, ltb, arith,
  if◌then◌else◌, max, zero, ap, ◌∙◌, Bool-cases, ◌⊎◌, inl, inr,
}
use baby.Health.{
  State, cloud, degraded, offline, Reason, dns_fail, Monitor, is_429, cooling_down, note_failure,
  note_success, probe_answered, ping_answered, Watched, Signal, failure, success, probe, ping,
  ping_raised, receive, receive_all,
}

-- One failure takes the monitor out of `cloud` and starts the count anew; a dead network, or any
-- failure while offline, leaves it offline.
pub note_failure_drops :
    (now : ℕ) (r : Reason) (m : Monitor)
    → let m' = note_failure now r m in
      (m'.state ≢ cloud)
      × (m'.streak ≡ 0)
      × (r ≡ dns_fail → m'.state ≡ offline)
      × (m.state ≡ offline → m'.state ≡ offline)
unfolding note_failure
note_failure_drops now r m = ground arith

-- A 429 keeps the cloud cooling down for the whole cooldown, in every state; no other failure
-- touches a cooldown.
pub note_failure-cooling_down :
    (now t : ℕ) (r : Reason) (m : Monitor)
    → cooling_down t (note_failure now r m)
      ≡ (if is_429 r then ltb t (now + m.cooldown_429) else cooling_down t m)
unfolding note_failure cooling_down
note_failure-cooling_down now t r m = ground arith

-- An answer to `probe()` and a call that succeeds count; the ping itself does not.
abbrev pub is_good : Signal → Bool
is_good (failure _ _) = false
is_good success = true
is_good (probe ok) = ok
is_good _ = false

-- what the answer to a ping, and the end of its round, leave as it is
abbrev pub is_neutral : Signal → Bool
is_neutral (ping _) = true
is_neutral ping_raised = true
is_neutral _ = false

-- The length of the run after a signal.
abbrev pub run_after : ℕ → Signal → ℕ
run_after n s = if is_neutral s then n else if is_good s then suc n else 0

-- The longest run of good signals, when `n` of them have come just before.
abbrev pub longest_run : ℕ → List Signal → ℕ
longest_run n [] = n
longest_run n (s ∷ ss) = max n (longest_run (run_after n s) ss)

run-le-longest : (n : ℕ) (ss : List Signal) → n ≤ longest_run n ss
run-le-longest n [] = omega arith
run-le-longest n (s ∷ ss) = omega arith

-- Below the threshold a signal does not lead to `cloud`, no ping is sent, and the streak stays within
-- the run.
module _ (limit n : ℕ) (m : Monitor) (set : m.recover_after ≡ limit) (away : m.state ≢ cloud)
    (low : m.streak ≤ n) where
  Away : ℕ → Monitor → Type 0
  Away k m' = (m'.recover_after ≡ limit) × (m'.state ≢ cloud) × (m'.streak ≤ k)

  failure-Away : (now : ℕ) (r : Reason) → Away 0 (note_failure now r m)
  unfolding note_failure Away
  failure-Away now r = ground arith

  success-Away : suc n < limit → Away (suc n) (note_success m)
  unfolding note_success Away
  success-Away h = ground arith

  probe-Away :
      (ok : Bool)
      → (ok ≡ true → suc n < limit)
      → Away (if ok then suc n else 0) (probe_answered ok m).0 × ((probe_answered ok m).1 ≡ false)
  unfolding probe_answered Away
  probe-Away ok h = ground arith

receive-away :
    (limit n : ℕ) (w : Watched) (s : Signal)
    → w.pinging ≡ false
    → w.monitor.recover_after ≡ limit
    → w.monitor.state ≢ cloud
    → w.monitor.streak ≤ n
    → run_after n s < limit
    → let w' = receive w s in
      (w'.pinging ≡ false)
      × (w'.monitor.recover_after ≡ limit)
      × (w'.monitor.state ≢ cloud)
      × (w'.monitor.streak ≤ run_after n s)
unfolding receive Away
receive-away limit n w (failure now r) idle set away low h =
    let (a, b, c) = failure-Away limit n w.monitor set away low now r in (idle, a, b, c)
receive-away limit n w success idle set away low h =
    let (a, b, c) = success-Away limit n w.monitor set away low h in (idle, a, b, c)
receive-away limit n w (probe true) idle set away low h =
    let ((a, b, c), no_ping) = probe-Away limit n w.monitor set away low true (λ e. h) in
    rw idle (no_ping, a, b, c)
receive-away limit n w (probe false) idle set away low h =
    let ((a, b, c), no_ping) = probe-Away limit n w.monitor set away low false (λ e. cc) in
    rw idle (no_ping, a, b, c)
receive-away limit n w (ping ok) idle set away low h = rw idle (refl, set, away, low)
receive-away limit n w ping_raised idle set away low h = (refl, set, away, low)

-- Once out of `cloud` with the count at most `n` and no generation ping awaited, the monitor does not
-- come back while no run of good signals, those `n` included, reaches `recover_after`: whatever comes
-- between the parts of a probe.
pub recovery_needs_run :
    (w : Watched) (n : ℕ) (ss : List Signal)
    → w.pinging ≡ false
    → w.monitor.state ≢ cloud
    → w.monitor.streak ≤ n
    → longest_run n ss < w.monitor.recover_after
    → (receive_all w ss).monitor.state ≢ cloud
unfolding receive_all
recovery_needs_run w n [] idle away low h = away
recovery_needs_run w n (s ∷ ss) idle away low h =
    let k : ℕ = run_after n s in
    let (idle', set, away', low') =
      receive-away w.monitor.recover_after n w s idle refl away low
        (omega (arith, run-le-longest k ss)) in
    recovery_needs_run (receive w s) k ss idle' away' low' (rw set (omega arith))

abbrev pub good_probes : ℕ → List Signal
good_probes zero = []
good_probes (suc k) = probe true ∷ ping true ∷ good_probes k

-- A good probe with its ping, where none is awaited.
good_round : Monitor → Monitor
good_round m =
    if (probe_answered true m).1
    then ping_answered true (probe_answered true m).0
    else (probe_answered true m).0

idle : Monitor → Watched
idle m = record { monitor = m; pinging = false }

receive-good_round :
    (m : Monitor) → receive (receive (idle m) (probe true)) (ping true) ≡ idle (good_round m)
unfolding receive good_round idle
receive-good_round m = elim (Bool-cases (probe_answered true m).1) [
  | inl pings ↦ rw pings refl
  | inr rests ↦ rw rests refl
]

good_probes-suc :
    (k : ℕ) (m : Monitor)
    → receive_all (idle m) (good_probes (suc k)) ≡ receive_all (idle (good_round m)) (good_probes k)
unfolding receive_all
good_probes-suc k m = ap (λ w. receive_all w (good_probes k)) (receive-good_round m)

stays_cloud :
    (k : ℕ) (m : Monitor)
    → m.state ≡ cloud
    → (receive_all (idle m) (good_probes k)).monitor.state ≡ cloud
unfolding receive_all idle
stays_cloud zero m e = e
stays_cloud (suc k) m e =
    ap (λ w. w.monitor.state) (good_probes-suc k m)
    ∙ stays_cloud k (good_round m) (unfold good_round probe_answered ping_answered in ground arith)

degraded_probe :
    (m : Monitor)
    → m.state ≡ degraded
    → let m' = good_round m in
      (m'.recover_after ≡ m.recover_after)
      × ((m'.state ≡ cloud)
          ⊎ ((m'.state ≡ degraded) × (m'.streak ≡ suc m.streak) × (suc m.streak < m.recover_after)))
unfolding good_round probe_answered ping_answered
degraded_probe m e = ground arith

degraded_recovers :
    (k : ℕ) (m : Monitor)
    → m.state ≡ degraded
    → m.recover_after ≤ m.streak + k
    → 0 < k
    → (receive_all (idle m) (good_probes k)).monitor.state ≡ cloud
degraded_recovers zero m e h pos = absurd (omega arith)
degraded_recovers (suc k) m e h pos =
    let (set, next) = degraded_probe m e in
    ap (λ w. w.monitor.state) (good_probes-suc k m) ∙ elim next [
      | inl c ↦ stays_cloud k (good_round m) c
      | inr d ↦ degraded_recovers k (good_round m) d.0 (omega arith) (omega arith)
    ]

offline_probe :
    (m : Monitor)
    → m.state ≡ offline
    → let m' = good_round m in
      (m'.recover_after ≡ m.recover_after) × (m'.state ≡ degraded) × (m'.streak ≡ 0)
unfolding good_round probe_answered ping_answered
offline_probe m e = ground arith

State-cases : (s : State) → (s ≡ cloud) ⊎ ((s ≡ degraded) ⊎ (s ≡ offline))
State-cases cloud = inl refl
State-cases degraded = inr (inl refl)
State-cases offline = inr (inr refl)

-- From any state, `recover_after` good probes and one more, each with its ping, lead to `cloud`.
pub recovers :
    (m : Monitor)
    → 0 < m.recover_after
    → (receive_all
        (record { monitor = m; pinging = false })
        (good_probes (suc m.recover_after))).monitor.state
      ≡ cloud
unfolding idle
recovers m pos = elim (State-cases m.state) [
  | inl c ↦ stays_cloud (suc m.recover_after) m c
  | inr (inl d) ↦ degraded_recovers (suc m.recover_after) m d (omega arith) (omega arith)
  | inr (inr o) ↦
      let (set, d, z) = offline_probe m o in
      ap (λ w. w.monitor.state) (good_probes-suc m.recover_after m)
      ∙ degraded_recovers m.recover_after (good_round m) d (omega arith) pos
]

-- While the generation ping is awaited a call may find the network dead. The ping's answer is then
-- applied to the new state all the same: the monitor goes from offline straight to `cloud`, with no
-- good signal counted since the failure.
pub stale_ping :
    (m : Monitor) (now : ℕ)
    → (probe_answered true m).1 ≡ true
    → let m' = note_failure now dns_fail (probe_answered true m).0 in
      (m'.state ≡ offline) × (m'.streak ≡ 0) × ((ping_answered true m').state ≡ cloud)
unfolding probe_answered note_failure ping_answered
stale_ping m now h = ground arith
