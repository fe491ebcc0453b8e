-- ===== src/Health.antt =====
-- `HealthMonitor` of core/router.py: the state machine of the cloud connection. Times are in
-- milliseconds. The probe awaits twice, so it is modelled as its parts, between which other signals
-- may come; what the monitor reports on the bus and in the audit log is the list `transitions`.
pub mod Recovery
pub mod Reports
mod Tests
use baby.Common.{
  ℕ, suc, ◌+◌, Bool, true, false, ◌&&◌, not, String, str_eq, Option, none, some, List, [], ◌∷◌,
  ◌++◌, leb, ltb, if◌then◌else◌,
}

pub data State : Type 0 where
  cloud degraded offline : State

-- the failure reasons that `chat` reports; `http` stands for a status code other than 429
pub data Reason : Type 0 where
  timeout dns_fail too_many error : Reason
  http : ℕ → Reason

-- why a transition was made
pub data Cause : Type 0 where
  failed : Reason → Cause
  net_returned_live net_returned probe_failed recovered : Cause

pub record Transition : Type 0 where
  pub old : State
  pub new : State
  pub cause : Cause

pub record Monitor : Type 0 where
  pub recover_after : ℕ
  pub cooldown_429 : ℕ
  pub state : State
  pub cooldown_until : ℕ
  pub streak : ℕ
  pub transitions : List Transition

-- `__init__`
abbrev pub new : ℕ → ℕ → Monitor
new recover_after cooldown_429 = record {
  recover_after = recover_after;
  cooldown_429 = cooldown_429;
  state = cloud;
  cooldown_until = 0;
  streak = 0;
  transitions = [];
}

abbrev pub same_state : State → State → Bool
same_state cloud cloud = true
same_state degraded degraded = true
same_state offline offline = true
same_state _ _ = false

-- `_transition`
unfoldable pub transition : State → Cause → Monitor → Monitor
transition new cause m = if same_state new m.state then m else record m {
  state = new;
  transitions = m.transitions ++ (record { old = m.state; new = new; cause = cause }) ∷ [];
}

abbrev pub is_429 : Reason → Bool
is_429 too_many = true
is_429 _ = false

-- the state after a failure; offline is never left by one
abbrev pub failed_state : State → Reason → State
failed_state s dns_fail = offline
failed_state offline r = offline
failed_state s r = degraded

unfoldable pub cooling_down : ℕ → Monitor → Bool
cooling_down now m = ltb now m.cooldown_until

unfoldable pub note_failure : ℕ → Reason → Monitor → Monitor
unfolding transition
note_failure now reason m =
    let until = if is_429 reason then now + m.cooldown_429 else m.cooldown_until in
    transition (failed_state m.state reason) (failed reason)
      (record m { cooldown_until = until; streak = 0 })

-- the branches of `note_success` by the state
abbrev pub success_in : State → Monitor → Monitor
success_in cloud m = m
success_in offline m = transition degraded net_returned_live (record m { streak = suc m.streak })
success_in degraded m =
    let counted = record m { streak = suc m.streak } in
    if leb m.recover_after (suc m.streak) then transition cloud recovered counted else counted

unfoldable pub note_success : Monitor → Monitor
unfolding transition
note_success m = success_in m.state m

-- `_probe_once` once `probe()` has answered; the flag tells whether the generation ping follows.
abbrev pub probe_ok_in : State → Monitor → Monitor × Bool
probe_ok_in cloud m = (m, false)
probe_ok_in offline m = (transition degraded net_returned (record m { streak = 0 }), false)
probe_ok_in degraded m = (record m { streak = suc m.streak }, leb m.recover_after (suc m.streak))

abbrev pub probe_failed_in : State → Monitor → Monitor
probe_failed_in cloud m = transition degraded probe_failed (record m { streak = 0 })
probe_failed_in degraded m = transition offline probe_failed (record m { streak = 0 })
probe_failed_in offline m = record m { streak = 0 }

unfoldable pub probe_answered : Bool → Monitor → Monitor × Bool
unfolding transition
probe_answered ok m = if ok then probe_ok_in m.state m else (probe_failed_in m.state m, false)

-- the rest of `_probe_once`, once the generation ping has answered or run into its time limit
unfoldable pub ping_answered : Bool → Monitor → Monitor
unfolding transition
ping_answered ok m = if ok then transition cloud recovered m else record m { streak = 0 }

-- A monitor, and whether its probe awaits the generation ping.
pub record Watched : Type 0 where
  pub monitor : Monitor
  pub pinging : Bool

-- What reaches the monitor, one after the other: the reports of real calls, the answer to `probe()`,
-- the answer to the generation ping, and an exception of the ping other than the time limit, which
-- ends the round in `_probe_loop`.
pub data Signal : Type 0 where
  failure : ℕ → Reason → Signal
  success ping_raised : Signal
  probe ping : Bool → Signal

-- The probe loop awaits a ping before its next round, and there is no answer to a ping not sent.
unfoldable pub receive : Watched → Signal → Watched
unfolding note_failure note_success probe_answered ping_answered
receive w (failure now r) = record w { monitor = note_failure now r w.monitor }
receive w success = record w { monitor = note_success w.monitor }
receive w (probe ok) =
    let (m, pings) = probe_answered ok w.monitor in
    if w.pinging then w else record { monitor = m; pinging = pings }
receive w (ping ok) =
    if w.pinging then record { monitor = ping_answered ok w.monitor; pinging = false } else w
receive w ping_raised = record w { pinging = false }

unfoldable pub receive_all : Watched → List Signal → Watched
unfolding receive
receive_all w [] = w
receive_all w (s ∷ ss) = receive_all (receive w s) ss
