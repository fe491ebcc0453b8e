-- ===== src/Health/Reports.antt =====
-- What the monitor reports of its transitions.
use baby.Common.{
  ℕ, suc, ◌+◌, ◌≡◌, ◌≢◌, refl, sym, Bool, true, false, List, [], ◌∷◌, ◌++◌, arith, Bool-cases, inl,
  inr, if◌then◌else◌, leb,
}
use baby.Health.{
  State, cloud, degraded, offline, Cause, Transition, Monitor, new, transition, same_state,
  note_failure, note_success, success_in, probe_answered, ping_answered, Watched, Signal, failure,
  success, probe, ping, ping_raised, receive, receive_all, failed, probe_ok_in, probe_failed_in,
  recovered, net_returned, net_returned_live, probe_failed, failed_state, is_429,
}

-- Each transition starts from the state that the one before it led to, and leaves it.
abbrev pub Chain : State → List Transition → State → Type 0
Chain s [] t = s ≡ t
Chain s (x ∷ xs) t = (x.old ≡ s) × (x.old ≢ x.new) × Chain x.new xs t

Chain-snoc :
    (s t u : State) (xs : List Transition) (c : Cause)
    → t ≢ u
    → Chain s xs t
    → Chain s (xs ++ (record { old = t; new = u; cause = c }) ∷ []) u
Chain-snoc s t u [] c ne e = (sym e, ne, refl)
Chain-snoc s t u (x ∷ xs) c ne h = (h.0, h.1, Chain-snoc x.new t u xs c ne h.2)

abbrev IsReported : Monitor → Type 0
IsReported m = Chain cloud m.transitions m.state

transition-IsReported :
    (new : State) (c : Cause) (m : Monitor) → IsReported m → IsReported (transition new c m)
unfolding transition
transition-IsReported new c m h = elim (Bool-cases (same_state new m.state)) [
  | inl same ↦ rw same h
  | inr differ ↦ rw differ (Chain-snoc cloud m.state new m.transitions c (ground arith) h)
]

success_in-IsReported : (s : State) (m : Monitor) → IsReported m → IsReported (success_in s m)
success_in-IsReported cloud m h = h
success_in-IsReported offline m h =
    transition-IsReported degraded net_returned_live (record m { streak = suc m.streak }) h
success_in-IsReported degraded m h = elim (Bool-cases (leb m.recover_after (suc m.streak))) [
  | inl full ↦
      rw full (transition-IsReported cloud recovered (record m { streak = suc m.streak }) h)
  | inr short ↦ rw short h
]

probe_ok_in-IsReported : (s : State) (m : Monitor) → IsReported m → IsReported (probe_ok_in s m).0
probe_ok_in-IsReported cloud m h = h
probe_ok_in-IsReported offline m h =
    transition-IsReported degraded net_returned (record m { streak = 0 }) h
probe_ok_in-IsReported degraded m h = h

probe_failed_in-IsReported :
    (s : State) (m : Monitor) → IsReported m → IsReported (probe_failed_in s m)
probe_failed_in-IsReported cloud m h =
    transition-IsReported degraded probe_failed (record m { streak = 0 }) h
probe_failed_in-IsReported degraded m h =
    transition-IsReported offline probe_failed (record m { streak = 0 }) h
probe_failed_in-IsReported offline m h = h

probe_answered-IsReported :
    (ok : Bool) (m : Monitor) → IsReported m → IsReported (probe_answered ok m).0
unfolding probe_answered
probe_answered-IsReported true m h = probe_ok_in-IsReported m.state m h
probe_answered-IsReported false m h = probe_failed_in-IsReported m.state m h

ping_answered-IsReported :
    (ok : Bool) (m : Monitor) → IsReported m → IsReported (ping_answered ok m)
unfolding ping_answered
ping_answered-IsReported true m h = transition-IsReported cloud recovered m h
ping_answered-IsReported false m h = h

receive-IsReported :
    (w : Watched) (s : Signal) → IsReported w.monitor → IsReported (receive w s).monitor
unfolding receive note_failure note_success
receive-IsReported w (failure now r) h =
    let m = w.monitor in
    transition-IsReported (failed_state m.state r) (failed r)
      (record m {
        cooldown_until = if is_429 r then now + m.cooldown_429 else m.cooldown_until;
        streak = 0;
      })
      h
receive-IsReported w success h = success_in-IsReported w.monitor.state w.monitor h
receive-IsReported w (probe ok) h = elim (Bool-cases w.pinging) [
  | inl busy ↦ rw busy h
  | inr idle ↦ rw idle (probe_answered-IsReported ok w.monitor h)
]
receive-IsReported w (ping ok) h = elim (Bool-cases w.pinging) [
  | inl busy ↦ rw busy (ping_answered-IsReported ok w.monitor h)
  | inr idle ↦ rw idle h
]
receive-IsReported w ping_raised h = h

run-IsReported :
    (w : Watched) (ss : List Signal) → IsReported w.monitor → IsReported (receive_all w ss).monitor
unfolding receive_all
run-IsReported w [] h = h
run-IsReported w (s ∷ ss) h = run-IsReported (receive w s) ss (receive-IsReported w s h)

-- Whatever the signals, the transitions that are reported form an unbroken chain from `cloud`, the
-- state at the start, to the present state, and none of them leaves the state as it is.
pub receive_all-Chain :
    (limit cooldown : ℕ) (ss : List Signal)
    → let m = (receive_all (record { monitor = new limit cooldown; pinging = false }) ss).monitor in
      Chain cloud m.transitions m.state
receive_all-Chain limit cooldown ss =
    run-IsReported (record { monitor = new limit cooldown; pinging = false }) ss refl
