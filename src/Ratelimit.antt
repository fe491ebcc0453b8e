-- ===== src/Ratelimit.antt =====
-- The client-side token bucket of core/ratelimit.py.
-- Monotonic time is counted in milliseconds, so the window of 60.0 s is 60000; the share is the
-- fraction `share_num / share_den`, and `int(rpm * background_share)` is the rounded-down quotient.
pub mod History
pub mod Window
pub mod Wait
mod Tests
use baby.Common.{
  ℕ, ◌+◌, ◌-◌, ◌*◌, ◌/◌, Bool, true, false, List, [], ◌∷◌, ◌++◌, max, zero, suc, Option, none, some,
  ltb, leb, length, count, if◌then◌else◌,
}

abbrev pub window : ℕ
window = 60000

-- `(monotonic, background)`
pub record Stamp : Type 0 where
  pub time : ℕ
  pub background : Bool

pub record TokenBucket : Type 0 where
  pub rpm : ℕ
  pub share_num : ℕ
  pub share_den : ℕ
  pub stamps : List Stamp

abbrev pub background_cap : TokenBucket → ℕ
background_cap b = b.rpm * b.share_num / b.share_den

-- `popleft` while the oldest stamp has left the window
unfoldable pub prune : ℕ → List Stamp → List Stamp
prune now [] = []
prune now (s ∷ rest) =
    let pruned = prune now rest in if leb window (now - s.time) then pruned else s ∷ rest

-- whether a call may be granted on the pruned stamps
unfoldable pub admits : TokenBucket → Bool → List Stamp → Bool
admits b background stamps =
    if leb b.rpm (length stamps)
    then false
    else if background
    then ltb (count (λ s. s.background) stamps) (background_cap b)
    else true

unfoldable pub try_acquire : ℕ → Bool → TokenBucket → Bool × TokenBucket
unfolding prune admits
try_acquire now background b =
    let kept = prune now b.stamps in
    if admits b background kept
    then (true, record b { stamps = kept ++ (record { time = now; background = background }) ∷ [] })
    else (false, record b { stamps = kept })

-- the wait for the oldest stamp; `max(0.0, …)` is the truncated subtraction
wait_for : ℕ → List Stamp → ℕ
wait_for now [] = 0
wait_for now (s ∷ rest) = window - (now - s.time)

pub seconds_until_slot : ℕ → TokenBucket → ℕ × TokenBucket
unfolding prune wait_for
seconds_until_slot now b =
    let kept = prune now b.stamps in
    (if ltb (length kept) b.rpm then 0 else wait_for now kept, record b { stamps = kept })

-- `acquire_wait` on its own bucket, with fuel: `late` is how much longer than asked a sleep that
-- begins at a given time takes. The result is the time of the grant.
pub acquire_wait : ℕ → (ℕ → ℕ) → ℕ → Bool → TokenBucket → Option (ℕ × TokenBucket)
unfolding try_acquire seconds_until_slot
acquire_wait zero late now background b = none
acquire_wait (suc fuel) late now background b =
    let (granted, b') = try_acquire now background b in
    let (wait, b'') = seconds_until_slot now b' in
    let retry = acquire_wait fuel late (now + max 250 wait + late now) background b'' in
    if granted then some (now, b') else retry
