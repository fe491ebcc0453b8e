-- ===== src/Ratelimit/Wait.antt =====
-- `acquire_wait`: when the loop of a batch caller ends.
use baby.Common.{
  ℕ, ◌+◌, ◌*◌, ◌≤◌, ◌<◌, ◌≡◌, refl, Bool, true, false, List, [], ◌∷◌, ◌++◌, suc, arith, zero, All,
  Option, some, none, max, Bool-cases, inl, inr,
}
use baby.Ratelimit.{
  TokenBucket, Stamp, window, background_cap, prune, admits, try_acquire, seconds_until_slot,
  acquire_wait,
}

All-prune : (P : Stamp → Type 0) (now : ℕ) (xs : List Stamp) → All P xs → All P (prune now xs)
unfolding prune
All-prune P now [] h = tt
All-prune P now (s ∷ rest) h = ground (arith, All-prune P now rest h.1)

prune-expired :
    (h now : ℕ) (xs : List Stamp) → h + window ≤ now → All (λ s. s.time ≤ h) xs → prune now xs ≡ []
unfolding prune
prune-expired h now [] late le = refl
prune-expired h now (s ∷ rest) late le = ground (arith, prune-expired h now rest late le.1)

-- a bucket that can grant a call of this kind at all
abbrev pub CanServe : Bool → TokenBucket → Type 0
CanServe background b = (0 < b.rpm) × (background ≡ true → 0 < background_cap b)

-- The call was granted at time `t`, not before `now`, and its stamp was put at the end.
abbrev pub Served : ℕ → Bool → Option (ℕ × TokenBucket) → Type 0
Served now background r =
    (t : ℕ) × (b : TokenBucket) × (before : List Stamp) × (r ≡ some (t, b))
    × (now ≤ t)
    × (b.stamps ≡ before ++ (record { time = t; background = background }) ∷ [])

grant_at_once :
    (h now : ℕ) (background : Bool) (b : TokenBucket)
    → CanServe background b
    → h + window ≤ now
    → All (λ s. s.time ≤ h) b.stamps
    → (try_acquire now background b).0 ≡ true
unfolding try_acquire admits
grant_at_once h now background b can late le =
    rw (prune-expired h now b.stamps late le) (ground arith)

granted-Served :
    (fuel : ℕ) (late : ℕ → ℕ) (now : ℕ) (background : Bool) (b : TokenBucket)
    → (try_acquire now background b).0 ≡ true
    → Served now background (acquire_wait (suc fuel) late now background b)
unfolding acquire_wait try_acquire
granted-Served fuel late now background b e = (
  now,
  (try_acquire now background b).1,
  prune now b.stamps,
  ground arith,
  omega arith,
  ground arith,
)

-- the bucket that the next round starts from
abbrev after_miss : ℕ → Bool → TokenBucket → TokenBucket
after_miss now background b = (seconds_until_slot now (try_acquire now background b).1).1

after_miss-old :
    (h now : ℕ) (background : Bool) (b : TokenBucket)
    → (try_acquire now background b).0 ≡ false
    → All (λ s. s.time ≤ h) b.stamps
    → All (λ s. s.time ≤ h) (after_miss now background b).stamps
unfolding try_acquire seconds_until_slot
after_miss-old h now background b e le = ground (
  arith,
  All-prune (λ s. s.time ≤ h) now (prune now b.stamps)
      (All-prune (λ s. s.time ≤ h) now b.stamps le),
)

after_miss-CanServe :
    (now : ℕ) (background : Bool) (b : TokenBucket)
    → CanServe background b
    → CanServe background (after_miss now background b)
unfolding try_acquire seconds_until_slot
after_miss-CanServe now background b can = ground arith

later-Served :
    {a b : ℕ} {background : Bool} (r : Option (ℕ × TokenBucket))
    → a ≤ b
    → Served b background r
    → Served a background r
later-Served r h (t, bucket, before, e, le, end) = (t, bucket, before, e, omega arith, end)

abbrev after_sleep : (ℕ → ℕ) → ℕ → Bool → TokenBucket → ℕ
after_sleep late now background b =
    now + max 250 (seconds_until_slot now (try_acquire now background b).1).0 + late now

acquire_wait-miss :
    (fuel : ℕ) (late : ℕ → ℕ) (now : ℕ) (background : Bool) (b : TokenBucket)
    → (try_acquire now background b).0 ≡ false
    → acquire_wait (suc fuel) late now background b
      ≡ acquire_wait fuel late
          (after_sleep late now background b)
          background
          (after_miss now background b)
unfolding acquire_wait
acquire_wait-miss fuel late now background b e = ground arith

acquire_wait-within :
    (fuel : ℕ) (late : ℕ → ℕ) (h now : ℕ) (background : Bool) (b : TokenBucket)
    → CanServe background b
    → h + window ≤ now + 250 * fuel
    → All (λ s. s.time ≤ h) b.stamps
    → Served now background (acquire_wait (suc fuel) late now background b)
acquire_wait-within zero late h now background b can enough le =
    granted-Served zero late now background b
      (grant_at_once h now background b can (omega arith) le)
acquire_wait-within (suc fuel) late h now background b can enough le =
    elim (Bool-cases (try_acquire now background b).0) [
      | inl ok ↦ granted-Served (suc fuel) late now background b ok
      | inr miss ↦ rw (acquire_wait-miss (suc fuel) late now background b miss) (
          later-Served
            (acquire_wait (suc fuel) late (after_sleep late now background b) background
              (after_miss now background b))
            (omega arith)
            (acquire_wait-within fuel late h (after_sleep late now background b) background
              (after_miss now background b) (after_miss-CanServe now background b can) (omega arith)
              (after_miss-old h now background b miss le)))
    ]

-- With no other caller, 241 rounds are always enough, however long the sleeps take: the loop ends
-- with a grant, not before it began, whose stamp is the newest. Needed are a positive `rpm`, for a
-- background call a share that rounds to at least one slot, and that no stamp lies in the future.
pub acquire_wait_returns :
    (late : ℕ → ℕ) (now : ℕ) (background : Bool) (b : TokenBucket)
    → CanServe background b
    → All (λ s. s.time ≤ now) b.stamps
    → Served now background (acquire_wait 241 late now background b)
acquire_wait_returns late now background b can le =
    acquire_wait-within 240 late now now background b can (omega arith) le

-- A share that rounds down to no slot keeps a background caller in the loop for ever: no number of
-- rounds ends it.
pub acquire_wait_starves :
    (fuel : ℕ) (late : ℕ → ℕ) (now : ℕ) (b : TokenBucket)
    → background_cap b ≡ 0
    → acquire_wait fuel late now true b ≡ none
unfolding acquire_wait try_acquire seconds_until_slot admits
acquire_wait_starves zero late now b e = refl
acquire_wait_starves (suc fuel) late now b e =
    ground
      (arith, acquire_wait_starves fuel late (after_sleep late now true b) (after_miss now true b))
