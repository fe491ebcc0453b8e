-- ===== src/Ratelimit/History.antt =====
-- The bucket against the log of every grant it ever made: what a sliding window limiter promises.
use baby.Common.{
  ℕ, ◌+◌, ◌≤◌, ◌<◌, ◌≡◌, refl, Bool, true, false, ◌&&◌, List, [], ◌∷◌, ◌++◌, arith, ltb, leb,
  filter, filter-append, All, All-append, All-filter, ◌∙◌, Bool-cases, inl, inr,
}
use baby.Ratelimit.{TokenBucket, Stamp, window, prune, admits, try_acquire}

-- A call of `try_acquire`, `after` milliseconds behind the one before it.
pub record Call : Type 0 where
  pub after : ℕ
  pub background : Bool

-- The grants so far, oldest first, the time of the last call, and the bucket.
pub record Log : Type 0 where
  pub granted : List Stamp
  pub last : ℕ
  pub bucket : TokenBucket

abbrev pub note : Bool → ℕ → Bool → List Stamp → List Stamp
note true now background g = g ++ (record { time = now; background = background }) ∷ []
note false now background g = g

unfoldable pub step : Log → Call → Log
step l c =
    let now = l.last + c.after in
    let (ok, b) = try_acquire now c.background l.bucket in
    record { granted = note ok now c.background l.granted; last = now; bucket = b }

unfoldable pub run : Log → List Call → Log
unfolding step
run l [] = l
run l (c ∷ cs) = run (step l c) cs

-- A bucket that has granted nothing.
abbrev pub fresh : ℕ → ℕ → ℕ → Log
fresh rpm num den = record {
  granted = [];
  last = 0;
  bucket = record { rpm = rpm; share_num = num; share_den = den; stamps = [] };
}

-- the grant lies in the window that begins at `t`
abbrev pub within : ℕ → Stamp → Bool
within t s = leb t s.time && ltb s.time (t + window)

-- the grant has not left the window at `now`
abbrev pub is_recent : ℕ → Stamp → Bool
is_recent now s = ltb now (s.time + window)

abbrev Sorted : List Stamp → Type 0
Sorted [] = Unit {0}
Sorted (s ∷ rest) = All (λ r. s.time ≤ r.time) rest × Sorted rest

Sorted-snoc :
    (xs : List Stamp) (s : Stamp)
    → Sorted xs
    → All (λ r. r.time ≤ s.time) xs
    → Sorted (xs ++ s ∷ [])
Sorted-snoc [] s h le = (tt, tt)
Sorted-snoc (x ∷ xs) s h le =
    (All-append (λ r. x.time ≤ r.time) xs (s ∷ []) h.0 (le.0, tt), Sorted-snoc xs s h.1 le.1)

Sorted-filter : (p : Stamp → Bool) (xs : List Stamp) → Sorted xs → Sorted (filter p xs)
Sorted-filter p [] h = tt
Sorted-filter p (s ∷ rest) h = elim (Bool-cases (p s)) [
  | inl kept ↦ rw kept (All-filter (λ r. s.time ≤ r.time) p rest h.0, Sorted-filter p rest h.1)
  | inr gone ↦ rw gone (Sorted-filter p rest h.1)
]

All-le : (a b : ℕ) (xs : List Stamp) → a ≤ b → All (λ r. r.time ≤ a) xs → All (λ r. r.time ≤ b) xs
All-le a b [] h le = tt
All-le a b (s ∷ rest) h le = (omega arith, All-le a b rest h le.1)

-- From a recent stamp on, everything is recent.
filter-recent :
    (now t : ℕ) (xs : List Stamp)
    → now < t + window
    → All (λ r. t ≤ r.time) xs
    → filter (is_recent now) xs ≡ xs
filter-recent now t [] h le = refl
filter-recent now t (s ∷ rest) h le = ground (arith, filter-recent now t rest h le.1)

-- On stamps in order, stopping at the first recent one drops exactly those that are not.
prune-eq-filter :
    (now : ℕ) (xs : List Stamp)
    → Sorted xs
    → All (λ r. r.time ≤ now) xs
    → prune now xs ≡ filter (is_recent now) xs
unfolding prune
prune-eq-filter now [] h le = refl
prune-eq-filter now (s ∷ rest) h le =
    ground (arith, prune-eq-filter now rest h.1 le.1, filter-recent now s.time rest)

filter-recent_twice :
    (a b : ℕ) (xs : List Stamp)
    → a ≤ b
    → filter (is_recent b) (filter (is_recent a) xs) ≡ filter (is_recent b) xs
filter-recent_twice a b [] h = refl
filter-recent_twice a b (s ∷ rest) h = ground (arith, filter-recent_twice a b rest h)

-- The bucket holds the grants of the last window, and no grant lies in the future.
pub record Tracks (l : Log) : Type 0 where
  pub sorted : Sorted l.granted
  pub past : All (λ r. r.time ≤ l.last) l.granted
  pub stamps : l.bucket.stamps ≡ filter (is_recent l.last) l.granted

pub Tracks-fresh : (rpm num den : ℕ) → Tracks (fresh rpm num den)
Tracks-fresh rpm num den = record { sorted = tt; past = tt; stamps = refl }

-- What a call finds after pruning: the grants of the window that ends now.
prune-Tracks :
    (l : Log) (now : ℕ)
    → l.last ≤ now
    → Tracks l
    → prune now l.bucket.stamps ≡ filter (is_recent now) l.granted
prune-Tracks l now h tr = rw tr.stamps (
    prune-eq-filter now (filter (is_recent l.last) l.granted)
      (Sorted-filter (is_recent l.last) l.granted tr.sorted)
      (All-le l.last now (filter (is_recent l.last) l.granted) h
        (All-filter (λ r. r.time ≤ l.last) (is_recent l.last) l.granted tr.past))
    ∙ filter-recent_twice l.last now l.granted h)

-- A call is decided by what the whole log of grants holds for the window that ends now.
pub decision :
    (l : Log) (now : ℕ) (background : Bool)
    → l.last ≤ now
    → Tracks l
    → (try_acquire now background l.bucket).0
      ≡ admits l.bucket background (filter (is_recent now) l.granted)
unfolding try_acquire
decision l now background h tr = rw (prune-Tracks l now h tr) (ground arith)

stamps-step :
    (l : Log) (now : ℕ) (background : Bool)
    → l.last ≤ now
    → Tracks l
    → (try_acquire now background l.bucket).1.stamps
      ≡ filter
          (is_recent now)
          (note (try_acquire now background l.bucket).0 now background l.granted)
unfolding try_acquire
stamps-step l now background h tr = rw (prune-Tracks l now h tr) (
    grind (
      arith,
      filter-append (is_recent now) l.granted
          ((record { time = now; background = background }) ∷ []),
    ))

past-note :
    (ok background : Bool) (last now : ℕ) (g : List Stamp)
    → last ≤ now
    → All (λ r. r.time ≤ last) g
    → All (λ r. r.time ≤ now) (note ok now background g)
past-note true background last now g h le =
    All-append (λ r. r.time ≤ now) g ((record { time = now; background = background }) ∷ [])
      (All-le last now g h le) (omega arith)
past-note false background last now g h le = All-le last now g h le

Sorted-note :
    (ok background : Bool) (now : ℕ) (g : List Stamp)
    → All (λ r. r.time ≤ now) g
    → Sorted g
    → Sorted (note ok now background g)
Sorted-note true background now g le h =
    Sorted-snoc g (record { time = now; background = background }) h le
Sorted-note false background now g le h = h

pub step-Tracks : (l : Log) (c : Call) → Tracks l → Tracks (step l c)
unfolding step
step-Tracks l c tr =
    let now : ℕ = l.last + c.after in
    let ok = (try_acquire now c.background l.bucket).0 in
    record {
      sorted =
          Sorted-note ok c.background now l.granted
            (All-le l.last now l.granted (omega arith) tr.past) tr.sorted;
      past = past-note ok c.background l.last now l.granted (omega arith) tr.past;
      stamps = stamps-step l now c.background (omega arith) tr;
    }

pub run-Tracks : (l : Log) (cs : List Call) → Tracks l → Tracks (run l cs)
unfolding run
run-Tracks l [] tr = tr
run-Tracks l (c ∷ cs) tr = run-Tracks (step l c) cs (step-Tracks l c tr)
