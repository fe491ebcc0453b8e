-- ===== src/Ratelimit/Window.antt =====
-- What the bucket promises of any window of 60 seconds, whatever the calls were.
use baby.Common.{
  ℕ, ◌+◌, ◌*◌, ◌/◌, ◌≤◌, ◌<◌, ◌≡◌, refl, Bool, true, false, ◌&&◌, List, [], ◌∷◌, arith, ltb, count,
  count-append, count-filter, filter, if◌then◌else◌, ◌∙◌, sym, ltb→lt,
}
use baby.Ratelimit.{TokenBucket, Stamp, window, background_cap, admits, try_acquire}
use baby.Ratelimit.History.{
  Call, Log, step, run, fresh, within, is_recent, Tracks, Tracks-fresh, decision, run-Tracks, note,
  step-Tracks,
}

module _ {ℓ} {A : Type ℓ} where
  count-le-count :
      (p q : A → Bool) (xs : List A) → ((x : A) → p x ≡ true → q x ≡ true) → count p xs ≤ count q xs
  count-le-count p q [] h = omega arith
  count-le-count p q (x ∷ xs) h = ground (arith, count-le-count p q xs h, h x)

  count-filter_and :
      (p q : A → Bool) (xs : List A) → count p (filter q xs) ≡ count (λ x. q x && p x) xs
  count-filter_and p q [] = refl
  count-filter_and p q (x ∷ xs) = ground (arith, count-filter_and p q xs)

-- the grants of the last minute, and those of them that were background calls
abbrev pub recent : ℕ → List Stamp → ℕ
recent now g = count (is_recent now) g

abbrev pub recent_background : ℕ → List Stamp → ℕ
recent_background now g = count (λ s. is_recent now s && s.background) g

-- What a sliding window limiter with a background share grants.
abbrev pub allowed : ℕ → ℕ → Bool → ℕ → List Stamp → Bool
allowed rpm cap background now g =
    ltb (recent now g) rpm && (if background then ltb (recent_background now g) cap else true)

admits-allowed :
    (b : TokenBucket) (background : Bool) (now : ℕ) (g : List Stamp)
    → admits b background (filter (is_recent now) g)
      ≡ allowed b.rpm (background_cap b) background now g
unfolding admits
admits-allowed b background now g = ground (
  arith,
  count-filter (is_recent now) g,
  count-filter_and (λ (s : Stamp). s.background) (is_recent now) g,
)

-- The settings never change.
abbrev IsSetTo : ℕ → ℕ → ℕ → TokenBucket → Type 0
IsSetTo rpm num den b = (b.rpm ≡ rpm) × (b.share_num ≡ num) × (b.share_den ≡ den)

try_acquire-IsSetTo :
    (rpm num den now : ℕ) (background : Bool) (b : TokenBucket)
    → IsSetTo rpm num den b
    → IsSetTo rpm num den (try_acquire now background b).1
unfolding try_acquire
try_acquire-IsSetTo rpm num den now background b h = ground arith

run-IsSetTo :
    (rpm num den : ℕ) (l : Log) (cs : List Call)
    → IsSetTo rpm num den l.bucket
    → IsSetTo rpm num den (run l cs).bucket
unfolding run
run-IsSetTo rpm num den l [] h = h
run-IsSetTo rpm num den l (c ∷ cs) h =
    run-IsSetTo rpm num den (step l c) cs
      (unfold step in try_acquire-IsSetTo rpm num den (l.last + c.after) c.background l.bucket h)

-- After any calls, at any later moment, the bucket grants a call exactly if, of all the grants that
-- it ever made, fewer than `rpm` lie in the last 60 seconds, and, for a background call, fewer than
-- the background share of these were background calls.
pub try_acquire-allowed :
    (rpm num den : ℕ) (cs : List Call) (after : ℕ) (background : Bool)
    → let l = run (fresh rpm num den) cs in
      let now = l.last + after in
      (try_acquire now background l.bucket).0
      ≡ allowed rpm (rpm * num / den) background now l.granted
try_acquire-allowed rpm num den cs after background =
    let start = fresh rpm num den in
    let l = run start cs in
    let now : ℕ = l.last + after in
    let tr : Tracks l = run-Tracks start cs (Tracks-fresh rpm num den) in
    let set : IsSetTo rpm num den l.bucket = run-IsSetTo rpm num den start cs (refl, refl, refl) in
    decision l now background (omega arith) tr
    ∙ admits-allowed l.bucket background now l.granted
    ∙ (rw (set.0, set.1, set.2))

-- One more grant of a kind keeps every window within a limit that the last minute has room for.
module _ (kind : Stamp → Bool) (limit : ℕ) (t now : ℕ) (background : Bool) (g : List Stamp) where
  abbrev stamp : Stamp
  stamp = record { time = now; background = background }

  abbrev in_window : Stamp → Bool
  in_window s = within t s && kind s

  recent_bounds : now < t + window → count in_window g ≤ count (λ s. is_recent now s && kind s) g
  recent_bounds h =
      count-le-count in_window (λ s. is_recent now s && kind s) g (λ s w. ground arith)

  count-note :
      (ok : Bool)
      → (ok ≡ true → kind stamp ≡ true → count (λ s. is_recent now s && kind s) g < limit)
      → count in_window g ≤ limit
      → count in_window (note ok now background g) ≤ limit
  count-note false free h = h
  count-note true free h =
      rw (count-append in_window g (stamp ∷ [])) (ground (arith, recent_bounds, free refl))

-- Every window holds at most `rpm` grants, and at most `cap` background grants.
record IsBounded (rpm cap : ℕ) (g : List Stamp) : Type 0 where
  all_calls : (t : ℕ) → count (λ s. within t s && true) g ≤ rpm
  background_calls : (t : ℕ) → count (λ s. within t s && s.background) g ≤ cap

all_free :
    (rpm cap now : ℕ) (background : Bool) (g : List Stamp)
    → allowed rpm cap background now g ≡ true
    → count (λ s. is_recent now s && true) g < rpm
all_free rpm cap now background g h = omega (
  arith,
  count-le-count (λ (s : Stamp). is_recent now s && true) (is_recent now) g (λ s w. ground arith),
  ltb→lt (recent now g) rpm (ground arith),
)

background_free :
    (rpm cap now : ℕ) (background : Bool) (g : List Stamp)
    → allowed rpm cap background now g ≡ true
    → background ≡ true
    → recent_background now g < cap
background_free rpm cap now background g h bg = ground arith

note-IsBounded :
    (rpm cap now : ℕ) (ok background : Bool) (g : List Stamp)
    → ok ≡ allowed rpm cap background now g
    → IsBounded rpm cap g
    → IsBounded rpm cap (note ok now background g)
note-IsBounded rpm cap now ok background g e h = record {
  all_calls = λ t.
      count-note (λ _. true) rpm t now background g ok
        (λ o k. all_free rpm cap now background g (sym e ∙ o)) (h.all_calls t);
  background_calls = λ t.
      count-note (λ s. s.background) cap t now background g ok
        (λ o k. background_free rpm cap now background g (sym e ∙ o) k) (h.background_calls t);
}

run-IsBounded :
    (rpm num den : ℕ) (l : Log) (cs : List Call)
    → Tracks l
    → IsSetTo rpm num den l.bucket
    → IsBounded rpm (rpm * num / den) l.granted
    → IsBounded rpm (rpm * num / den) (run l cs).granted
unfolding run
run-IsBounded rpm num den l [] tr set h = h
run-IsBounded rpm num den l (c ∷ cs) tr set h =
    let now : ℕ = l.last + c.after in
    run-IsBounded rpm num den (step l c) cs (step-Tracks l c tr)
      (unfold step in try_acquire-IsSetTo rpm num den now c.background l.bucket set)
      (unfold step in
        note-IsBounded rpm (rpm * num / den) now (try_acquire now c.background l.bucket).0
          c.background l.granted
          (decision l now c.background (omega arith) tr
            ∙ admits-allowed l.bucket c.background now l.granted
            ∙ (rw (set.0, set.1, set.2)))
          h)

-- Whatever the calls, no 60 seconds ever hold more than `rpm` grants, nor more background grants
-- than `int(rpm * background_share)`.
pub window_bound :
    (rpm num den : ℕ) (cs : List Call) (t : ℕ)
    → let g = (run (fresh rpm num den) cs).granted in
      (count (within t) g ≤ rpm) × (count (λ s. within t s && s.background) g ≤ rpm * num / den)
window_bound rpm num den cs t =
    let start = fresh rpm num den in
    let g = (run start cs).granted in
    let b : IsBounded rpm (rpm * num / den) g =
      run-IsBounded rpm num den start cs (Tracks-fresh rpm num den) (refl, refl, refl)
        (record { all_calls = λ t. omega arith; background_calls = λ t. omega arith }) in
    (
      omega (
        arith,
        b.all_calls t,
        count-le-count (within t) (λ s. within t s && true) g (λ s w. ground arith),
      ),
      b.background_calls t,
    )
