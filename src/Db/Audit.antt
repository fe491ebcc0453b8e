-- ===== src/Db/Audit.antt =====
-- The table `audit_log` of db/database.py, and the figures drawn from it. Times are seconds, durations
-- are whole units of the clock, and what Python rounds to a decimal is left exact.
pub mod Percentile
mod Tests
use baby.Common.{
  ℕ, zero, suc, ◌+◌, ◌-◌, ◌*◌, ◌/◌, ◌%◌, min, Bool, true, false, ◌&&◌, ◌||◌, not, Option, none,
  some, List, [], ◌∷◌, ◌++◌, filter, count, length, map, if◌then◌else◌, leb, ◌==◌,
}
use baby.Text.Words.{Codes, same}
use baby.Db.Table.{next_id}
use baby.Db.Usage.{within}

pub record AuditRow : Type 0 where
  pub id : ℕ
  pub ts : ℕ
  pub channel : Codes
  pub tool : Codes
  pub args : Codes
  pub safety_class : Codes
  pub approved : Bool
  pub result_summary : Codes
  pub duration_ms : Option ℕ

unfoldable pub add_audit :
    ℕ → Codes → Codes → Codes → Codes → Bool → Codes → Option ℕ → List AuditRow → ℕ × List AuditRow
add_audit now channel tool args safety_class approved result_summary duration_ms rows =
    let id = next_id (λ (r : AuditRow). r.id) rows in
    (
      id,
      rows
          ++ (record {
            id = id;
            ts = now;
            channel = channel;
            tool = tool;
            args = args;
            safety_class = safety_class;
            approved = approved;
            result_summary = result_summary;
            duration_ms = duration_ms;
          })
            ∷ [],
    )

abbrev pub insert_by {ℓ} : {A : Type ℓ} → (A → ℕ) → A → List A → List A
insert_by key x [] = x ∷ []
insert_by key x (y ∷ ys) =
    let rest = insert_by key x ys in if leb (key x) (key y) then x ∷ (y ∷ ys) else y ∷ rest

-- `sorted`, and `ORDER BY`: what is equal keeps its order
abbrev pub sorted_by {ℓ} : {A : Type ℓ} → (A → ℕ) → List A → List A
sorted_by key [] = []
sorted_by key (x ∷ xs) = insert_by key x (sorted_by key xs)

abbrev pub nth : List ℕ → ℕ → ℕ
nth [] i = 0
nth (x ∷ xs) i = elim i [ zero ↦ x | suc j ↦ nth xs j ]

-- The sample at a place between two samples; `k` is the place times 100, so is the result.
abbrev pub interpolate : List ℕ → ℕ → ℕ
interpolate ordered k =
    let lo = k / 100 in
    let hi = min (lo + 1) (length ordered - 1) in
    nth ordered lo * 100 + (nth ordered hi - nth ordered lo) * (k % 100)

unfoldable pub percentile : List ℕ → ℕ → Option ℕ
percentile [] p = none
percentile (x ∷ xs) p =
    let ordered = sorted_by (λ (n : ℕ). n) (x ∷ xs) in
    some (interpolate ordered ((length ordered - 1) * p))

abbrev pub durations : List AuditRow → List ℕ
durations [] = []
durations (r ∷ rows) = elim r.duration_ms [ none ↦ durations rows | some d ↦ d ∷ durations rows ]

abbrev pub last_ts : List AuditRow → Option ℕ
last_ts [] = none
last_ts (r ∷ []) = some r.ts
last_ts (r ∷ s ∷ rows) = last_ts (s ∷ rows)

-- The error rate is `errors` out of `calls_window`.
pub record AuditStats : Type 0 where
  pub calls_today : ℕ
  pub calls_window : ℕ
  pub window_days : ℕ
  pub errors : ℕ
  pub p50_ms : Option ℕ
  pub p95_ms : Option ℕ
  pub last_at : Option ℕ

unfoldable pub audit_stats : (ℕ → ℕ) → ℕ → Codes → ℕ → List AuditRow → AuditStats
unfolding percentile
audit_stats day_of now tool days rows =
    let hits =
      sorted_by (λ (r : AuditRow). r.ts)
        (filter (λ r. same r.tool tool && within now days r.ts) rows) in
    record {
      calls_today = count (λ r. same r.tool tool && day_of r.ts == day_of now) rows;
      calls_window = length hits;
      window_days = days;
      errors = count (λ (r : AuditRow). not r.approved) hits;
      p50_ms = percentile (durations hits) 50;
      p95_ms = percentile (durations hits) 95;
      last_at = last_ts hits;
    }
