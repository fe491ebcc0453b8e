-- ===== src/Db/Usage.antt =====
-- The table `usage_log` of db/database.py, and the sums drawn from it. Times are seconds.
pub mod Totals
mod Tests
use baby.Common.{
  ℕ, zero, suc, ◌+◌, ◌-◌, ◌*◌, ◌/◌, ◌%◌, min, Bool, true, false, ◌&&◌, ◌||◌, not, Option, none,
  some, List, [], ◌∷◌, ◌++◌, filter, count, length, map, if◌then◌else◌, leb, ◌==◌,
}
use baby.Text.Words.{Codes, same}
use baby.Db.Table.{next_id}

-- The counts of a turn; a missing key counts as 0.
pub record Tokens : Type 0 where
  pub prompt : Option ℕ
  pub completion : Option ℕ
  pub total : Option ℕ

abbrev pub or_zero : Option ℕ → ℕ
or_zero none = 0
or_zero (some n) = n

pub record UsageRow : Type 0 where
  pub id : ℕ
  pub ts : ℕ
  pub conversation_id : ℕ
  pub turn_id : Option ℕ
  pub channel : Codes
  pub brain_tier : Option Codes
  pub brain_model : Option Codes
  pub prompt : ℕ
  pub completion : ℕ
  pub total : ℕ

unfoldable pub add_usage :
    ℕ
    → ℕ
    → Option ℕ
    → Codes
    → Option Codes
    → Option Codes
    → Tokens
    → List UsageRow
    → ℕ × List UsageRow
add_usage now c turn channel tier model tokens rows =
    let id = next_id (λ (r : UsageRow). r.id) rows in
    (
      id,
      rows
          ++ (record {
            id = id;
            ts = now;
            conversation_id = c;
            turn_id = turn;
            channel = channel;
            brain_tier = tier;
            brain_model = model;
            prompt = or_zero tokens.prompt;
            completion = or_zero tokens.completion;
            total = or_zero tokens.total;
          })
            ∷ [],
    )

-- The sums of one tier; `none` is the group of the rows with none.
pub record Group : Type 0 where
  pub brain_tier : Option Codes
  pub prompt : ℕ
  pub completion : ℕ
  pub total : ℕ

abbrev pub same_tier : Option Codes → Option Codes → Bool
same_tier none none = true
same_tier (some s) (some t) = same s t
same_tier _ _ = false

abbrev pub into_groups : UsageRow → List Group → List Group
into_groups r [] =
    record {
      brain_tier = r.brain_tier;
      prompt = r.prompt;
      completion = r.completion;
      total = r.total;
    }
    ∷ []
into_groups r (g ∷ gs) =
    let rest = into_groups r gs in
    if same_tier g.brain_tier r.brain_tier
    then record g {
      prompt = g.prompt + r.prompt;
      completion = g.completion + r.completion;
      total = g.total + r.total;
    }
      ∷ gs
    else g ∷ rest

-- `SELECT brain_tier, SUM(…) … GROUP BY brain_tier`
abbrev pub group_by_tier : List UsageRow → List Group
group_by_tier [] = []
group_by_tier (r ∷ rows) = into_groups r (group_by_tier rows)

pub record Summary : Type 0 where
  pub prompt : ℕ
  pub completion : ℕ
  pub total : ℕ
  pub by_brain : List (Codes × ℕ)

-- `d[key] = value`
abbrev pub put : Codes → ℕ → List (Codes × ℕ) → List (Codes × ℕ)
put key value [] = (key, value) ∷ []
put key value ((k, v) ∷ d) =
    let rest = put key value d in if same k key then (k, value) ∷ d else (k, v) ∷ rest

-- "unknown"
abbrev pub unknown : Codes
unknown = 117 ∷ 110 ∷ 107 ∷ 110 ∷ 111 ∷ 119 ∷ 110 ∷ []

-- `tier or "unknown"`
abbrev pub tier_name : Option Codes → Codes
tier_name none = unknown
tier_name (some []) = unknown
tier_name (some (c ∷ cs)) = c ∷ cs

abbrev pub summarise : List Group → Summary → Summary
summarise [] out = out
summarise (g ∷ gs) out = summarise gs (record {
  prompt = out.prompt + g.prompt;
  completion = out.completion + g.completion;
  total = out.total + g.total;
  by_brain = put (tier_name g.brain_tier) g.total out.by_brain;
})

unfoldable pub usage_summary : List Group → Summary
usage_summary gs = summarise gs (record { prompt = 0; completion = 0; total = 0; by_brain = [] })

unfoldable pub usage_session : ℕ → List UsageRow → Summary
unfolding usage_summary
usage_session since rows = usage_summary (group_by_tier (filter (λ r. leb since r.ts) rows))

-- Days are SQLite's, of the local time.
module _ (day_of : ℕ → ℕ) where
  unfoldable pub usage_today : ℕ → List UsageRow → Summary
  unfolding usage_summary
  usage_today now rows =
      usage_summary (group_by_tier (filter (λ r. day_of r.ts == day_of now) rows))

pub record BrainUsage : Type 0 where
  pub prompt : ℕ
  pub completion : ℕ
  pub total : ℕ
  pub turns : ℕ
  pub window_days : ℕ

abbrev pub sum_of {ℓ} : {A : Type ℓ} → (A → ℕ) → List A → ℕ
sum_of f [] = 0
sum_of f (x ∷ xs) = f x + sum_of f xs

-- `ts >= datetime('now', '-{days} days')`
abbrev pub within : ℕ → ℕ → ℕ → Bool
within now days ts = leb now (ts + days * 86400)

unfoldable pub usage_by_brain : ℕ → Codes → ℕ → List UsageRow → BrainUsage
usage_by_brain now tier days rows =
    let hits = filter (λ r. same_tier r.brain_tier (some tier) && within now days r.ts) rows in
    record {
      prompt = sum_of (λ (r : UsageRow). r.prompt) hits;
      completion = sum_of (λ (r : UsageRow). r.completion) hits;
      total = sum_of (λ (r : UsageRow). r.total) hits;
      turns = length hits;
      window_days = days;
    }
