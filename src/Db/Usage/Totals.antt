-- ===== src/Db/Usage/Totals.antt =====
-- The totals of a summary against the rows of the log.
use baby.Common.{ℕ, ◌+◌, ◌≡◌, refl, List, [], ◌∷◌, filter, leb, arith}
use baby.Db.Usage.{
  UsageRow, Group, Summary, into_groups, group_by_tier, summarise, usage_summary, usage_session,
  sum_of, tier_name, put,
}

into-total :
    (r : UsageRow) (gs : List Group)
    → sum_of (λ (g : Group). g.total) (into_groups r gs)
      ≡ r.total + sum_of (λ (g : Group). g.total) gs
into-total r [] = refl
into-total r (g ∷ gs) = ground (arith, into-total r gs)

into-prompt :
    (r : UsageRow) (gs : List Group)
    → sum_of (λ (g : Group). g.prompt) (into_groups r gs)
      ≡ r.prompt + sum_of (λ (g : Group). g.prompt) gs
into-prompt r [] = refl
into-prompt r (g ∷ gs) = ground (arith, into-prompt r gs)

into-completion :
    (r : UsageRow) (gs : List Group)
    → sum_of (λ (g : Group). g.completion) (into_groups r gs)
      ≡ r.completion + sum_of (λ (g : Group). g.completion) gs
into-completion r [] = refl
into-completion r (g ∷ gs) = ground (arith, into-completion r gs)

summarise_totals :
    (gs : List Group) (s : Summary)
    → ((summarise gs s).prompt ≡ s.prompt + sum_of (λ (g : Group). g.prompt) gs)
      × ((summarise gs s).completion ≡ s.completion + sum_of (λ (g : Group). g.completion) gs)
      × ((summarise gs s).total ≡ s.total + sum_of (λ (g : Group). g.total) gs)
summarise_totals [] s = (omega arith, omega arith, omega arith)
summarise_totals (g ∷ gs) s =
    let rest = summarise_totals gs (record {
      prompt = s.prompt + g.prompt;
      completion = s.completion + g.completion;
      total = s.total + g.total;
      by_brain = put (tier_name g.brain_tier) g.total s.by_brain;
    }) in
    (omega (arith, rest.0), omega (arith, rest.1), omega (arith, rest.2))

grouped :
    (row : UsageRow → ℕ) (group : Group → ℕ)
    → ((r : UsageRow) (gs : List Group) → sum_of group (into_groups r gs) ≡ row r + sum_of group gs)
    → sum_of group [] ≡ 0
    → (rows : List UsageRow) → sum_of group (group_by_tier rows) ≡ sum_of row rows
grouped row group into base [] = base
grouped row group into base (r ∷ rows) =
    omega (arith, into r (group_by_tier rows), grouped row group into base rows)

-- The three totals of a session are the sums over the rows logged since it began, however the rows are
-- spread over the tiers.
pub usage_session_totals :
    (since : ℕ) (rows : List UsageRow)
    → ((usage_session since rows).prompt
        ≡ sum_of (λ (r : UsageRow). r.prompt) (filter (λ r. leb since r.ts) rows))
      × ((usage_session since rows).completion
          ≡ sum_of (λ (r : UsageRow). r.completion) (filter (λ r. leb since r.ts) rows))
      × ((usage_session since rows).total
          ≡ sum_of (λ (r : UsageRow). r.total) (filter (λ r. leb since r.ts) rows))
unfolding usage_session usage_summary
usage_session_totals since rows =
    let hits = filter (λ (r : UsageRow). leb since r.ts) rows in
    let all =
      summarise_totals (group_by_tier hits)
        (record { prompt = 0; completion = 0; total = 0; by_brain = [] }) in
    (
      omega (arith, all.0, grouped (λ r. r.prompt) (λ g. g.prompt) into-prompt refl hits),
      omega
          (arith, all.1, grouped (λ r. r.completion) (λ g. g.completion) into-completion refl hits),
      omega (arith, all.2, grouped (λ r. r.total) (λ g. g.total) into-total refl hits),
    )
