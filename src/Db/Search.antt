-- ===== src/Db/Search.antt =====
-- The keyword search of db/database.py. SQLite's full text index is not the program's: `ranked` gives
-- the rows of a table that match, the best first.
pub mod RoundTrip
mod Tests
use baby.Common.{ℕ, Bool, true, false, ◌&&◌, List, [], ◌∷◌, ◌++◌, filter, take, if◌then◌else◌}
use baby.Message.{is_empty}
use baby.Text.Words.{Codes, start_word, join_words}
use baby.Db.Messages as Messages
use baby.Db.Messages.{is_ok, is_spoken}
use baby.Db.Tasks.{Task}
use baby.Db.Audit.{AuditRow}

-- `[t for t in re.split(r"\W+", query) if t]`; `is_word` is `re`'s `\w`.
module _ (is_word : ℕ → Bool) where
  abbrev pub tokens_from : Codes → Codes × List Codes
  tokens_from [] = ([], [])
  tokens_from (c ∷ cs) =
      let rest = tokens_from cs in
      if is_word c then (c ∷ rest.0, rest.1) else ([], start_word rest.0 rest.1)

  abbrev pub tokens : Codes → List Codes
  tokens query = start_word (tokens_from query).0 (tokens_from query).1

-- `"` is 34, `*` is 42.
abbrev pub quote : Codes → Codes
quote t = 34 ∷ (t ++ (34 ∷ []))

abbrev pub quoted : List Codes → List Codes
quoted [] = []
quoted (t ∷ []) = (quote t ++ (42 ∷ [])) ∷ []
quoted (t ∷ s ∷ ts) = quote t ∷ quoted (s ∷ ts)

unfoldable pub fts_match : (ℕ → Bool) → Codes → Codes
fts_match is_word query = join_words (quoted (tokens is_word query))

module _ (is_word : ℕ → Bool) {A : Type 0} (ranked : Codes → List A → List A) where
  -- what the three searches share: an empty query finds nothing
  unfoldable pub search_fts : (A → Bool) → Codes → ℕ → List A → List A
  unfolding fts_match
  search_fts keep query limit rows =
      let m = fts_match is_word query in
      if is_empty m then [] else take limit (filter keep (ranked m rows))

unfoldable pub search_messages_fts :
    (ℕ → Bool)
    → (Codes → List Messages.Row → List Messages.Row)
    → Codes
    → ℕ
    → List Messages.Row
    → List Messages.Row
search_messages_fts is_word ranked query limit rows =
    search_fts is_word ranked (λ r. is_ok r.status && is_spoken r.role) query limit rows

unfoldable pub search_tasks_fts :
    (ℕ → Bool) → (Codes → List Task → List Task) → Codes → ℕ → List Task → List Task
search_tasks_fts is_word ranked query limit rows =
    search_fts is_word ranked (λ t. true) query limit rows

unfoldable pub search_audit_fts :
    (ℕ → Bool) → (Codes → List AuditRow → List AuditRow) → Codes → ℕ → List AuditRow → List AuditRow
search_audit_fts is_word ranked query limit rows =
    search_fts is_word ranked (λ t. true) query limit rows
