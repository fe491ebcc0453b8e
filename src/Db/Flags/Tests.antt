-- ===== src/Db/Flags/Tests.antt =====
-- Flags of two tools.
use baby.Common.{ℕ, ◌≡◌, refl, Bool, true, false, List, [], ◌∷◌}
use baby.Text.Words.{Codes}
use baby.Db.Flags.{set_tool_flag, disabled_tools}
use baby.Db.Flags.Settings.{set_all}

abbrev shell : Codes
shell = 115 ∷ 104 ∷ []

abbrev web : Codes
web = 119 ∷ []

abbrev toggles : List (ℕ × Codes × Bool)
toggles =
    (1, shell, false) ∷ (2, web, false) ∷ (3, shell, true) ∷ (4, shell, false) ∷ (5, web, true) ∷ []

shell_off : disabled_tools (set_all toggles []) ≡ shell ∷ []
unfolding disabled_tools set_tool_flag
shell_off = refl
