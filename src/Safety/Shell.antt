-- ===== src/Safety/Shell.antt =====
-- `classify_shell` of core/safety.py on texts as code points: the class of a command. The reason and
-- the segment that a verdict also carries are left out, and with them the rules that only choose a
-- reason among those of the class `confirm`. A missing `user_text` is the empty text.
pub mod Parts
pub mod Groups
pub mod Verdict
mod Tests
use baby.Common.{
  ℕ, zero, suc, Bool, true, false, ◌&&◌, ◌||◌, not, String, Option, none, some, List, [], ◌∷◌, ◌++◌,
  ◌==◌, ltb, any, length, if◌then◌else◌, filter,
}
use baby.Message.{is_empty}
use baby.Text.{codes, is_space}
use baby.Text.Words.{
  Codes, strip_start, strip_end, strip_of, strip, is_quote, first_word, after_last, same,
  removesuffix,
}
use baby.Text.Search.{Unicode, starts_with}
use baby.Text.Regex.{search, search_from, match_at_start}
use baby.Safety.Patterns.{
  ps_token, encoded_flag, precheck_deny, protected_dir, root_token, delete_verb, write_verb,
  kill_verb, system_proc, shutdown, shutdown_intent, redirect, redirect_protected, segment_deny,
  set_execution_policy, ep_safe_scope, cmd_c, allow_first_tokens, git_readonly, version_check,
  pip_readonly,
}

pub data SafetyClass : Type 0 where
  allow confirm deny : SafetyClass

-- `_SEVERITY`
abbrev pub severity : SafetyClass → ℕ
severity allow = 0
severity confirm = 1
severity deny = 2

-- `_first_token`
unfoldable pub first_token : Unicode → Codes → Codes
unfolding strip strip_of is_space
first_token u segment =
    let token = strip_of is_quote (first_word (strip segment)) in
    removesuffix (codes ".exe") (u.lower_codes (after_last 47 (after_last 92 token)))

-- the rules of `_classify_segment` that deny, all but the one on shutdown
unfoldable pub is_denied : Unicode → Codes → Bool
unfolding search
is_denied u seg =
    (search u delete_verb seg && (search u protected_dir seg || search u root_token seg))
    || (search u write_verb seg && search u protected_dir seg)
    || (search u kill_verb seg && search u system_proc seg)
    || any (λ r. search u r seg) segment_deny
    || (search u set_execution_policy seg && not (search u ep_safe_scope seg))
    || search u redirect_protected seg

unfoldable pub is_read_only : Unicode → Codes → Bool
unfolding first_token match_at_start starts_with
is_read_only u seg =
    let token = first_token u seg in
    any (λ t. same token (codes t)) allow_first_tokens
    || starts_with (λ _. true) (codes "get-") token
    || match_at_start u git_readonly seg
    || match_at_start u version_check seg
    || match_at_start u pip_readonly seg

-- `_classify_segment` on a segment that is stripped
abbrev pub classify_stripped : Unicode → Codes → Codes → SafetyClass
classify_stripped u user_text seg =
    if is_empty seg
    then allow
    else if is_denied u seg
    then deny
    else if search u shutdown seg
    then (if not (is_empty user_text) && search u shutdown_intent user_text then confirm else deny)
    else if search u (redirect u) seg
    then confirm
    else if is_read_only u seg
    then allow
    else confirm

unfoldable pub classify_segment : Unicode → Codes → Codes → SafetyClass
unfolding strip is_denied is_read_only search
classify_segment u user_text segment = classify_stripped u user_text (strip segment)

-- The group of `\$\(([^)]*)\)` or `\{([^{}]*)\}` after the opening, with what follows the closing.
abbrev pub group : (ℕ → Bool) → ℕ → Codes → Option (Codes × Codes)
group stop close [] = none
group stop close (c ∷ cs) =
    if c == close
    then some ([], cs)
    else if stop c
    then none
    else elim (group stop close cs) [ none ↦ none | some (g, rest) ↦ some (c ∷ g, rest) ]

-- `findall` of such a pattern, with fuel for the positions
abbrev pub find_groups : (Codes → Option (Codes × Codes)) → ℕ → Codes → List Codes
find_groups at zero s = []
find_groups at (suc fuel) [] = []
find_groups at (suc fuel) (c ∷ cs) = elim (at (c ∷ cs)) [
  | some (g, rest) ↦ g ∷ find_groups at fuel rest
  | none ↦ find_groups at fuel cs
]

abbrev pub at_subexpr : Codes → Option (Codes × Codes)
at_subexpr (c ∷ d ∷ cs) = if c == 36 && d == 40 then group (λ x. false) 41 cs else none
at_subexpr _ = none

abbrev pub at_scriptblock : Codes → Option (Codes × Codes)
at_scriptblock (c ∷ cs) = if c == 123 then group (λ x. x == 123) 125 cs else none
at_scriptblock [] = none

unfoldable pub find_all : (Codes → Option (Codes × Codes)) → Codes → List Codes
find_all at s = find_groups at (length s) s

-- `_SPLIT.split`: of `&&` and `||` too each character splits, since the empty piece between the two
-- is dropped with the other blank ones.
abbrev pub is_separator : ℕ → Bool
is_separator c = c == 59 || c == 124 || c == 38 || c == 10

abbrev pub add_code : ℕ → List Codes → List Codes
add_code c [] = (c ∷ []) ∷ []
add_code c (p ∷ ps) = (c ∷ p) ∷ ps

abbrev pub split : Codes → List Codes
split [] = [] ∷ []
split (c ∷ cs) = let rest = split cs in if is_separator c then [] ∷ rest else add_code c rest

-- what `cmd /c` is to run
abbrev pub cmd_segments : Option Codes → List Codes
cmd_segments none = []
cmd_segments (some rest) = strip_of is_quote (strip rest) ∷ []

abbrev pub pieces_of : List Codes → List Codes
pieces_of [] = []
pieces_of (s ∷ ss) = filter (λ p. not (is_empty (strip p))) (split s) ++ pieces_of ss

-- The pieces of a stripped command.
unfoldable pub pieces : Unicode → Codes → List Codes
unfolding strip strip_of search_from find_all
pieces u cmd = pieces_of (
    cmd ∷ cmd_segments (search_from u cmd_c none cmd)
    ++ find_all at_subexpr cmd
    ++ find_all at_scriptblock cmd)

-- the verdict after a piece
unfoldable pub worse : SafetyClass → SafetyClass → SafetyClass
worse verdict v = if ltb (severity verdict) (severity v) then v else verdict

-- the loop over the pieces
unfoldable pub scan : Unicode → Codes → SafetyClass → List Codes → SafetyClass
unfolding classify_segment worse
scan u user_text verdict [] = verdict
scan u user_text verdict (p ∷ ps) =
    let verdict' = worse verdict (classify_segment u user_text p) in
    let rest = scan u user_text verdict' ps in if severity verdict' == 2 then verdict' else rest

unfoldable pub is_prechecked : Unicode → Codes → Bool
unfolding search
is_prechecked u cmd =
    (search u ps_token cmd && search u encoded_flag cmd) || any (λ r. search u r cmd) precheck_deny

abbrev pub has_backtick : Codes → Bool
has_backtick cmd = any (λ c. c == 96) cmd

abbrev pub classify_command : Unicode → Codes → Codes → SafetyClass
classify_command u user_text cmd =
    let verdict = scan u user_text allow (pieces u cmd) in
    if is_empty cmd
    then confirm
    else if is_prechecked u cmd
    then deny
    else if has_backtick cmd && severity verdict == 0
    then confirm
    else verdict

unfoldable pub classify_shell : Unicode → Codes → Codes → SafetyClass
unfolding strip is_prechecked pieces scan
classify_shell u command user_text = classify_command u user_text (strip command)
