-- ===== src/Safety/Tool.antt =====
-- `classify_tool`, `SafetySession` and `SafetyGate` of core/safety.py. Texts are code points. The
-- verdict is its class. What `Path.resolve` and the home directory make of a path is the parameter
-- `place`, and the page's domain is an argument, empty where there is none.
pub mod Session
mod Tests
use baby.Common.{
  ℕ, Bool, true, false, ◌&&◌, ◌||◌, not, String, str_eq, Option, none, some, List, [], ◌∷◌, ◌++◌,
  ◌==◌, any, filter, if◌then◌else◌,
}
use baby.Message.{is_empty}
use baby.Text.{codes}
use baby.Text.Search.{Unicode}
use baby.Text.Regex.{
  Regex, search, one, word_edge, star, ◌then◌, ◌or◌, opt, plus, lit, any_of, space,
}
use baby.Safety.Patterns.{system_processes}
use baby.Safety.Shell.{SafetyClass, allow, confirm, deny, classify_shell}
use baby.Text.Words.{Codes, same, strip, removesuffix}

-- where a path leads: nowhere that can be resolved, into the home directory, or elsewhere
pub data Place : Type 0 where
  unresolvable inside outside : Place

-- The arguments that the gate reads, empty where they are missing.
pub record Args : Type 0 where
  pub action : Codes
  pub command : Codes
  pub path : Codes
  pub name : Codes
  pub title : Codes
  pub spec : Codes

pub record SafetySession : Type 0 where
  pub confirmed_browser_domains : List Codes
  pub unverified_channels : List Codes

abbrev pub holds : Codes → List Codes → Bool
holds x xs = any (same x) xs

abbrev pub is_text : String → Codes → Bool
is_text s x = same x (codes s)

abbrev pub one_of : List String → Codes → Bool
one_of names x = any (λ n. is_text n x) names

-- `_TASK_GATED_RE`
abbrev pub task_gated : Unicode → Regex
task_gated u =
    word_edge
    then (any_of (
          "delete" ∷ "remove" ∷ "erase" ∷ "wipe" ∷ "uninstall" ∷ "install" ∷ "kill" ∷ "terminate"
          ∷ "close" ∷ [])
        or (lit "shut" then star space then lit "down")
        or any_of (
            "restart" ∷ "reboot" ∷ "format" ∷ "registry" ∷ "regedit" ∷ "pay" ∷ "purchase" ∷ "buy"
            ∷ "order" ∷ "send" ∷ "upload" ∷ "email" ∷ "message" ∷ "post" ∷ "publish" ∷ "tweet" ∷ [])
        or (lit "delete" then plus space then lit "file")
        or any_of ("overwrite" ∷ "modify" ∷ [])
        or (lit "hata" then star space then lit "d" then star (one u.is_word))
        or (lit "band" then plus space then lit "kar")
        or (lit "bandh" then plus space then lit "kar")
        or (lit "uda" then opt (lit "a") then star space then lit "d" then star (one u.is_word)))
    then word_edge

abbrev pub acts : List String
acts = "click" ∷ "type" ∷ "press" ∷ []

-- the branch of `browser_act`
abbrev pub classify_browser : Codes → Codes → SafetySession → SafetyClass
classify_browser action domain session =
    if one_of ("goto" ∷ "read" ∷ "screenshot" ∷ []) action
    then allow
    else if one_of acts action
    then (if is_empty domain
        then confirm
        else if holds domain session.confirmed_browser_domains
        then allow
        else confirm)
    else confirm

abbrev pub classify_write : Place → SafetyClass
classify_write unresolvable = deny
classify_write outside = deny
classify_write inside = confirm

-- the branch of `app_control`
abbrev pub classify_app : (Codes → Codes) → List Codes → Args → SafetyClass
classify_app lower auto_allow args =
    let name = removesuffix (codes ".exe") (lower args.name) in
    if not (is_text "close" (lower args.action))
    then allow
    else if one_of system_processes name
    then deny
    else if any (λ n. same name (lower n)) auto_allow
    then allow
    else confirm

-- `classify_tool`, by the gate with its session
unfoldable pub classify_tool :
    Unicode
    → (Codes → Place)
    → List Codes
    → SafetySession
    → Codes
    → Codes
    → Codes
    → Codes
    → Args
    → SafetyClass
unfolding strip search classify_shell
classify_tool u place auto_allow session domain channel user_text tool args =
    if not (is_empty channel) && holds channel session.unverified_channels
    then deny
    else if is_text "browser_act" tool
    then classify_browser (strip (u.lower_codes args.action)) domain session
    else if is_text "run_shell" tool
    then classify_shell u args.command user_text
    else if is_text "write_file" tool
    then classify_write (place args.path)
    else if is_text "app_control" tool
    then classify_app u.lower_codes auto_allow args
    else if one_of ("start_background_task" ∷ "start_project" ∷ []) tool
    then (if search u (task_gated u) (args.title ++ 32 ∷ args.spec) then confirm else allow)
    else allow

-- `set_voice_verified`; the sets are lists, to which an element may be added again.
unfoldable pub set_voice_verified : Codes → Bool → SafetySession → SafetySession
set_voice_verified channel true s = record s {
  unverified_channels = filter (λ c. not (same channel c)) s.unverified_channels;
}
set_voice_verified channel false s = record s {
  unverified_channels = channel ∷ s.unverified_channels;
}

-- `note_approval`, on the domain of the page then
unfoldable pub note_approval : Unicode → Codes → Codes → Args → SafetySession → SafetySession
note_approval u domain tool args s =
    if is_text "browser_act" tool
      && one_of acts (u.lower_codes args.action)
      && not (is_empty domain)
    then record s { confirmed_browser_domains = domain ∷ s.confirmed_browser_domains }
    else s

pub data Step : Type 0 where
  verifies : Codes → Bool → Step
  approves : Codes → Codes → Args → Step

unfoldable pub step : Unicode → SafetySession → Step → SafetySession
unfolding set_voice_verified note_approval
step u s (verifies channel ok) = set_voice_verified channel ok s
step u s (approves domain tool args) = note_approval u domain tool args s

unfoldable pub run : Unicode → SafetySession → List Step → SafetySession
unfolding step
run u s [] = s
run u s (x ∷ xs) = run u (step u s x) xs

abbrev pub new : SafetySession
new = record { confirmed_browser_domains = []; unverified_channels = [] }
