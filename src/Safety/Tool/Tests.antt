-- ===== src/Safety/Tool/Tests.antt =====
-- The gate at concrete calls, and the theorems about it there.
use baby.Common.{ℕ, ◌≡◌, refl, Bool, true, false, ◌&&◌, leb, List, [], ◌∷◌, any, arith}
use baby.Text.{codes}
use baby.Text.Search.{Unicode}
use baby.Safety.Shell.{allow, confirm, deny}
use baby.Text.Words.{Codes, strip}
use baby.Safety.Tool.{
  Args, Place, inside, classify_tool, set_voice_verified, Step, verifies, approves, run, new,
}
use baby.Safety.Tool.Session.{unverified_denied, approves_domain, browser_act_needs_approval}

abbrev is_letter : ℕ → Bool
is_letter c = leb 97 c && leb c 122

abbrev ascii : Unicode
ascii = record {
  lower = λ s. s;
  is_word = is_letter;
  is_alpha = is_letter;
  is_digit = λ c. leb 48 c && leb c 57;
  lower_codes = λ s. s;
}

abbrev args : Args
args = record {
  action = codes "click";
  command = [];
  path = [];
  name = [];
  title = codes "read the news";
  spec = [];
}

abbrev place : Codes → Place
place p = inside

-- the voice is verified on another channel, and a click on a page is approved
abbrev steps : List Step
steps = verifies (codes "ui") true ∷ approves (codes "a.org") (codes "browser_act") args ∷ []

task_allowed :
    classify_tool ascii place [] new [] [] [] (codes "start_background_task") args ≡ allow
unfolding classify_tool
task_allowed = refl

task_asks :
    classify_tool ascii place [] new [] [] []
      (codes "start_project")
      (record args { spec = codes "then shut down" })
    ≡ confirm
unfolding classify_tool
task_asks = refl

unverified_denied_example :
    classify_tool ascii place []
      (run ascii (set_voice_verified (codes "voice") false new) steps)
      []
      (codes "voice")
      []
      (codes "run_shell")
      args
    ≡ deny
unverified_denied_example =
    unverified_denied ascii place [] [] (codes "voice") [] (codes "run_shell") args new steps
      (λ e. ground arith) ((λ e. ground arith), (tt, tt))

browser_act_needs_approval_example : any (approves_domain (codes "a.org")) steps ≡ true
unfolding classify_tool run strip
browser_act_needs_approval_example =
    browser_act_needs_approval ascii place [] (codes "a.org") [] [] args steps refl refl
