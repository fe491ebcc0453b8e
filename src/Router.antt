-- ===== src/Router.antt =====
-- `CloudRouter` of core/router.py: which brains may see a turn, and in what order.
-- The ratio of Devanagari letters is compared as a fraction of two counts.
pub mod Named
pub mod Privacy
pub mod ReusedId
mod Tests
use baby.Common.{
  ℕ, zero, suc, ◌+◌, ◌*◌, Bool, true, false, ◌&&◌, ◌||◌, not, String, str_eq, Option, none, some,
  List, [], ◌∷◌, ◌++◌, map, any, leb, ◌==◌, filter, if◌then◌else◌,
}
use baby.Text.Search.{Unicode, contains, has_any_word, count_codes}
use baby.Message.{Message, Call, Id?, id_eq, is_user, is_tool, is_assistant, is_empty, content_len}
use baby.Health.{State, cloud, degraded, offline}

pub data Tier : Type 0 where
  daily nim_primary nim_heavy backstop : Tier

-- The options of a call that the ladder reads; `best` stands for `tier_hint == "best"`.
pub record Opts : Type 0 where
  pub pin_local : Bool
  pub pin_reason : Option String
  pub max_tokens : ℕ
  pub best : Bool
  pub channel : String

pub record Settings : Type 0 where
  pub explicit_phrases : List String
  pub privacy_pins : List String
  pub language_pin_enabled : Bool
  pub threshold_num : ℕ
  pub threshold_den : ℕ

-- why a ladder was chosen
pub data Why : Type 0 where
  pinned : Option String → Why
  privacy_pin : List String → Why
  game_heavy game language_pin no_net internal_call waiting tier_hint heavy_turn normal_turn : Why

abbrev pub text_of : Option String → String
text_of none = ""
text_of (some s) = s

-- the last user row, from the end
unfoldable pub last_user_content : List Message → Option String
last_user_content [] = none
last_user_content (m ∷ ms) = elim (last_user_content ms) [
  | some s ↦ some s
  | none ↦ if is_user m then some (text_of m.content) else none
]

-- `_trailing_user_text`
unfoldable pub trailing_user_text : List Message → String
unfolding last_user_content
trailing_user_text ms = text_of (last_user_content ms)

abbrev pub planning_words : List String
planning_words = "plan" ∷ "design" ∷ "architect" ∷ "blueprint" ∷ "roadmap" ∷ "strategy" ∷ []

-- `_is_heavy_turn`
unfoldable pub is_heavy_turn : Unicode → Settings → List Message → Opts → Bool
unfolding trailing_user_text contains has_any_word
is_heavy_turn u cfg ms opts =
    opts.best
    || (let text = u.lower (trailing_user_text ms) in
        has_any_word u.is_word planning_words text
        || any (λ p. contains p text) cfg.explicit_phrases)

-- The calls of every assistant row, and the name that an id stands for: as in a dict, the last
-- entry of an id counts.
abbrev pub calls_in : List Message → List Call
calls_in [] = []
calls_in (m ∷ ms) = (if is_assistant m then m.tool_calls else []) ++ calls_in ms

abbrev pub name_of : Id? → List Call → Option String
name_of id [] = none
name_of id (c ∷ cs) = elim (name_of id cs) [
  | some n ↦ some n
  | none ↦ if id_eq id c.id then some c.name else none
]

-- `id_to_name.get(m.get("tool_call_id"), "")`
abbrev pub tool_name : List Call → Message → String
tool_name calls m = text_of (name_of m.tool_call_id calls)

abbrev pub one_of : String → List String → Bool
one_of name names = any (str_eq name) names

abbrev pub names_in : List Call → List String → List Message → List String
names_in calls pins [] = []
names_in calls pins (m ∷ ms) =
    if is_tool m && one_of (tool_name calls m) pins
    then tool_name calls m ∷ names_in calls pins ms
    else names_in calls pins ms

-- `_pinned_tools_in`; a name may be listed more than once.
unfoldable pub pinned_tools_in : Settings → List Message → List String
pinned_tools_in cfg ms =
    if is_empty cfg.privacy_pins then [] else names_in (calls_in ms) cfg.privacy_pins ms

-- `_redact_pinned`; `placeholder` is the text that says the tool's name and the size of its result.
abbrev pub redact_row : (String → ℕ → String) → List Call → List String → Message → Message
redact_row placeholder calls pins m =
    if is_tool m && one_of (tool_name calls m) pins
    then record m { content = some (placeholder (tool_name calls m) (content_len m)) }
    else m

unfoldable pub redact_pinned : (String → ℕ → String) → Settings → List Message → List Message
unfolding pinned_tools_in
redact_pinned placeholder cfg ms =
    let pins = pinned_tools_in cfg ms in
    if is_empty pins then ms else map (redact_row placeholder (calls_in ms) pins) ms

-- `devanagari_ratio(text) >= threshold`, the ratio being 0 if there is no letter
abbrev pub is_devanagari : ℕ → Bool
is_devanagari c = leb 0x900 c && leb c 0x97f

unfoldable pub is_language_pinned : Unicode → Settings → String → Bool
is_language_pinned u cfg text =
    let letters = count_codes u.is_alpha text in
    let hindi = count_codes (λ c. u.is_alpha c && is_devanagari c) text in
    if letters == 0
    then cfg.threshold_num == 0
    else leb (cfg.threshold_num * letters) (hindi * cfg.threshold_den)

-- A capped call without tools.
abbrev pub is_internal : Bool → Opts → Bool
is_internal tools opts = not (opts.max_tokens == 0) && not tools

abbrev pub Ladder : Type 0
Ladder = List Tier × Why

abbrev pub game_ladder : Bool → Ladder
game_ladder heavy =
    if heavy
    then (nim_heavy ∷ nim_primary ∷ backstop ∷ [], game_heavy)
    else (nim_primary ∷ backstop ∷ [], game)

abbrev pub state_ladder : State → Bool → Bool → Bool → Ladder
state_ladder offline best internal heavy = (daily ∷ [], no_net)
state_ladder degraded best internal heavy =
    if internal && not best then (daily ∷ [], internal_call) else (backstop ∷ daily ∷ [], waiting)
state_ladder cloud best internal heavy =
    if best
    then (nim_heavy ∷ nim_primary ∷ daily ∷ [], tier_hint)
    else if internal
    then (daily ∷ [], internal_call)
    else if heavy
    then (nim_heavy ∷ nim_primary ∷ daily ∷ [], heavy_turn)
    else (nim_primary ∷ backstop ∷ daily ∷ [], normal_turn)

-- `_ladder`
unfoldable pub ladder : Unicode → Settings → Bool → State → List Message → Bool → Opts → Ladder
unfolding pinned_tools_in is_heavy_turn is_language_pinned trailing_user_text
ladder u cfg game_mode state ms tools opts =
    let pins = pinned_tools_in cfg ms in
    let heavy = is_heavy_turn u cfg ms opts in
    if opts.pin_local
    then (daily ∷ [], pinned opts.pin_reason)
    else if not (is_empty pins)
    then (daily ∷ [], privacy_pin pins)
    else if game_mode
    then game_ladder heavy
    else if cfg.language_pin_enabled && is_language_pinned u cfg (trailing_user_text ms)
    then (daily ∷ [], language_pin)
    else state_ladder state opts.best (is_internal tools opts) heavy
