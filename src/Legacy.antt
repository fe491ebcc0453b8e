-- ===== src/Legacy.antt =====
-- `RouterProvider` of core/router.py, the router of the mode local_primary: triggers, the pick of a
-- brain for a turn, and the failover of `chat`. The digest of a text, the free memory and the health
-- of the brains are parameters.
pub mod Sticky
pub mod Turns
pub mod Failover
mod Tests
use baby.Common.{
  ℕ, String, Bool, true, false, ◌&&◌, ◌||◌, not, Option, none, some, List, [], ◌∷◌, ◌++◌, any,
  filter, latest, leb, ltb, if◌then◌else◌,
}
use baby.Message.{Message, is_user, is_empty}
use baby.Context.Trim.{estimate_tokens, trim}
use baby.Text.{codes}
use baby.Text.Search.{Unicode, contains, has_any_word}
use baby.Router.{trailing_user_text, planning_words}
use baby.Text.Words.{Codes, same}

pub data Brain : Type 0 where
  daily heavy cloud unknown : Brain

pub data Trigger : Type 0 where
  explicit_request planning_task retry_after_failure long_context : Trigger

abbrev pub same_brain : Brain → Brain → Bool
same_brain daily daily = true
same_brain heavy heavy = true
same_brain cloud cloud = true
same_brain unknown unknown = true
same_brain _ _ = false

abbrev pub same_trigger : Trigger → Trigger → Bool
same_trigger explicit_request explicit_request = true
same_trigger planning_task planning_task = true
same_trigger retry_after_failure retry_after_failure = true
same_trigger long_context long_context = true
same_trigger _ _ = false

-- `history_budget` is 0 for a brain without one.
pub record Config : Type 0 where
  pub has_heavy : Bool
  pub has_cloud : Bool
  pub escalate_on : List Trigger
  pub escalation_order : List Brain
  pub long_context_tokens : ℕ
  pub explicit_phrases : List String
  pub min_free_ram : ℕ
  pub history_budget : Brain → ℕ
  pub trim_enabled : Bool

-- `sticky` is the ordered dict from turns to brains, the oldest first.
pub record RouterState : Type 0 where
  pub retry_armed : Bool
  pub sticky : List (Codes × Brain)

abbrev pub new : RouterState
new = record { retry_armed = false; sticky = [] }

abbrev pub escalates_on : Config → Trigger → Bool
escalates_on cfg t = any (same_trigger t) cfg.escalate_on

-- `is_bad` is `status in ("error", "capped")`.
unfoldable pub record_turn_result : Config → Bool → RouterState → RouterState
record_turn_result cfg is_bad s =
    if escalates_on cfg retry_after_failure && is_bad then record s { retry_armed = true } else s

abbrev pub add_if : Bool → Trigger → List Trigger → List Trigger
add_if b t ts = if b then t ∷ ts else ts

-- the triggers, and whether only the cloud will do
unfoldable pub triggers : Unicode → Config → RouterState → List Message → List Trigger × Bool
unfolding trailing_user_text contains has_any_word
triggers u cfg s ms =
    let text = u.lower (trailing_user_text ms) in
    let explicit =
      escalates_on cfg explicit_request && any (λ p. contains p text) cfg.explicit_phrases in
    let planning = escalates_on cfg planning_task && has_any_word u.is_word planning_words text in
    let retry = escalates_on cfg retry_after_failure && s.retry_armed in
    let long = escalates_on cfg long_context && ltb cfg.long_context_tokens (estimate_tokens ms) in
    (
      add_if explicit explicit_request (
          add_if planning planning_task
            (add_if retry retry_after_failure (add_if long long_context []))),
      (explicit && has_any_word u.is_word ("cloud" ∷ []) text) || long,
    )

-- What the machine and the hosts say at the time.
pub record Surroundings : Type 0 where
  pub free_ram : ℕ
  pub is_healthy : Brain → Bool

abbrev pub is_configured : Config → Brain → Bool
is_configured cfg daily = true
is_configured cfg heavy = cfg.has_heavy
is_configured cfg cloud = cfg.has_cloud
is_configured cfg unknown = false

abbrev pub fits_ram : Config → Surroundings → Brain → Bool
fits_ram cfg env heavy = ltb cfg.min_free_ram env.free_ram
fits_ram cfg env _ = true

abbrev pub is_available : Config → Surroundings → Brain → Bool
is_available cfg env b = is_configured cfg b && fits_ram cfg env b && env.is_healthy b

-- `_first_available`
abbrev pub first_available : Config → Surroundings → List Brain → Brain
first_available cfg env [] = daily
first_available cfg env (b ∷ bs) =
    let further = first_available cfg env bs in if is_available cfg env b then b else further

pub record Options : Type 0 where
  pub is_best : Bool
  pub has_max_tokens : Bool
  pub has_tools : Bool

abbrev pub sticky_brain : Codes → List (Codes × Brain) → Option Brain
sticky_brain key [] = none
sticky_brain key ((k, b) ∷ d) = let rest = sticky_brain key d in if same k key then some b else rest

abbrev pub without_key : Codes → List (Codes × Brain) → List (Codes × Brain)
without_key key d = filter (λ (e : Codes × Brain). not (same e.0 key)) d

-- `move_to_end`
abbrev pub move_to_end : Codes → Brain → List (Codes × Brain) → List (Codes × Brain)
move_to_end key b d = without_key key d ++ ((key, b) ∷ [])

-- A new turn is added, and no more than eight are kept.
abbrev pub remember : Codes → Brain → List (Codes × Brain) → List (Codes × Brain)
remember key b d = latest 8 (d ++ ((key, b) ∷ []))

abbrev pub fresh_brain : Config → Surroundings → List Trigger × Bool → Brain
fresh_brain cfg env ([], cloud_only) = daily
fresh_brain cfg env (t ∷ ts, cloud_only) =
    first_available cfg env (if cloud_only then cloud ∷ [] else cfg.escalation_order)

-- the turn's brain where there is one, or a new pick, which uses up the retry
abbrev pub pick_turn : Brain → Codes → Option Brain → RouterState → Brain × RouterState
pick_turn fresh key (some b) s = (b, record s { sticky = move_to_end key b s.sticky })
pick_turn fresh key none s =
    (fresh, record { retry_armed = false; sticky = remember key fresh s.sticky })

module _ (u : Unicode) (digest : String → Codes) (cfg : Config) where
  -- `_pick`
  unfoldable pub pick : Surroundings → Options → List Message → RouterState → Brain × RouterState
  unfolding triggers trailing_user_text
  pick env opts ms s =
      let key = digest (trailing_user_text ms) in
      if opts.is_best
      then (first_available cfg env cfg.escalation_order, s)
      else if opts.has_max_tokens && not opts.has_tools
      then (daily, s)
      else pick_turn (fresh_brain cfg env (triggers u cfg s ms)) key (sticky_brain key s.sticky) s

-- What a call of a brain does: it finishes, it fails before the first chunk, or after it.
pub data BrainStream : Type 0 where
  finishes fails breaks : BrainStream

-- What `chat` ends with: a whole reply of a brain, an error in the middle of one, the last error
-- before a first chunk, or nothing at all.
pub data ChainEnd : Type 0 where
  answered broken : Brain → ChainEnd
  failed_last : Brain → ChainEnd
  silent : ChainEnd

abbrev pub has_brain : Brain → List Brain → Bool
has_brain b bs = any (same_brain b) bs

abbrev pub last_failure : Option Brain → ChainEnd
last_failure none = silent
last_failure (some b) = failed_last b

abbrev pub payload : Config → Brain → List Message → List Message
payload cfg b ms = if cfg.trim_enabled then trim ms (cfg.history_budget b) else ms

-- `after` is what is done on a failure; `brain b ms` is the stream of `b` for these messages.
abbrev pub after_stream : BrainStream → Brain → ChainEnd → ChainEnd
after_stream finishes b after = answered b
after_stream fails b after = after
after_stream breaks b after = broken b

module _ (cfg : Config) (brain : Brain → List Message → BrainStream) (ms : List Message) where
  abbrev pub try_chain : List Brain → List Brain → Option Brain → ChainEnd
  try_chain [] seen last = last_failure last
  try_chain (b ∷ bs) seen last =
      let skipped = try_chain bs seen last in
      let untried = try_chain bs (b ∷ seen) last in
      let after = try_chain bs (b ∷ seen) (some b) in
      if has_brain b seen
      then skipped
      else if is_configured cfg b
      then after_stream (brain b (payload cfg b ms)) b after
      else untried

  -- `chat` once a brain is picked
  unfoldable pub chat_from : Brain → ChainEnd
  unfolding trim
  chat_from picked =
      try_chain
        (picked ∷ (filter (λ b. not (same_brain b picked)) cfg.escalation_order ++ (daily ∷ []))) []
        none
