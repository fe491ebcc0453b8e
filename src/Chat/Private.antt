-- ===== src/Chat/Private.antt =====
-- Where a turn goes that is pinned to the local brain, and where a turn in game mode goes.
use baby.Common.{
  arith, ◌≡◌, refl, Bool, true, false, List, [], ◌∷◌, All, Bool-cases, inl, inr, not, ◌||◌, ◌⊎◌, ap,
  ◌∙◌,
}
use baby.Message.{Message, is_empty}
use baby.Router.{daily, Opts, ladder, pinned_tools_in, is_heavy_turn, game_ladder, calls_in}
use baby.Router.Named.{HoldsPinned, names_in-found, tool_name-pinned}
use baby.Router.Privacy.{pinned_tools_in-names_in}
use baby.Health.{State}
use baby.Chat.{World, Config, Session, Note, sent, is_daily}
use baby.Chat.Rungs.{chat}
use baby.Chat.Notes.{Plain, chat-All}

-- What is sent goes to the local brain.
abbrev pub StaysLocal : Note → Type 0
StaysLocal (sent t p evict) = t ≡ daily
StaysLocal _ = Unit {0}

-- What is sent does not go to the local brain.
abbrev pub StaysOut : Note → Type 0
StaysOut (sent t p evict) = is_daily t ≡ false
StaysOut _ = Unit {0}

-- The caller pins the call, or the conversation holds the result of a pinned tool.
abbrev pub is_private : Config → List Message → Opts → Bool
is_private cfg ms opts = opts.pin_local || not (is_empty (pinned_tools_in cfg.settings ms))

StaysLocal-Plain : Plain StaysLocal
StaysLocal-Plain = record {
  of_decision = λ t. tt;
  of_skipped = λ t k. tt;
  of_served = λ t. tt;
  of_game_offline = tt;
}

StaysOut-Plain : Plain StaysOut
StaysOut-Plain = record {
  of_decision = λ t. tt;
  of_skipped = λ t k. tt;
  of_served = λ t. tt;
  of_game_offline = tt;
}

pub ladder_private :
    (cfg : Config) (state : State) (ms : List Message) (tools : Bool) (opts : Opts)
    → is_private cfg ms opts ≡ true
    → (ladder cfg.unicode cfg.settings cfg.game_mode state ms tools opts).0 ≡ daily ∷ []
unfolding ladder
ladder_private cfg state ms tools opts private = elim (Bool-cases opts.pin_local) [
  | inl asked ↦ rw asked
  | inr not_asked ↦ ground arith
]

pub ladder_game :
    (cfg : Config) (state : State) (ms : List Message) (tools : Bool) (opts : Opts)
    → is_private cfg ms opts ≡ false
    → cfg.game_mode ≡ true
    → ladder cfg.unicode cfg.settings cfg.game_mode state ms tools opts
      ≡ game_ladder (is_heavy_turn cfg.unicode cfg.settings ms opts)
unfolding ladder
ladder_game cfg state ms tools opts free game = ground arith

HoldsPinned-is_private :
    (cfg : Config) (ms : List Message) (opts : Opts)
    → HoldsPinned cfg.settings.privacy_pins ms
    → is_private cfg ms opts ≡ true
HoldsPinned-is_private cfg ms opts h =
    let pins = cfg.settings.privacy_pins in
    let found =
      names_in-found (calls_in ms) pins h.row ms h.held h.is_result.result
        (tool_name-pinned pins ms h.row h.is_result) in
    let held : is_empty (pinned_tools_in cfg.settings ms) ≡ false =
      ap is_empty (pinned_tools_in-names_in cfg.settings ms) ∙ found in
    ground (arith, held)

private-All :
    (w : World) (cfg : Config) (ms : List Message) (tools : Bool) (opts : Opts) (s : Session)
    → is_private cfg ms opts ≡ true
    → All StaysLocal s.notes
    → All StaysLocal (chat w cfg ms tools opts s).session.notes
private-All w cfg ms tools opts s private h =
    chat-All StaysLocal StaysLocal-Plain w cfg ms tools opts s
      (rw (ladder_private cfg s.monitor.state ms tools opts private) (refl, tt))
      (elim (Bool-cases cfg.game_mode) [
        | inl game ↦ rw game tt
        | inr normal ↦ rw normal (refl, tt)
      ])
      h

-- A call that is pinned sends the conversation to the local brain only: in every state of the monitor,
-- in game mode too, and whatever the providers do. It is pinned where the caller says so, or where the
-- conversation holds a result that answers a call of a pinned tool, provided that no call of another
-- tool has the same id.
pub private-StaysLocal :
    (w : World) (cfg : Config) (ms : List Message) (tools : Bool) (opts : Opts) (s : Session)
    → (opts.pin_local ≡ true) ⊎ HoldsPinned cfg.settings.privacy_pins ms
    → All StaysLocal s.notes
    → All StaysLocal (chat w cfg ms tools opts s).session.notes
private-StaysLocal w cfg ms tools opts s (inl asked) h =
    private-All w cfg ms tools opts s (rw asked refl) h
private-StaysLocal w cfg ms tools opts s (inr held) h =
    private-All w cfg ms tools opts s (HoldsPinned-is_private cfg ms opts held) h

-- In game mode a call that is not pinned never sends anything to the local brain, which is
-- unloaded: not on overflow of the bucket either.
pub game_mode-StaysOut :
    (w : World) (cfg : Config) (ms : List Message) (tools : Bool) (opts : Opts) (s : Session)
    → is_private cfg ms opts ≡ false
    → cfg.game_mode ≡ true
    → All StaysOut s.notes
    → All StaysOut (chat w cfg ms tools opts s).session.notes
game_mode-StaysOut w cfg ms tools opts s free game h =
    chat-All StaysOut StaysOut-Plain w cfg ms tools opts s
      (rw (ladder_game cfg s.monitor.state ms tools opts free game)
        (elim (Bool-cases (is_heavy_turn cfg.unicode cfg.settings ms opts)) [
          | inl heavy ↦ rw heavy (refl, (refl, (refl, tt)))
          | inr light ↦ rw light (refl, (refl, tt))
        ]))
      (rw game tt) h
