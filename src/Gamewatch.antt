-- ===== src/Gamewatch.antt =====
-- The watcher of ui/gamewatch.py, which puts the router into game mode while an app fills the screen.
-- What Windows says of the foreground is a parameter of a poll. Of `set_game_mode` only the flag counts.
mod Tests
use baby.Common.{
  ℕ, ◌≡◌, refl, Bool, true, false, ◌&&◌, not, List, [], ◌∷◌, any, arith, if◌then◌else◌, leb, All,
}

-- The edges, counted from the corner of the whole desktop, so that none is negative.
pub record Rect : Type 0 where
  pub left : ℕ
  pub top : ℕ
  pub right : ℕ
  pub bottom : ℕ

unfoldable pub covers_monitor : Rect → Rect → Bool
covers_monitor win mon =
    leb win.left mon.left
    && leb win.top mon.top
    && leb mon.right win.right
    && leb mon.bottom win.bottom

pub record Watch : Type 0 where
  pub game_mode : Bool
  pub auto_set : Bool

-- One round of `_run`.
unfoldable pub poll : Bool → Watch → Watch
poll fullscreen w =
    if fullscreen && not w.game_mode
    then record { game_mode = true; auto_set = true }
    else if not fullscreen && w.game_mode && w.auto_set
    then record { game_mode = false; auto_set = false }
    else w

-- The owner sets the mode.
abbrev pub set_by_hand : Bool → Watch → Watch
set_by_hand on w = record w { game_mode = on }

pub data Step : Type 0 where
  polls : Bool → Step
  sets : Bool → Step

unfoldable pub step : Step → Watch → Watch
unfolding poll
step (polls fullscreen) w = poll fullscreen w
step (sets on) w = set_by_hand on w

unfoldable pub run : List Step → Watch → Watch
unfolding step
run [] w = w
run (s ∷ ss) w = run ss (step s w)

-- The owner does not switch the mode off.
abbrev pub KeepsOn : Step → Type 0
KeepsOn (polls fullscreen) = Unit {0}
KeepsOn (sets on) = on ≡ true

-- While the watcher has not switched the mode on itself, it never fights the owner: from the owner's
-- switching it on, and until he switches it off, it stays on, whatever fills the screen.
pub manual_on_stays :
    (steps : List Step) (w : Watch)
    → w.auto_set ≡ false
    → All KeepsOn steps
    → (run steps (set_by_hand true w)).game_mode ≡ true
unfolding run step poll
manual_on_stays steps w manual keeps = stays steps (set_by_hand true w) refl manual keeps
  where
    stays :
        (steps : List Step) (w : Watch)
        → w.game_mode ≡ true
        → w.auto_set ≡ false
        → All KeepsOn steps
        → (run steps w).game_mode ≡ true
    stays [] w on manual keeps = on
    stays (polls true ∷ steps) w on manual keeps =
        rw on (stays steps (record w { game_mode = true }) refl manual keeps.1)
    stays (polls false ∷ steps) w on manual keeps =
        rw (on, manual)
          (stays steps (record { game_mode = true; auto_set = false }) refl refl keeps.1)
    stays (sets b ∷ steps) w on manual keeps = stays steps (set_by_hand b w) keeps.0 manual keeps.1
