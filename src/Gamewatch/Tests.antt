-- ===== src/Gamewatch/Tests.antt =====
-- A window over a monitor, and a mode that the owner has set.
use baby.Common.{◌≡◌, refl, true, false, [], ◌∷◌}
use baby.Gamewatch.{covers_monitor, polls, sets, run, step, poll, set_by_hand, manual_on_stays}

full :
    covers_monitor
      (record { left = 0; top = 0; right = 1920; bottom = 1080 })
      (record { left = 0; top = 0; right = 1920; bottom = 1080 })
    ≡ true
unfolding covers_monitor
full = refl

-- The watcher has switched the mode on, the owner has switched it off and on again, and the next poll
-- without an app that fills the screen switches it off.
fought :
    (run
      (polls true ∷ sets false ∷ sets true ∷ polls false ∷ [])
      (record { game_mode = false; auto_set = false })).game_mode
    ≡ false
unfolding run step poll
fought = refl

manual_on_stays_example :
    (run
      (polls false ∷ polls true ∷ polls false ∷ [])
      (set_by_hand true (record { game_mode = false; auto_set = false }))).game_mode
    ≡ true
manual_on_stays_example =
    manual_on_stays (polls false ∷ polls true ∷ polls false ∷ [])
      (record { game_mode = false; auto_set = false }) refl (tt, (tt, (tt, tt)))
