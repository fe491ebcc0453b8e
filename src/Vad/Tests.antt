-- ===== src/Vad/Tests.antt =====
-- The detector at concrete frames, and the theorem about it there.
use baby.Common.{◌≡◌, ◌&&◌, refl, suc, Bool, true, false, not, List, [], ◌∷◌, leb, if◌then◌else◌}
use baby.Vad.{new, reset, utterance_done}
use baby.Vad.Utterance.{fed, silent_since, heard, utterance_done-fed}

-- a word, after which the detector is used again
abbrev earlier : List Bool
earlier = true ∷ false ∷ []

-- silence, two frames of speech, and a frame of silence
abbrev frames : List Bool
frames = false ∷ true ∷ true ∷ false ∷ []

-- The second silent frame ends it where 64 ms of silence do; a frame before it does not.
ended : (utterance_done false (fed frames (reset (fed earlier (new 64 5000))))).0 ≡ true
unfolding utterance_done new reset
ended = refl

utterance_done-fed_example :
    let v = new 64 5000 in
    let v' = fed frames (reset (fed earlier v)) in
    ((utterance_done false v').0
      ≡ not false
        && leb
            (if heard frames then v.frames_for_silence else v.frames_for_wait)
            (suc (silent_since 0 frames)))
    × (v'.speech_seen ≡ heard frames)
utterance_done-fed_example = utterance_done-fed 64 5000 earlier frames false
