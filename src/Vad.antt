-- ===== src/Vad.antt =====
-- The end of an utterance in voice/vad.py. Whether a frame is speech is what the neural model says,
-- so a frame stands here for that answer.
pub mod Utterance
mod Tests
use baby.Common.{ℕ, suc, ◌/◌, max, Bool, true, false, leb, if◌then◌else◌}

-- `VoiceDetector`, with the two limits that `__init__` counts in frames
pub record VoiceDetector : Type 0 where
  pub frames_for_silence : ℕ
  pub frames_for_wait : ℕ
  pub silent_frames : ℕ
  pub speech_seen : Bool

-- `FRAME * 1000 / SAMPLE_RATE`
abbrev pub frame_ms : ℕ
frame_ms = 32

unfoldable pub new : ℕ → ℕ → VoiceDetector
new silence_ms speech_wait_ms = record {
  frames_for_silence = max 1 (silence_ms / frame_ms);
  frames_for_wait = max 1 (speech_wait_ms / frame_ms);
  silent_frames = 0;
  speech_seen = false;
}

unfoldable pub reset : VoiceDetector → VoiceDetector
reset v = record v { silent_frames = 0; speech_seen = false }

unfoldable pub utterance_done : Bool → VoiceDetector → Bool × VoiceDetector
utterance_done is_speech v =
    if is_speech
    then (false, record v { speech_seen = true; silent_frames = 0 })
    else (let v' = record v { silent_frames = suc v.silent_frames } in
        if v.speech_seen
        then (leb v.frames_for_silence (suc v.silent_frames), v')
        else (leb v.frames_for_wait (suc v.silent_frames), v'))
