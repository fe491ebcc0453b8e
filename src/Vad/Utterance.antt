-- ===== src/Vad/Utterance.antt =====
-- What the detector answers after any frames.
use baby.Common.{
  ℕ, suc, ◌≡◌, refl, ap, ◌∙◌, sym, subst, Bool, true, false, ◌&&◌, ◌||◌, not, List, [], ◌∷◌, leb,
  any, arith, Bool-cases, inl, inr, if◌then◌else◌,
}
use baby.Vad.{VoiceDetector, new, reset, utterance_done}

-- The detector after frames, the oldest first.
abbrev pub fed : List Bool → VoiceDetector → VoiceDetector
fed [] v = v
fed (f ∷ fs) v = fed fs (utterance_done f v).1

-- The number of silent frames since the last frame of speech, or since the start, when `n` of them
-- have come before.
abbrev pub silent_since : ℕ → List Bool → ℕ
silent_since n [] = n
silent_since n (f ∷ fs) = silent_since (if f then 0 else suc n) fs

abbrev pub heard : List Bool → Bool
heard fs = any (λ f. f) fs

silent_frame :
    (v : VoiceDetector)
    → utterance_done false v ≡ (
      leb (if v.speech_seen then v.frames_for_silence else v.frames_for_wait) (suc v.silent_frames),
      record v { silent_frames = suc v.silent_frames },
    )
unfolding utterance_done
silent_frame v = elim (Bool-cases v.speech_seen) [ inl seen ↦ rw seen | inr unseen ↦ rw unseen ]

abbrev due : Bool → ℕ → ℕ → ℕ → Bool → Bool
due f silence wait n seen = not f && leb (if seen then silence else wait) (suc n)

frame_answer :
    (f : Bool) (v : VoiceDetector)
    → (utterance_done f v).0
      ≡ due f v.frames_for_silence v.frames_for_wait v.silent_frames v.speech_seen
unfolding utterance_done
frame_answer true v = refl
frame_answer false v = ap (λ (r : Bool × VoiceDetector). r.0) (silent_frame v)

-- The detector that has heard `fs`, from `v` on.
abbrev IsFed : VoiceDetector → List Bool → VoiceDetector → Type 0
IsFed v fs v' =
    (v'.silent_frames ≡ silent_since v.silent_frames fs)
    × (v'.speech_seen ≡ v.speech_seen || heard fs)
    × (v'.frames_for_silence ≡ v.frames_for_silence)
    × (v'.frames_for_wait ≡ v.frames_for_wait)

fed-IsFed : (fs : List Bool) (v : VoiceDetector) → IsFed v fs (fed fs v)
unfolding utterance_done
fed-IsFed [] v = (refl, ground arith, refl, refl)
fed-IsFed (true ∷ fs) v =
    let (a, b, c, d) = fed-IsFed fs (record v { speech_seen = true; silent_frames = 0 }) in
    (a, b ∙ ground arith, c, d)
fed-IsFed (false ∷ fs) v =
    subst (λ (r : Bool × VoiceDetector). IsFed v (false ∷ fs) (fed fs r.1)) (sym (silent_frame v))
      (fed-IsFed fs (record v { silent_frames = suc v.silent_frames }))

cong4 :
    (g : ℕ → ℕ → ℕ → Bool → Bool) {a a' b b' c c' : ℕ} {d d' : Bool}
    → a ≡ a'
    → b ≡ b'
    → c ≡ c'
    → d ≡ d'
    → g a b c d ≡ g a' b' c' d'
cong4 g e h k l = cc

-- After a reset and any frames, the next frame ends the utterance just if it is silent and the silence, it
-- included, has come to the limit: that on silence once any frame was speech, and that on waiting
-- before; and speech has started just if one of the frames was speech.
pub utterance_done-fed :
    (silence_ms speech_wait_ms : ℕ) (before fs : List Bool) (f : Bool)
    → let v = new silence_ms speech_wait_ms in
      let v' = fed fs (reset (fed before v)) in
      ((utterance_done f v').0
        ≡ not f
          && leb
              (if heard fs then v.frames_for_silence else v.frames_for_wait)
              (suc (silent_since 0 fs)))
      × (v'.speech_seen ≡ heard fs)
unfolding reset
utterance_done-fed silence_ms speech_wait_ms before fs f =
    let v = new silence_ms speech_wait_ms in
    let (_, _, silence, wait) = fed-IsFed before v in
    let (since, seen, silence', wait') = fed-IsFed fs (reset (fed before v)) in
    (
      frame_answer f (fed fs (reset (fed before v)))
          ∙ cong4 (due f) (silence' ∙ silence) (wait' ∙ wait) since seen,
      seen,
    )
