-- ===== src/Legacy/Failover.antt =====
-- The failover of `chat`.
use baby.Common.{
  ◌≡◌, ◌≢◌, refl, true, false, ◌||◌, not, Option, none, some, List, [], ◌∷◌, ◌++◌, filter, arith,
  Bool-cases, inl, inr,
}
use baby.Message.{Message}
use baby.Legacy.{
  Brain, daily, heavy, cloud, unknown, same_brain, Config, BrainStream, finishes, fails, breaks,
  ChainEnd, answered, has_brain, payload, after_stream, is_configured, try_chain, chat_from,
}

abbrev pub IsAnswered : ChainEnd → Type 0
IsAnswered (answered b) = Unit {0}
IsAnswered _ = ⊥

has_brain-append :
    (b : Brain) (xs ys : List Brain) → has_brain b (xs ++ ys) ≡ has_brain b xs || has_brain b ys
has_brain-append b [] ys = refl
has_brain-append b (x ∷ xs) ys = ground (arith, has_brain-append b xs ys)

module _ (cfg : Config) (brain : Brain → List Message → BrainStream) (ms : List Message)
    (sound : brain daily (payload cfg daily ms) ≡ finishes)
    (whole : (b : Brain) → brain b (payload cfg b ms) ≢ breaks) where
  -- a call of one brain: answered, or a failure of another than the local brain
  after_stream-IsAnswered :
      (b : Brain) (r : BrainStream) (after : ChainEnd)
      → brain b (payload cfg b ms) ≡ r
      → (r ≡ fails → IsAnswered after)
      → IsAnswered (after_stream r b after)
  after_stream-IsAnswered b finishes after e h = tt
  after_stream-IsAnswered b fails after e h = h refl
  after_stream-IsAnswered b breaks after e h = absurd (whole b e)

  failed_other : (b : Brain) → brain b (payload cfg b ms) ≡ fails → same_brain daily b ≡ false
  failed_other daily e = absurd (cc)
  failed_other heavy e = refl
  failed_other cloud e = refl
  failed_other unknown e = refl

  seen_other :
      (b : Brain) (seen : List Brain)
      → has_brain daily seen ≡ false
      → has_brain b seen ≡ true
      → same_brain daily b ≡ false
  seen_other daily seen h e = absurd (cc)
  seen_other heavy seen h e = refl
  seen_other cloud seen h e = refl
  seen_other unknown seen h e = refl

  unset_other : (b : Brain) → is_configured cfg b ≡ false → same_brain daily b ≡ false
  unset_other daily e = absurd (cc)
  unset_other heavy e = refl
  unset_other cloud e = refl
  unset_other unknown e = refl

  try_chain-IsAnswered :
      (chain seen : List Brain) (last : Option Brain)
      → has_brain daily chain ≡ true
      → has_brain daily seen ≡ false
      → IsAnswered (try_chain cfg brain ms chain seen last)
  try_chain-IsAnswered [] seen last h k = absurd (cc)
  try_chain-IsAnswered (b ∷ bs) seen last h k = elim (Bool-cases (has_brain b seen)) [
    | inl known ↦
        let other = seen_other b seen k known in
        rw known (try_chain-IsAnswered bs seen last (ground (arith, h, other)) k)
    | inr new ↦ elim (Bool-cases (is_configured cfg b)) [
      | inl set ↦
          rw (new, set)
            (after_stream-IsAnswered b (brain b (payload cfg b ms))
              (try_chain cfg brain ms bs (b ∷ seen) (some b)) refl
              (λ e.
                let other = failed_other b e in
                try_chain-IsAnswered bs (b ∷ seen) (some b) (ground (arith, h, other))
                  (ground (arith, k, other))))
      | inr unset ↦
          let other = unset_other b unset in
          rw (new, unset)
            (try_chain-IsAnswered bs (b ∷ seen) last (ground (arith, h, other))
              (ground (arith, k, other)))
    ]
  ]

-- With a local brain that finishes what it says, and brains that do not break off in the middle of a
-- reply, every turn is answered, whatever brain was picked and whatever the others fail at.
pub chat_from-IsAnswered :
    (cfg : Config) (brain : Brain → List Message → BrainStream) (ms : List Message) (picked : Brain)
    → brain daily (payload cfg daily ms) ≡ finishes
    → ((b : Brain) → brain b (payload cfg b ms) ≢ breaks)
    → IsAnswered (chat_from cfg brain ms picked)
unfolding chat_from
chat_from-IsAnswered cfg brain ms picked sound whole =
    try_chain-IsAnswered cfg brain ms sound whole
      (picked ∷ (filter (λ b. not (same_brain b picked)) cfg.escalation_order ++ (daily ∷ []))) []
      none (ends_daily picked (filter (λ b. not (same_brain b picked)) cfg.escalation_order)) refl
  where
    ends_daily :
        (p : Brain) (order : List Brain) → has_brain daily (p ∷ (order ++ (daily ∷ []))) ≡ true
    ends_daily p order = ground (arith, has_brain-append daily order (daily ∷ []))
