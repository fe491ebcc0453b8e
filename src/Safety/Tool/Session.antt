-- ===== src/Safety/Tool/Session.antt =====
-- What the gate's session remembers: unverified voices, and the domains that were approved.
use baby.Common.{
  ◌≡◌, ◌≢◌, ◌⊎◌, refl, sym, ap, ap₂, ◌∙◌, Bool, true, false, ◌&&◌, ◌||◌, not, List, [], ◌∷◌, any,
  filter, All, arith, Bool-cases, inl, inr, if◌then◌else◌, ◌==◌,
}
use baby.Message.{is_empty}
use baby.Text.Search.{Unicode}
use baby.Safety.Shell.{SafetyClass, allow, deny, severity}
use baby.Text.Words.{Codes, same, strip}
use baby.Text.{codes}
use baby.Safety.Tool.{
  Args, Place, SafetySession, holds, is_text, one_of, acts, classify_browser, classify_tool,
  set_voice_verified, note_approval, Step, verifies, approves, step, run, new,
}

same_self : (x : Codes) → same x x ≡ true
same_self [] = refl
same_self (c ∷ cs) = let e : c == c ≡ true = ground arith in rw (e, same_self cs)

same→eq : (x y : Codes) → same x y ≡ true → x ≡ y
same→eq [] [] h = refl
same→eq [] (d ∷ ds) h = ground arith
same→eq (c ∷ cs) [] h = ground arith
same→eq (c ∷ cs) (d ∷ ds) h = elim (Bool-cases (c == d)) [
  | inl e ↦
      let head : c ≡ d = ground arith in
      let tail : same cs ds ≡ true = ground arith in ap₂ ◌∷◌ head (same→eq cs ds tail)
  | inr ne ↦ absurd (ground arith)
]

-- The step is not the verification of the channel.
abbrev pub LeavesUnverified : Codes → Step → Type 0
LeavesUnverified channel (verifies c true) = c ≢ channel
LeavesUnverified channel _ = Unit {0}

holds-filter :
    (x c : Codes) (xs : List Codes)
    → c ≢ x
    → holds x xs ≡ true
    → holds x (filter (λ y. not (same c y)) xs) ≡ true
holds-filter x c [] ne h = h
holds-filter x c (y ∷ ys) ne h = elim (Bool-cases (same x y)) [
  | inl here ↦ let other : same c y ≡ false = differs (same→eq x y here) in rw (other, here)
  | inr not_here ↦
      let later : holds x ys ≡ true = ground arith in
      let found = holds-filter x c ys ne later in
      elim (Bool-cases (same c y)) [
        | inl gone ↦ rw gone found
        | inr kept ↦ (rw (kept, not_here) found)
      ]
]
  where
    differs : x ≡ y → same c y ≡ false
    differs e = elim (Bool-cases (same c y)) [
      | inl it ↦ absurd (ne (same→eq c y it ∙ sym e))
      | inr it ↦ it
    ]

module _ (u : Unicode) (channel : Codes) where
  step-holds :
      (s : SafetySession) (x : Step)
      → LeavesUnverified channel x
      → holds channel s.unverified_channels ≡ true
      → holds channel (step u s x).unverified_channels ≡ true
  unfolding step set_voice_verified note_approval
  step-holds s (verifies c true) ne h = holds-filter channel c s.unverified_channels ne h
  step-holds s (verifies c false) ne h = elim (Bool-cases (same channel c)) [
    | inl it ↦ rw it
    | inr other ↦ rw other h
  ]
  step-holds s (approves domain tool args) ne h =
      elim (Bool-cases (
        is_text "browser_act" tool
        && one_of acts (u.lower_codes args.action)
        && not (is_empty domain))) [ inl noted ↦ rw noted h | inr ignored ↦ rw ignored h ]

  run-holds :
      (s : SafetySession) (xs : List Step)
      → All (LeavesUnverified channel) xs
      → holds channel s.unverified_channels ≡ true
      → holds channel (run u s xs).unverified_channels ≡ true
  unfolding run
  run-holds s [] l h = h
  run-holds s (x ∷ xs) l h = run-holds (step u s x) xs l.1 (step-holds s x l.0 h)

-- From the moment that a named channel's voice is not recognised, and until it is verified, every tool is
-- denied on that channel, whatever is approved and whatever other channels do.
pub unverified_denied :
    (u : Unicode) (place : Codes → Place) (auto_allow : List Codes)
    (domain channel user_text tool : Codes) (args : Args) (s : SafetySession) (xs : List Step)
    → channel ≢ []
    → All (LeavesUnverified channel) xs
    → classify_tool u place auto_allow
        (run u (set_voice_verified channel false s) xs)
        domain
        channel
        user_text
        tool
        args
      ≡ deny
unfolding classify_tool set_voice_verified
unverified_denied u place auto_allow domain channel user_text tool args s xs ne l =
    let s' = set_voice_verified channel false s in
    let start : holds channel s'.unverified_channels ≡ true = rw (same_self channel) in
    let held = run-holds u channel s' xs l start in
    let named : not (is_empty channel) ≡ true = has_name channel ne in rw (named, held)
  where
    has_name : (c : Codes) → c ≢ [] → not (is_empty c) ≡ true
    has_name [] n = absurd (n refl)
    has_name (c ∷ cs) n = refl

-- The step is an approval of a browser action on the domain.
abbrev pub approves_domain : Codes → Step → Bool
approves_domain domain (verifies c b) = false
approves_domain domain (approves d tool args) = is_text "browser_act" tool && same domain d

module _ (u : Unicode) (domain : Codes) where
  Approved : List Codes → List Step → Type 0
  Approved known xs = (holds domain known ≡ true) ⊎ (any (approves_domain domain) xs ≡ true)

  -- A domain that is confirmed after a step was so before, or the step approves it.
  step-Approved :
      (s : SafetySession) (x : Step)
      → holds domain (step u s x).confirmed_browser_domains ≡ true
      → (holds domain s.confirmed_browser_domains ≡ true) ⊎ (approves_domain domain x ≡ true)
  unfolding step set_voice_verified note_approval
  step-Approved s (verifies c true) h = inl h
  step-Approved s (verifies c false) h = inl h
  step-Approved s (approves d tool args) h =
      go (is_text "browser_act" tool) (one_of acts (u.lower_codes args.action)) (not (is_empty d)) h
    where
      rest_or : (a b : Bool) → a ≡ false → a || b ≡ true → b ≡ true
      rest_or true b e h = ground arith
      rest_or false b e h = h

      go :
          (a b c : Bool)
          → holds domain
              (if a && b && c
                then record s { confirmed_browser_domains = d ∷ s.confirmed_browser_domains }
                else s).confirmed_browser_domains
            ≡ true
          → (holds domain s.confirmed_browser_domains ≡ true) ⊎ (a && same domain d ≡ true)
      go false b c k = inl k
      go true false c k = inl k
      go true true false k = inl k
      go true true true k = elim (Bool-cases (same domain d)) [
        | inl it ↦ inr it
        | inr other ↦
            inl (rest_or (same domain d) (holds domain s.confirmed_browser_domains) other k)
      ]

  run-Approved :
      (s : SafetySession) (xs : List Step)
      → holds domain (run u s xs).confirmed_browser_domains ≡ true
      → Approved s.confirmed_browser_domains xs
  unfolding run Approved
  run-Approved s [] h = inl h
  run-Approved s (x ∷ xs) h = elim (run-Approved (step u s x) xs h) [
    | inr later ↦ inr (elim (Bool-cases (approves_domain domain x)) [
      | inl now ↦ rw now
      | inr no_now ↦ rw no_now later
    ])
    | inl known ↦ elim (step-Approved s x known) [
      | inl before ↦ inl before
      | inr now ↦ inr (rw now)
    ]
  ]

browser_allow :
    (action domain : Codes) (s : SafetySession)
    → one_of ("goto" ∷ "read" ∷ "screenshot" ∷ []) action ≡ false
    → classify_browser action domain s ≡ allow
    → holds domain s.confirmed_browser_domains ≡ true
browser_allow action domain s writes h = ground (arith, ap severity h)

not_denied :
    (b : Bool) (v : SafetyClass) → (if b then deny else v) ≡ allow → (b ≡ false) × (v ≡ allow)
not_denied true v h = absurd (ground (arith, ap severity h))
not_denied false v h = (refl, h)

-- In a new session an action on the page that is not one of the three that only read is allowed
-- without a question only if a browser action on the same domain was approved before.
pub browser_act_needs_approval :
    (u : Unicode) (place : Codes → Place) (auto_allow : List Codes)
    (domain channel user_text : Codes) (args : Args) (xs : List Step)
    → one_of ("goto" ∷ "read" ∷ "screenshot" ∷ []) (strip (u.lower_codes args.action)) ≡ false
    → classify_tool u place auto_allow
        (run u new xs)
        domain
        channel
        user_text
        (codes "browser_act")
        args
      ≡ allow
    → any (approves_domain domain) xs ≡ true
unfolding classify_tool Approved
browser_act_needs_approval u place auto_allow domain channel user_text args xs writes h =
    let s = run u new xs in
    let (verified, allowed) =
      not_denied (not (is_empty channel) && holds channel s.unverified_channels)
        (classify_browser (strip (u.lower_codes args.action)) domain s) h in
    let confirmed = browser_allow (strip (u.lower_codes args.action)) domain s writes allowed in
    elim (run-Approved u domain new xs confirmed) [
      | inl none_before ↦ absurd (ground arith)
      | inr approved ↦ approved
    ]
