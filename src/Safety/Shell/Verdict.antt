-- ===== src/Safety/Shell/Verdict.antt =====
-- What the class of a command says of its pieces, and the other way round.
use baby.Common.{
  IsIn, subst, ℕ, ◌≡◌, ◌⊎◌, ◌≤◌, refl, sym, ap, Bool, true, false, ◌&&◌, List, [], ◌∷◌, ltb, ◌==◌,
  All, All-imp, arith, Bool-cases, inl, inr, if◌then◌else◌,
}
use baby.Message.{is_empty}
use baby.Text.Search.{Unicode}
use baby.Text.Regex.{search}
use baby.Safety.Patterns.{shutdown, redirect}
use baby.Safety.Shell.{
  SafetyClass, allow, confirm, deny, severity, is_denied, is_read_only, classify_stripped,
  classify_segment, pieces, worse, scan, is_prechecked, has_backtick, classify_command,
  classify_shell,
}
use baby.Safety.Shell.Parts.{Inside, PieceOf}
use baby.Safety.Shell.Groups.{pieces-PieceOf}
use baby.Text.Words.{Codes, strip}

eqb→eq : (a b : ℕ) → a == b ≡ true → a ≡ b
eqb→eq a b h = ground arith

severity_le : (v : SafetyClass) → severity v ≤ 2
severity_le allow = omega arith
severity_le confirm = omega arith
severity_le deny = omega arith

worse-le :
    (v c : SafetyClass) → (severity v ≤ severity (worse v c)) × (severity c ≤ severity (worse v c))
unfolding worse
worse-le v c = elim (Bool-cases (ltb (severity v) (severity c))) [
  | inl up ↦ rw up (ground arith, omega arith)
  | inr same ↦ rw same (omega arith, ground arith)
]

module _ (u : Unicode) (user_text : Codes) where
  abbrev pub At : SafetyClass → Codes → Type 0
  At v p = severity (classify_segment u user_text p) ≤ severity v

  All-At : (v : SafetyClass) (ps : List Codes) → severity v ≡ 2 → All (At v) ps
  All-At v [] e = tt
  All-At v (p ∷ ps) e = (omega (arith, severity_le (classify_segment u user_text p)), All-At v ps e)

  scan_stop :
      (v : SafetyClass) (p : Codes) (ps : List Codes)
      → let w = worse v (classify_segment u user_text p) in
        severity w == 2 ≡ true → scan u user_text v (p ∷ ps) ≡ w
  unfolding scan
  scan_stop v p ps stop = rw (scan, stop)

  scan_more :
      (v : SafetyClass) (p : Codes) (ps : List Codes)
      → let w = worse v (classify_segment u user_text p) in
        severity w == 2 ≡ false → scan u user_text v (p ∷ ps) ≡ scan u user_text w ps
  unfolding scan
  scan_more v p ps more = rw (scan, more)

  abbrev Above : SafetyClass → List Codes → SafetyClass → Type 0
  Above v ps z = (severity v ≤ severity z) × All (At z) ps

  scan-At : (v : SafetyClass) (ps : List Codes) → Above v ps (scan u user_text v ps)
  unfolding scan
  scan-At v [] = (omega arith, tt)
  scan-At v (p ∷ ps) =
      let w = worse v (classify_segment u user_text p) in
      let (old, new) = worse-le v (classify_segment u user_text p) in
      let (up, all) = scan-At w ps in
      elim (Bool-cases (severity w == 2)) [
        | inl stop ↦
            subst (Above v (p ∷ ps)) (sym (scan_stop v p ps stop))
              (old, (new, All-At w ps (eqb→eq (severity w) 2 stop)))
        | inr more ↦
            subst (Above v (p ∷ ps)) (sym (scan_more v p ps more))
              (omega (arith, old, up), (omega (arith, new, up), all))
      ]

  All-graver :
      (v v' : SafetyClass) (ps : List Codes)
      → severity v ≤ severity v'
      → All (At v) ps
      → All (At v') ps
  All-graver v v' ps le h = All-imp (At v) (At v') ps (λ p at. omega (arith, le)) h

-- An empty command has no pieces.
pieces_none : (u : Unicode) → pieces u [] ≡ []
unfolding pieces
pieces_none u = refl

classify_command-At :
    (u : Unicode) (user_text cmd : Codes)
    → All (At u user_text (classify_command u user_text cmd)) (pieces u cmd)
classify_command-At u user_text [] = rw (pieces_none u) tt
classify_command-At u user_text (c ∷ cs) =
    let cmd = c ∷ cs in
    let found = scan-At u user_text allow (pieces u cmd) in
    elim (Bool-cases (is_prechecked u cmd)) [
      | inl caught ↦ rw caught (All-At u user_text deny (pieces u cmd) refl)
      | inr passed ↦
          elim (Bool-cases
            (has_backtick cmd && severity (scan u user_text allow (pieces u cmd)) == 0)) [
              | inl tick ↦
                  (rw (passed, tick)
                    (All-graver u user_text (scan u user_text allow (pieces u cmd)) confirm
                      (pieces u cmd) (ground arith) found.1))
              | inr plain ↦ (rw (passed, plain) found.1)
            ]
    ]

-- No piece of a command is of a graver class than the command: one piece that is denied has the whole
-- denied, and one that needs consent keeps the whole from being allowed.
pub classify_shell-At :
    (u : Unicode) (command user_text : Codes)
    → All (At u user_text (classify_shell u command user_text)) (pieces u (strip command))
unfolding classify_shell
classify_shell-At u command user_text = classify_command-At u user_text (strip command)

-- What is allowed without a question.
abbrev pub Harmless : Unicode → Codes → Type 0
Harmless u seg =
    (is_denied u seg ≡ false)
    × (search u shutdown seg ≡ false)
    × (search u (redirect u) seg ≡ false)
    × (is_read_only u seg ≡ true)

classify_stripped-Harmless :
    (u : Unicode) (user_text seg : Codes)
    → is_empty seg ≡ false
    → severity (classify_stripped u user_text seg) ≡ 0
    → Harmless u seg
classify_stripped-Harmless u user_text seg e h = ground arith

class-Harmless :
    (u : Unicode) (user_text seg : Codes)
    → severity (classify_stripped u user_text seg) ≤ 0
    → (seg ≡ []) ⊎ Harmless u seg
class-Harmless u user_text [] h = inl refl
class-Harmless u user_text (c ∷ cs) h =
    inr (classify_stripped-Harmless u user_text (c ∷ cs) refl (omega (arith, h)))

class_of :
    (u : Unicode) (user_text p : Codes)
    → classify_segment u user_text p ≡ classify_stripped u user_text (strip p)
unfolding classify_segment
class_of u user_text p = refl

pieces-Harmless :
    (u : Unicode) (user_text : Codes) (ps : List Codes)
    → All (At u user_text allow) ps
    → All (λ p. (strip p ≡ []) ⊎ Harmless u (strip p)) ps
pieces-Harmless u user_text [] h = tt
pieces-Harmless u user_text (p ∷ ps) h = (
  class-Harmless u user_text (strip p) (subst (λ v. severity v ≤ 0) (class_of u user_text p) h.0),
  pieces-Harmless u user_text ps h.1,
)

checks_free :
    (caught tick : Bool) (v : SafetyClass)
    → (if caught then deny else if tick && severity v == 0 then confirm else v) ≡ allow
    → (caught ≡ false) × (tick ≡ false)
checks_free true tick v h = absurd (ground (arith, ap severity h))
checks_free false true allow h = absurd (ground (arith, ap severity h))
checks_free false true confirm h = absurd (ground (arith, ap severity h))
checks_free false true deny h = absurd (ground (arith, ap severity h))
checks_free false false v h = (refl, refl)

passes_checks :
    (u : Unicode) (user_text cmd : Codes)
    → classify_command u user_text cmd ≡ allow
    → (is_empty cmd ≡ false) × (is_prechecked u cmd ≡ false) × (has_backtick cmd ≡ false)
passes_checks u user_text [] h = absurd (ground (arith, ap severity h))
passes_checks u user_text (c ∷ cs) h =
    let cmd = c ∷ cs in
    let (passed, plain) =
      checks_free (is_prechecked u cmd) (has_backtick cmd) (scan u user_text allow (pieces u cmd))
        h in
    (refl, passed, plain)

All-IsIn : (P : Codes → Type 0) (p : Codes) (ps : List Codes) → All P ps → IsIn p ps → P p
All-IsIn P p [] h i = absurd i
All-IsIn P p (q ∷ ps) h (inl e) = subst P e h.0
All-IsIn P p (q ∷ ps) h (inr i) = All-IsIn P p ps h.1 i

empty_or_not : (p : Codes) → (p ≡ []) ⊎ (is_empty p ≡ false)
empty_or_not [] = inl refl
empty_or_not (c ∷ cs) = inr refl

-- A command is allowed without a question only if it is not blank, none of the checks of the whole
-- matches it, it has no backtick, and each stretch between separators, of the command itself, of what
-- `cmd /c` is to run in it, and of each `$(...)` and innermost `{...}` that is found in it from the left,
-- is blank or harmless: no rule that denies matches it, nor those on a shutdown and on the redirection
-- to a file, and it is on the list of what only reads. Of a `$(...)` within another nothing is said.
pub classify_shell-Harmless :
    (u : Unicode) (command user_text s p : Codes)
    → classify_shell u command user_text ≡ allow
    → Inside u (strip command) s
    → PieceOf s p
    → (is_empty (strip command) ≡ false)
      × (is_prechecked u (strip command) ≡ false)
      × (has_backtick (strip command) ≡ false)
      × ((strip p ≡ []) ⊎ Harmless u (strip p))
unfolding classify_shell
classify_shell-Harmless u command user_text s p h i piece =
    let cmd = strip command in
    let (some_text, passed, plain) = passes_checks u user_text cmd h in
    let all = pieces-Harmless u user_text (pieces u cmd) (
      subst (λ v. All (At u user_text v) (pieces u cmd)) h (classify_command-At u user_text cmd)) in
    (
      some_text,
      passed,
      plain,
      elim (empty_or_not (strip p)) [
        | inl blank ↦ inl blank
        | inr text ↦
            All-IsIn (λ q. (strip q ≡ []) ⊎ Harmless u (strip q)) p (pieces u cmd) all
              (pieces-PieceOf u cmd s p i piece text)
      ],
    )
