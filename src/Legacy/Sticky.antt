-- ===== src/Legacy/Sticky.antt =====
-- The turns that the router remembers: a turn keeps its brain.
use baby.Common.{
  ℕ, zero, suc, ◌+◌, ◌-◌, ◌≤◌, ◌<◌, ◌≡◌, refl, sym, ap, ◌∙◌, true, false, Option, none, some, List,
  [], ◌∷◌, ◌++◌, drop, length, length-append, arith, if◌then◌else◌, Bool-cases, inl, inr,
}
use baby.Text.Words.{Codes, same, same_eq, same_refl}
use baby.Legacy.{Brain, RouterState, sticky_brain, without_key, move_to_end, remember, pick_turn}

-- how many entries stand behind that of the turn
abbrev pub depth : Codes → List (Codes × Brain) → ℕ
depth key [] = 0
depth key ((k, b) ∷ d) = let rest = depth key d in if same k key then length d else rest

-- The turn has the brain, with at most `n` entries behind it.
abbrev pub Holds : Codes → Brain → ℕ → List (Codes × Brain) → Type 0
Holds key b n d = (sticky_brain key d ≡ some b) × (depth key d ≤ n)

same_other : (j k x : Codes) → same x j ≡ true → same j k ≡ false → same x k ≡ false
same_other j k x e h = rw (same_eq x j e) h

sticky-without_key :
    (key j : Codes) (d : List (Codes × Brain))
    → same j key ≡ false
    → (sticky_brain key (without_key j d) ≡ sticky_brain key d)
      × (depth key (without_key j d) ≤ depth key d)
      × (length (without_key j d) ≤ length d)
sticky-without_key key j [] h = (refl, omega arith, omega arith)
sticky-without_key key j ((k, b) ∷ d) h =
    let rest = sticky-without_key key j d h in
    elim (Bool-cases (same k j)) [
      | inl gone ↦
          let other = same_other j key k gone h in
          rw (gone, other) (rest.0, rest.1, omega (arith, rest.2))
      | inr stays ↦ elim (Bool-cases (same k key)) [
        | inl hit ↦ rw (stays, hit) (refl, rest.2, omega (arith, rest.2))
        | inr miss ↦ rw (stays, miss) (rest.0, rest.1, omega (arith, rest.2))
      ]
    ]

sticky-append :
    (key j : Codes) (b c : Brain) (d : List (Codes × Brain))
    → sticky_brain key d ≡ some b
    → (sticky_brain key (d ++ ((j, c) ∷ [])) ≡ some b)
      × (depth key (d ++ ((j, c) ∷ [])) ≡ suc (depth key d))
sticky-append key j b c [] e = absurd (cc)
sticky-append key j b c ((k, x) ∷ d) e = elim (Bool-cases (same k key)) [
  | inl hit ↦ ground (arith, hit, e, length-append d ((j, c) ∷ []))
  | inr miss ↦ ground (arith, miss, e, sticky-append key j b c d)
]

-- a turn that is not there is found at the end
sticky-append_self :
    (key : Codes) (b : Brain) (d : List (Codes × Brain))
    → sticky_brain key d ≡ none
    → (sticky_brain key (d ++ ((key, b) ∷ [])) ≡ some b) × (depth key (d ++ ((key, b) ∷ [])) ≡ 0)
sticky-append_self key b [] e = rw (same_refl key) (refl, refl)
sticky-append_self key b ((k, x) ∷ d) e = elim (Bool-cases (same k key)) [
  | inl hit ↦ absurd (ground (arith, hit, e))
  | inr miss ↦ ground (arith, miss, e, sticky-append_self key b d)
]

without_key-none :
    (key : Codes) (d : List (Codes × Brain)) → sticky_brain key (without_key key d) ≡ none
without_key-none key [] = refl
without_key-none key ((k, x) ∷ d) = ground (arith, without_key-none key d)

-- What stands before the entry may be dropped.
sticky-drop :
    (key : Codes) (b : Brain) (i : ℕ) (d : List (Codes × Brain))
    → sticky_brain key d ≡ some b
    → i + depth key d < length d
    → (sticky_brain key (drop i d) ≡ some b) × (depth key (drop i d) ≡ depth key d)
sticky-drop key b zero d e h = (e, refl)
sticky-drop key b (suc i) [] e h = absurd (cc)
sticky-drop key b (suc i) ((k, x) ∷ d) e h = elim (Bool-cases (same k key)) [
  | inl hit ↦ absurd (ground (arith, hit, h))
  | inr miss ↦ ground (arith, miss, e, h, sticky-drop key b i d)
]

depth_bound :
    (key : Codes) (b : Brain) (d : List (Codes × Brain))
    → sticky_brain key d ≡ some b
    → depth key d < length d
depth_bound key b [] e = absurd (cc)
depth_bound key b ((k, x) ∷ d) e = ground (arith, e, depth_bound key b d)

remember-Holds :
    (key j : Codes) (b c : Brain) (n : ℕ) (d : List (Codes × Brain))
    → n < 7
    → Holds key b n d
    → Holds key b (suc n) (remember j c d)
remember-Holds key j b c n d cap h =
    let longer = sticky-append key j b c d h.0 in
    let cut =
      sticky-drop key b (length (d ++ ((j, c) ∷ [])) - 8) (d ++ ((j, c) ∷ [])) longer.0 (
        omega
          (arith, longer.1, h.1, cap, depth_bound key b d h.0, length-append d ((j, c) ∷ []))) in
    (cut.0, omega (arith, cut.1, longer.1, h.1))

remember_self :
    (key : Codes) (b : Brain) (d : List (Codes × Brain))
    → sticky_brain key d ≡ none
    → Holds key b 0 (remember key b d)
remember_self key b d e =
    let there = sticky-append_self key b d e in
    let cut =
      sticky-drop key b (length (d ++ ((key, b) ∷ [])) - 8) (d ++ ((key, b) ∷ [])) there.0
        (omega (arith, there.1, length-append d ((key, b) ∷ []))) in
    (cut.0, omega (arith, cut.1, there.1))

move-Holds :
    (key j : Codes) (b c : Brain) (n : ℕ) (d : List (Codes × Brain))
    → same j key ≡ false
    → Holds key b n d
    → Holds key b (suc n) (move_to_end j c d)
move-Holds key j b c n d other h =
    let fewer = sticky-without_key key j d other in
    let longer = sticky-append key j b c (without_key j d) (fewer.0 ∙ h.0) in
    (longer.0, omega (arith, longer.1, fewer.1, h.1))

move_self :
    (key : Codes) (b : Brain) (d : List (Codes × Brain)) → Holds key b 0 (move_to_end key b d)
move_self key b d =
    let there = sticky-append_self key b (without_key key d) (without_key-none key d) in
    (there.0, omega (arith, there.1))

-- One pick for a turn: of the same turn, or of another.
pub pick_turn-Holds :
    (fresh : Brain) (key j : Codes) (b : Brain) (n : ℕ) (o : Option Brain) (s : RouterState)
    → sticky_brain j s.sticky ≡ o
    → n < 7
    → Holds key b n s.sticky
    → Holds key b (suc n) (pick_turn fresh j o s).1.sticky
pick_turn-Holds fresh key j b n none s e cap h = remember-Holds key j b fresh n s.sticky cap h
pick_turn-Holds fresh key j b n (some c) s e cap h = elim (Bool-cases (same j key)) [
  | inr other ↦ move-Holds key j b c n s.sticky other h
  | inl mine ↦
      let k : j ≡ key = same_eq j key mine in
      let agreed : some c ≡ some b = sym e ∙ ap (λ i. sticky_brain i s.sticky) k ∙ h.0 in
      let moved = move_self key b s.sticky in
      let brains : c ≡ b = cc in rw (k, brains) (moved.0, omega (arith, moved.1))
]

pub pick_turn_same :
    (fresh : Brain) (key : Codes) (o : Option Brain) (s : RouterState)
    → sticky_brain key s.sticky ≡ o
    → Holds key (pick_turn fresh key o s).0 0 (pick_turn fresh key o s).1.sticky
pick_turn_same fresh key none s e = remember_self key fresh s.sticky e
pick_turn_same fresh key (some b) s e = move_self key b s.sticky
