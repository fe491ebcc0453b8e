-- ===== src/Db/Flags/Settings.antt =====
-- What is read back of the tools' flags.
use baby.Common.{
  ℕ, ◌≡◌, refl, sym, ap, ◌∙◌, Bool, true, false, ◌&&◌, ◌||◌, not, List, [], ◌∷◌, ◌++◌, any,
  if◌then◌else◌, arith, Bool-cases, inl, inr,
}
use baby.Text.Words.{Codes, same, same_eq, same_comm}
use baby.Db.Table.{update_where}
use baby.Db.Flags.{ToolFlag, is_named, set_tool_flag, disabled_tools}

-- `name in await db.disabled_tools()`
abbrev pub is_disabled : Codes → List ToolFlag → Bool
is_disabled name rows = any (same name) (disabled_tools rows)

abbrev pub set_all : List (ℕ × Codes × Bool) → List ToolFlag → List ToolFlag
set_all [] rows = rows
set_all ((now, name, enabled) ∷ settings) rows =
    set_all settings (set_tool_flag now name enabled rows)

-- the last of the settings that name the tool
abbrev pub last_setting : Codes → List (ℕ × Codes × Bool) → Bool → Bool
last_setting name [] before = before
last_setting name ((now, n, enabled) ∷ settings) before =
    last_setting name settings (if same name n then not enabled else before)

is_off : Codes → ToolFlag → Bool
is_off name f = same name f.name && not f.enabled

disabled-any :
    (name : Codes) (rows : List ToolFlag) → is_disabled name rows ≡ any (is_off name) rows
unfolding disabled_tools is_off
disabled-any name [] = refl
disabled-any name (f ∷ rows) = ground (arith, disabled-any name rows)

-- Texts that are the same pass the same tests.
same_left : (a b c : Codes) → same a b ≡ true → same a c ≡ same b c
same_left a b c h = rw (same_eq a b h)

updated :
    (now : ℕ) (name n : Codes) (e : Bool) (rows : List ToolFlag)
    → any
        (is_off name)
        (update_where (is_named n) (λ f. record f { enabled = e; updated_at = now }) rows)
      ≡ (if same name n then any (is_named n) rows && not e else any (is_off name) rows)
unfolding is_off
updated now name n e [] = ground arith
updated now name n e (f ∷ rows) = ground (
  arith,
  updated now name n e rows,
  same_left name n f.name,
  same_comm n f.name,
  same_left f.name n name,
  same_comm name f.name,
  same_comm n name,
)

any-append :
    (p : ToolFlag → Bool) (rows : List ToolFlag) (f : ToolFlag)
    → any p (rows ++ f ∷ []) ≡ any p rows || p f
any-append p [] f = ground arith
any-append p (r ∷ rows) f = ground (arith, any-append p rows f)

-- A tool without a row is not off.
unnamed_on :
    (name n : Codes) (rows : List ToolFlag)
    → any (is_named n) rows ≡ false
    → same name n ≡ true
    → any (is_off name) rows ≡ false
unfolding is_off
unnamed_on name n [] h e = refl
unnamed_on name n (f ∷ rows) h e =
    ground (arith, unnamed_on name n rows, h, e, same_left name n f.name e, same_comm n f.name)

set_one :
    (now : ℕ) (name n : Codes) (e : Bool) (rows : List ToolFlag)
    → any (is_off name) (set_tool_flag now n e rows)
      ≡ (if same name n then not e else any (is_off name) rows)
unfolding set_tool_flag is_off
set_one now name n e rows = elim (Bool-cases (any (is_named n) rows)) [
  | inl known ↦ ground (arith, known, updated now name n e rows)
  | inr new ↦ ground (
    arith,
    new,
    any-append (is_off name) rows (record { name = n; enabled = e; updated_at = now }),
    unnamed_on name n rows,
  )
]

-- Whatever tools are switched on and off, in whatever order: a tool is among the disabled exactly if
-- the last setting of it says so, or, where it is never set, if it was among them before.
pub disabled_tools-set_all :
    (name : Codes) (settings : List (ℕ × Codes × Bool)) (rows : List ToolFlag)
    → is_disabled name (set_all settings rows) ≡ last_setting name settings (is_disabled name rows)
disabled_tools-set_all name [] rows = refl
disabled_tools-set_all name ((now, n, e) ∷ settings) rows =
    disabled_tools-set_all name settings (set_tool_flag now n e rows)
    ∙ ap (last_setting name settings) (
        disabled-any name (set_tool_flag now n e rows)
        ∙ set_one now name n e rows
        ∙ ap (λ b. if same name n then not e else b) (sym (disabled-any name rows)))
