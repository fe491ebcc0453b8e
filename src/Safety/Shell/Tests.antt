-- ===== src/Safety/Shell/Tests.antt =====
-- `classify_shell` at concrete commands, and the theorems about it there.
use baby.Common.{ℕ, ◌≡◌, ◌⊎◌, ◌+◌, refl, Bool, false, ◌&&◌, ◌||◌, leb, ◌==◌, [], map, if◌then◌else◌}
use baby.Message.{is_empty}
use baby.Text.{codes}
use baby.Text.Search.{Unicode}
use baby.Safety.Shell.{allow, confirm, deny, classify_shell, is_prechecked, has_backtick}
use baby.Text.Words.{Codes, strip}
use baby.Safety.Shell.Parts.{first, here, next, Inside, subexpression}
use baby.Safety.Shell.Verdict.{Harmless, classify_shell-Harmless}

abbrev lower : ℕ → ℕ
lower c = if leb 65 c && leb c 90 then c + 32 else c

abbrev is_letter : ℕ → Bool
is_letter c = leb 97 (lower c) && leb (lower c) 122

abbrev ascii : Unicode
ascii = record {
  lower = λ s. s;
  is_word = λ c. is_letter c || (leb 48 c && leb c 57) || c == 95;
  is_alpha = is_letter;
  is_digit = λ c. leb 48 c && leb c 57;
  lower_codes = map lower;
}

ls_allowed : classify_shell ascii (codes "ls") [] ≡ allow
unfolding classify_shell
ls_allowed = refl

hidden_delete_denied : classify_shell ascii (codes "ls; rd C:\\") [] ≡ deny
unfolding classify_shell
hidden_delete_denied = refl

-- echo $(dir)
abbrev listing : Codes
listing = codes "echo $(dir)"

abbrev inner : Codes
inner = codes "dir"

listing_allowed : classify_shell ascii listing [] ≡ allow
unfolding classify_shell
listing_allowed = refl

inner-Inside : Inside ascii (strip listing) inner
unfolding strip
inner-Inside = subexpression inner (
    next 101 (codes "cho $(dir)") inner refl (
      next 99 (codes "ho $(dir)") inner refl (
        next 104 (codes "o $(dir)") inner refl (
          next 111 (codes " $(dir)") inner refl (
            next 32 (codes "$(dir)") inner refl (
              here (codes "$(dir)") inner [] refl
                ((refl, refl), ((refl, refl), ((refl, refl), tt)))))))))

classify_shell-Harmless_example :
    (is_empty (strip listing) ≡ false)
    × (is_prechecked ascii (strip listing) ≡ false)
    × (has_backtick (strip listing) ≡ false)
    × ((strip inner ≡ []) ⊎ Harmless ascii (strip inner))
classify_shell-Harmless_example =
    classify_shell-Harmless ascii listing [] inner inner listing_allowed inner-Inside
      (first inner inner [] refl (refl, (refl, (refl, tt))) tt)

-- A nested deletion is seen once, but not under two subexpressions or in plain parentheses.
delete_asks : classify_shell ascii (codes "echo $(del x)") [] ≡ confirm
unfolding classify_shell
delete_asks = refl

nested_delete_allowed : classify_shell ascii (codes "echo $(echo $(del x))") [] ≡ allow
unfolding classify_shell
nested_delete_allowed = refl

grouped_delete_allowed : classify_shell ascii (codes "echo (del x)") [] ≡ allow
unfolding classify_shell
grouped_delete_allowed = refl
