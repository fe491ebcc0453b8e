-- ===== src/Db/Flags.antt =====
-- The smaller tables of db/database.py: schedules, the tools that the owner has switched off, and the
-- speaker profiles.
pub mod Settings
mod Tests
use baby.Common.{
  ℕ, Bool, true, false, ◌&&◌, not, Option, none, some, List, [], ◌∷◌, ◌++◌, filter, map, any,
  if◌then◌else◌, ◌==◌,
}
use baby.Text.Words.{Codes, same}
use baby.Db.Table.{next_id, update_where, delete_where}
use baby.Db.Tasks.{newest_first}

pub record Schedule : Type 0 where
  pub id : ℕ
  pub cron : Codes
  pub prompt : Codes
  pub enabled : Bool
  pub last_run : Option Codes

unfoldable pub list_schedules : Bool → List Schedule → List Schedule
list_schedules enabled_only rows = if enabled_only then filter (λ s. s.enabled) rows else rows

unfoldable pub set_schedule_last_run : ℕ → Codes → List Schedule → List Schedule
set_schedule_last_run id ts rows =
    update_where (λ s. s.id == id) (λ s. record s { last_run = some ts }) rows

-- A row of `tool_flags`; the name is the key.
pub record ToolFlag : Type 0 where
  pub name : Codes
  pub enabled : Bool
  pub updated_at : ℕ

abbrev pub is_named : Codes → ToolFlag → Bool
is_named name f = same f.name name

-- `INSERT … ON CONFLICT(name) DO UPDATE`
unfoldable pub set_tool_flag : ℕ → Codes → Bool → List ToolFlag → List ToolFlag
set_tool_flag now name enabled rows =
    if any (is_named name) rows
    then update_where (is_named name) (λ f. record f { enabled = enabled; updated_at = now }) rows
    else rows ++ (record { name = name; enabled = enabled; updated_at = now }) ∷ []

unfoldable pub disabled_tools : List ToolFlag → List Codes
disabled_tools rows = map (λ (f : ToolFlag). f.name) (filter (λ f. not f.enabled) rows)

pub record Centroid : Type 0 where
  pub id : ℕ
  pub label : Codes
  pub model : Codes
  pub dim : ℕ
  pub centroid : List ℕ
  pub kind : Option Codes
  pub created_at : ℕ

abbrev pub is_of : Codes → Codes → Centroid → Bool
is_of label model c = same c.label label && same c.model model

unfoldable pub add_speaker_centroid :
    ℕ → Codes → Codes → ℕ → List ℕ → Option Codes → List Centroid → ℕ × List Centroid
add_speaker_centroid now label model dim centroid kind rows =
    let id = next_id (λ (c : Centroid). c.id) rows in
    (
      id,
      rows
          ++ (record {
            id = id;
            label = label;
            model = model;
            dim = dim;
            centroid = centroid;
            kind = kind;
            created_at = now;
          })
            ∷ [],
    )

unfoldable pub speaker_centroids : Codes → Codes → List Centroid → List Centroid
speaker_centroids label model rows = newest_first (filter (is_of label model) rows)

-- Without a model the profiles of all models go.
unfoldable pub clear_speaker_profile : Codes → Option Codes → List Centroid → List Centroid
clear_speaker_profile label none rows = delete_where (λ c. same c.label label) rows
clear_speaker_profile label (some model) rows = delete_where (is_of label model) rows
