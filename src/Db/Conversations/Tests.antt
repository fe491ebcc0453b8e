-- ===== src/Db/Conversations/Tests.antt =====
-- A conversation whose first message is a blank.
use baby.Common.{◌≡◌, refl, false, Option, none, some, [], ◌∷◌}
use baby.Text.{is_space}
use baby.Text.Words.{Codes, strip, strip_of, squeeze, words}
use baby.Db.Conversations.{MetaRow, conversation_meta}

abbrev asked : Option Codes → Option Codes → MetaRow
asked summary first = record {
  conversation = (record {
    id = 1;
    channel = [];
    started_at = 1;
    summary = summary;
    summarized_upto = 0;
    extracted_upto = 0;
    message_embedded_upto = 0;
    title = none;
    archived = false;
  });
  message_count = 1;
  last_message_at = some 2;
  first_user = first;
}

-- the first line of the summary
titled : (conversation_meta (asked (some (32 ∷ 97 ∷ 98 ∷ 10 ∷ 99 ∷ [])) none)).title ≡ 97 ∷ 98 ∷ []
unfolding conversation_meta strip strip_of is_space
titled = refl

untitled : (conversation_meta (asked none (some (32 ∷ 10 ∷ [])))).title ≡ []
unfolding conversation_meta strip strip_of squeeze words is_space
untitled = refl
