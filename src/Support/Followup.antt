-- ===== src/Support/Followup.antt =====
-- Requests for a call and for an hour of delivery, which staff follow up
-- (backend/app/services/conversation_service.py).
use Prim.Native.String.{◌++◌ as str_append}
use qiki.Base.{
  Bool, true, false, ◌&&◌, not, Option, none, some, List, [], ◌∷◌, String, if◌then◌else◌,
}
use qiki.Chat.Cues.{has_phrase}
use qiki.Chat.Slots.{truthy}
use qiki.Support.Intent.{IntentCategory, is_place_order}

abbrev padded : String → String
padded t = str_append " " (str_append t " ")

abbrev padded_each : List String → List String
padded_each [] = []
padded_each (t ∷ texts) = padded t ∷ padded_each texts

-- `\bphrase\b` in a normalized text, which has letters, digits and single spaces only.
unfoldable pub has_words : String → List String → Bool
has_words normalized phrases = has_phrase (padded normalized) (padded_each phrases)

unfoldable pub mentions_callback : String → Bool
mentions_callback normalized = has_phrase normalized (
    "goi lai" ∷ "goi cho" ∷ "goi minh" ∷ "goi tui" ∷ "goi em" ∷ "goi gium" ∷ "goi giup" ∷ "call lai"
    ∷ "lien he lai" ∷ [])

unfoldable pub is_callback_decline : String → Bool
is_callback_decline normalized = has_phrase normalized (
    "khong can goi" ∷ "khoi goi" ∷ "dung goi" ∷ "khong goi lai" ∷ "khong phai goi"
    ∷ "khong can lien he" ∷ [])

pub data NoteType : Type 0 where
  callback delivery_window : NoteType

pub record FollowupNote : Type 0 where
  pub note_type : NoteType
  pub declined_callback : Bool
  pub time_window : Option String
  pub period : Option String

-- The third argument is the window of time that the message names, with its part of the day.
unfoldable pub detect_followup_request :
    String → IntentCategory → Option String × Option String → Option FollowupNote
detect_followup_request normalized category (window, period) =
    let mentions_delivery = has_words normalized ("giao" ∷ []) in
    let note : NoteType → Bool → FollowupNote = λ note_type declined. record {
      note_type = note_type;
      declined_callback = declined;
      time_window = window;
      period = period;
    } in
    if is_callback_decline normalized
    then some (
        note
          (if mentions_delivery && truthy window
            then NoteType.delivery_window
            else NoteType.callback)
          true)
    else if mentions_callback normalized && truthy window
    then some (note NoteType.callback false)
    else if mentions_delivery && truthy window && not (is_place_order category)
    then some (note NoteType.delivery_window false)
    else none
