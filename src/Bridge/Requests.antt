-- ===== src/Bridge/Requests.antt =====
-- `validateRequest` of internal/bridge/features.go: what it makes of a request, or that it refuses it.
use google_messages_multidev.Bridge.Pairing.Begin.{is_phone_number}
use google_messages_multidev.Bridge.Sender.{mentions}
use google_messages_multidev.Model.{SendRequest}
use google_messages_multidev.Model.Request.{bool_eq}
use google_messages_multidev.Prelude.Core.{
  Bool, List, Option, [], arith, false, inl, inr, none, not, refl, some, sym, true, ℕ, ◌&&◌, ◌||◌,
  ◌∙◌, ◌∷◌, ◌≡◌,
}
use google_messages_multidev.Prelude.Lists.{length}
use google_messages_multidev.Prelude.Sorts.{length-Perm, sort_texts, sort_texts-Perm}
use google_messages_multidev.Prelude.Tests.{Bool-cases, if◌then◌else◌, ltb, ◌==◌}
use google_messages_multidev.Prelude.Text.{Text, is_empty, text_eq, txt}
use google_messages_multidev.Prelude.Utf8.{contains_any, is_utf8, trim_space}
use google_messages_multidev.Result.{Result, err, invalid, ok}
use mathlib.Core.List.{Perm}

abbrev pub max_recipients : ℕ
max_recipients = 20

abbrev pub max_group_name : ℕ
max_group_name = 100

abbrev pub max_id : ℕ
max_id = 256

abbrev pub max_emoji : ℕ
max_emoji = 64

abbrev pub max_text : ℕ
max_text = 16000

abbrev pub max_attachments : ℕ
max_attachments = 10

abbrev pub no_texts : List Text → Bool
no_texts [] = true
no_texts (u ∷ us) = false

-- The kind "message" is spelled as the empty one.
unfoldable pub plain_kind : SendRequest → SendRequest
plain_kind req = if text_eq req.kind (txt "message") then record req { kind = [] } else req

unfoldable pub group_name_refused : SendRequest → Bool
group_name_refused req =
    not (is_empty req.group_name)
    && (ltb (length req.recipients) 2
        || (ltb max_group_name (length req.group_name)
            || (not (is_utf8 req.group_name) || contains_any req.group_name (13 ∷ 10 ∷ 0 ∷ []))))

-- The walk over the sorted recipients, from the one before.
unfoldable pub numbers_behind : Option Text → List Text → Bool
unfolding is_phone_number
numbers_behind before [] = true
numbers_behind before (number ∷ numbers) =
    is_phone_number number
    && (not (elim before [ none ↦ false | some last ↦ text_eq number last ])
        && numbers_behind (some number) numbers)

unfoldable pub conversation_refused : SendRequest → Bool
conversation_refused req =
    not (is_empty req.conversation_id)
    || (not (is_empty req.text)
        || (not (no_texts req.attachment_ids)
            || (not (is_empty req.message_id)
                || (not (is_empty req.emoji)
                    || (req.remove
                        || (ltb (length req.recipients) 1
                            || ltb max_recipients (length req.recipients)))))))

unfoldable pub validate_conversation : SendRequest → Result SendRequest
unfolding group_name_refused conversation_refused numbers_behind
validate_conversation req =
    let named = record req { group_name = trim_space req.group_name } in
    if conversation_refused req || group_name_refused named
    then err invalid
    else let sorted = sort_texts req.recipients in
      if numbers_behind none sorted then ok (record named { recipients = sorted }) else err invalid

unfoldable pub reaction_refused : SendRequest → Bool
reaction_refused req =
    is_empty req.message_id
    || (ltb max_id (length req.message_id)
        || (is_empty (trim_space req.emoji)
            || (ltb max_emoji (length req.emoji)
                || (not (is_utf8 req.emoji)
                    || (not (is_empty req.text) || not (no_texts req.attachment_ids))))))

-- The ids of attachments have 64 bytes each, and none comes twice.
unfoldable pub ids_behind : List Text → List Text → Bool
ids_behind seen [] = true
ids_behind seen (id ∷ ids) =
    (length id == 64) && (not (mentions id seen) && ids_behind (id ∷ seen) ids)

unfoldable pub message_refused : SendRequest → Bool
unfolding ids_behind
message_refused req =
    not (is_empty req.kind)
    || (not (is_empty req.message_id)
        || (not (is_empty req.emoji)
            || (req.remove
                || (ltb max_text (length req.text)
                    || (not (is_utf8 req.text)
                        || (ltb max_attachments (length req.attachment_ids)
                            || (bool_eq (is_empty (trim_space req.text))
                                  (no_texts req.attachment_ids)
                                || not (ids_behind [] req.attachment_ids))))))))

unfoldable pub validate_in_conversation : SendRequest → Result SendRequest
unfolding reaction_refused message_refused
validate_in_conversation req =
    if is_empty req.conversation_id
      || (ltb max_id (length req.conversation_id)
          || (not (no_texts req.recipients) || not (is_empty req.group_name)))
    then err invalid
    else if text_eq req.kind (txt "reaction")
    then (if reaction_refused req then err invalid else ok req)
    else if message_refused req
    then err invalid
    else ok req

-- `validateRequest`.
unfoldable pub validate_request : SendRequest → Result SendRequest
unfolding plain_kind validate_conversation validate_in_conversation
validate_request given =
    let req = plain_kind given in
    if text_eq req.kind (txt "conversation")
    then validate_conversation req
    else validate_in_conversation req

no_texts-length : (us vs : List Text) → length us ≡ length vs → no_texts us ≡ no_texts vs
no_texts-length [] [] e = refl
no_texts-length [] (v ∷ vs) e = absurd (omega arith)
no_texts-length (u ∷ us) [] e = absurd (omega arith)
no_texts-length (u ∷ us) (v ∷ vs) e = refl

no_texts-nil : (us : List Text) → no_texts us ≡ true → us ≡ []
no_texts-nil [] e = refl
no_texts-nil (u ∷ us) e = absurd (cc)

conversation-Perm :
    (req : SendRequest) (recipients : List Text)
    → Perm req.recipients recipients
    → validate_conversation (record req { recipients = recipients }) ≡ validate_conversation req
unfolding validate_conversation group_name_refused conversation_refused
conversation-Perm req recipients p = ground (arith, length-Perm p, sort_texts-Perm p)

in_conversation-Perm :
    (req : SendRequest) (recipients : List Text)
    → Perm req.recipients recipients
    → validate_in_conversation (record req { recipients = recipients })
      ≡ validate_in_conversation req
unfolding validate_in_conversation reaction_refused message_refused
in_conversation-Perm req recipients p =
    let e = no_texts-length req.recipients recipients (length-Perm p) in
    elim (Bool-cases (no_texts recipients)) [
      | inl c ↦
          let same_recipients : recipients ≡ req.recipients =
            no_texts-nil recipients c ∙ sym (no_texts-nil req.recipients (e ∙ c)) in
          rw same_recipients refl
      | inr c ↦ ground arith
    ]

-- Two requests that name the same recipients in different orders are refused alike, or become the same
-- request, which `Equal` takes for a repetition.
pub validate_request-Perm :
    (req : SendRequest) (recipients : List Text)
    → Perm req.recipients recipients
    → validate_request (record req { recipients = recipients }) ≡ validate_request req
unfolding validate_request plain_kind
validate_request-Perm req recipients p = elim (Bool-cases (text_eq req.kind (txt "message"))) [
  | inl m ↦
      let named = record req { kind = [] } in
      ground (arith, conversation-Perm named recipients p, in_conversation-Perm named recipients p)
  | inr m ↦
      ground (arith, conversation-Perm req recipients p, in_conversation-Perm req recipients p)
]
