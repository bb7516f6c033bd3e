-- ===== src/Model/Request.antt =====
-- `SendRequest.Equal` of internal/model/model.go decides equality of requests.
use google_messages_multidev.Model.{SendRequest}
use google_messages_multidev.Prelude.Core.{
  Bool, List, [], arith, false, not, true, ◌&&◌, ◌↔◌, ◌∷◌, ◌≡◌,
}
use google_messages_multidev.Prelude.Text.{Text, text_eq, text_eq_iff}

unfoldable pub texts_eq : List Text → List Text → Bool
texts_eq [] [] = true
texts_eq [] (b ∷ v) = false
texts_eq (a ∷ u) [] = false
texts_eq (a ∷ u) (b ∷ v) = text_eq a b && texts_eq u v

abbrev pub bool_eq : Bool → Bool → Bool
bool_eq true b = b
bool_eq false b = not b

texts_eq_iff : (u v : List Text) → (texts_eq u v ≡ true) ↔ (u ≡ v)
unfolding texts_eq
texts_eq_iff [] [] = ground arith
texts_eq_iff [] (b ∷ v) = ground arith
texts_eq_iff (a ∷ u) [] = ground arith
texts_eq_iff (a ∷ u) (b ∷ v) = ground (arith, text_eq_iff a b, texts_eq_iff u v)

unfoldable pub request_equal : SendRequest → SendRequest → Bool
request_equal r o =
    text_eq r.kind o.kind
    && (text_eq r.group_name o.group_name
        && (text_eq r.conversation_id o.conversation_id
            && (text_eq r.text o.text
                && (text_eq r.message_id o.message_id
                    && (text_eq r.emoji o.emoji
                        && (bool_eq r.remove o.remove
                            && (texts_eq r.recipients o.recipients
                                && texts_eq r.attachment_ids o.attachment_ids)))))))

-- Two requests pass `Equal` exactly when they are the same request, every field included.
pub request_equal_iff : (r o : SendRequest) → (request_equal r o ≡ true) ↔ (r ≡ o)
unfolding request_equal
request_equal_iff r o = ground (
  arith,
  text_eq_iff r.kind o.kind,
  text_eq_iff r.group_name o.group_name,
  text_eq_iff r.conversation_id o.conversation_id,
  text_eq_iff r.text o.text,
  text_eq_iff r.message_id o.message_id,
  text_eq_iff r.emoji o.emoji,
  texts_eq_iff r.recipients o.recipients,
  texts_eq_iff r.attachment_ids o.attachment_ids,
)
