-- ===== src/Store/Conversations/Merge.antt =====
-- `mergeLatestMessage` and `unreadAfter` of internal/store/conversation.go.

-- Merging the newest message never turns a conversation's clock back: it stands at the later of the
-- two times, and the conversation keeps its identity.
use google_messages_multidev.Model.{Conversation}
use google_messages_multidev.Platform.{LatestMessage}
use google_messages_multidev.Prelude.Core.{
  Bool, Option, ap, arith, false, inl, inr, none, refl, some, sym, true, ◌∙◌, ◌≡◌, ◌⊎◌,
}
use google_messages_multidev.Prelude.Tests.{Bool-cases, if◌then◌else◌, ltb}
use google_messages_multidev.Prelude.Text.{text_eq_refl, text_eq_iff}
use google_messages_multidev.Store.Conversations.{described, differs, merge_badge, merge_latest}

pub merge_latest-updated :
    (c : Conversation) (l : LatestMessage) (unread : Option Bool)
    → ((merge_latest c l unread).0.updated ≡ (if ltb c.updated l.time then l.time else c.updated))
      × ((merge_latest c l unread).0.id ≡ c.id)
unfolding merge_latest merge_badge described
merge_latest-updated c l none = ground arith
merge_latest-updated c l (some unread) = ground arith

-- The conversation shows the message, which is no older than it.
abbrev Shows : Conversation → LatestMessage → Type 0
Shows c l =
    (c.preview ≡ l.preview)
    × (c.preview_sender_id ≡ l.sender_id)
    × (c.preview_direction ≡ l.direction)
    × (c.updated ≡ l.time)

described-Shows :
    (c : Conversation) (l : LatestMessage) → ltb l.time c.updated ≡ false → Shows (described c l) l
unfolding described
described-Shows c l h = ground arith

merge_badge-Shows :
    (unread : Option Bool) (c : Conversation) (changed : Bool) (l : LatestMessage)
    → Shows c l
    → Shows (merge_badge unread (c, changed)).0 l
unfolding merge_badge
merge_badge-Shows none c changed l s = s
merge_badge-Shows (some true) c changed l s = ground arith
merge_badge-Shows (some false) c changed l s = ground arith

merge_latest-shown :
    (c : Conversation) (l : LatestMessage) (again : Option Bool)
    → Shows c l
    → merge_latest c l again ≡ merge_badge again (c, false)
unfolding merge_latest differs described
merge_latest-shown c l again s =
    ground (arith, text_eq_refl l.preview, text_eq_refl l.sender_id, text_eq_refl l.direction)

merge_latest-new :
    (c : Conversation) (l : LatestMessage) (unread : Option Bool)
    → ltb l.time c.updated ≡ false
    → merge_latest c l unread ≡ merge_badge unread (described c l, differs c l)
unfolding merge_latest
merge_latest-new c l unread h = rw h

-- What a second merge may do to the badge so that nothing is to change: leave it, or clear it again.
abbrev pub LeavesBadge : Option Bool → Option Bool → Type 0
LeavesBadge unread again = (again ≡ none) ⊎ ((unread ≡ some false) × (again ≡ some false))

merge_badge-again :
    (unread again : Option Bool) (c : Conversation) (changed : Bool)
    → LeavesBadge unread again
    → merge_badge again ((merge_badge unread (c, changed)).0, false)
      ≡ ((merge_badge unread (c, changed)).0, false)
unfolding merge_badge
merge_badge-again unread again c changed (inl e) = rw e refl
merge_badge-again unread again c changed (inr (e, f)) = rw (e, f) (ground arith)

-- Merging the same message again changes nothing and reports no change, where the second merge is
-- told nothing of the badge, or clears a badge that the first one cleared. (One that marks the
-- conversation unread is outside: it may count the message once more.)
pub merge_latest-again :
    (c : Conversation) (l : LatestMessage) (unread again : Option Bool)
    → LeavesBadge unread again
    → merge_latest (merge_latest c l unread).0 l again ≡ ((merge_latest c l unread).0, false)
merge_latest-again c l unread again h = elim (Bool-cases (ltb l.time c.updated)) [
  | inl old ↦ unfold merge_latest in rw (old, old)
  | inr new ↦ rw (merge_latest-new c l unread new) (
      merge_latest-shown (merge_badge unread (described c l, differs c l)).0 l again
        (merge_badge-Shows unread (described c l) (differs c l) l (described-Shows c l new))
      ∙ merge_badge-again unread again (described c l) (differs c l) h)
]

differs-described :
    (c : Conversation) (l : LatestMessage)
    → differs c l ≡ false
    → ltb l.time c.updated ≡ false
    → described c l ≡ c
unfolding differs described
differs-described c l h k = ground (
  arith,
  text_eq_iff c.preview l.preview,
  text_eq_iff c.preview_sender_id l.sender_id,
  text_eq_iff c.preview_direction l.direction,
)

merge_badge-unchanged :
    (unread : Option Bool) (c : Conversation) (changed : Bool)
    → (merge_badge unread (c, changed)).1 ≡ false
    → ((merge_badge unread (c, changed)).0 ≡ c) × (changed ≡ false)
unfolding merge_badge
merge_badge-unchanged none c changed h = (refl, h)
merge_badge-unchanged (some true) c changed h = ground arith
merge_badge-unchanged (some false) c changed h = ground arith

-- A report of no change is true: the conversation is the one that came in.
pub merge_latest-unchanged :
    (c : Conversation) (l : LatestMessage) (unread : Option Bool)
    → (merge_latest c l unread).1 ≡ false
    → (merge_latest c l unread).0 ≡ c
merge_latest-unchanged c l unread h = elim (Bool-cases (ltb l.time c.updated)) [
  | inl old ↦ unfold merge_latest in rw old
  | inr new ↦
      let kept =
        merge_badge-unchanged unread (described c l) (differs c l)
          (ap (λ (r : Conversation × Bool). r.1) (sym (merge_latest-new c l unread new)) ∙ h) in
      ap (λ (r : Conversation × Bool). r.0) (merge_latest-new c l unread new)
      ∙ kept.0
      ∙ differs-described c l kept.1 new
]
