-- ===== src/Bridge/Contacts.antt =====
-- `ConversationRecipients` of internal/bridge/contacts.go: whom a conversation is with.

-- The first walk: the addresses of the user.
use google_messages_multidev.Bridge.Sender.{mentions}
use google_messages_multidev.Bridge.Sender.Once.{is_distinct}
use google_messages_multidev.Model.{Participant}
use google_messages_multidev.Platform.{Platform}
use google_messages_multidev.Prelude.Core.{
  Bool, List, Option, [], arith, false, inl, inr, none, not, refl, some, true, ◌&&◌, ◌||◌, ◌∷◌, ◌≡◌,
}
use google_messages_multidev.Prelude.Tests.{Bool-cases, Option-cases, if◌then◌else◌}
use google_messages_multidev.Prelude.Text.{Text, is_empty, text_eq, text_eq_refl, text_eq→eq, txt}
use google_messages_multidev.Result.{Result, corrupt, err, invalid, ok, or_error}
use google_messages_multidev.Store.Db.{Db, record_key}
use google_messages_multidev.Store.Records.{get_value, on_latest}

unfoldable pub own_addresses : List Participant → List Text
own_addresses [] = []
own_addresses (p ∷ ps) =
    let rest = own_addresses ps in
    if p.is_me && not (is_empty p.address) then p.address ∷ rest else rest

-- The second walk; none where a participant has no address.
unfoldable pub addresses_behind : List Text → List Text → List Participant → Option (List Text)
addresses_behind self seen [] = some []
addresses_behind self seen (p ∷ ps) =
    let skipped = addresses_behind self seen ps in
    let kept = addresses_behind self (p.address ∷ seen) ps in
    if p.is_me || (mentions p.address self || mentions p.address seen)
    then skipped
    else if is_empty p.address
    then none
    else elim kept [ none ↦ none | some rest ↦ some (p.address ∷ rest) ]

unfoldable pub recipients_of : List Participant → Option (List Text)
unfolding own_addresses addresses_behind
recipients_of ps = addresses_behind (own_addresses ps) [] ps

-- `ConversationRecipients`; the error of a missing address wraps ErrInvalid.
unfoldable pub conversation_recipients : {env : Platform} → Text → Db env → Result (List Text)
unfolding recipients_of
conversation_recipients {env} id db =
    elim (get_value on_latest (record_key (txt "conversation") id) db) [
      | err e ↦ err e
      | ok plain ↦ elim (env.json.conversation_codec.unmarshal plain) [
        | none ↦ err corrupt
        | some conv ↦ or_error (recipients_of conv.participants) invalid
      ]
    ]

-- Whether an address is that of a participant other than the user.
unfoldable pub is_addressed : Text → List Participant → Bool
is_addressed address [] = false
is_addressed address (p ∷ ps) =
    (not p.is_me && text_eq p.address address) || is_addressed address ps

addresses_behind-lists :
    (self seen : List Text) (ps : List Participant) (found : List Text) (address : Text)
    → addresses_behind self seen ps ≡ some found
    → mentions address found
      ≡ (is_addressed address ps && (not (mentions address self) && not (mentions address seen)))
unfolding addresses_behind is_addressed mentions
addresses_behind-lists self seen [] found address h = ground arith
addresses_behind-lists self seen (p ∷ ps) found address h =
    let same = text_eq→eq p.address address in
    elim (Bool-cases (p.is_me || (mentions p.address self || mentions p.address seen))) [
      | inl c ↦ ground (arith, same, addresses_behind-lists self seen ps found address)
      | inr c ↦ elim (Option-cases (addresses_behind self (p.address ∷ seen) ps)) [
        | inl e ↦ absurd (ground arith)
        | inr (rest, e) ↦
            ground (arith, same, addresses_behind-lists self (p.address ∷ seen) ps rest address)
      ]
    ]

addresses_behind-distinct :
    (self seen : List Text) (ps : List Participant) (found : List Text)
    → addresses_behind self seen ps ≡ some found
    → is_distinct found ≡ true
unfolding addresses_behind is_distinct mentions
addresses_behind-distinct self seen [] found h = ground arith
addresses_behind-distinct self seen (p ∷ ps) found h =
    elim (Bool-cases (p.is_me || (mentions p.address self || mentions p.address seen))) [
      | inl c ↦ addresses_behind-distinct self seen ps found (ground arith)
      | inr c ↦ elim (Option-cases (addresses_behind self (p.address ∷ seen) ps)) [
        | inl e ↦ absurd (ground arith)
        | inr (rest, e) ↦ ground (
          arith,
          text_eq_refl p.address,
          addresses_behind-distinct self (p.address ∷ seen) ps rest,
          addresses_behind-lists self (p.address ∷ seen) ps rest p.address,
        )
      ]
    ]

filled : (u : Text) → is_empty u ≡ false → text_eq u [] ≡ false
unfolding text_eq
filled [] h = absurd (cc)
filled (a ∷ u) h = refl

addresses_behind-full :
    (self seen : List Text) (ps : List Participant) (found : List Text)
    → addresses_behind self seen ps ≡ some found
    → mentions [] found ≡ false
unfolding addresses_behind mentions text_eq
addresses_behind-full self seen [] found h = ground arith
addresses_behind-full self seen (p ∷ ps) found h =
    elim (Bool-cases (p.is_me || (mentions p.address self || mentions p.address seen))) [
      | inl c ↦ addresses_behind-full self seen ps found (ground arith)
      | inr c ↦ elim (Option-cases (addresses_behind self (p.address ∷ seen) ps)) [
        | inl e ↦ absurd (ground arith)
        | inr (rest, e) ↦ elim (Bool-cases (is_empty p.address)) [
          | inl a ↦ absurd (ground arith)
          | inr a ↦
              ground
                (arith, filled p.address a, addresses_behind-full self (p.address ∷ seen) ps rest)
        ]
      ]
    ]

own_addresses-filled : (ps : List Participant) → mentions [] (own_addresses ps) ≡ false
unfolding own_addresses mentions
own_addresses-filled [] = refl
own_addresses-filled (p ∷ ps) = elim (Bool-cases (is_empty p.address)) [
  | inl a ↦ ground (arith, own_addresses-filled ps)
  | inr a ↦ ground (arith, own_addresses-filled ps, filled p.address a)
]

-- The recipients behind a list of participants: an address is among them exactly if a participant
-- other than the user has it and no entry of the user has it too; none is named twice, and none is
-- empty.
pub recipients_of-lists :
    (ps : List Participant) (found : List Text)
    → recipients_of ps ≡ some found
    → ((address : Text)
        → mentions address found
          ≡ (is_addressed address ps && not (mentions address (own_addresses ps))))
      × (is_distinct found ≡ true)
      × (mentions [] found ≡ false)
unfolding recipients_of
recipients_of-lists ps found h = (
  λ address.
      unfold mentions in
      ground (arith, addresses_behind-lists (own_addresses ps) [] ps found address h),
  addresses_behind-distinct (own_addresses ps) [] ps found h,
  addresses_behind-full (own_addresses ps) [] ps found h,
)
