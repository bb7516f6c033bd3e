-- ===== src/Result.antt =====
-- Go's `(value, error)` results, with the errors that the modelled code returns or tests for.
use google_messages_multidev.Prelude.Core.{
  Bool, Option, false, inl, inr, none, refl, some, true, ◌≡◌, ◌⊎◌,
}
use google_messages_multidev.Prelude.Text.{Text}

pub data Error : Type 0 where
  not_found : Error  -- store.ErrNotFound
  conflict : Error  -- store.ErrConflict
  corrupt : Error  -- a record that does not decrypt or does not unmarshal
  invalid_event : Error  -- "invalid event"
  invalid_state : Error  -- "invalid send result state"
  invalid_conversation : Error  -- "invalid conversation result"
  invalid_limit : Error  -- "limit must be 1..1000"
  invalid_marker : Error  -- "invalid pairing attempt marker"
  invalid_digest : Error  -- "invalid pairing agent digest"
  wrong_network : Error  -- "existing database belongs to google-messages", "does not match"
  not_generated : Error  -- the error of a callback
  invalid : Error  -- bridge.ErrInvalid
  in_pairing : Error  -- bridge.ErrPairing
  bad_ticket : Error  -- bridge.ErrPairingTicket
  storage : Error  -- bridge.ErrStorage, and what wraps it
  rejected_send : Error  -- provider.ErrRejected
  recipient_unavailable : Error  -- provider.ErrRecipientUnavailable, which wraps ErrRejected
  too_large : Error  -- provider.ErrTooLarge
  unavailable : Error  -- provider.ErrUnavailable
  bad_cursor : Error  -- provider.ErrUnsupportedCursor, ErrInvalidCursor and ErrInvalidFolder
  canceled_call : Error  -- context.Canceled
  other_failure : Text → Error  -- any other error of a provider

pub data Result {ℓ} (A : Type ℓ) : Type ℓ where
  ok : A → Result A
  err : Error → Result A

abbrev pub is_not_found : Error → Bool
is_not_found not_found = true
is_not_found _ = false

abbrev pub is_conflict : Error → Bool
is_conflict conflict = true
is_conflict _ = false

abbrev pub is_storage : Error → Bool
is_storage storage = true
is_storage _ = false

-- `errors.Is(err, provider.ErrRejected)`.
abbrev pub is_rejection : Error → Bool
is_rejection rejected_send = true
is_rejection recipient_unavailable = true
is_rejection _ = false

abbrev pub or_error {ℓ} : {A : Type ℓ} → Option A → Error → Result A
or_error none e = err e
or_error (some a) e = ok a

pub Result-cases {ℓ} :
    {A : Type ℓ} (r : Result A) → ((a : A) × (r ≡ ok a)) ⊎ ((e : Error) × (r ≡ err e))
Result-cases (ok a) = inl (a, refl)
Result-cases (err e) = inr (e, refl)
