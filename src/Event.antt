-- ===== src/Event.antt =====
-- `store.Event` of internal/store/store.go, over the type of the byte slices. `Historical`, which is
-- never marshalled, is an argument of `Store.Apply` in the model.
use google_messages_multidev.Prelude.Core.{ℕ}
use google_messages_multidev.Prelude.Text.{Text}

pub record Event {ℓ} (Bytes : Type ℓ) : Type ℓ where
  pub id : ℕ
  pub kind : Text
  pub entity_id : Text
  pub time : ℕ
  pub payload : Bytes
