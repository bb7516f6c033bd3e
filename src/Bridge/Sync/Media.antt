-- ===== src/Bridge/Sync/Media.antt =====
-- Attachments that were fetched are kept (internal/bridge/service.go, `Attachment`).
use google_messages_multidev.Bridge.Provider.{Around, Provider}
use google_messages_multidev.Bridge.Sync.{attachment, fetch_media, keep_media}
use google_messages_multidev.Bridge.Worker.{Worker, call_provider}
use google_messages_multidev.Platform.{Platform}
use google_messages_multidev.Prelude.Core.{Bool, arith, inl, inr, true, ℕ, ◌≡◌}
use google_messages_multidev.Prelude.Lists.{length}
use google_messages_multidev.Prelude.Tests.{◌==◌}
use google_messages_multidev.Prelude.Text.{Text, txt}
use google_messages_multidev.Result.{Result, Result-cases, err, ok}
use google_messages_multidev.Store.Db.{Db, record_context}
use google_messages_multidev.Store.Laws.{plain_at-put_self}
use google_messages_multidev.Store.Records.{
  get_value, on_media, on_private, put_value, set_shelf, shelf, shelf_name,
}

module _ {env : Platform} where
  open env use {Bytes}

  get-put_media :
      (id : Text) (content : Bytes) (db : Db env)
      → get_value on_media id (put_value on_media id content db) ≡ ok content
  unfolding get_value put_value shelf set_shelf shelf_name
  get-put_media id content db =
      ground (
        arith,
        plain_at-put_self env db.media id (record_context (txt "media") id) db.draws content,
      )

  keeps_fetched :
      (id : Text) (asked : Result Bytes) (w w' : Worker env) (content : Bytes)
      → keep_media id asked w ≡ (ok content, w')
      → get_value on_media id w'.db ≡ ok content
  unfolding keep_media
  keeps_fetched id (err e) w w' content h = absurd (ground arith)
  keeps_fetched id (ok found) w w' content h = ground (arith, get-put_media id found w.db)

  attachment-stored :
      (p : Provider env) (around : Around env) (has_provider : Bool) (id : Text) (w w' : Worker env)
      (content : Bytes)
      → attachment p around has_provider id w ≡ (ok content, w')
      → ((length id == 64) ≡ true) × (get_value on_media id w'.db ≡ ok content)
  unfolding attachment fetch_media
  attachment-stored p around has_provider id w w' content h =
      elim (Result-cases (get_value on_media id w.db)) [
        | inl (kept, e) ↦ ground arith
        | inr (x, e) ↦ elim (Result-cases (get_value on_private id w.db)) [
          | inr (y, r) ↦ absurd (ground arith)
          | inl (metadata, r) ↦
              let f : ℕ → Result Bytes = λ n. p.attachment n metadata in
              let asked = call_provider around f w in
              let kept = keeps_fetched id asked.0 asked.1 w' content in
              (ground arith, kept (ground arith))
        ]
      ]

  -- Once `Attachment` has returned the bytes of an attachment, every later call for it, before the
  -- store changes, returns the same bytes from the store: without a call of the provider, and also
  -- without a connection.
  pub attachment-kept :
      (p later : Provider env) (around around_later : Around env) (has_provider connected : Bool)
      (id : Text) (w w' : Worker env) (content : Bytes)
      → attachment p around has_provider id w ≡ (ok content, w')
      → attachment later around_later connected id w' ≡ (ok content, w')
  unfolding attachment
  attachment-kept p later around around_later has_provider connected id w w' content h =
      let (long, stored) = attachment-stored p around has_provider id w w' content h in ground arith
