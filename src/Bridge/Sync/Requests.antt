-- ===== src/Bridge/Sync/Requests.antt =====
-- `RequestAttachment` of internal/bridge/service.go: full media is asked for once a minute at most.

use google_messages_multidev.Bridge.Provider.{Around}
use google_messages_multidev.Bridge.Worker.{Worker, call_provider}
use google_messages_multidev.Platform.{Platform}
use google_messages_multidev.Prelude.Assoc.{
  Table, erase, insert, lookup, lookup-erase, lookup-insert,
}
use google_messages_multidev.Prelude.Core.{
  Bool, List, [], ap, arith, false, inl, inr, none, not, some, ℕ, ◌++◌, ◌+◌, ◌<◌, ◌∙◌, ◌∷◌, ◌≡◌,
}
use google_messages_multidev.Prelude.Lists.{All, length}
use google_messages_multidev.Prelude.Tests.{Bool-cases, if◌then◌else◌, ltb, ◌==◌}
use google_messages_multidev.Prelude.Text.{Text, text_eq, text_eq_refl, text_eq→eq, txt}
use google_messages_multidev.Result.{Result, Result-cases, err, invalid, ok, unavailable}
use google_messages_multidev.Store.Records.{get_value, on_private}

-- One minute, in nanoseconds.
abbrev pub request_every : ℕ
request_every = 60000000000

-- `provider.PartKey`.
abbrev pub part_key : Text → Text
part_key id = id ++ txt ".part"

-- Whether the last request is less than a minute old; a missing one is from year 1.
unfoldable pub asked_lately : Text → ℕ → Table ℕ → Bool
asked_lately id now requested = elim (lookup id requested) [
  | none ↦ false
  | some last ↦ ltb now (last + request_every)
]

module _ {env : Platform} (around : Around env)
    (request_media : ℕ → env.Bytes → Result (Unit {0})) where
  -- The call, and the record of it, which a failure takes back.
  unfoldable pub ask_media :
      Text → env.Bytes → Table ℕ → Worker env → Result (Unit {0}) × (Table ℕ × Worker env)
  ask_media id part requested w =
      let noted = insert id w.db.now requested in
      let asked = call_provider around (λ n. request_media n part) w in
      elim asked.0 [ err e ↦ (err e, (erase id noted, asked.1)) | ok u ↦ (ok tt, (noted, asked.1)) ]

  -- `RequestAttachment`, with whether a provider is connected; `requested` is `mediaRequested`.
  unfoldable pub request_attachment :
      Bool → Text → Table ℕ → Worker env → Result (Unit {0}) × (Table ℕ × Worker env)
  unfolding asked_lately ask_media
  request_attachment connected id requested w =
      if not (length id == 64)
      then (err invalid, (requested, w))
      else elim (get_value on_private (part_key id) w.db) [
        | err e ↦ (err e, (requested, w))
        | ok part ↦
            if not connected
            then (err unavailable, (requested, w))
            else if asked_lately id w.db.now requested
            then (ok tt, (requested, w))
            else ask_media id part requested w
      ]

  ask_media-notes :
      (id : Text) (part : env.Bytes) (requested requested' : Table ℕ) (w w' : Worker env)
      → ask_media id part requested w ≡ (ok tt, (requested', w'))
      → lookup id requested' ≡ some w.db.now
  unfolding ask_media
  ask_media-notes id part requested requested' w w' h =
      let f : ℕ → Result (Unit {0}) = λ n. request_media n part in
      elim (Result-cases (call_provider around f w).0) [
        | inr (x, e) ↦ absurd (ground arith)
        | inl (u, e) ↦ ground (arith, lookup-insert id id w.db.now requested, text_eq_refl id)
      ]

  -- A recent request for the attachment is not repeated.
  request_attachment-waits :
      (connected : Bool) (id : Text) (last : ℕ) (requested : Table ℕ) (w : Worker env)
      → lookup id requested ≡ some last
      → w.db.now < last + request_every
      → (request_attachment connected id requested w).1 ≡ (requested, w)
  unfolding request_attachment asked_lately
  request_attachment-waits connected id last requested w noted t =
      elim (Result-cases (get_value on_private (part_key id) w.db)) [
        | inr (x, e) ↦ ground arith
        | inl (found, e) ↦ ground arith
      ]

  ask_media-others :
      (id other : Text) (part : env.Bytes) (requested : Table ℕ) (w : Worker env)
      → text_eq other id ≡ false
      → lookup id (ask_media other part requested w).1.0 ≡ lookup id requested
  unfolding ask_media
  ask_media-others id other part requested w n =
      let f : ℕ → Result (Unit {0}) = λ k. request_media k part in
      let noted = insert other w.db.now requested in
      elim (Result-cases (call_provider around f w).0) [
        | inr (x, e) ↦
            ground (arith, lookup-erase other id noted, lookup-insert other id w.db.now requested)
        | inl (u, e) ↦ ground (arith, lookup-insert other id w.db.now requested)
      ]

  request_attachment-others :
      (connected : Bool) (id other : Text) (requested : Table ℕ) (w : Worker env)
      → text_eq other id ≡ false
      → lookup id (request_attachment connected other requested w).1.0 ≡ lookup id requested
  unfolding request_attachment
  request_attachment-others connected id other requested w n =
      elim (Result-cases (get_value on_private (part_key other) w.db)) [
        | inr (x, e) ↦ ground arith
        | inl (part, e) ↦ ground (arith, ask_media-others id other part requested w n)
      ]

  request_attachment-keeps :
      (connected : Bool) (id other : Text) (last : ℕ) (requested : Table ℕ) (w : Worker env)
      → lookup id requested ≡ some last
      → w.db.now < last + request_every
      → lookup id (request_attachment connected other requested w).1.0 ≡ some last
  request_attachment-keeps connected id other last requested w noted t =
      elim (Bool-cases (text_eq other id)) [
        | inr n ↦ request_attachment-others connected id other requested w n ∙ noted
        | inl e ↦
            let same = text_eq→eq other id e in
            let unchanged =
              request_attachment-waits connected other last requested w (rw same noted) t in
            ap (λ (r : Table ℕ × Worker env). lookup id r.0) unchanged ∙ noted
      ]

-- A call of `RequestAttachment` by some client, at some later state of the bridge.
pub record Asking (env : Platform) : Type 0 where
  pub around : Around env
  pub request_media : ℕ → env.Bytes → Result (Unit {0})
  pub connected : Bool
  pub attachment : Text
  pub at : Worker env

module _ {env : Platform} where
  -- What calls one after the other leave of `mediaRequested`.
  unfoldable pub ask_all : List (Asking env) → Table ℕ → Table ℕ
  ask_all [] requested = requested
  ask_all (a ∷ rest) requested =
      ask_all rest
        ((request_attachment a.around a.request_media a.connected a.attachment requested a.at).1).0

  ask_all-keeps :
      (id : Text) (last : ℕ) (calls : List (Asking env)) (requested : Table ℕ)
      → lookup id requested ≡ some last
      → All (λ (a : Asking env). a.at.db.now < last + request_every) calls
      → lookup id (ask_all calls requested) ≡ some last
  unfolding ask_all
  ask_all-keeps id last [] requested noted t = noted
  ask_all-keeps id last (a ∷ rest) requested noted t =
      ask_all-keeps id last rest _
        (request_attachment-keeps a.around a.request_media a.connected id a.attachment last
          requested a.at noted t.0)
        t.1

  -- After a request that the phone took, whatever calls for any attachments come in within a minute
  -- of it and whatever becomes of them: one more call for the same attachment within that minute makes
  -- no call of the provider, and leaves the bridge and the table of requests as they are.
  pub request_attachment-once :
      (around later_around : Around env)
      (request_media later_media : ℕ → env.Bytes → Result (Unit {0})) (connected : Bool) (id : Text)
      (part : env.Bytes) (requested requested' : Table ℕ) (w w' later : Worker env)
      (calls : List (Asking env))
      → ask_media around request_media id part requested w ≡ (ok tt, (requested', w'))
      → All (λ (a : Asking env). a.at.db.now < w.db.now + request_every) calls
      → later.db.now < w.db.now + request_every
      → (request_attachment later_around later_media connected id
          (ask_all calls requested')
          later).1
        ≡ (ask_all calls requested', later)
  request_attachment-once around later_around request_media later_media connected id part requested
        requested' w w' later calls h all t =
      let noted = ask_media-notes around request_media id part requested requested' w w' h in
      request_attachment-waits later_around later_media connected id w.db.now
        (ask_all calls requested') later (ask_all-keeps id w.db.now calls requested' noted all) t
