-- ===== src/Lib.antt =====
-- The bridge between a phone's messages and several devices: the store that makes it durable.
--
-- The program receives events of a phone from a provider, keeps them in an encrypted bbolt
-- database, serves them to its clients by a cursor, and sends what clients put into an outbox.
-- This library models the package internal/store, the records of internal/model that it keeps, and
-- of the package internal/bridge how it follows its connection to the phone, pairs with it, sends
-- what is queued and wakes its clients.
--
-- Parts, and the files that model them:
--   Model, Model/Request, Model/Preview   internal/model/model.go: records, `SendRequest.Equal`, and
--                                         `Message.PreviewText` over runes
--   Event                                 the event of internal/store/store.go
--   Platform, Platform/Sample             bbolt, the AEAD cipher, encoding/json and SHA-256, and a
--                                         platform on which their laws hold
--   Store/Db, Store/Laws                  `Store`, transactions, `encrypt`, `decrypt`, `sequence`
--   Store/Events and below                `appendTx`, `Events`, `observeTx`, `indexMessage`
--   Store/Epochs and below                `epoch`, `stampEpoch`, `entityCurrentTx`, `SessionSummary`,
--                                         `AdoptStoredRecords` (internal/store/pairing.go, records.go)
--   Store/Outbox and below                the outbox of internal/store/records.go
--   Store/Conversations and below         internal/store/conversation.go
--   Store/Apply and below                 `Append`, `AppendIfUnchanged`, `Apply` (store.go)
--   Store/History and below               internal/store/features.go
--   Store/Pairing and below               the rest of internal/store/pairing.go, pairing_recovery.go
--   Store/Records                         the reads of internal/store/records.go, and push.go
--   Store/Network and below               internal/store/network.go
--   Bridge, Bridge/Outages, Reports       the connection's status: `connection`, `setStateLocked` of
--                                         internal/bridge/service.go, `trackOutage` of outage.go
--   Bridge/Hub and below                  internal/bridge/hub.go
--   Bridge/Provider                       the interface of internal/provider/provider.go
--   Bridge/Worker, Sender and below       `sendOne`, `claimSend` of internal/bridge/service.go, and
--                                         `upload`, `prepareMedia` of internal/bridge/features.go
--   Bridge/Pairing and below              internal/bridge/pairing.go, pairing_recovery.go, and the
--                                         pairing of internal/bridge/whatsapp.go
--   Bridge/Requests, Queue and below      `validateRequest` (features.go) and `Queue` (service.go)
--   Bridge/Push and below                 internal/bridge/push.go
--   Bridge/Imports and below              internal/bridge/history.go
--   Bridge/Sync and below                 `apply`, `reconcile`, `MarkRead`, `Attachment`,
--                                         `RequestAttachment` of service.go
--   Bridge/Contacts, Delays               contacts.go, and the delays of supervisor.go and service.go
--   Examples and below                    the theorems at concrete inputs
--   Prelude, Result                       texts, byte orders, ordered tables, errors
--
-- How code and model correspond. A Go method of `Store` is the function of the same name in antt's
-- spelling, from a database to a result with a database; `appendTx` is `append_tx`. A bucket is a
-- field of `Db`; what a transaction computes before it fails is dropped by `update`. A value is
-- sealed with the next of a stream of nonces, which `draws` counts; a transaction that fails gives
-- its nonces back. `now` is the clock, which is read once in a transaction. Texts are lists of
-- bytes, but those of a message are read as runes where its preview is made. The states of outbox
-- records and of jobs are enumerated, with a constructor for any other string. Times are numbers
-- of nanoseconds, with 0 for the zero time.
--
-- The bridge's goroutines are steps on its state. A call of the provider is a step in which
-- anything may be answered, and during which other goroutines may commit to the store: the record
-- Around says what they do, by the number of calls before. A channel of one token is a Boolean,
-- the buffered channel of a subscription a list of at most 32 events. A mutex that is held over a
-- whole operation makes it one step. Contexts are Booleans that say whether they have ended, and
-- log lines are left out. `Send`, `React` and `CreateConversation` are called through `hand_over`
-- alone, which logs the request in `dispatched` with each call.
--
-- What is taken from outside the repository is a parameter, in Platform: bbolt's buckets are held
-- to ordered tables, the cipher opens what it sealed under the same nonce and context, and
-- unmarshal undoes marshal (the escapes that json.Marshal puts into a RawMessage, and what it makes
-- of strings that are not UTF-8, are outside). A Put never fails, though bbolt refuses an empty key; disk errors and
-- the limits of bbolt are outside. The flag `Historical` of an event is an argument of `apply`.
--
-- Bounds. Sequence numbers and generations are 64 bits wide: generations wrap, and the log's
-- theorems ask for fewer than 256 ^ 8 events. A conversation's unread count wraps at 32 bits. The
-- counters of a job's pages and records are unbounded. Every loop of the store walks the entries
-- of a bucket, so none needs fuel; that of `WatchForPush` has fuel above the number of events
-- behind its cursor. A walk that deletes what it visits is held to visit every entry.
--
-- Not modelled: `Open` with its migrations (`ensureMessageIndex`, `ensureConversationPreviews`),
-- `Close`, `Subscriptions`, `NetworkScan` and nested network transactions; of the bridge service,
-- the address book, `SaveUpload`, `Typing`, the loops that wait and wire the
-- workers together, and the notice of a pairing; the providers, the HTTP API and the clients,
-- which use the store; the library under third_party.
pub mod Prelude
pub mod Model
pub mod Result
pub mod Event
pub mod Platform
pub mod Store
pub mod Bridge
pub mod Examples
