-- ===== src/Store/Network.antt =====
-- internal/store/network.go: the records of a network's own state, and the network's name, which
-- a database keeps from its first opening on. A nested `NetworkTxn` is the same transaction.
pub mod Binding
use google_messages_multidev.Platform.{Platform}
use google_messages_multidev.Prelude.Core.{Bool, Option, none, not, some, suc, ◌&&◌, ◌||◌}
use google_messages_multidev.Prelude.Tests.{if◌then◌else◌, ltb}
use google_messages_multidev.Prelude.Text.{Text, is_empty, text_eq, txt}
use google_messages_multidev.Result.{Result, err, ok, wrong_network}
use google_messages_multidev.Store.Db.{Db, Tx, encrypt, record_key}
use google_messages_multidev.Store.Epochs.{bucket_or_new, is_some}
use google_messages_multidev.Store.Events.{plain_at}

abbrev pub google : Text
google = txt "google-messages"

abbrev pub network_context : Text → Text
network_context key = record_key (txt "network") key

module _ {env : Platform} where
  open env use {Bytes, raw, octets, bolt}

  -- The bucket is made when a transaction begins.
  unfoldable pub open_network : Db env → Db env
  unfolding bucket_or_new
  open_network db = record db { network = some (bucket_or_new env db.network) }

  -- `NetworkPut`; none is Go's nil, which deletes.
  unfoldable pub network_put : Text → Option Bytes → Db env → Db env
  unfolding bucket_or_new
  network_put key none db = record db {
    network = some (bolt.delete (bucket_or_new env db.network) key);
  }
  network_put key (some value) db = record db {
    network = some (
        bolt.put (bucket_or_new env db.network) key
          (encrypt env db.draws value (network_context key)));
    draws = suc db.draws;
  }

  -- `NetworkGet`.
  unfoldable pub network_get : Text → Db env → Result (Option Bytes)
  network_get key db = elim db.network [
    | none ↦ ok none
    | some b ↦ plain_at env b key (network_context key)
  ]

  -- Whether an earlier Google session or event is in the database.
  unfoldable pub has_google_data : Db env → Bool
  unfolding is_some
  has_google_data db =
      is_some (bolt.get db.meta (txt "session")) || ltb 0 (bolt.sequence_of db.events)

  unfoldable pub bind_value : Text → Option Bytes → Tx env (Unit {0})
  unfolding has_google_data
  bind_value network none db =
      if not (text_eq network google) && has_google_data db
      then err wrong_network
      else ok (tt, network_put (txt "network") (some (raw network)) db)
  bind_value network (some old) db =
      if is_empty (octets old)
      then if not (text_eq network google) && has_google_data db
        then err wrong_network
        else ok (tt, network_put (txt "network") (some (raw network)) db)
      else if text_eq (octets old) network
      then ok (tt, db)
      else err wrong_network

  -- `BindNetwork`.
  unfoldable pub bind_network : Text → Tx env (Unit {0})
  unfolding bind_value open_network
  bind_network network db = elim (network_get (txt "network") (open_network db)) [
    | err e ↦ err e
    | ok old ↦ bind_value network old (open_network db)
  ]
