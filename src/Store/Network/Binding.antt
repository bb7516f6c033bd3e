-- ===== src/Store/Network/Binding.antt =====
-- `BindNetwork` of internal/store/network.go: a database keeps the network it was first opened for.
use google_messages_multidev.Platform.{Platform}
use google_messages_multidev.Prelude.Assoc.{lookup, lookup-nil}
use google_messages_multidev.Prelude.Core.{
  Option, ap, arith, false, inl, inr, none, refl, some, ◌≡◌,
}
use google_messages_multidev.Prelude.Tests.{Bool-cases, if◌then◌else◌}
use google_messages_multidev.Prelude.Text.{Text, is_empty, text_eq, text_eq_iff, txt}
use google_messages_multidev.Result.{Result-cases, err, ok, wrong_network}
use google_messages_multidev.Store.Db.{Db}
use google_messages_multidev.Store.Epochs.{bucket_or_new}
use google_messages_multidev.Store.Events.{plain_at}
use google_messages_multidev.Store.Laws.{plain_at-put_self}
use google_messages_multidev.Store.Network.{
  bind_network, bind_value, network_context, network_get, network_put, open_network,
}

module _ {env : Platform} where
  open env use {Bytes, raw, bolt}

  network_get-put :
      (network : Text) (db : Db env)
      → network_get (txt "network") (network_put (txt "network") (some (raw network)) db)
        ≡ ok (some (raw network))
  unfolding network_get network_put
  network_get-put network db =
      plain_at-put_self env (bucket_or_new env db.network) (txt "network")
        (network_context (txt "network")) db.draws (raw network)

  network_get-open :
      (key : Text) (db : Db env) → network_get key (open_network db) ≡ network_get key db
  unfolding network_get open_network bucket_or_new plain_at
  network_get-open key db = ground (
    arith,
    bolt.get-eq-lookup bolt.empty key,
    ap (lookup key) bolt.entries-empty,
    lookup-nil {V = Bytes} key,
  )

  -- The name that a database is bound to, after a binding.
  IsBound : Text → Db env → Type 0
  IsBound network db =
      (v : Bytes) × (network_get (txt "network") db ≡ ok (some v))
      × (env.octets v ≡ network)
      × (open_network db ≡ db)

  open-put :
      (network : Text) (db : Db env)
      → open_network (network_put (txt "network") (some (raw network)) db)
        ≡ network_put (txt "network") (some (raw network)) db
  unfolding open_network network_put bucket_or_new
  open-put network db = refl

  open-open : (db : Db env) → open_network (open_network db) ≡ open_network db
  unfolding open_network bucket_or_new
  open-open db = refl

  bind_value-IsBound :
      (network : Text) (old : Option Bytes) (db db' : Db env)
      → network_get (txt "network") db ≡ ok old
      → open_network db ≡ db
      → bind_value network old db ≡ ok (tt, db')
      → IsBound network db'
  unfolding bind_value IsBound
  bind_value-IsBound network none db db' g o h = (
    raw network,
    ground (arith, network_get-put network db),
    env.octets-raw network,
    ground (arith, open-put network db),
  )
  bind_value-IsBound network (some v) db db' g o h = elim (Bool-cases (is_empty (env.octets v))) [
    | inl e ↦ (
      raw network,
      ground (arith, network_get-put network db),
      env.octets-raw network,
      ground (arith, open-put network db),
    )
    | inr e ↦ (v, ground arith, ground (arith, text_eq_iff (env.octets v) network), ground arith)
  ]

  bind_network-IsBound :
      (network : Text) (db db' : Db env)
      → bind_network network db ≡ ok (tt, db')
      → IsBound network db'
  unfolding bind_network
  bind_network-IsBound network db db' h =
      elim (Result-cases (network_get (txt "network") (open_network db))) [
        | inl (old, e) ↦
            bind_value-IsBound network old (open_network db) db' e (open-open db) (ground arith)
        | inr (x, e) ↦ absurd (ground arith)
      ]

  -- A database that was bound to a network, of a name that is not empty, binds to it again without a change, and to no other.
  pub bind_network-once :
      (network asked : Text) (db db' : Db env)
      → is_empty network ≡ false
      → bind_network network db ≡ ok (tt, db')
      → bind_network asked db' ≡ (if text_eq network asked then ok (tt, db') else err wrong_network)
  unfolding bind_network bind_value IsBound
  bind_network-once network asked db db' n h =
      let (v, g, o, same) = bind_network-IsBound network db db' h in
      ground (arith, same, g, o, ap (λ d. network_get (txt "network") d) same)
