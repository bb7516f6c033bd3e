-- ===== src/Store/Laws.antt =====
-- Laws of the buckets of internal/store, from the ordered tables that they are held to.
use google_messages_multidev.Platform.{Platform}
use google_messages_multidev.Prelude.Assoc.{lookup-erase, lookup-insert}
use google_messages_multidev.Prelude.Core.{arith, false, none, some, sym, ℕ, ◌≡◌}
use google_messages_multidev.Prelude.Tests.{if◌then◌else◌}
use google_messages_multidev.Prelude.Text.{Text, text_eq, text_eq_refl}
use google_messages_multidev.Result.{ok}
use google_messages_multidev.Store.Db.{decrypt-encrypt, encrypt}
use google_messages_multidev.Store.Events.{plain_at}

module _ (env : Platform) where
  open env use {Bytes, bolt}

  pub get-put :
      (b : bolt.Bucket) (k j : Text) (v : Bytes)
      → bolt.get (bolt.put b k v) j ≡ (if text_eq k j then some v else bolt.get b j)
  get-put b k j v =
      rw (bolt.get-eq-lookup (bolt.put b k v) j, bolt.entries-put b k v, bolt.get-eq-lookup b j)
        (lookup-insert k j v (bolt.entries b))

  pub get-delete :
      (b : bolt.Bucket) (k j : Text)
      → bolt.get (bolt.delete b k) j ≡ (if text_eq k j then none else bolt.get b j)
  get-delete b k j =
      rw (bolt.get-eq-lookup (bolt.delete b k) j, bolt.entries-delete b k, bolt.get-eq-lookup b j)
        (lookup-erase k j (bolt.entries b))

  pub get-set_sequence :
      (b : bolt.Bucket) (n : ℕ) (j : Text) → bolt.get (bolt.set_sequence b n) j ≡ bolt.get b j
  get-set_sequence b n j =
      rw (bolt.get-eq-lookup (bolt.set_sequence b n) j, bolt.entries-set_sequence b n)
        (sym (bolt.get-eq-lookup b j))

  -- What was sealed under a key's context is read back there.
  pub plain_at-put_self :
      (b : bolt.Bucket) (k context : Text) (draw : ℕ) (plain : Bytes)
      → plain_at env (bolt.put b k (encrypt env draw plain context)) k context ≡ ok (some plain)
  unfolding plain_at
  plain_at-put_self b k context draw plain = ground (
    arith,
    get-put b k k (encrypt env draw plain context),
    text_eq_refl k,
    decrypt-encrypt env draw plain context,
  )

  pub plain_at-put_ne :
      (b : bolt.Bucket) (k j context : Text) (v : Bytes)
      → text_eq k j ≡ false
      → plain_at env (bolt.put b k v) j context ≡ plain_at env b j context
  unfolding plain_at
  plain_at-put_ne b k j context v h = ground (arith, get-put b k j v)
