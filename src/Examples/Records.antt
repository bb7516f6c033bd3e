-- ===== src/Examples/Records.antt =====
-- The binding to a network, the preview of a conversation and the codings at concrete inputs.
use google_messages_multidev.Examples.Data.{hello, new_db, runs}
use google_messages_multidev.Examples.Outbox.{db_or}
use google_messages_multidev.Model.{Conversation}
use google_messages_multidev.Model.Request.{request_equal, request_equal_iff}
use google_messages_multidev.Platform.{LatestMessage}
use google_messages_multidev.Platform.Sample.{octets_of, sample}
use google_messages_multidev.Prelude.Core.{[], arith, false, none, refl, some, true, ◌↔◌, ◌≡◌, inr}
use google_messages_multidev.Prelude.Tests.{if◌then◌else◌}
use google_messages_multidev.Prelude.Text.{text_eq, text_lt, txt}
use google_messages_multidev.Result.{Result, err, ok, wrong_network}
use google_messages_multidev.Store.Conversations.{merge_latest}
use google_messages_multidev.Store.Conversations.Merge.{merge_latest-again, merge_latest-unchanged}
use google_messages_multidev.Store.Db.{
  Db, decrypt, decrypt-encrypt, encrypt, sequence, text_lt-sequence,
}
use google_messages_multidev.Store.Epochs.{bucket_or_new, is_some}
use google_messages_multidev.Store.Network.{
  bind_network, bind_value, google, has_google_data, network_get, network_put, open_network,
}
use google_messages_multidev.Store.Network.Binding.{bind_network-once}

abbrev bound : Result (Unit {0} × Db sample)
bound = bind_network google new_db

bound_ok : bound ≡ ok (tt, db_or bound)
unfolding runs bind_network bind_value open_network network_get network_put bucket_or_new
    has_google_data is_some
bound_ok = refl

bind_network-once_example :
    bind_network (txt "whatsapp") (db_or bound)
    ≡ (if text_eq google (txt "whatsapp") then ok (tt, db_or bound) else err wrong_network)
unfolding text_eq
bind_network-once_example =
    bind_network-once google (txt "whatsapp") new_db (db_or bound) refl bound_ok

abbrev pub chat : Conversation
chat = record {
  archived = false;
  pinned = false;
  muted_until = 0;
  schema = 1;
  id = txt "c1";
  name = txt "Chat";
  preview = txt "hello";
  updated = 5;
  unread = false;
  unread_count = 0;
  read_only = false;
  protocol = txt "whatsapp";
  state = [];
  participants = [];
  preview_sender_id = txt "s1";
  preview_direction = txt "incoming";
}

abbrev news : LatestMessage
news = record {
  message_id = txt "m1";
  time = 6;
  preview = txt "news";
  sender_id = txt "s2";
  direction = txt "incoming";
}

merge_latest-again_example :
    merge_latest (merge_latest chat news (some false)).0 news (some false)
    ≡ ((merge_latest chat news (some false)).0, false)
merge_latest-again_example =
    merge_latest-again chat news (some false) (some false) (inr (refl, refl))

merge_latest-unchanged_example : (merge_latest chat (record news { time = 4 }) none).0 ≡ chat
unfolding merge_latest
merge_latest-unchanged_example = merge_latest-unchanged chat (record news { time = 4 }) none refl

request_equal_iff_example :
    (request_equal hello (record hello { text = [] }) ≡ true) ↔ (hello ≡ record hello { text = [] })
request_equal_iff_example = request_equal_iff hello (record hello { text = [] })

decrypt-encrypt_example :
    decrypt sample (encrypt sample 3 (octets_of (txt "secret")) (txt "outbox:k1")) (txt "outbox:k1")
    ≡ ok (octets_of (txt "secret"))
decrypt-encrypt_example = decrypt-encrypt sample 3 (octets_of (txt "secret")) (txt "outbox:k1")

text_lt-sequence_example : text_lt (sequence 255) (sequence 256) ≡ true
text_lt-sequence_example = text_lt-sequence 255 256 (omega arith) (omega arith)
