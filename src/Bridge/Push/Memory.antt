-- ===== src/Bridge/Push/Memory.antt =====
-- What `WatchForPush` (internal/bridge/push.go) remembers of what it sent.
use google_messages_multidev.Bridge.Push.Spaced.{is_distinct-snoc, is_spaced, is_spaced-snoc}
use google_messages_multidev.Bridge.Push.{
  Notice, Watch, announce, forget, notice_of, push_memory, remember, should_push, watch_event,
  watch_events, watch_message,
}
use google_messages_multidev.Bridge.Sender.Once.{is_distinct}
use google_messages_multidev.Bridge.Sender.{mentions}
use google_messages_multidev.Event.{Event}
use google_messages_multidev.Model.{Message}
use google_messages_multidev.Platform.{Platform}
use google_messages_multidev.Prelude.Core.{
  List, [], ap, arith, false, inl, inr, refl, subst, sym, true, ◌++◌, ◌<◌, ◌∙◌, ◌∷◌, ◌≡◌, ◌≤◌, ◌⊎◌,
}
use google_messages_multidev.Prelude.Lists.{List-cases, length, length-append}
use google_messages_multidev.Prelude.Tests.{Bool-cases, Option-cases, ltb}
use google_messages_multidev.Prelude.Text.{Text, text_eq, text_eq_refl, txt}
use google_messages_multidev.Store.Db.{Db}
use mathlib.Core.List.{append_assoc}

forget_other : (id : Text) (us : List Text) → mentions id us ≡ false → forget id us ≡ us
unfolding forget mentions
forget_other id [] h = refl
forget_other id (u ∷ us) h = ground (arith, forget_other id us)

forget_first :
    (id : Text) (us : List Text) → is_distinct (id ∷ us) ≡ true → forget id (id ∷ us) ≡ us
unfolding forget is_distinct
forget_first id us h = ground (arith, forget_other id us, text_eq_refl id)

unfoldable pub tags : List Notice → List Text
tags [] = []
tags (n ∷ ns) = n.tag ∷ tags ns

tags-snoc : (ns : List Notice) (n : Notice) → tags (ns ++ n ∷ []) ≡ tags ns ++ n.tag ∷ []
unfolding tags
tags-snoc [] n = refl
tags-snoc (m ∷ ns) n = ap (λ l. m.tag ∷ l) (tags-snoc ns n)

-- The remembered messages are the last ones that were sent, no two the same: all of them, or as many
-- as the memory holds.
pub record Remembers (w : Watch) : Type 0 where
  pub one_set : w.seen ≡ w.order
  pub few : length w.order ≤ push_memory
  pub distinct : is_distinct w.order ≡ true
  pub older : List Text
  pub recent : tags w.sent ≡ older ++ w.order
  pub spaced : is_spaced push_memory (tags w.sent) ≡ true
  pub whole : (older ≡ []) ⊎ (length w.order ≡ push_memory)

spaced-snoc :
    (id : Text) (n : Notice) (w : Watch) (r : Remembers w)
    → n.tag ≡ id
    → mentions id w.seen ≡ false
    → is_spaced push_memory (tags (w.sent ++ n ∷ [])) ≡ true
spaced-snoc id n w r t new =
    let d = is_distinct-snoc w.order id r.distinct (rw (sym r.one_set) new) in
    let sent : tags (w.sent ++ n ∷ []) ≡ (r.older ++ w.order) ++ id ∷ [] =
      tags-snoc w.sent n
      ∙ ap (λ l. l ++ n.tag ∷ []) r.recent
      ∙ ap (λ (k : Text). (r.older ++ w.order) ++ k ∷ []) t in
    let before : is_spaced push_memory (r.older ++ w.order) ≡ true = rw (sym r.recent) r.spaced in
    rw sent (is_spaced-snoc push_memory r.older w.order id r.whole before d)

recent-snoc :
    (id : Text) (n : Notice) (w : Watch) (r : Remembers w)
    → n.tag ≡ id
    → tags (w.sent ++ n ∷ []) ≡ r.older ++ (w.order ++ id ∷ [])
recent-snoc id n w r t =
    ground (arith, tags-snoc w.sent n, r.recent, append_assoc r.older w.order (id ∷ []), t)

Remembers-keep :
    (id : Text) (n : Notice) (w : Watch)
    → Remembers w
    → n.tag ≡ id
    → mentions id w.seen ≡ false
    → length (w.order ++ id ∷ []) ≤ push_memory
    → Remembers
        (record w { seen = w.seen ++ id ∷ []; order = w.order ++ id ∷ []; sent = w.sent ++ n ∷ [] })
Remembers-keep id n w r t new small = record {
  one_set = ap (λ l. l ++ id ∷ []) r.one_set;
  few = small;
  distinct = is_distinct-snoc w.order id r.distinct (rw (sym r.one_set) new);
  older = r.older;
  recent = recent-snoc id n w r t;
  spaced = spaced-snoc id n w r t new;
  whole = elim r.whole [
    | inl e ↦ inl e
    | inr e ↦ absurd (omega (arith, e, small, length-append w.order (id ∷ [])))
  ];
}

distinct_tail :
    (id : Text) (ids : List Text) → is_distinct (id ∷ ids) ≡ true → is_distinct ids ≡ true
unfolding is_distinct
distinct_tail id ids h = ground arith

Remembers-drop :
    (id : Text) (n : Notice) (w : Watch) (oldest : Text) (rest : List Text)
    → Remembers w
    → n.tag ≡ id
    → mentions id w.seen ≡ false
    → w.order ++ id ∷ [] ≡ oldest ∷ rest
    → push_memory < length (w.order ++ id ∷ [])
    → Remembers (record w {
      seen = forget oldest (w.seen ++ id ∷ []);
      order = rest;
      sent = w.sent ++ n ∷ [];
    })
Remembers-drop id n w oldest rest r t new e full =
    let d : is_distinct (oldest ∷ rest) ≡ true =
      rw (sym e) (is_distinct-snoc w.order id r.distinct (rw (sym r.one_set) new)) in
    record {
      one_set =
          ap (λ l. forget oldest (l ++ id ∷ [])) r.one_set
          ∙ ap (forget oldest) e
          ∙ forget_first oldest rest d;
      few = omega (arith, r.few, length-append w.order (id ∷ []), ap length e);
      distinct = distinct_tail oldest rest d;
      spaced = spaced-snoc id n w r t new;
      whole = inr (omega (arith, full, r.few, length-append w.order (id ∷ []), ap length e));
      older = r.older ++ oldest ∷ [];
      recent =
          recent-snoc id n w r t
          ∙ ap (λ l. r.older ++ l) e
          ∙ sym (append_assoc r.older (oldest ∷ []) rest);
    }

module _ {env : Platform} where
  Remembers-announce :
      (m : Message) (db : Db env) (w : Watch)
      → mentions m.id w.seen ≡ false
      → Remembers w
      → Remembers (announce m db w)
  unfolding announce remember notice_of
  Remembers-announce m db w new r =
      let order = w.order ++ m.id ∷ [] in
      let n = notice_of m db in
      elim (Bool-cases (ltb push_memory (length order))) [
        | inr c ↦ subst Remembers (ground arith) (Remembers-keep m.id n w r refl new (ground arith))
        | inl c ↦ elim (List-cases order) [
          | inl e ↦ absurd (ground (arith, length-append w.order (m.id ∷ [])))
          | inr (oldest, rest, e) ↦
              subst Remembers (ground arith)
                (Remembers-drop m.id n w oldest rest r refl new e (ground arith))
        ]
      ]

  Remembers-watch_message :
      (event : Event env.Bytes) (db : Db env) (w : Watch)
      → Remembers w
      → Remembers (watch_message event db w)
  unfolding watch_message
  Remembers-watch_message event db w r = elim (Bool-cases (text_eq event.kind (txt "message"))) [
    | inr c ↦ subst Remembers (ground arith) r
    | inl c ↦ elim (Option-cases (env.json.message_codec.unmarshal event.payload)) [
      | inl e ↦ subst Remembers (ground arith) r
      | inr (m, e) ↦ elim (Bool-cases (should_push db.now m w.seen)) [
        | inr d ↦ subst Remembers (ground arith) r
        | inl d ↦
            subst Remembers (ground arith)
              (Remembers-announce m db w (unfold should_push in ground arith) r)
      ]
    ]
  ]

  -- After any events: what is remembered are the last messages that were announced, in their order,
  -- no two the same, and it is all of them or exactly 512. And no message was announced again within
  -- the 512 announcements that followed it.
  pub watch_events-Remembers :
      (events : List (Event env.Bytes)) (db : Db env) (w : Watch)
      → Remembers w
      → Remembers (watch_events events db w)
  unfolding watch_events watch_event
  watch_events-Remembers [] db w r = r
  watch_events-Remembers (e ∷ es) db w r = watch_events-Remembers es db (watch_event e db w) (
      Remembers-watch_message e db (record w { cursor = e.id })
        (record {
          one_set = r.one_set;
          few = r.few;
          distinct = r.distinct;
          older = r.older;
          recent = r.recent;
          spaced = r.spaced;
          whole = r.whole;
        }))
