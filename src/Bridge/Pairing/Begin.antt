-- ===== src/Bridge/Pairing/Begin.antt =====
-- How a pairing begins: `beginPairing`, `savedPairingCookies`, `SubmitPairingCookies` and
-- `AdoptStoredRecords` of internal/bridge/pairing.go, and `beginWhatsAppPairing` of
-- internal/bridge/whatsapp.go.
use google_messages_multidev.Bridge.{record_connection_event}
use google_messages_multidev.Bridge.Pairing.{
  Desk, Outside, PairingState, dialing, expire_pairing, is_active, is_paired, is_waiting,
  notify_desk, storage_failure, unpaired, waiting_for_login,
}
use google_messages_multidev.Platform.{Platform}
use google_messages_multidev.Prelude.Assoc.{Table, lookup}
use google_messages_multidev.Prelude.Bytes.{uint64_bound}
use google_messages_multidev.Prelude.Core.{
  Bool, Option, [], false, none, not, some, true, ℕ, ◌%◌, ◌&&◌, ◌+◌, ◌||◌, ◌∷◌,
}
use google_messages_multidev.Prelude.Lists.{length}
use google_messages_multidev.Prelude.Tests.{if◌then◌else◌, leb, ltb, ◌==◌}
use google_messages_multidev.Prelude.Text.{Text, is_empty, text_eq, txt}
use google_messages_multidev.Result.{
  Result, bad_ticket, err, in_pairing, invalid, ok, or_error, storage,
}
use google_messages_multidev.Store.Db.{Db}
use google_messages_multidev.Store.Epochs.{adopt_stored_records, is_some, session_summary}
use google_messages_multidev.Store.Pairing.{
  begin_pairing_attempt, digest_key, meta_value, pairing_recovery,
}

abbrev pub cookie_names : Table Bool
cookie_names =
    (txt "SID", true)
    ∷ (txt "HSID", true)
    ∷ (txt "OSID", true)
    ∷ (txt "SSID", true)
    ∷ (txt "APISID", true)
    ∷ (txt "SAPISID", true)
    ∷ (txt "__Secure-1PSIDTS", false)
    ∷ []

abbrev pub max_cookie : ℕ
max_cookie = 8192

-- Ten minutes and three minutes, in nanoseconds.
abbrev pub login_lifetime : ℕ
login_lifetime = 600000000000

abbrev pub whatsapp_lifetime : ℕ
whatsapp_lifetime = 180000000000

-- A missing key of a map reads as the empty text.
unfoldable pub value_of : Text → Table Text → Text
unfolding lookup
value_of name cookies = elim (lookup name cookies) [ none ↦ [] | some value ↦ value ]

-- The walk of `savedPairingCookies` over the names.
unfoldable pub saved_values : Table Bool → Table Text → Option (Table Text)
unfolding value_of
saved_values [] cookies = some []
saved_values ((name, required) ∷ names) cookies =
    let value = value_of name cookies in
    let rest = saved_values names cookies in
    if (required && is_empty value) || ltb max_cookie (length value) then none else elim rest [
      | none ↦ none
      | some clean ↦ if is_empty value then some clean else some ((name, value) ∷ clean)
    ]

-- The two walks of `SubmitPairingCookies`.
unfoldable pub has_required : Table Bool → Table Text → Bool
unfolding value_of
has_required [] cookies = true
has_required ((name, required) ∷ names) cookies =
    not (required && is_empty (value_of name cookies)) && has_required names cookies

unfoldable pub clean_cookies : Table Text → Option (Table Text)
unfolding lookup
clean_cookies [] = some []
clean_cookies ((name, value) ∷ cookies) =
    let rest = clean_cookies cookies in
    elim (lookup name cookie_names) [
      | none ↦ rest
      | some required ↦
          if ltb max_cookie (length value)
          then none
          else elim rest [ none ↦ none | some clean ↦ some ((name, value) ∷ clean) ]
    ]

-- `phoneNumber`: a plus sign, a digit from 1 to 9, and 6 to 14 more digits.
unfoldable pub is_digit : ℕ → Bool
is_digit c = leb 48 c && leb c 57

unfoldable pub all_digits : Text → Bool
unfolding is_digit
all_digits [] = true
all_digits (c ∷ cs) = is_digit c && all_digits cs

unfoldable pub is_phone_number : Text → Bool
unfolding is_digit all_digits
is_phone_number (plus ∷ first ∷ more) =
    (plus == 43)
    && (is_digit first
        && (not (first == 48)
            && (all_digits more && (leb 6 (length more) && leb (length more) 14))))
is_phone_number _ = false

abbrev pub blank_pairing : PairingState
blank_pairing = record {
  automatic = false;
  recovery = none;
  qr = [];
  pairing_code = [];
  generation = 0;
  new_phone = false;
  phase = unpaired;
  reason = [];
  can_repair = false;
  agent_enrolled = false;
  required = false;
  required_reason = [];
  ticket = [];
  emoji = [];
  detail = [];
  expires = 0;
  summary = record { session_epoch = 0; previous_conversations = 0; previous_messages = 0 };
}

module _ {env : Platform} where
  open env use {Bytes, octets}

  -- `savedPairingCookies`.
  unfoldable pub saved_cookies : Outside env → Db env → Result (Table Text)
  unfolding saved_values
  saved_cookies outside db = elim (meta_value (txt "session") db) [
    | err e ↦ err storage
    | ok none ↦ err invalid
    | ok (some session) ↦
        if is_empty (octets session) then err invalid else elim (outside.session_cookies session) [
          | none ↦ err invalid
          | some auth ↦ or_error (saved_values cookie_names auth) invalid
        ]
  ]

  -- `PairingStatus`.
  unfoldable pub pairing_status : Outside env → Desk env → PairingState × Desk env
  unfolding expire_pairing saved_cookies storage_failure session_summary
  pairing_status outside d =
      let now = expire_pairing d in
      let s = now.pairing in
      let required =
        not (is_active s.phase) && text_eq now.status.state (txt "authentication_required") in
      let told = record s {
        required = s.required || required;
        required_reason = if required then now.status.reason else s.required_reason;
        reason =
            if required && (is_empty s.reason || is_paired s.phase)
            then now.status.reason
            else s.reason;
        summary = session_summary now.db;
        can_repair = elim (saved_cookies outside now.db) [
          | err e ↦ false
          | ok cookies ↦ not (length cookies == 0)
        ];
        agent_enrolled = elim (meta_value digest_key now.db) [
          | ok (some digest) ↦ length (octets digest) == 32
          | ok none ↦ false
          | err e ↦ false
        ];
      } in
      if now.whatsapp
      then elim (pairing_recovery now.db) [
        | ok recovery ↦ (record told { recovery = some recovery }, now)
        | err e ↦ (told, storage_failure now)
      ]
      else (told, now)

  -- `RequestReconnect`.
  unfoldable pub request_reconnect : Desk env → Desk env
  unfolding record_connection_event
  request_reconnect d = record d {
    status = record_connection_event d.db.now (txt "reconnect_requested") d.status;
    reconnect_wake = true;
    connection_canceled = true;
  }

  -- A new attempt, once it stands in the store.
  unfoldable pub open_pairing :
      PairingState → Option (Table Text) → Desk env → Result PairingState × Desk env
  unfolding storage_failure notify_desk request_reconnect
  open_pairing s cookies d = elim (begin_pairing_attempt d.db.now s.expires d.db) [
    | err e ↦ (err e, storage_failure d)
    | ok (u, db') ↦ (
      ok s,
      record (request_reconnect
          (notify_desk (record d { db = db'; pairing = s; cookies = cookies }))) {
            pair_wake = true;
          },
    )
  ]

  unfoldable pub next_attempt_number : Desk env → ℕ
  next_attempt_number d = (d.pairing.generation + 1) % uint64_bound

  unfoldable pub login_pairing : Text → Bool → Desk env → PairingState
  unfolding next_attempt_number
  login_pairing ticket new_phone d = record blank_pairing {
    generation = next_attempt_number d;
    new_phone = new_phone;
    phase = waiting_for_login;
    ticket = ticket;
    expires = d.db.now + login_lifetime;
    detail = txt "Sign in to Google using the pairing helper, then return here";
  }

  unfoldable pub reused_pairing : Bool → Desk env → PairingState
  unfolding login_pairing
  reused_pairing new_phone d = record (login_pairing [] new_phone d) {
    phase = dialing;
    detail = txt "Reconnecting with your saved Google sign-in; keep your phone nearby";
    can_repair = true;
  }

  -- The second half of `beginPairing`; without a saved sign-in, cookies of before stay.
  unfoldable pub begin_login : Outside env → Bool → Bool → Desk env → Result PairingState × Desk env
  unfolding login_pairing reused_pairing open_pairing
  begin_login outside reuse new_phone d =
      elim (if reuse then saved_cookies outside d.db else ok []) [
        | err e ↦ (err e, d)
        | ok saved ↦ elim (outside.new_ticket (next_attempt_number d)) [
          | err e ↦ (err e, d)
          | ok ticket ↦
              if reuse
              then open_pairing (reused_pairing new_phone d) (some saved) d
              else open_pairing (login_pairing ticket new_phone d) d.cookies d
        ]
      ]

  -- `beginPairing`.
  unfoldable pub begin_pairing :
      Outside env → Bool → Bool → Desk env → Result PairingState × Desk env
  unfolding begin_login
  begin_pairing outside reuse new_phone d =
      if d.offline_only
      then (err invalid, d)
      else if is_some d.running && not (is_active d.pairing.phase)
      then (err in_pairing, d)
      else if is_active d.pairing.phase && (not reuse || not (is_waiting d.pairing.phase))
      then (ok d.pairing, d)
      else begin_login outside reuse new_phone d

  unfoldable pub whatsapp_pairing : Bool → Desk env → PairingState
  unfolding next_attempt_number
  whatsapp_pairing automatic d = record blank_pairing {
    generation = next_attempt_number d;
    new_phone = true;
    phase = dialing;
    automatic = automatic;
    expires = d.db.now + whatsapp_lifetime;
    detail = txt "Connecting to WhatsApp";
  }

  -- `beginWhatsAppPairing`.
  unfoldable pub begin_whatsapp : Text → Bool → Desk env → Result PairingState × Desk env
  unfolding whatsapp_pairing open_pairing
  begin_whatsapp phone automatic d =
      if d.offline_only
      then (err invalid, d)
      else if is_active d.pairing.phase
      then (ok d.pairing, d)
      else if is_some d.running
      then (err in_pairing, d)
      else open_pairing (whatsapp_pairing automatic d) (some ((txt "phone", phone) ∷ [])) d

  -- `BeginWhatsAppPairing`, `BeginPairing` and `BeginRepairing`.
  unfoldable pub begin_whatsapp_by : Text → Desk env → Result PairingState × Desk env
  unfolding is_phone_number begin_whatsapp
  begin_whatsapp_by phone d =
      if not d.whatsapp || (not (is_empty phone) && not (is_phone_number phone))
      then (err invalid, d)
      else begin_whatsapp phone false d

  unfoldable pub begin_any : Outside env → Bool → Desk env → Result PairingState × Desk env
  unfolding begin_whatsapp_by begin_pairing
  begin_any outside new_phone d =
      if d.whatsapp then begin_whatsapp_by [] d else begin_pairing outside false new_phone d

  unfoldable pub begin_repairing : Outside env → Bool → Desk env → Result PairingState × Desk env
  unfolding begin_pairing
  begin_repairing outside new_phone d =
      if d.whatsapp then (err invalid, d) else begin_pairing outside true new_phone d

  -- `SubmitPairingCookies`.
  unfoldable pub submit_cookies : Text → Table Text → Desk env → Result (Unit {0}) × Desk env
  unfolding has_required clean_cookies
  submit_cookies ticket cookies d =
      if not (is_waiting d.pairing.phase)
        || (ltb d.pairing.expires d.db.now
            || (not (length ticket == 43) || not (text_eq ticket d.pairing.ticket)))
      then (err bad_ticket, d)
      else if not (has_required cookie_names cookies)
      then (err invalid, d)
      else elim (clean_cookies cookies) [
        | none ↦ (err invalid, d)
        | some clean ↦ (
          ok tt,
          record d {
            cookies = some clean;
            pairing = record (d.pairing) {
              phase = dialing;
              ticket = [];
              detail = txt "Contacting Google to pair your phone";
            };
            pair_wake = true;
          },
        )
      ]

  -- `AdoptStoredRecords` of the bridge; the store's, on buckets that take every Put, does not fail.
  unfoldable pub adopt_records : Desk env → Result ℕ × Desk env
  unfolding notify_desk
  adopt_records d = if is_active d.pairing.phase then (err in_pairing, d) else (
    ok (adopt_stored_records d.db).1,
    notify_desk (record d { db = (adopt_stored_records d.db).0 }),
  )
