-- ===== src/Entry/Accounts.antt =====
-- server/internal/api/handlers_auth.go: registration, devices, the token for the WebSocket and logout.
use astralrelay_online.Common.{
  ℕ, Bool, not, ◌&&◌, ◌||◌, Option, none, some, List, [], if◌then◌else◌, ◌==◌, ltb, length, Faults,
  Result, ok, err,
}
use astralrelay_online.Common.Text.{Text, lit, is_empty, trim_space, trim_prefix}
use astralrelay_online.Auth.Tables.{Store}
use astralrelay_online.Auth.Tokens.{
  Service, AuthError, username_taken, invalid_token, issue_ws_token, revoke_token,
}
use astralrelay_online.Auth.Accounts.{Drawn, RegisterInput, register}
use astralrelay_online.Auth.Devices.{DeviceInfo, list_devices, revoke_device, rename_device}
use astralrelay_online.Entry.Middleware.{
  Refusal, bad_request, unauthorized, internal_error, Caller, account, proxied, bearer,
}
use astralrelay_online.Entry.Requests.{KeysRequest, Codecs, decode_prekeys}

pub record RegisterRequest : Type 0 where
  pub username : Text
  pub password : Text
  pub device_id : Text
  pub keys : KeysRequest
  pub keys_backup : Option (Text × Text)

abbrev bare_input : Codecs → RegisterRequest → ℕ → RegisterInput
bare_input k req device = record {
  username = req.username;
  password = req.password;
  device_id = device;
  identity_key = k.unbase64 req.keys.identity_key;
  signed_prekey = k.unbase64 req.keys.signed_prekey;
  signed_prekey_sig = k.unbase64 req.keys.signature;
  signed_prekey_id = req.keys.key_id;
  one_time_prekeys = decode_prekeys k req.keys.one_time_prekeys;
  keys_backup_salt = [];
  keys_backup_blob = [];
}

abbrev with_backup : Codecs → Option (Text × Text) → RegisterInput → RegisterInput
with_backup k none in' = in'
with_backup k (some (salt, blob)) in' =
    if not (is_empty salt) && not (is_empty blob)
    then record in' { keys_backup_salt = k.unbase64 salt; keys_backup_blob = k.unbase64 blob }
    else in'

abbrev pub register_error : AuthError → Refusal
register_error username_taken = bad_request (lit "username_taken")
register_error _ = internal_error

abbrev registered : Result AuthError (Text × ℕ × Text) → Result Refusal (Text × ℕ × Text)
registered (ok made) = ok made
registered (err e) = err (register_error e)

-- The handler of register, after the body is decoded.
unfoldable pub handle_register :
    Codecs
    → Service
    → Faults
    → Drawn
    → ℕ
    → RegisterRequest
    → Store
    → Store × Result Refusal (Text × ℕ × Text)
handle_register k s f r now req st =
    let device = s.uuid_parse req.device_id in
    let made = register s f r now (with_backup k req.keys_backup (bare_input k req device.0)) st in
    if not device.1 || ltb (length req.password) 6
    then (st, err (bad_request (lit "invalid_request")))
    else (made.0, registered made.1)

-- The user and the device of the context: 0 and the empty text where a session is proxied.
abbrev pub context_user : Caller → ℕ
context_user (account u v) = u
context_user (proxied p) = 0

-- wsToken, whose context has the device's text, which parses.
unfoldable pub handle_ws_token : Service → ℕ → Caller → Result Refusal Text
handle_ws_token s now (proxied p) = err (unauthorized (lit "missing_context"))
handle_ws_token s now (account u v) =
    if u == 0
    then err (unauthorized (lit "missing_context"))
    else elim (issue_ws_token s now u v) [ none ↦ err internal_error | some t ↦ ok t ]

-- listDevices
unfoldable pub handle_list_devices : Bool → Caller → Store → Result Refusal (List DeviceInfo)
handle_list_devices fails (proxied p) st = err (unauthorized (lit "missing_context"))
handle_list_devices fails (account u v) st =
    if u == 0
    then err (unauthorized (lit "missing_context"))
    else elim (list_devices fails u v st) [ err e ↦ err internal_error | ok ds ↦ ok ds ]

abbrev or_internal {ℓ} :
    {A : Type ℓ} → A × Result AuthError (Unit {0}) → A × Result Refusal (Unit {0})
or_internal (a, err e) = (a, err internal_error)
or_internal (a, ok _) = (a, ok tt)

-- The device of the path, or the answer to a request without one.
abbrev path_device : Service → Caller → Text → Option ℕ
path_device s c id =
    let device = s.uuid_parse id in
    if context_user c == 0 || is_empty id || not device.1 then none else some device.0

-- revokeDevice
unfoldable pub handle_revoke_device :
    Service → Bool → Bool → ℕ → Caller → Text → Store → Store × Result Refusal (Unit {0})
handle_revoke_device s update_fails delete_fails now c id st = elim (path_device s c id) [
  | none ↦ (st, err (bad_request (lit "invalid_request")))
  | some v ↦ or_internal (revoke_device update_fails delete_fails now (context_user c) v st)
]

-- renameDevice; the name is `none` where the body does not decode.
unfoldable pub handle_rename_device :
    Service → Bool → Caller → Text → Option Text → Store → Store × Result Refusal (Unit {0})
handle_rename_device s fails c id none st = (st, err (bad_request (lit "invalid_request")))
handle_rename_device s fails c id (some name) st = elim (path_device s c id) [
  | none ↦ (st, err (bad_request (lit "invalid_request")))
  | some v ↦ or_internal (rename_device fails (context_user c) v name st)
]

-- The token of logout, which unlike extractToken takes a header without the word, and trims.
unfoldable pub logout_token : Text → Text
logout_token header = trim_space (trim_prefix header bearer)

abbrev logout_error : AuthError → Refusal
logout_error invalid_token = unauthorized (lit "invalid_token")
logout_error _ = internal_error

abbrev pub logged_out : Result AuthError (Unit {0}) → Result Refusal (Unit {0})
logged_out (err e) = err (logout_error e)
logged_out (ok _) = ok tt

-- logout
unfoldable pub handle_logout :
    Service → Bool → Bool → ℕ → ℕ → Text → Store → Store × Result Refusal (Unit {0})
handle_logout s fails update_fails now later header st =
    let t = logout_token header in
    let done = revoke_token s fails update_fails now later t st.tokens in
    if is_empty t
    then (st, err (unauthorized (lit "missing_token")))
    else (record st { tokens = done.0 }, logged_out done.1)
