-- ===== src/Auth/Examples.antt =====
-- Tests of the model of server/internal/auth/auth.go, and its theorems at concrete inputs.
use astralrelay_online.Common.{
  ℕ, zero, suc, ◌+◌, ◌≡◌, ◌≢◌, refl, true, false, none, some, List, [], ◌∷◌, arith, no_faults, ok,
  err, ltb, leb, if◌then◌else◌,
}
use astralrelay_online.Common.Text.{Text, lit, text_eq, trim_space, trim_left, trim_right, is_space}
use astralrelay_online.Dbenc.{encrypt, decrypt}
use astralrelay_online.Auth.Tables.{
  Store, find_account, find_user_id, find_device, find_token, is_found, insert_token, is_live,
  has_device, find_session,
}
use astralrelay_online.Auth.Tokens.{
  invalid_token, validate_token, validate_ws_token, validate_claims, parse_token, issue_token,
  issue_ws_token, access_claims, ws_claims, issued_to, revoke_token, revoke_claims, float_of_int,
  shift_of, half_even,
}
use astralrelay_online.Auth.Accounts.{
  give_token, store_key_backup, get_key_backup, seal_backup, user_address,
}
use astralrelay_online.Auth.Login.{LoginResult, login, log_in_user, ready_device, check_password}
use astralrelay_online.Auth.Devices.{on_device, sanitize_device_name, sanitize_runes, revoke_device}
use astralrelay_online.Auth.Proxy.{
  ProxySession, create_proxy_session, get_proxy_session, delete_session, hex_encode,
}
use astralrelay_online.Auth.Calls.{Call, logs_in, drops, cleans, step, run}
use astralrelay_online.Auth.Revoked.{escapes, revoke_device_final}
use astralrelay_online.Auth.Standing.{give_token_accepted}
use astralrelay_online.Auth.Kinds.{issue_ws_token_accepted}
use astralrelay_online.Auth.Backups.{get_key_backup-store_key_backup}
use astralrelay_online.Auth.Sessions.{get_proxy_session-create_proxy_session}
use astralrelay_online.Auth.DeviceNames.{byte_len}
use astralrelay_online.Auth.Setting.{
  spelled, service, drawn, store, ann_login, token, row, logged_in, service-IsSigning,
}

login_test : (login service no_faults (drawn 77) 10 (ann_login (lit "secret")) store).0 ≡ logged_in
unfolding login find_account text_eq check_password decrypt log_in_user ready_device has_device
    give_token issue_token encrypt insert_token find_token find_device find_user_id
login_test = refl

abbrev ann_result : LoginResult
ann_result = record { user_id = lit "@ann:a.org"; device_id = 9; token = token; keys_backup = none }

result_test :
    (login service no_faults (drawn 77) 10 (ann_login (lit "secret")) store).1 ≡ ok ann_result
unfolding login find_account text_eq check_password decrypt log_in_user ready_device has_device
    give_token issue_token encrypt insert_token find_token find_device find_user_id user_address
result_test = refl

given_test : (give_token service no_faults (drawn 77) 10 1 9 store).1 ≡ ok token
unfolding give_token issue_token encrypt
given_test = refl

device_test : is_found (find_device 9 store.devices) ≡ true
unfolding find_device
device_test = refl

user_test : is_found (find_user_id 1 store.users) ≡ true
unfolding find_user_id
user_test = refl

unused_test : is_found (find_token 77 store.tokens) ≡ false
unfolding find_token
unused_test = refl

abbrev further_calls : List Call
further_calls = logs_in no_faults (drawn 78) 20 (ann_login (lit "secret")) ∷ cleans 15 ∷ []

give_token_accepted_example :
    validate_token service false 1000 token
      (run service (give_token service no_faults (drawn 77) 10 1 9 store).0 further_calls).tokens
    ≡ some (1, 9)
give_token_accepted_example =
    give_token_accepted service no_faults (drawn 77) 10 1000 1 9 store token further_calls
      service-IsSigning (ground arith) given_test refl unused_test device_test user_test
      (ground arith) (tt, (ground arith, tt))

revoked_test : (revoke_token service false false 20 20 token logged_in.tokens).1 ≡ ok tt
unfolding revoke_token validate_token validate_claims parse_token is_live text_eq revoke_claims
revoked_test = refl

covered_test : escapes 77 (issued_to 77 (float_of_int 1)) logged_in.tokens ≡ false
unfolding escapes float_of_int shift_of half_even
covered_test = refl

other : (drawn 78).jti ≢ (drawn 77).jti
other = ground arith

dropped_test : (revoke_device false false 20 1 9 logged_in).1 ≡ ok tt
unfolding revoke_device
dropped_test = refl

on_device_test : escapes 77 (on_device 1 9) logged_in.tokens ≡ false
unfolding escapes
on_device_test = refl

revoke_device_final_example :
    validate_token service false 30 token
      (run service (step service logged_in (drops false false 20 1 9)) further_calls).tokens
    ≡ none
revoke_device_final_example =
    revoke_device_final service false false 20 1 9 token (access_claims service 10 1 9 77) logged_in
      further_calls 30 refl on_device_test dropped_test (other, (tt, tt))

ws_test : issue_ws_token service 10 1 9 ≡ some (spelled (ws_claims service 10 1 9))
unfolding issue_ws_token
ws_test = refl

issued_test : issue_token service 10 1 9 77 ≡ some token
unfolding issue_token
issued_test = refl

issue_ws_token_accepted_example :
    (validate_ws_token service 69 (spelled (ws_claims service 10 1 9))
      ≡ (if leb (10 + 60) 69 then none else some (1, 9)))
    × (validate_token service false 69 (spelled (ws_claims service 10 1 9)) (row ∷ []) ≡ none)
issue_ws_token_accepted_example =
    issue_ws_token_accepted service false 10 69 1 9 (spelled (ws_claims service 10 1 9)) (row ∷ [])
      service-IsSigning (ground arith) ws_test

stored_test :
    (store_key_backup service no_faults (drawn 77) 1 (lit "salt") (lit "bundle") store).1 ≡ ok tt
unfolding store_key_backup seal_backup encrypt
stored_test = refl

get_key_backup-store_key_backup_example :
    (get_key_backup service false 1
        (store_key_backup service no_faults (drawn 77) 1 (lit "salt") (lit "bundle") store).0
      ≡ ok (lit "salt", lit "bundle"))
    × (get_key_backup service false 2
          (store_key_backup service no_faults (drawn 77) 1 (lit "salt") (lit "bundle") store).0
        ≡ get_key_backup service false 2 store)
get_key_backup-store_key_backup_example =
    get_key_backup-store_key_backup service no_faults (drawn 77) 1 2 (lit "salt") (lit "bundle")
      store tt stored_test (ground arith)

abbrev bytes : Text
bytes = lit "0123456789abcdef0123456789abcdef"

abbrev session : ProxySession
session = record {
  home_domain = lit "b.org";
  home_token = lit "t";
  user_id = lit "@ann:b.org";
  device_id = lit "9";
}

abbrev with_session : Store
with_session = record store {
  sessions =
      record {
        token_hash = bytes;
        home_domain = lit "b.org";
        home_token = lit "t";
        user_id = lit "@ann:b.org";
        device_id = lit "9";
        expires_at = 110;
      }
      ∷ [];
}

session_test :
    create_proxy_session service (some bytes) false 10 session 100 store
    ≡ (with_session, ok (hex_encode bytes))
unfolding create_proxy_session find_session
session_test = refl

get_proxy_session-create_proxy_session_example :
    (get_proxy_session service false false 50 (hex_encode bytes) with_session ≡ (
      if ltb (10 + 100) 50
      then (
        if false
            then with_session
            else record with_session { sessions = delete_session bytes with_session.sessions },
        err invalid_token,
      )
      else (with_session, ok session)))
    × (find_session bytes (delete_session bytes with_session.sessions) ≡ none)
get_proxy_session-create_proxy_session_example =
    get_proxy_session-create_proxy_session service bytes false false 10 50 100 session store
      with_session (hex_encode bytes) refl (ground arith) session_test

-- 63 letters and one rune of four bytes: 67 bytes.
abbrev letters : ℕ → Text
letters zero = 128512 ∷ []
letters (suc n) = 97 ∷ letters n

long_name_test : byte_len (sanitize_device_name (letters 63)) ≡ 67
unfolding byte_len sanitize_device_name sanitize_runes trim_space trim_left trim_right is_space
long_name_test = refl
