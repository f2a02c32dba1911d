-- ===== src/Entry/Examples.antt =====
-- Tests of the model of the entrance, and its theorems at concrete inputs.
use astralrelay_online.Common.{
  ◌≡◌, ◌≢◌, refl, true, false, none, some, List, [], ◌∷◌, ◌++◌, arith, Faults, Result, ok,
}
use astralrelay_online.Common.Text.{
  Text, lit, has_prefix, text_eq, trim_prefix, index, to_lower, lower_byte, trim_space, trim_left,
  trim_right, is_space,
}
use astralrelay_online.Common.Trim.{norm}
use astralrelay_online.Federation.Signing.{Crypto}
use astralrelay_online.Federation.Client.{Client, Network}
use astralrelay_online.Auth.Tables.{Store, is_live}
use astralrelay_online.Auth.Tokens.{
  Service, access_claims, issued_to, float_of_int, shift_of, half_even, revoke_token, revoke_claims,
  validate_token, validate_claims, parse_token,
}
use astralrelay_online.Auth.Calls.{Call, logs_in, run}
use astralrelay_online.Auth.Revoked.{escapes}
use astralrelay_online.Auth.Proxy.{hex_encode}
use astralrelay_online.Auth.Setting.{service, store, drawn, ann_login, token, logged_in}
use astralrelay_online.Entry.Middleware.{
  Refusal, account, extract_token, bearer, auth_middleware, Incoming,
}
use astralrelay_online.Entry.Requests.{Codecs, LoginRequest, LoginReply, VerifyResult, login_name}
use astralrelay_online.Entry.Logins.{login_at_home}
use astralrelay_online.Entry.Accounts.{logout_token, handle_logout}
use astralrelay_online.Entry.LoggedOut.{handle_logout_final}

name_test : login_name (lit "a.org") (lit " ann@B.org") [] ≡ (lit "ann", lit "b.org")
unfolding login_name index trim_space trim_right trim_left is_space norm to_lower lower_byte
name_test = refl

header_test : logout_token (bearer ++ token) ≡ token
unfolding logout_token trim_prefix has_prefix trim_space trim_left trim_right is_space
header_test = refl

logout_test : (handle_logout service false false 20 20 (bearer ++ token) logged_in).1 ≡ ok tt
unfolding handle_logout logout_token trim_prefix has_prefix trim_space trim_left trim_right is_space
    revoke_token validate_token validate_claims parse_token is_live text_eq revoke_claims
logout_test = refl

covered_test : escapes 77 (issued_to 77 (float_of_int 1)) logged_in.tokens ≡ false
unfolding escapes float_of_int shift_of half_even
covered_test = refl

other : (drawn 78).jti ≢ (drawn 77).jti
other = ground arith

abbrev no_faults : Faults
no_faults i = false

-- Logout, a login with another token, and a request with the old one.
abbrev later_calls : List Call
later_calls = logs_in no_faults (drawn 78) 21 (ann_login (lit "secret")) ∷ []

signed_test :
    service.verify (logout_token (bearer ++ token)) ≡ some (access_claims service 10 1 9 77)
unfolding logout_token trim_prefix has_prefix trim_space trim_left trim_right is_space
signed_test = refl

token_test : extract_token (bearer ++ token) ≡ logout_token (bearer ++ token)
unfolding extract_token logout_token trim_prefix has_prefix trim_space trim_left trim_right is_space
token_test = refl

handle_logout_final_example :
    (auth_middleware service no_faults 30 (bearer ++ token) (
      run service
        (handle_logout service false false 20 20 (bearer ++ token) logged_in).0
        later_calls)).1
    ≢ ok (account 1 9)
handle_logout_final_example =
    handle_logout_final service false false 20 20 30 1 9 (bearer ++ token) (bearer ++ token)
      (access_claims service 10 1 9 77) logged_in later_calls no_faults signed_test covered_test
      logout_test (other, tt) token_test

abbrev toy : Crypto
toy = record {
  hex_sha256 = λ t. t;
  sign = λ k m. k ++ m;
  verify = λ k m t. true;
  public_key = λ k. k;
  base64 = λ t. t;
  unbase64 = λ t. some t;
}

abbrev client : Client
client = record {
  domain = lit "a.org";
  main_domain = [];
  crypto = toy;
  private_key = lit "key";
  cache = [];
}

-- Every request is answered alike.
abbrev network : Network
network = record {
  answer = λ q. some (record { status = 200; body = lit "{}" });
  read_endpoint = λ b. none;
  read_servers = λ b. none;
  read_devices = λ b. none;
  read_user = λ b. none;
}

abbrev checked : VerifyResult
checked = record {
  access_token = lit "home";
  user_id = lit "@bob:b.org";
  device_id = lit "7";
  keys_backup = none;
}

abbrev codecs : Codecs
codecs = record {
  unbase64 = λ t. t;
  base64 = λ t. t;
  marshal = λ u q. u;
  read_verify = λ b. some checked;
}

abbrev request : LoginRequest
request = record {
  username = lit "bob@b.org";
  password = lit "secret";
  device_id = lit "7";
  domain = [];
  request_keys_restore = false;
  keys = none;
}

-- A service to which no text is a JWT.
abbrev strict : Service
strict = record service { verify = λ t. none }

abbrev bytes : Text
bytes = lit "0123456789abcdef0123456789abcdef"

abbrev at_home : Client × Store × Result Refusal LoginReply
at_home =
    login_at_home codecs strict network false (some bytes) 10 (lit "b.org") (lit "bob") request
      client store

abbrev bob_reply : LoginReply
bob_reply = record {
  user_id = lit "@bob:b.org";
  device_id = lit "7";
  access_token = hex_encode bytes;
  keys_backup = none;
}

abbrev incoming : Incoming
incoming = record {
  tls = true;
  host = lit "a.org";
  method = lit "GET";
  path = lit "/api/v1/messages/sync";
  raw_query = lit "limit=5";
  body = [];
  content_type = [];
  protocol_version = lit "1";
  idempotency_key = [];
}
