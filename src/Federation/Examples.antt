-- ===== src/Federation/Examples.antt =====
-- Tests of the model of server/internal/federation, and its theorems at concrete inputs.
use astralrelay_online.Common.{
  ℕ, ◌+◌, ◌^◌, ◌≡◌, ◌⊎◌, ◌↔◌, refl, true, false, none, some, Option, List, [], ◌∷◌, ◌++◌, arith,
  ◌≢◌, ok, Any,
}
use astralrelay_online.Common.Text.{
  Text, lit, text_eq, has_prefix, is_space, to_lower, trim_space, trim_left, trim_right, lower_byte,
  ne_of_text_eq, text_eq_refl,
}
use astralrelay_online.Common.Trim.{norm}
use astralrelay_online.Federation.Domains.{has, split_lines, is_entry, add_lines}
use astralrelay_online.Federation.Security.{
  SecurityConfig, SecurityService, Files, Web, load_blocklist, load_allowlist, is_blocked,
  is_allowed, count_of, add_to_allowlist,
}
use astralrelay_online.Federation.Trust.{Lists, is_blocked-load_blocklist, notes, is_allowed-notes}
use astralrelay_online.Federation.Persistence.{restart-add_to_allowlist}
use astralrelay_online.Federation.Limits.{
  TransactionEvent, TransactionRequest, validate_transaction, timestamp_out_of_window,
  validate_events, validate_event,
}
use astralrelay_online.Federation.Signing.{
  Crypto, Request, sign_request, verify_request, is_stale, request_path,
}
use astralrelay_online.Federation.Authentic.{IsSound, verify_request-sign_request, https_url}
use astralrelay_online.Federation.Payload.{Signed, IsLineFree, payload_of-injective}
use astralrelay_online.Federation.Client.{
  Client, Network, HttpResponse, resolve_endpoint, discover, find_cached,
}
use astralrelay_online.Federation.Discovery.{resolve_endpoint_again}

abbrev config : Text → SecurityConfig
config mode = record {
  rate_limit = 100;
  max_body_size = 1048576;
  allowlist_mode = mode;
  allowlist_path = lit "/allow";
  allowlist_trust_threshold = 2;
  blocklist_path = lit "/block";
  blocklist_url = [];
}

abbrev service : Text → SecurityService
service mode = record {
  cfg = config mode;
  blocklist = [];
  allowlist = lit "b.org" ∷ [];
  success_count = [];
}

-- Every file holds the one text.
abbrev files_of : Text → Files
files_of text path = some text

abbrev no_web : Web
no_web = record {
  parse_url = λ u. none;
  parse_ip = λ h. none;
  fetch = λ u. none;
  json_strings = λ t. none;
}

abbrev block_file : Text
block_file = lit " Bad.org" ++ 10 ∷ lit "#c"

blocked_by_file :
    is_blocked (load_blocklist (files_of block_file) no_web (service (lit "auto"))) (lit "BAD.org ")
    ≡ true
unfolding is_blocked load_blocklist has split_lines norm to_lower trim_space trim_left trim_right
    is_space lower_byte text_eq has_prefix add_lines
blocked_by_file = refl

is_blocked-load_blocklist_example :
    (is_blocked (load_blocklist (files_of block_file) no_web (service (lit "auto"))) (lit "c")
      ≡ true)
    ↔ Any (Lists (lit "c")) (split_lines block_file)
is_blocked-load_blocklist_example =
    is_blocked-load_blocklist (files_of block_file) no_web (service (lit "auto")) block_file
      (lit "c") refl refl refl

is_allowed-notes_example :
    is_allowed (notes 2 (service (lit "auto")) (lit "c.org")) (lit "c.org") ≡ true
unfolding text_eq norm to_lower trim_space trim_left trim_right is_space lower_byte has count_of
is_allowed-notes_example =
    is_allowed-notes (service (lit "auto")) (lit "c.org") 2 refl refl refl refl refl (omega arith)

c-ne-d : norm (lit "c") ≢ norm (lit "d")
unfolding text_eq norm to_lower trim_space trim_left trim_right is_space lower_byte
c-ne-d = ne_of_text_eq (norm (lit "c")) (norm (lit "d")) refl

abbrev allow_file : Text
allow_file = lit "b.org" ++ 10 ∷ []

restart-add_to_allowlist_example :
    (is_allowed
        (load_allowlist
          (files_of (allow_file ++ (add_to_allowlist true (service (lit "auto")) (lit "c")).1))
          (add_to_allowlist true (service (lit "auto")) (lit "c")).0)
        (lit "e")
      ≡ true)
    ↔ ((is_allowed (load_allowlist (files_of allow_file) (service (lit "auto"))) (lit "e") ≡ true)
        ⊎ (norm (lit "c") ≡ norm (lit "e")))
unfolding text_eq norm to_lower trim_space trim_left trim_right is_space lower_byte has is_entry
    has_prefix
restart-add_to_allowlist_example =
    restart-add_to_allowlist (files_of allow_file)
      (files_of (allow_file ++ (add_to_allowlist true (service (lit "auto")) (lit "c")).1))
      (service (lit "auto")) (lit "b.org") (lit "c") (lit "e") refl refl refl refl refl
      (omega arith) refl refl

-- A time in 2023, and an event that arrives 100 s late.
abbrev now : ℕ
now = 1700000000

abbrev event : Text → TransactionEvent
event sender = record {
  event_id = lit "e1";
  type = lit "m";
  sender = sender;
  recipient = lit "@b:b.org";
  timestamp = 1699999900;
  ciphertext = lit "AA";
  session_id = lit "s";
}

abbrev request : List TransactionEvent → TransactionRequest
request es = record {
  transaction_id = lit "t1";
  origin = lit "a.org";
  destination = lit "b.org";
  events = es;
}

-- The second event has its time far in the future.
abbrev late_event : TransactionEvent
late_event = record (event (lit "@a:a.org")) { timestamp = 1800000000 }

late_event_found :
    validate_transaction (request (event (lit "@a:a.org") ∷ late_event ∷ [])) now
    ≡ some (timestamp_out_of_window 1)
unfolding validate_transaction validate_events validate_event
late_event_found = refl

-- A timestamp 2^63 s before the clock is not stale.
wrapped_timestamp : is_stale now now (now + 2 ^ 63) ≡ false
unfolding is_stale
wrapped_timestamp = refl

-- A signature that is the message behind its key.
abbrev toy : Crypto
toy = record {
  hex_sha256 = λ s. s;
  sign = λ k m. k ++ (0 ∷ m);
  verify = λ k m s. text_eq s (k ++ (0 ∷ m));
  public_key = λ k. k;
  base64 = λ s. 1 ∷ s;
  unbase64 = λ s. elim s [ [] ↦ none | c ∷ t ↦ some t ];
}

toy-IsSound : IsSound toy
toy-IsSound = record {
  verify-sign = λ k m. text_eq_refl (k ++ (0 ∷ m));
  unbase64-base64 = λ s. refl;
  signature_there = λ k m. refl;
}

abbrev sent : Request
sent = record {
  headers =
      sign_request toy (lit "key") (lit "a.org") now (lit "GET") (https_url (lit "b.org") (lit "x"))
        [];
  method = lit "GET";
  url_path = lit "/x";
  raw_query = [];
}

verify_request-sign_request_example : verify_request toy now now sent [] (lit "key") ≡ ok tt
unfolding request_path
verify_request-sign_request_example =
    verify_request-sign_request toy (lit "key") (lit "a.org") (lit "b.org") (lit "x") (lit "GET") []
      now now now sent toy-IsSound (omega arith) (λ e. cc) (λ e. cc) (omega arith) (omega arith)
      (omega arith) (omega arith) (omega arith) refl refl refl

-- A path with a line feed in it.
abbrev signed : Signed
signed = record {
  origin = lit "a.org";
  dest = lit "b.org";
  timestamp = lit "5";
  method = lit "GET";
  path = b'/' ∷ 10 ∷ [];
  hash = [];
}

signed-IsLineFree : IsLineFree signed
signed-IsLineFree = omega arith

payload_of-injective_example : signed ≡ signed
payload_of-injective_example =
    payload_of-injective signed signed signed-IsLineFree signed-IsLineFree refl

abbrev client : Client
client = record {
  domain = lit "a.org";
  main_domain = [];
  crypto = toy;
  private_key = lit "key";
  cache = [];
}

-- Every request is answered alike; the endpoint is the text of the body.
abbrev network : Option HttpResponse → Network
network r = record {
  answer = λ q. r;
  read_endpoint = λ b. some b;
  read_servers = λ b. none;
  read_devices = λ b. none;
  read_user = λ b. none;
}

abbrev up : Network
up = network (some (record { status = 200; body = lit "https://f.b.org" }))

-- The endpoint is remembered when nothing answers any more.
resolve_endpoint_again_example :
    resolve_endpoint
      (network none)
      350
      (lit " B.org")
      (resolve_endpoint up 100 (lit "b.org") client).0
    ≡ ((resolve_endpoint up 100 (lit "b.org") client).0, ok (lit "https://f.b.org"), false)
unfolding find_cached resolve_endpoint discover has_prefix trim_space trim_left trim_right to_lower
    lower_byte is_space norm
resolve_endpoint_again_example =
    resolve_endpoint_again up (network none) 100 350 (lit "b.org") (lit " B.org")
      (lit "https://f.b.org") client refl refl refl (omega arith)
