-- ===== src/Gateway/Examples.antt =====
-- Tests of the model of the transaction handler, and its theorems at concrete inputs.
use astralrelay_online.Common.{
  ℕ, ◌≡◌, ◌⊎◌, refl, Bool, true, false, none, some, [], ◌∷◌, no_faults, All, ◌==◌,
}
use astralrelay_online.Common.Text.{Text, lit}
use astralrelay_online.Federation.Limits.{TransactionEvent, TransactionRequest}
use astralrelay_online.Federation.Signing.{Crypto, Request}
use astralrelay_online.Relay
use astralrelay_online.Relay.Queue
use astralrelay_online.Relay.Queue.{RelayDb, find_event}
use astralrelay_online.Relay.Delivery.{InQueue}
use astralrelay_online.Gateway
use astralrelay_online.Gateway.Checks.{Passed, transaction-Passed, deliver_whole}

-- Every signature is good.
abbrev crypto : Crypto
crypto = record {
  hex_sha256 = λ t. t;
  sign = λ k m. k;
  verify = λ k m s. true;
  public_key = λ k. k;
  base64 = λ t. t;
  unbase64 = λ t. some t;
}

abbrev event : Text → Text → TransactionEvent
event id recipient = record {
  event_id = id;
  type = lit "m";
  sender = lit "@b:b.org";
  recipient = recipient;
  timestamp = 1000;
  ciphertext = lit "zz";
  session_id = [];
}

abbrev request : TransactionRequest
request = record {
  transaction_id = lit "t";
  origin = lit "b.org";
  destination = lit "m.org";
  events = event (lit "e1") (lit "@x:m.org") ∷ event (lit "e2") (lit "@y:m.org") ∷ [];
}

abbrev handler : Gateway.Handler
handler = record {
  domain = lit "m.org";
  main_only_domain = [];
  max_body = 0;
  has_hub = true;
  has_db = true;
  forward = none;
  fetch_server_key = λ d. some (lit "k");
  crypto = crypto;
  parse_json = λ b. some request;
  decode_base64 = λ t. t;
}

abbrev site : Gateway.Site
site = record {
  security = none;
  relay = record {
    queue = [];
    idempotency_keys = [];
    read_receipts = [];
    sync_cursors = [];
    users = [];
  };
  federation_peers = [];
  notified = [];
}

abbrev outcomes : (ℕ → Bool) → Gateway.Outcomes
outcomes f = record {
  verify_now = 1000;
  verify_later = 1000;
  validate_now = 1000;
  accept_now = 1000;
  read_fails = false;
  peer_fails = false;
  can_open = true;
  relay = f;
}

abbrev http : Request
http = record {
  headers = record {
    origin = lit "b.org";
    dest = lit "m.org";
    timestamp = lit "1000";
    signature = lit "s";
  };
  method = lit "PUT";
  url_path = lit "/t";
  raw_query = [];
}

-- If the first event cannot be inserted, its recipient is told of the second event.
shifted_test :
    (Gateway.deliver handler (outcomes (λ k. k == 1)) site (lit "b.org") request).0.notified
    ≡ (lit "@x:m.org", lit "e2") ∷ []
unfolding Gateway.deliver Gateway.notices Gateway.federated Relay.accept_transaction
    Relay.accept_from Relay.accept_event find_event Queue.insert_message
shifted_test = refl

transaction-Passed_example :
    ((e : Gateway.Refusal) × (Gateway.transaction handler (outcomes no_faults) site http []
        ≡ (site, Gateway.refused e)))
    ⊎ ((req : TransactionRequest) × Passed handler (outcomes no_faults) site http [] req)
transaction-Passed_example = transaction-Passed handler (outcomes no_faults) site http []

deliver_whole_example :
    let (s', reply) = Gateway.deliver handler (outcomes no_faults) site (lit "b.org") request in
    (reply ≡ Gateway.done (lit "e1" ∷ lit "e2" ∷ []) [])
    × All (InQueue s'.relay) (lit "e1" ∷ lit "e2" ∷ [])
    × ((id : Text) → InQueue site.relay id → InQueue s'.relay id)
    × (s'.notified ≡ (lit "@x:m.org", lit "e1") ∷ (lit "@y:m.org", lit "e2") ∷ [])
deliver_whole_example =
    deliver_whole handler (outcomes no_faults) site (lit "b.org") request (λ k. refl)
