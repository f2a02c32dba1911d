-- ===== src/Federation/Requests.antt =====
-- server/internal/federation/client.go: the requests for lists, keys and users, and the transactions.
use astralrelay_online.Common.{
  ℕ, Bool, not, ◌&&◌, ◌||◌, Option, none, some, List, [], ◌∷◌, ◌++◌, ◌==◌, if◌then◌else◌, keep_if,
  map, Result, ok, err,
}
use astralrelay_online.Common.Text.{Text, lit, text_eq, is_empty}
use astralrelay_online.Common.Trim.{norm}
use astralrelay_online.Federation.Limits.{TransactionRequest}
use astralrelay_online.Federation.Escape.{path_escape, query_escape}
use astralrelay_online.Federation.Client.{
  Client, Network, ClientError, bad_body, url_at, get_request, accept_ok, call_server,
}

abbrev is_there : Text → Bool
is_there s = not (is_empty s)

abbrev decoded : {A : Type 0} → Result ClientError Text → (Text → Option A) → Result ClientError A
decoded (err e) read = err e
decoded (ok body) read = elim (read body) [ none ↦ err bad_body | some a ↦ ok a ]

abbrev mapped : {A B : Type 0} → (A → B) → Result ClientError A → Result ClientError B
mapped f (err e) = err e
mapped f (ok a) = ok (f a)

-- FetchServersList, whose request is not signed.
unfoldable pub fetch_servers_list : Network → Text → Result ClientError (List Text)
fetch_servers_list n hub =
    mapped (λ ss. keep_if is_there (map norm ss))
      (decoded
        (accept_ok (n.answer (get_request (url_at hub (lit "/.well-known/federation-servers")))))
        n.read_servers)

-- strings.ReplaceAll(domain, "\"", "\\\"")
unfoldable pub quote_escaped : Text → Text
quote_escaped [] = []
quote_escaped (c ∷ s) = let rest = quote_escaped s in if c == 34 then 92 ∷ 34 ∷ rest else c ∷ rest

unfoldable pub register_body : Text → Text
register_body domain =
    lit "{"
    ++ (34 ∷ (lit "domain" ++ (34 ∷ (lit ":" ++ (34 ∷ (quote_escaped domain ++ (34 ∷ lit "}")))))))

-- Register
unfoldable pub register_at : Network → ℕ → Client → Text → Client × Result ClientError Text
register_at n now c hub =
    call_server n now c hub (lit "POST") (lit "/register") (register_body c.domain)

unfoldable pub fetch_device_list :
    Network → ℕ → Client → Text → Text → Client × Result ClientError (List Text)
fetch_device_list n now c remote user_id =
    let called =
      call_server n now c remote (lit "GET") (lit "/keys/devices/" ++ path_escape user_id) [] in
    (called.0, mapped (keep_if is_there) (decoded called.1 n.read_devices))

unfoldable pub keys_path : Text → Text → Text
keys_path user_id device_id =
    lit "/keys/bundle/" ++ (path_escape user_id ++ (lit "/" ++ path_escape device_id))

unfoldable pub fetch_keys :
    Network → ℕ → Client → Text → Text → Text → Client × Result ClientError Text
fetch_keys n now c remote user_id device_id =
    call_server n now c remote (lit "GET") (keys_path user_id device_id) []

-- The server that a transaction for a domain is sent to.
unfoldable pub target_of : Client → Text → Text
target_of c remote =
    if not (is_empty c.main_domain) && not (text_eq remote c.domain) then c.main_domain else remote

abbrev pub addressed : Client → Text → TransactionRequest → TransactionRequest
addressed c remote txn = record txn { origin = c.domain; destination = remote }

-- SendTransaction; `marshal` is json.Marshal.
unfoldable pub send_transaction :
    Network
    → (TransactionRequest → Text)
    → ℕ
    → Client
    → Text
    → TransactionRequest
    → Client × Result ClientError Text
send_transaction n marshal now c remote txn =
    call_server n now c (target_of c remote) (lit "POST") (lit "/transaction")
      (marshal (addressed c remote txn))

-- ForwardTransaction
unfoldable pub forward_transaction :
    Network
    → (TransactionRequest → Text)
    → ℕ
    → Client
    → Text
    → TransactionRequest
    → Client × Result ClientError Text
forward_transaction n marshal now c target txn =
    call_server n now c target (lit "POST") (lit "/transaction") (marshal txn)

abbrev whole_user : Result ClientError (Text × Text) → Option (Text × Text)
whole_user (err e) = none
whole_user (ok (user_id, home)) =
    if is_empty user_id || is_empty home then none else some (user_id, home)

-- UserLookup; none for a user that is not found, and for every error.
unfoldable pub user_lookup : Network → ℕ → Client → Text → Text → Client × Option (Text × Text)
user_lookup n now c remote username =
    let called =
      call_server n now c remote (lit "GET")
        (lit "/users/lookup" ++ (lit "?username=" ++ query_escape username)) [] in
    (called.0, whole_user (decoded called.1 n.read_user))

-- AuthVerify, whose answer is kept as its text.
unfoldable pub auth_verify : Network → ℕ → Client → Text → Text → Client × Result ClientError Text
auth_verify n now c remote body = call_server n now c remote (lit "POST") (lit "/auth/verify") body
