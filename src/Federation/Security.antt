-- ===== src/Federation/Security.antt =====
-- The security service of server/internal/federation/security.go: blocklist, allowlist and the
-- trust that a domain earns by successful transactions.
use astralrelay_online.Common.{
  ℕ, ◌+◌, Bool, true, false, not, ◌&&◌, ◌||◌, Option, none, some, List, [], ◌∷◌, ◌++◌,
  if◌then◌else◌, Result, ok, err, take, leb, ◌^◌,
}
use astralrelay_online.Common.Text.{Text, lit, text_eq, is_empty, trim_space, to_lower}
use astralrelay_online.Common.Trim.{norm}
use astralrelay_online.Common.Int64.{slt}
use astralrelay_online.Federation.Domains.{has, split_lines, add_lines, add_all}

-- The integers of Go's type int are bit patterns of 64 bits.
pub record SecurityConfig : Type 0 where
  pub rate_limit : ℕ
  pub max_body_size : ℕ
  pub allowlist_mode : Text
  pub allowlist_path : Text
  pub allowlist_trust_threshold : ℕ
  pub blocklist_path : Text
  pub blocklist_url : Text

pub record SecurityService : Type 0 where
  pub cfg : SecurityConfig
  pub blocklist : List Text
  pub allowlist : List Text
  pub success_count : List (Text × ℕ)

-- os.ReadFile; `none` is an error.
abbrev pub Files : Type 0
Files = Text → Option Text

-- url.Parse and net.ParseIP with the three classes of addresses that the source asks for.
pub record Url : Type 0 where
  pub scheme : Text
  pub hostname : Text

pub record IpClass : Type 0 where
  pub is_loopback : Bool
  pub is_private : Bool
  pub is_link_local_unicast : Bool

-- What the source reads of the network and of encoding/json.
pub record Web : Type 0 where
  pub parse_url : Text → Option Url
  pub parse_ip : Text → Option IpClass
  pub fetch : Text → Option Text
  pub json_strings : Text → Option (List Text)

abbrev local_ip : Option IpClass → Bool
local_ip none = false
local_ip (some ip) = ip.is_loopback || ip.is_private || ip.is_link_local_unicast

unfoldable pub is_blocklist_url_allowed : Web → Text → Bool
is_blocklist_url_allowed web raw = elim (web.parse_url (trim_space raw)) [
  | none ↦ false
  | some u ↦
      if not (text_eq u.scheme (lit "https")) && not (text_eq u.scheme (lit "http"))
      then false
      else (let host = to_lower u.hostname in
          if is_empty host
            || text_eq host (lit "localhost")
            || text_eq host (lit "127.0.0.1")
            || text_eq host (lit "::1")
          then false
          else not (local_ip (web.parse_ip host)))
]

-- The first 1 << 20 bytes of the answer, read as a JSON list or else as lines.
unfoldable pub add_answer : Web → Text → List Text → List Text
add_answer web body set =
    let data' = take (2 ^ 20) body in
    elim (web.json_strings data') [
      | some list ↦ add_all list set
      | none ↦ add_lines (split_lines data') set
    ]

abbrev add_file : Option Text → List Text → List Text
add_file none set = set
add_file (some text) set = add_lines (split_lines text) set

unfoldable pub load_blocklist : Files → Web → SecurityService → SecurityService
unfolding is_blocklist_url_allowed add_answer
load_blocklist files web s = record s { blocklist = from_web }
  where
    open s use {cfg}

    from_path : List Text
    from_path = if is_empty cfg.blocklist_path then [] else add_file (files cfg.blocklist_path) []

    from_web : List Text
    from_web =
        if not (is_empty cfg.blocklist_url) && is_blocklist_url_allowed web cfg.blocklist_url
        then (elim (web.fetch cfg.blocklist_url) [
          | none ↦ from_path
          | some body ↦ add_answer web body from_path
        ])
        else from_path

abbrev pub in_mode : SecurityService → Text → Bool
in_mode s mode = text_eq s.cfg.allowlist_mode mode

unfoldable pub load_allowlist : Files → SecurityService → SecurityService
load_allowlist files s = record s {
  allowlist =
      if not (is_empty s.cfg.allowlist_path) && (in_mode s (lit "manual") || in_mode s (lit "auto"))
      then add_file (files s.cfg.allowlist_path) []
      else [];
}

-- NewSecurityService, its background reload apart.
unfoldable pub new_security_service : Files → Web → SecurityConfig → SecurityService
unfolding load_blocklist load_allowlist
new_security_service files web cfg = load_allowlist files (load_blocklist files web start)
  where
    start : SecurityService
    start = record {
      cfg = record cfg {
        allowlist_trust_threshold =
            if slt cfg.allowlist_trust_threshold 1 then 1 else cfg.allowlist_trust_threshold;
      };
      blocklist = [];
      allowlist = [];
      success_count = [];
    }

unfoldable pub max_body_size : SecurityService → ℕ
max_body_size s = if slt 0 s.cfg.max_body_size then s.cfg.max_body_size else 2 ^ 20

unfoldable pub is_blocked : SecurityService → Text → Bool
is_blocked s domain = has (norm domain) s.blocklist

unfoldable pub is_allowed : SecurityService → Text → Bool
is_allowed s domain = if in_mode s (lit "open") then true else has (norm domain) s.allowlist

-- successCount[d] and successCount[d]++; counts stay far below 2^63.
unfoldable pub count_of : Text → List (Text × ℕ) → ℕ
count_of d [] = 0
count_of d ((k, n) ∷ m) = if text_eq k d then n else count_of d m

unfoldable pub count_up : Text → List (Text × ℕ) → List (Text × ℕ)
count_up d [] = (d, 1) ∷ []
count_up d ((k, n) ∷ m) = if text_eq k d then (k, n + 1) ∷ m else (k, n) ∷ count_up d m

unfoldable pub record_successful_transaction : SecurityService → Text → SecurityService × Bool
unfolding is_allowed
record_successful_transaction s domain =
    if not (in_mode s (lit "auto")) || is_allowed s domain
    then (s, false)
    else if is_empty (norm domain)
    then (s, false)
    else (counted, leb s.cfg.allowlist_trust_threshold (count_of (norm domain) counts))
  where
    counts : List (Text × ℕ)
    counts = count_up (norm domain) s.success_count

    counted : SecurityService
    counted = record s { success_count = counts }

pub data SecurityError : Type 0 where
  not_in_allowlist empty_domain open_failed : SecurityError

unfoldable pub check_allowlist_for_transaction :
    SecurityService → Text → Result SecurityError (Unit {0})
unfolding is_allowed
check_allowlist_for_transaction s domain =
    if in_mode s (lit "open")
    then ok tt
    else if is_allowed s domain
    then ok tt
    else if in_mode s (lit "manual")
    then err not_in_allowlist
    else ok tt

-- The second part is what is appended to the allowlist file; `can_open` is the outcome of OpenFile.
unfoldable pub add_to_allowlist :
    Bool → SecurityService → Text → SecurityService × Text × Result SecurityError (Unit {0})
add_to_allowlist can_open s domain =
    if is_empty (norm domain)
    then (s, [], err empty_domain)
    else if has (norm domain) s.allowlist
    then (s, [], ok tt)
    else if not (is_empty s.cfg.allowlist_path) && in_mode s (lit "auto")
    then (if can_open then (added, norm domain ++ 10 ∷ [], ok tt) else (added, [], err open_failed))
    else (added, [], ok tt)
  where
    added : SecurityService
    added = record s { allowlist = norm domain ∷ s.allowlist }

-- The step of handlers_federation.go that follows a validated transaction.
unfoldable pub note_success : Bool → SecurityService → Text → SecurityService
unfolding is_allowed record_successful_transaction add_to_allowlist
note_success can_open s origin =
    if is_allowed s origin
    then s
    else (let (counted, should_add) = record_successful_transaction s origin in
        if should_add then (add_to_allowlist can_open counted origin).0 else counted)
