-- ===== src/Mesh/State.antt =====
-- load and save of mesh/coordinator/main.go, and the token and the addresses that it gives out.
use astralrelay_online.Common.{
  ℕ, suc, Bool, not, ◌&&◌, Option, none, some, List, [], ◌∷◌, ◌++◌, if◌then◌else◌,
}
use astralrelay_online.Common.Text.{Text, text_eq, is_empty}
use astralrelay_online.Common.Decimal.{itoa}
use astralrelay_online.Mesh.Nodes.{Node, Coordinator, read_file, write_file, mesh_ip_base}

-- What save writes and load reads.
pub record Saved : Type 0 where
  pub nodes : List Node
  pub next_ip : ℕ
  pub token : Text
  pub backup_secret : Text

-- The package encoding/json on it.
pub record Codec : Type 0 where
  pub encode : Saved → Text
  pub decode : Text → Option Saved

-- What randBase64 and the clock give to one call.
pub record Fresh : Type 0 where
  pub token : Text
  pub secret : Text
  pub id : Text
  pub now : ℕ

pub data MeshError : Type 0 where
  method_not_allowed invalid_json fields_required invalid_token : MeshError
  issuance_disabled domain_required not_registered issue_failed : MeshError

abbrev or_kept : Text → Text → Text
or_kept new old = if is_empty new then old else new

unfoldable pub load : Codec → Coordinator → Coordinator
load k c = if is_empty c.storage_path then c else elim (read_file c.storage_path c.files) [
  | none ↦ c
  | some data' ↦ elim (k.decode data') [
    | none ↦ c
    | some s ↦ record c {
      nodes = s.nodes;
      next_ip = s.next_ip;
      token = or_kept s.token c.token;
      backup_secret = or_kept s.backup_secret c.backup_secret;
    }
  ]
]

unfoldable pub saved : Coordinator → Saved
saved c = record {
  nodes = c.nodes;
  next_ip = c.next_ip;
  token = c.token;
  backup_secret = c.backup_secret;
}

unfoldable pub save : Bool → Codec → Coordinator → Coordinator
save fails k c =
    if is_empty c.storage_path
    then c
    else record c { files = write_file fails c.storage_path (k.encode (saved c)) c.files }

-- c.token != "" && token != c.token
unfoldable pub is_refused : Coordinator → Text → Bool
is_refused c token = not (is_empty c.token) && not (text_eq token c.token)

-- The first registration makes the token, and counts the addresses from 1.
unfoldable pub ensure_token : Fresh → Coordinator → Coordinator
ensure_token r c =
    if is_empty c.token
    then record c { token = r.token; backup_secret = r.secret; next_ip = 1 }
    else c

unfoldable pub next_vpn_ip : Coordinator → Text
next_vpn_ip c = mesh_ip_base ++ itoa c.next_ip

unfoldable pub add_node : Fresh → Coordinator → Text → Text → Text → Text → Coordinator
add_node r c domain public_key endpoint subdomain = record c {
  nodes =
      c.nodes
      ++ record {
        id = r.id;
        domain = domain;
        public_key = public_key;
        endpoint = endpoint;
        vpn_ip = next_vpn_ip c;
        subdomain = subdomain;
        joined_at = r.now;
      }
        ∷ [];
  next_ip = suc c.next_ip;
}
