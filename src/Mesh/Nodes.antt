-- ===== src/Mesh/Nodes.antt =====
-- The state of mesh/coordinator/main.go, and the texts that it writes for a node.
use astralrelay_online.Common.{
  ℕ, Bool, not, ◌||◌, Option, none, some, List, [], ◌∷◌, ◌++◌, if◌then◌else◌, take, keep_if, ltb,
}
use astralrelay_online.Common.Text.{Text, lit, text_eq, is_empty, index, replace_byte}

pub record Node : Type 0 where
  pub id : Text
  pub domain : Text
  pub public_key : Text
  pub endpoint : Text
  pub vpn_ip : Text
  pub subdomain : Text
  pub joined_at : ℕ

pub record Peer : Type 0 where
  pub public_key : Text
  pub allowed_ips : Text
  pub endpoint : Text

-- The files of the machine; the first entry of a path counts.
abbrev pub Files : Type 0
Files = List (Text × Text)

unfoldable pub read_file : Text → Files → Option Text
read_file p [] = none
read_file p ((q, t) ∷ fs) = if text_eq q p then some t else read_file p fs

-- os.WriteFile, whose error the source drops or logs.
unfoldable pub write_file : Bool → Text → Text → Files → Files
write_file fails p t fs = if fails then fs else (p, t) ∷ fs

-- `ca` is the issuer of client certificates; an issue that fails is `none`.
pub record Coordinator : Type 0 where
  pub nodes : List Node
  pub next_ip : ℕ
  pub token : Text
  pub backup_secret : Text
  pub storage_path : Text
  pub routes_dir : Text
  pub ca : Option (Text → Option (Text × Text))
  pub files : Files

abbrev pub mesh_ip_base : Text
mesh_ip_base = lit "10.100.0."

unfoldable pub peer_of : Node → Peer
peer_of n = record {
  public_key = n.public_key;
  allowed_ips = n.vpn_ip ++ lit "/32";
  endpoint = n.endpoint;
}

-- The nodes at another address.
unfoldable pub others : Text → List Node → List Node
others ip = keep_if (λ n. not (text_eq n.vpn_ip ip))

-- 1.2.3.4:51820 -> 1-2-3-4
unfoldable pub subdomain_from_endpoint : Text → Text
subdomain_from_endpoint endpoint = elim (index endpoint b':') [
  | none ↦ replace_byte b'.' b'-' endpoint
  | some i ↦ replace_byte b'.' b'-' (if ltb 0 i then take i endpoint else endpoint)
]

unfoldable pub peer_text : Node → Text
peer_text n =
    lit "[Peer]\n"
    ++ lit "PublicKey = "
    ++ n.public_key
    ++ lit "\n"
    ++ lit "AllowedIPs = "
    ++ n.vpn_ip
    ++ lit "/32\n"
    ++ lit "Endpoint = "
    ++ n.endpoint
    ++ lit "\n\n"

unfoldable pub peers_text : List Node → Text
peers_text [] = []
peers_text (n ∷ ns) = peer_text n ++ peers_text ns

-- The WireGuard configuration of the node at `ip`.
unfoldable pub config_text : Text → List Node → Text
config_text ip nodes =
    lit "[Interface]\n"
    ++ lit "PrivateKey = <PRIVATE_KEY>\n"
    ++ lit "Address = "
    ++ ip
    ++ lit "/32\n"
    ++ lit "ListenPort = 51820\n\n"
    ++ peers_text (others ip nodes)

-- The loop over the peers' addresses, with a comma before all but the first.
unfoldable pub join_ips : Text → List Node → Text
join_ips bp [] = bp
join_ips bp (n ∷ ns) = join_ips ((if is_empty bp then bp else bp ++ lit ",") ++ n.vpn_ip) ns

unfoldable pub safe_name : Text → Text
safe_name s = replace_byte b'-' b'_' (replace_byte b'.' b'_' s)

unfoldable pub route_body : Text → Text → Text → Text
route_body safe host backend_url =
    lit "http:\n"
    ++ lit "  routers:\n"
    ++ lit "    "
    ++ safe
    ++ lit "-api:\n"
    ++ lit "      rule: \"Host(\\\""
    ++ host
    ++ lit "\\\") && (PathPrefix(\\\"/api\\\") || PathPrefix(\\\"/.well-known\\\") ||"
    ++ lit " PathPrefix(\\\"/federation\\\") || PathPrefix(\\\"/health\\\"))\"\n"
    ++ lit "      service: "
    ++ safe
    ++ lit "-svc\n"
    ++ lit "      entryPoints: [websecure]\n"
    ++ lit "      tls: { certResolver: letsencrypt }\n"
    ++ lit "      priority: 100\n"
    ++ lit "    "
    ++ safe
    ++ lit "-web:\n"
    ++ lit "      rule: \"Host(\\\""
    ++ host
    ++ lit "\\\")\"\n"
    ++ lit "      service: "
    ++ safe
    ++ lit "-svc\n"
    ++ lit "      entryPoints: [websecure]\n"
    ++ lit "      tls: { certResolver: letsencrypt }\n"
    ++ lit "      priority: 1\n"
    ++ lit "  services:\n"
    ++ lit "    "
    ++ safe
    ++ lit "-svc:\n"
    ++ lit "      loadBalancer:\n"
    ++ lit "        servers:\n"
    ++ lit "          - url: \""
    ++ backend_url
    ++ lit "\"\n"
    ++ lit "        passHostHeader: true\n"

-- The route file of a subdomain, if there is a directory for it.
unfoldable pub write_traefik_route : Bool → Coordinator → Text → Text → Text → Coordinator
write_traefik_route fails c subdomain main_domain backend_url =
    if is_empty c.routes_dir || is_empty subdomain || is_empty main_domain then c else record c {
      files =
          write_file fails (c.routes_dir ++ lit "/selfhost-" ++ safe_name subdomain ++ lit ".yaml")
            (route_body (safe_name subdomain) (subdomain ++ lit "." ++ main_domain) backend_url)
            c.files;
    }
