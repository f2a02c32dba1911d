-- ===== src/Mesh/Config.antt =====
-- handleConfig of mesh/coordinator/main.go.
use astralrelay_online.Common.{
  Bool, not, ◌&&◌, ◌||◌, Option, none, some, List, [], ◌∷◌, ◌++◌, if◌then◌else◌, Result, ok, err,
}
use astralrelay_online.Common.Text.{Text, lit, text_eq, is_empty}
use astralrelay_online.Mesh.Nodes.{
  Node, Coordinator, others, subdomain_from_endpoint, config_text, join_ips, write_traefik_route,
}
use astralrelay_online.Mesh.State.{
  Codec, Fresh, MeshError, fields_required, invalid_token, save, is_refused, ensure_token,
  next_vpn_ip, add_node,
}

pub record ConfigRequest : Type 0 where
  pub token : Text
  pub public_key : Text
  pub endpoint : Text
  pub domain : Text
  pub use_subdomain : Text
  pub main_domain : Text

-- The headers and the body of an answer with a configuration; `server` is X-Subdomain and
-- X-Server-Domain.
pub record ConfigResponse : Type 0 where
  pub vpn_ip : Text
  pub backup_peers : Text
  pub backup_secret : Text
  pub server : Option (Text × Text)
  pub body : Text

unfoldable pub config_request : Coordinator → ConfigRequest → Result MeshError (Unit {0})
config_request c req =
    if is_empty req.public_key || is_empty req.endpoint || is_empty req.domain
    then err fields_required
    else if is_refused c req.token
    then err invalid_token
    else ok tt

unfoldable pub find_node : Text → List Node → Option Node
find_node key [] = none
find_node key (n ∷ ns) = if text_eq n.public_key key then some n else find_node key ns

abbrev config_response : Coordinator → Text → Text → Text → ConfigResponse
config_response c ip subdomain main_domain = record {
  vpn_ip = ip;
  backup_peers = join_ips [] (others ip c.nodes);
  backup_secret = c.backup_secret;
  server =
      if is_empty subdomain || is_empty main_domain
      then none
      else some (subdomain, subdomain ++ lit "." ++ main_domain);
  body = config_text ip c.nodes;
}

abbrev pub backend_of : Text → Text
backend_of ip = lit "http://" ++ ip ++ lit ":9080"

-- A key that is registered. The source gives a subdomain to its copy of the node, which is dropped.
unfoldable pub config_again :
    Bool → Coordinator → ConfigRequest → Node → Coordinator × ConfigResponse
config_again fails c req n =
    let subdomain =
      if is_empty n.subdomain && not (is_empty req.main_domain)
      then subdomain_from_endpoint n.endpoint
      else n.subdomain in
    (
      write_traefik_route fails c subdomain req.main_domain (backend_of n.vpn_ip),
      config_response c n.vpn_ip subdomain req.main_domain,
    )

abbrev pub wants_subdomain : ConfigRequest → Bool
wants_subdomain req = text_eq req.use_subdomain (lit "1") || text_eq req.use_subdomain (lit "true")

unfoldable pub config_new :
    Bool → Bool → Codec → Fresh → Coordinator → ConfigRequest → Coordinator × ConfigResponse
config_new route_fails save_fails k r c req =
    let c1 = ensure_token r c in
    let ip = next_vpn_ip c1 in
    let subdomain =
      if wants_subdomain req && not (is_empty req.main_domain)
      then subdomain_from_endpoint req.endpoint
      else [] in
    let c2 = add_node r c1 req.domain req.public_key req.endpoint subdomain in
    let c3 = write_traefik_route route_fails c2 subdomain req.main_domain (backend_of ip) in
    (save save_fails k c3, config_response c3 ip subdomain req.main_domain)

-- handleConfig from the lock on.
unfoldable pub config_commit :
    Bool → Bool → Codec → Fresh → Coordinator → ConfigRequest → Coordinator × ConfigResponse
config_commit route_fails save_fails k r c req = elim (find_node req.public_key c.nodes) [
  | some n ↦ config_again route_fails c req n
  | none ↦ config_new route_fails save_fails k r c req
]

unfoldable pub handle_config :
    Bool
    → Bool
    → Codec
    → Fresh
    → Coordinator
    → ConfigRequest
    → Coordinator × Result MeshError ConfigResponse
unfolding config_request
handle_config route_fails save_fails k r c req = elim (config_request c req) [
  | err e ↦ (c, err e)
  | ok u ↦ let done = config_commit route_fails save_fails k r c req in (done.0, ok done.1)
]
