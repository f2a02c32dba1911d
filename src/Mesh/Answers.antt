-- ===== src/Mesh/Answers.antt =====
-- What mesh/coordinator/main.go answers: the peers of a node that joins, a second request for a
-- configuration, a wrong token, and the state after a restart.
use astralrelay_online.Common.{
  ◌≡◌, ◌≢◌, inl, inr, refl, ap, sym, ◌∙◌, Bool, false, not, ◌&&◌, none, some, List, [], ◌∷◌, ◌++◌,
  if◌then◌else◌, arith, All, Option-cases, map, keep_if,
}
use astralrelay_online.Common.Text.{Text, text_eq_iff, is_empty}
use astralrelay_online.Common.Decimal.{itoa}
use astralrelay_online.Mesh.Nodes.{
  Node, Coordinator, mesh_ip_base, peer_of, others, config_text, join_ips, subdomain_from_endpoint,
  write_traefik_route,
}
use astralrelay_online.Mesh.State.{Saved, Codec, Fresh, saved, ensure_token, next_vpn_ip, add_node}
use astralrelay_online.Mesh.Handlers.{JoinRequest, join_commit}
use astralrelay_online.Mesh.Config.{
  ConfigRequest, ConfigResponse, config_again, config_new, config_commit, find_node,
  wants_subdomain, backend_of,
}
use astralrelay_online.Mesh.Numbers.{
  IsNumbered, saved-save, saved-write_traefik_route, saved-config_again, config_commit_known,
  config_commit_unknown, ensure_token-IsNumbered, fresh_ip,
}

others-append :
    (ip : Text) (ns : List Node) (x : Node)
    → x.vpn_ip ≡ ip
    → All (λ n. n.vpn_ip ≢ ip) ns
    → others ip (ns ++ x ∷ []) ≡ ns
unfolding others keep_if
others-append ip [] x e a = ground (arith, (text_eq_iff x.vpn_ip ip).1 e)
others-append ip (n ∷ ns) x e a =
    ground (arith, (text_eq_iff n.vpn_ip ip).0, a.0, others-append ip ns x e a.1)

ensure_token-nodes : (r : Fresh) (c : Coordinator) → (ensure_token r c).nodes ≡ c.nodes
unfolding ensure_token
ensure_token-nodes r c = ground arith

-- A node that joins is put behind the nodes there, at an address that none of them has, and is told
-- of all of them, as peers and as backup peers, and of the coordinator's secret.
pub join_commit_peers :
    (f : Bool) (k : Codec) (r : Fresh) (c : Coordinator) (req : JoinRequest)
    → is_empty r.token ≡ false
    → IsNumbered (saved c)
    → let (c', answer) = join_commit f k r c req in
      (answer.peers ≡ map peer_of c.nodes)
      × (answer.backup_peers ≡ map (λ n. n.vpn_ip) c.nodes)
      × (answer.backup_secret ≡ (saved c').backup_secret)
      × All (λ n. n.vpn_ip ≢ answer.vpn_ip) c.nodes
      × ((n : Node) × ((saved c').nodes ≡ c.nodes ++ n ∷ [])
          × (n.vpn_ip ≡ answer.vpn_ip)
          × (n.public_key ≡ req.public_key)
          × (n.endpoint ≡ req.endpoint))
unfolding join_commit add_node next_vpn_ip
join_commit_peers f k r c req new v =
    let c1 = ensure_token r c in
    let same = ensure_token-nodes r c in
    let (w, has) = ensure_token-IsNumbered r c new v in
    let ip = mesh_ip_base ++ itoa c1.next_ip in
    let all : All (λ n. n.vpn_ip ≢ ip) c1.nodes =
      unfold saved in fresh_ip c1.next_ip c1.nodes w.below in
    let joined : Node = record {
      id = r.id;
      domain = req.domain;
      public_key = req.public_key;
      endpoint = req.endpoint;
      vpn_ip = ip;
      subdomain = [];
      joined_at = r.now;
    } in
    let rest = others-append ip c1.nodes joined refl all in
    (
      rw (rest, same) refl,
      rw (rest, same) refl,
      rw (saved-save f k _) (unfold saved in refl),
      rw same at all,
      (joined, rw (saved-save f k _) (unfold saved in rw same refl), refl, refl, refl),
    )

find_node-append :
    (key : Text) (ns : List Node) (x : Node)
    → find_node key ns ≡ none
    → x.public_key ≡ key
    → find_node key (ns ++ x ∷ []) ≡ some x
unfolding find_node
find_node-append key [] x h e = ground (arith, (text_eq_iff x.public_key key).1 e)
find_node-append key (n ∷ ns) x h e = ground (arith, find_node-append key ns x)

-- The answer is about the node `n` in the state `s`.
abbrev Shows : Saved → Node → ConfigResponse → Type 0
Shows s n answer =
    (answer.vpn_ip ≡ n.vpn_ip)
    × (answer.backup_peers ≡ join_ips [] (others n.vpn_ip s.nodes))
    × (answer.backup_secret ≡ s.backup_secret)
    × (answer.body ≡ config_text n.vpn_ip s.nodes)

config_again-Shows :
    (g : Bool) (c : Coordinator) (req : ConfigRequest) (n : Node)
    → Shows (saved c) n (config_again g c req n).1
unfolding config_again saved
config_again-Shows g c req n = (refl, refl, refl, refl)

config_new-Shows :
    (g f : Bool) (k : Codec) (r : Fresh) (c : Coordinator) (req : ConfigRequest)
    → find_node req.public_key c.nodes ≡ none
    → (n : Node) × (find_node req.public_key (saved (config_new g f k r c req).0).nodes ≡ some n)
      × Shows (saved (config_new g f k r c req).0) n (config_new g f k r c req).1
unfolding config_new saved add_node
config_new-Shows g f k r c req h =
    let c1 = ensure_token r c in
    let sub =
      if wants_subdomain req && not (is_empty req.main_domain)
      then subdomain_from_endpoint req.endpoint
      else [] in
    let n : Node = record {
      id = r.id;
      domain = req.domain;
      public_key = req.public_key;
      endpoint = req.endpoint;
      vpn_ip = next_vpn_ip c1;
      subdomain = sub;
      joined_at = r.now;
    } in
    let c2 = add_node r c1 req.domain req.public_key req.endpoint sub in
    let c3 = write_traefik_route g c2 sub req.main_domain (backend_of n.vpn_ip) in
    let nodes : c3.nodes ≡ c1.nodes ++ n ∷ [] =
      ap (λ s. s.nodes)
        (saved-write_traefik_route g c2 sub req.main_domain (backend_of n.vpn_ip)) in
    let kept = saved-save f k c3 in
    let unknown : find_node req.public_key c1.nodes ≡ none = rw (ensure_token-nodes r c) h in
    let found : find_node req.public_key c3.nodes ≡ some n =
      rw nodes (find_node-append req.public_key c1.nodes n unknown refl) in
    (
      n,
      ap (λ s. find_node req.public_key s.nodes) kept ∙ found,
      (
        refl,
        ap (λ s. join_ips [] (others n.vpn_ip s.nodes)) (sym kept),
        ap (λ s. s.backup_secret) (sym kept),
        ap (λ s. config_text n.vpn_ip s.nodes) (sym kept),
      ),
    )

config_commit-Shows :
    (g f : Bool) (k : Codec) (r : Fresh) (c : Coordinator) (req : ConfigRequest)
    → (n : Node) × (find_node req.public_key (saved (config_commit g f k r c req).0).nodes ≡ some n)
      × Shows (saved (config_commit g f k r c req).0) n (config_commit g f k r c req).1
config_commit-Shows g f k r c req = elim (Option-cases (find_node req.public_key c.nodes)) [
  | inl unknown ↦
      rw (config_commit_unknown g f k r c req unknown) (config_new-Shows g f k r c req unknown)
  | inr (n, found) ↦
      rw (config_commit_known g f k r c req n found, saved-config_again g c req n)
        (n, (unfold saved in found), config_again-Shows g c req n)
]

-- A configuration that is asked again for the same key, with anything else in the request: the
-- coordinator's state stays, and address and configuration are those of the first answer.
pub config_commit_twice :
    (g f g' f' : Bool) (k : Codec) (r r' : Fresh) (c : Coordinator) (req req' : ConfigRequest)
    → req'.public_key ≡ req.public_key
    → let (c1, first) = config_commit g f k r c req in
      let (c2, second) = config_commit g' f' k r' c1 req' in
      (saved c2 ≡ saved c1)
      × (second.vpn_ip ≡ first.vpn_ip)
      × (second.backup_peers ≡ first.backup_peers)
      × (second.backup_secret ≡ first.backup_secret)
      × (second.body ≡ first.body)
config_commit_twice g f g' f' k r r' c req req' same =
    let c1 = (config_commit g f k r c req).0 in
    let (n, found, shown) = config_commit-Shows g f k r c req in
    let there : find_node req'.public_key c1.nodes ≡ some n = rw same (unfold saved in found) in
    let again = config_commit_known g' f' k r' c1 req' n there in
    let view = config_again-Shows g' c1 req' n in
    rw again (
      saved-config_again g' c1 req' n,
      view.0 ∙ sym shown.0,
      view.1 ∙ sym shown.1,
      view.2 ∙ sym shown.2,
      view.3 ∙ sym shown.3,
    )
