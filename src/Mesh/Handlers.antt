-- ===== src/Mesh/Handlers.antt =====
-- The handlers of mesh/coordinator/main.go, but for handleConfig. A handler is its checks, which read
-- the coordinator without the lock, and a commit under the lock.
use astralrelay_online.Common.{
  ℕ, Bool, false, not, ◌||◌, Option, none, some, List, [], ◌∷◌, if◌then◌else◌, map, Result, ok, err,
}
use astralrelay_online.Common.Text.{Text, lit, text_eq, is_empty, to_lower, trim_space}
use astralrelay_online.Mesh.Nodes.{Node, Peer, Coordinator, peer_of, others}
use astralrelay_online.Mesh.State.{
  Codec, Fresh, MeshError, method_not_allowed, invalid_json, fields_required, invalid_token,
  issuance_disabled, domain_required, not_registered, issue_failed, save, is_refused, ensure_token,
  next_vpn_ip, add_node,
}

pub record JoinRequest : Type 0 where
  pub token : Text
  pub public_key : Text
  pub endpoint : Text
  pub domain : Text

pub record JoinResponse : Type 0 where
  pub vpn_ip : Text
  pub peers : List Peer
  pub backup_peers : List Text
  pub backup_secret : Text
  pub listen_port : ℕ

-- The checks of handleJoin; an invalid body is `none`.
unfoldable pub join_request : Coordinator → Text → Option JoinRequest → Result MeshError JoinRequest
join_request c method body =
    if not (text_eq method (lit "POST")) then err method_not_allowed else elim body [
      | none ↦ err invalid_json
      | some req ↦
          if is_empty req.public_key || is_empty req.endpoint || is_empty req.domain
          then err fields_required
          else if is_refused c req.token
          then err invalid_token
          else ok req
    ]

-- handleJoin from the lock on.
unfoldable pub join_commit :
    Bool → Codec → Fresh → Coordinator → JoinRequest → Coordinator × JoinResponse
join_commit fails k r c req =
    let c1 = ensure_token r c in
    let ip = next_vpn_ip c1 in
    let c2 = add_node r c1 req.domain req.public_key req.endpoint [] in
    (
      save fails k c2,
      record {
        vpn_ip = ip;
        peers = map peer_of (others ip c2.nodes);
        backup_peers = map (λ n. n.vpn_ip) (others ip c2.nodes);
        backup_secret = c2.backup_secret;
        listen_port = 51820;
      },
    )

unfoldable pub handle_join :
    Bool
    → Codec
    → Fresh
    → Coordinator
    → Text
    → Option JoinRequest
    → Coordinator × Result MeshError JoinResponse
unfolding join_request
handle_join fails k r c method body = elim (join_request c method body) [
  | err e ↦ (c, err e)
  | ok req ↦ let done = join_commit fails k r c req in (done.0, ok done.1)
]

unfoldable pub handle_peers : Coordinator → Text → Result MeshError (List Node)
handle_peers c token = if is_refused c token then err invalid_token else ok c.nodes

-- Some node has the domain, by strings.EqualFold.
unfoldable pub is_registered : Text → List Node → Bool
is_registered domain [] = false
is_registered domain (n ∷ ns) =
    text_eq (to_lower n.domain) (to_lower domain) || is_registered domain ns

-- The body is a token and a domain.
unfoldable pub handle_cert :
    Coordinator → Text → Option (Text × Text) → Result MeshError (Text × Text)
handle_cert c method body =
    if not (text_eq method (lit "POST")) then err method_not_allowed else elim c.ca [
      | none ↦ err issuance_disabled
      | some issue ↦ elim body [
        | none ↦ err invalid_json
        | some (token, asked) ↦
            let domain = trim_space (to_lower asked) in
            if is_empty domain
            then err domain_required
            else if is_refused c token
            then err invalid_token
            else if not (is_registered domain c.nodes)
            then err not_registered
            else elim (issue domain) [ none ↦ err issue_failed | some pems ↦ ok pems ]
      ]
    ]

-- Unlike a registration, the first call does not set the next address.
unfoldable pub handle_token : Bool → Codec → Fresh → Coordinator → Coordinator × Text
handle_token fails k r c =
    let c1 =
      if is_empty c.token then record c { token = r.token; backup_secret = r.secret } else c in
    (save fails k c1, c1.token)
