-- ===== src/Mesh/Access.antt =====
-- mesh/coordinator/main.go: a wrong token, the state after a restart, and the first address.
use astralrelay_online.Common.{
  ◌≡◌, ◌≢◌, inl, inr, refl, sym, ◌∙◌, Bool, true, false, some, [], ◌++◌, arith, Bool-cases, err,
  Result-cases,
}
use astralrelay_online.Common.Text.{Text, lit, text_eq_refl, text_eq_iff, is_empty}
use astralrelay_online.Common.Decimal.{itoa}
use astralrelay_online.Mesh.Nodes.{
  Coordinator, mesh_ip_base, read_file, write_file, write_traefik_route,
}
use astralrelay_online.Mesh.State.{
  Saved, Codec, Fresh, MeshError, invalid_token, saved, save, load, is_refused, ensure_token,
  next_vpn_ip, add_node,
}
use astralrelay_online.Mesh.Handlers.{
  JoinRequest, join_request, join_commit, handle_join, handle_peers, handle_cert, handle_token,
}
use astralrelay_online.Mesh.Config.{ConfigRequest, config_request, config_new, handle_config}
use astralrelay_online.Mesh.Numbers.{saved-save}

refused : (c : Coordinator) (t : Text) → c.token ≢ [] → t ≢ c.token → is_refused c t ≡ true
unfolding is_refused
refused c t there wrong = ground (arith, (text_eq_iff t c.token).0, there, wrong)

join_refused :
    (f : Bool) (k : Codec) (r : Fresh) (c : Coordinator) (method : Text) (req : JoinRequest)
    → is_refused c req.token ≡ true
    → (e : MeshError) × (handle_join f k r c method (some req) ≡ (c, err e))
unfolding handle_join join_request
join_refused f k r c method req h = elim (Result-cases (join_request c method (some req))) [
  | inl (a, fine) ↦ absurd (ground arith)
  | inr (e, wrong) ↦ (e, rw (wrong, handle_join) refl)
]

config_refused :
    (g f : Bool) (k : Codec) (r : Fresh) (c : Coordinator) (req : ConfigRequest)
    → is_refused c req.token ≡ true
    → (e : MeshError) × (handle_config g f k r c req ≡ (c, err e))
unfolding handle_config config_request
config_refused g f k r c req h = elim (Result-cases (config_request c req)) [
  | inl (a, fine) ↦ absurd (ground arith)
  | inr (e, wrong) ↦ (e, rw (wrong, handle_config) refl)
]

cert_refused :
    (c : Coordinator) (method token domain : Text)
    → is_refused c token ≡ true
    → (e : MeshError) × (handle_cert c method (some (token, domain)) ≡ err e)
unfolding handle_cert
cert_refused c method token domain h =
    elim (Result-cases (handle_cert c method (some (token, domain)))) [
      | inl (a, fine) ↦ absurd (ground arith)
      | inr (e, wrong) ↦ (e, wrong)
    ]

-- With a token that is not the coordinator's, which is there, nobody joins, gets a configuration, a
-- certificate or the list of the nodes, and nothing changes.
pub wrong_token :
    (g f : Bool) (k : Codec) (r : Fresh) (c : Coordinator) (method domain : Text)
    (join : JoinRequest) (config : ConfigRequest)
    → c.token ≢ []
    → join.token ≢ c.token
    → config.token ≡ join.token
    → ((e : MeshError) × (handle_join f k r c method (some join) ≡ (c, err e)))
      × ((e : MeshError) × (handle_config g f k r c config ≡ (c, err e)))
      × ((e : MeshError) × (handle_cert c method (some (join.token, domain)) ≡ err e))
      × (handle_peers c join.token ≡ err invalid_token)
unfolding handle_peers
wrong_token g f k r c method domain join config there wrong same =
    let bad = refused c join.token there wrong in
    (
      join_refused f k r c method join bad,
      config_refused g f k r c config (rw same bad),
      cert_refused c method join.token domain bad,
      rw bad refl,
    )

-- The coordinator's program after a restart, with the files that are there.
unfoldable pub restarted : Codec → Coordinator → Coordinator
restarted k c = load k (record c { nodes = []; next_ip = 0; token = []; backup_secret = [] })

restarted-save :
    (k : Codec) (c : Coordinator)
    → ((s : Saved) → k.decode (k.encode s) ≡ some s)
    → c.storage_path ≢ []
    → saved (restarted k (save false k c)) ≡ saved c
unfolding restarted saved save load read_file write_file
restarted-save k c codec path = elim (Bool-cases (is_empty c.storage_path)) [
  | inl gone ↦ absurd (ground arith)
  | inr there ↦ ground (arith, there, codec (saved c), text_eq_refl c.storage_path)
]

added_path :
    (r : Fresh) (c : Coordinator) (dom key ep sub : Text)
    → (add_node r (ensure_token r c) dom key ep sub).storage_path ≡ c.storage_path
unfolding add_node ensure_token
added_path r c dom key ep sub = ground arith

routed_path :
    (f : Bool) (c : Coordinator) (s m u : Text)
    → (write_traefik_route f c s m u).storage_path ≡ c.storage_path
unfolding write_traefik_route
routed_path f c s m u = ground arith

-- After a restart the state is that of the last registration or first call for the token, if the
-- writes succeed and what JSON encodes it decodes.
pub restarted-commit :
    (g : Bool) (k : Codec) (r : Fresh) (c : Coordinator) (join : JoinRequest)
    (config : ConfigRequest)
    → ((s : Saved) → k.decode (k.encode s) ≡ some s)
    → c.storage_path ≢ []
    → let joined = (join_commit false k r c join).0 in
      let configured = (config_new g false k r c config).0 in
      let tokened = (handle_token false k r c).0 in
      (saved (restarted k joined) ≡ saved joined)
      × (saved (restarted k configured) ≡ saved configured)
      × (saved (restarted k tokened) ≡ saved tokened)
unfolding join_commit config_new handle_token
restarted-commit g k r c join config codec path =
    let at : (e : Coordinator)
        → e.storage_path ≡ c.storage_path
        → saved (restarted k (save false k e)) ≡ saved (save false k e) =
      λ e same. restarted-save k e codec (rw same path) ∙ sym (saved-save false k e) in
    (
      at _ (added_path r c _ _ _ _),
      at _ (routed_path g _ _ _ _ ∙ added_path r c _ _ _ _),
      at _ (ground arith),
    )

join_ip :
    (f : Bool) (k : Codec) (r : Fresh) (c : Coordinator) (req : JoinRequest)
    → (join_commit f k r c req).1.vpn_ip ≡ mesh_ip_base ++ itoa (ensure_token r c).next_ip
unfolding join_commit next_vpn_ip
join_ip f k r c req = refl

first_ip : (r : Fresh) (c : Coordinator) → c.token ≡ [] → (ensure_token r c).next_ip ≡ 1
unfolding ensure_token
first_ip r c h = ground (arith, h)

kept_ip :
    (r : Fresh) (c : Coordinator)
    → is_empty c.token ≡ false
    → (ensure_token r c).next_ip ≡ c.next_ip
unfolding ensure_token
kept_ip r c h = ground (arith, h)

asked :
    (f : Bool) (k : Codec) (r : Fresh) (c : Coordinator)
    → c.token ≡ []
    → ((handle_token f k r c).0.token ≡ r.token) × ((handle_token f k r c).0.next_ip ≡ c.next_ip)
unfolding handle_token save
asked f k r c h = ground (arith, h)

-- The first node of a coordinator that was asked for its token before gets the address of the subnet
-- itself, and 10.100.0.1 if it was not asked.
pub first_address :
    (f g : Bool) (k : Codec) (r r' : Fresh) (c : Coordinator) (req : JoinRequest)
    → c.token ≡ []
    → c.next_ip ≡ 0
    → is_empty r.token ≡ false
    → let asked = (handle_token f k r c).0 in
      ((join_commit g k r' asked req).1.vpn_ip ≡ lit "10.100.0.0")
      × ((join_commit g k r' c req).1.vpn_ip ≡ lit "10.100.0.1")
unfolding itoa
first_address f g k r r' c req a b new =
    let (token, next) = asked f k r c a in
    let c1 = (handle_token f k r c).0 in
    let kept = kept_ip r' c1 (rw token new) in
    (
      rw (join_ip g k r' c1 req, kept, next, b) refl,
      rw (join_ip g k r' c req, first_ip r' c a) refl,
    )
