-- ===== src/Mesh/Examples.antt =====
-- Tests of the model of mesh/coordinator/main.go, and its theorems at concrete inputs.
use astralrelay_online.Common.{◌≡◌, refl, true, false, none, some, List, [], ◌∷◌, err}
use astralrelay_online.Common.Text.{Text, lit, text_eq, index, replace_byte, ne_of_text_eq}
use astralrelay_online.Common.Decimal.{itoa, digits}
use astralrelay_online.Mesh.Nodes.{Node, Coordinator, subdomain_from_endpoint}
use astralrelay_online.Mesh.State.{
  Fresh, MeshError, invalid_token, saved, ensure_token, next_vpn_ip,
}
use astralrelay_online.Mesh.Handlers.{
  JoinRequest, join_commit, handle_join, handle_peers, handle_cert, handle_token,
}
use astralrelay_online.Mesh.Config.{ConfigRequest, config_new, handle_config}
use astralrelay_online.Mesh.Numbers.{
  Commit, joins, configs, tokens, run, IsNumbered, run-IsNumbered,
}
use astralrelay_online.Mesh.Answers.{join_commit_peers}
use astralrelay_online.Mesh.Access.{wrong_token, restarted, restarted-commit}
use astralrelay_online.Mesh.Coding.{codec, decode-encode}

abbrev start : Coordinator
start = record {
  nodes = [];
  next_ip = 0;
  token = [];
  backup_secret = [];
  storage_path = lit "/c";
  routes_dir = [];
  ca = none;
  files = [];
}

abbrev fresh : Fresh
fresh = record { token = lit "tok"; secret = lit "sec"; id = lit "id"; now = 5 }

abbrev join : Text → JoinRequest
join key = record {
  token = lit "bad";
  public_key = key;
  endpoint = lit "1.2.3.4:51820";
  domain = lit "a.org";
}

abbrev config : ConfigRequest
config = record {
  token = lit "bad";
  public_key = lit "K2";
  endpoint = lit "1.2.3.5:1";
  domain = lit "b.org";
  use_subdomain = lit "1";
  main_domain = lit "m.org";
}

subdomain_test : subdomain_from_endpoint (lit "1.2.3.4:51820") ≡ lit "1-2-3-4"
unfolding subdomain_from_endpoint index replace_byte
subdomain_test = refl

start-IsNumbered : IsNumbered (saved start)
unfolding saved
start-IsNumbered = record { empty = λ e. refl; below = tt; distinct = tt }

-- The addresses go on past the last byte.
past_test :
    (join_commit false codec fresh
      (record start { next_ip = 256; token = lit "tok" })
      (join (lit "K"))).1.vpn_ip
    ≡ lit "10.100.0.256"
unfolding join_commit ensure_token next_vpn_ip itoa digits
past_test = refl

abbrev calls : List Commit
calls =
    tokens false fresh ∷ joins false fresh (join (lit "K1")) ∷ configs false true fresh config ∷ []

run-IsNumbered_example : IsNumbered (saved (run codec start calls))
run-IsNumbered_example =
    run-IsNumbered codec start calls (refl, (refl, (refl, tt))) start-IsNumbered

join_commit_peers_example :
    let (c', answer) = join_commit false codec fresh start (join (lit "K")) in
    (answer.peers ≡ [])
    × (answer.backup_peers ≡ [])
    × (answer.backup_secret ≡ (saved c').backup_secret)
    × Unit {0}
    × ((n : Node) × ((saved c').nodes ≡ n ∷ [])
        × (n.vpn_ip ≡ answer.vpn_ip)
        × (n.public_key ≡ lit "K")
        × (n.endpoint ≡ lit "1.2.3.4:51820"))
join_commit_peers_example =
    join_commit_peers false codec fresh start (join (lit "K")) refl start-IsNumbered

abbrev ready : Coordinator
ready = record start { token = lit "tok" }

wrong_token_example :
    ((e : MeshError) × (handle_join false codec fresh ready (lit "POST") (some (join (lit "K")))
        ≡ (ready, err e)))
    × ((e : MeshError) × (handle_config false false codec fresh ready config ≡ (ready, err e)))
    × ((e : MeshError) × (handle_cert ready (lit "POST") (some (lit "bad", lit "a.org")) ≡ err e))
    × (handle_peers ready (lit "bad") ≡ err invalid_token)
unfolding text_eq
wrong_token_example =
    wrong_token false false codec fresh ready (lit "POST") (lit "a.org") (join (lit "K")) config
      (ne_of_text_eq (lit "tok") [] refl) (ne_of_text_eq (lit "bad") (lit "tok") refl) refl

restarted-commit_example :
    let joined = (join_commit false codec fresh start (join (lit "K"))).0 in
    let configured = (config_new false false codec fresh start config).0 in
    let tokened = (handle_token false codec fresh start).0 in
    (saved (restarted codec joined) ≡ saved joined)
    × (saved (restarted codec configured) ≡ saved configured)
    × (saved (restarted codec tokened) ≡ saved tokened)
unfolding text_eq
restarted-commit_example =
    restarted-commit false codec fresh start (join (lit "K")) config decode-encode
      (ne_of_text_eq (lit "/c") [] refl)
