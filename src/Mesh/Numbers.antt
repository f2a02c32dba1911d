-- ===== src/Mesh/Numbers.antt =====
-- The addresses that mesh/coordinator/main.go gives out, over any sequence of registrations.
use astralrelay_online.Common.{
  ℕ, suc, ◌<◌, ◌≡◌, ◌≢◌, inl, inr, refl, ap, sym, subst, ◌∙◌, Bool, false, none, some, List, [],
  ◌∷◌, ◌++◌, arith, drop, All, Bool-cases, Option-cases,
}
use astralrelay_online.Common.Text.{Text, is_empty}
use astralrelay_online.Common.Decimal.{itoa, itoa-injective}
use astralrelay_online.Mesh.Nodes.{Node, Coordinator, mesh_ip_base, write_traefik_route}
use astralrelay_online.Mesh.State.{
  Saved, Codec, Fresh, saved, save, ensure_token, next_vpn_ip, add_node,
}
use astralrelay_online.Mesh.Handlers.{JoinRequest, join_commit, handle_token}
use astralrelay_online.Mesh.Config.{
  ConfigRequest, config_again, config_new, config_commit, find_node,
}

-- A commit of handleJoin, handleConfig or handleToken, with the writes that fail.
pub data Commit : Type 0 where
  joins : Bool → Fresh → JoinRequest → Commit
  configs : Bool → Bool → Fresh → ConfigRequest → Commit
  tokens : Bool → Fresh → Commit

abbrev pub fresh_of : Commit → Fresh
fresh_of (joins f r req) = r
fresh_of (configs g f r req) = r
fresh_of (tokens f r) = r

unfoldable pub commit : Codec → Coordinator → Commit → Coordinator
commit k c (joins f r req) = (join_commit f k r c req).0
commit k c (configs g f r req) = (config_commit g f k r c req).0
commit k c (tokens f r) = (handle_token f k r c).0

unfoldable pub run : Codec → Coordinator → List Commit → Coordinator
run k c [] = c
run k c (x ∷ xs) = run k (commit k c x) xs

abbrev pub Distinct : List Node → Type 0
Distinct [] = Unit {0}
Distinct (n ∷ ns) = All (λ m. m.vpn_ip ≢ n.vpn_ip) ns × Distinct ns

-- Addresses below the next one, all different, and none before there is a token.
pub record IsNumbered (s : Saved) : Type 0 where
  pub empty : s.token ≡ [] → s.nodes ≡ []
  pub below : All (λ n. (k : ℕ) × (n.vpn_ip ≡ mesh_ip_base ++ itoa k) × (k < s.next_ip)) s.nodes
  pub distinct : Distinct s.nodes

abbrev pub HasTokens : List Commit → Type 0
HasTokens = All (λ x. is_empty (fresh_of x).token ≡ false)

pub saved-save : (f : Bool) (k : Codec) (c : Coordinator) → saved (save f k c) ≡ saved c
unfolding saved save
saved-save f k c = ground arith

pub saved-write_traefik_route :
    (f : Bool) (c : Coordinator) (s m u : Text) → saved (write_traefik_route f c s m u) ≡ saved c
unfolding saved write_traefik_route
saved-write_traefik_route f c s m u = ground arith

pub fresh_ip :
    (next : ℕ) (ns : List Node)
    → All (λ n. (k : ℕ) × (n.vpn_ip ≡ mesh_ip_base ++ itoa k) × (k < next)) ns
    → All (λ n. n.vpn_ip ≢ mesh_ip_base ++ itoa next) ns
fresh_ip next [] a = tt
fresh_ip next (n ∷ ns) ((k, at, low), rest) = (
  λ same. absurd (omega (arith, low, itoa-injective k next (ap (drop 9) (sym at ∙ same)))),
  fresh_ip next ns rest,
)

All-append : (P : Node → Type 0) (ns : List Node) (x : Node) → All P ns → P x → All P (ns ++ x ∷ [])
All-append P [] x a p = (p, tt)
All-append P (n ∷ ns) x a p = (a.0, All-append P ns x a.1 p)

Distinct-append :
    (ns : List Node) (x : Node)
    → Distinct ns
    → All (λ n. n.vpn_ip ≢ x.vpn_ip) ns
    → Distinct (ns ++ x ∷ [])
Distinct-append [] x d a = (tt, tt)
Distinct-append (n ∷ ns) x d a = (
  All-append (λ m. m.vpn_ip ≢ n.vpn_ip) ns x d.0 (λ e. a.0 (sym e)),
  Distinct-append ns x d.1 a.1,
)

grown :
    (next : ℕ) (ns : List Node)
    → All (λ n. (k : ℕ) × (n.vpn_ip ≡ mesh_ip_base ++ itoa k) × (k < next)) ns
    → All (λ n. (k : ℕ) × (n.vpn_ip ≡ mesh_ip_base ++ itoa k) × (k < suc next)) ns
grown next [] a = tt
grown next (n ∷ ns) ((k, at, low), rest) = ((k, at, omega arith), grown next ns rest)

no_nodes : (s : Saved) → s.nodes ≡ [] → IsNumbered s
no_nodes s h = record { empty = λ e. h; below = rw h tt; distinct = rw h tt }

pub ensure_token-IsNumbered :
    (r : Fresh) (c : Coordinator)
    → is_empty r.token ≡ false
    → IsNumbered (saved c)
    → IsNumbered (saved (ensure_token r c)) × ((ensure_token r c).token ≢ [])
unfolding ensure_token saved
ensure_token-IsNumbered r c new v = elim (Bool-cases (is_empty c.token)) [
  | inl none_yet ↦
      let blank = v.empty (ground arith) in rw none_yet (no_nodes _ blank, λ e. ground arith)
  | inr there ↦ rw there (v, λ e. ground arith)
]

add_node-IsNumbered :
    (r : Fresh) (c : Coordinator) (dom key ep sub : Text)
    → c.token ≢ []
    → IsNumbered (saved c)
    → IsNumbered (saved (add_node r c dom key ep sub))
unfolding add_node saved next_vpn_ip
add_node-IsNumbered r c dom key ep sub has v = record {
  empty = λ e. absurd (has e);
  below = All-append _ c.nodes _ (grown c.next_ip c.nodes v.below) (c.next_ip, refl, omega arith);
  distinct = Distinct-append c.nodes _ v.distinct (fresh_ip c.next_ip c.nodes v.below);
}

pub saved-join_commit :
    (f : Bool) (k : Codec) (r : Fresh) (c : Coordinator) (req : JoinRequest)
    → saved (join_commit f k r c req).0
      ≡ saved (add_node r (ensure_token r c) req.domain req.public_key req.endpoint [])
unfolding join_commit
saved-join_commit f k r c req = saved-save f k _

pub saved-config_again :
    (f : Bool) (c : Coordinator) (req : ConfigRequest) (n : Node)
    → saved (config_again f c req n).0 ≡ saved c
unfolding config_again
saved-config_again f c req n = saved-write_traefik_route f c _ _ _

pub saved-config_new :
    (g f : Bool) (k : Codec) (r : Fresh) (c : Coordinator) (req : ConfigRequest)
    → (sub : Text) × (saved (config_new g f k r c req).0
        ≡ saved (add_node r (ensure_token r c) req.domain req.public_key req.endpoint sub))
unfolding config_new
saved-config_new g f k r c req = (_, saved-save f k _ ∙ saved-write_traefik_route g _ _ _ _)

pub config_commit_known :
    (g f : Bool) (k : Codec) (r : Fresh) (c : Coordinator) (req : ConfigRequest) (n : Node)
    → find_node req.public_key c.nodes ≡ some n
    → config_commit g f k r c req ≡ config_again g c req n
unfolding config_commit
config_commit_known g f k r c req n h = rw (h, config_commit) refl

pub config_commit_unknown :
    (g f : Bool) (k : Codec) (r : Fresh) (c : Coordinator) (req : ConfigRequest)
    → find_node req.public_key c.nodes ≡ none
    → config_commit g f k r c req ≡ config_new g f k r c req
unfolding config_commit
config_commit_unknown g f k r c req h = rw (h, config_commit) refl

add_first-IsNumbered :
    (r : Fresh) (c : Coordinator) (dom key ep sub : Text)
    → is_empty r.token ≡ false
    → IsNumbered (saved c)
    → IsNumbered (saved (add_node r (ensure_token r c) dom key ep sub))
add_first-IsNumbered r c dom key ep sub new v =
    let (w, has) = ensure_token-IsNumbered r c new v in
    add_node-IsNumbered r (ensure_token r c) dom key ep sub has w

commit-IsNumbered :
    (k : Codec) (c : Coordinator) (x : Commit)
    → is_empty (fresh_of x).token ≡ false
    → IsNumbered (saved c)
    → IsNumbered (saved (commit k c x))
unfolding commit handle_token saved
commit-IsNumbered k c (joins f r req) new v =
    rw (saved-join_commit f k r c req)
      (add_first-IsNumbered r c req.domain req.public_key req.endpoint [] new v)
commit-IsNumbered k c (configs g f r req) new v =
    elim (Option-cases (find_node req.public_key c.nodes)) [
      | inr (n, found) ↦
          subst (λ z. IsNumbered (saved z.0)) (sym (config_commit_known g f k r c req n found))
            (rw (saved-config_again g c req n) v)
      | inl unknown ↦
          let (sub, same) = saved-config_new g f k r c req in
          subst (λ z. IsNumbered (saved z.0)) (sym (config_commit_unknown g f k r c req unknown))
            (rw same (add_first-IsNumbered r c req.domain req.public_key req.endpoint sub new v))
    ]
commit-IsNumbered k c (tokens f r) new v = elim (Bool-cases (is_empty c.token)) [
  | inl none_yet ↦
      let blank : c.nodes ≡ [] = v.empty (ground arith) in
      rw (none_yet, saved-save f k _) (no_nodes _ blank)
  | inr there ↦ rw (there, saved-save f k c) v
]

-- Whatever writes fail, after any sequence of registrations and calls for the token, in any order of
-- their commits, the nodes have addresses that are all different and below the next one, if they had
-- before and the tokens made are not empty.
pub run-IsNumbered :
    (k : Codec) (c : Coordinator) (xs : List Commit)
    → HasTokens xs
    → IsNumbered (saved c)
    → IsNumbered (saved (run k c xs))
unfolding run
run-IsNumbered k c [] new v = v
run-IsNumbered k c (x ∷ xs) new v =
    run-IsNumbered k (commit k c x) xs new.1 (commit-IsNumbered k c x new.0 v)
