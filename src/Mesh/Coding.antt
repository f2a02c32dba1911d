-- ===== src/Mesh/Coding.antt =====
-- A codec for the state of mesh/coordinator/main.go, in place of encoding/json, that the tests use.
use astralrelay_online.Common.{
  ℕ, zero, suc, ◌≡◌, refl, ap, Option, some, none, List, [], ◌∷◌, ◌++◌, length, take, drop,
}
use astralrelay_online.Common.Text.{Text}
use astralrelay_online.Common.Cuts.{take-append, drop-append}
use astralrelay_online.Mesh.Nodes.{Node}
use astralrelay_online.Mesh.State.{Saved, Codec}

-- A text behind its length.
abbrev put_text : Text → Text → Text
put_text t rest = length t ∷ (t ++ rest)

abbrev cut_text : Text → Text × Text
cut_text [] = ([], [])
cut_text (n ∷ s) = (take n s, drop n s)

cut_text-put_text : (t rest : Text) → cut_text (put_text t rest) ≡ (t, rest)
cut_text-put_text t rest = rw (take-append t rest, drop-append t rest) refl

abbrev cut_number : Text → ℕ × Text
cut_number [] = (0, [])
cut_number (n ∷ s) = (n, s)

unfoldable put_node : Node → Text → Text
put_node n rest = put_text n.id (
    put_text n.domain (
      put_text n.public_key
        (put_text n.endpoint (put_text n.vpn_ip (put_text n.subdomain (n.joined_at ∷ rest))))))

unfoldable cut_node : Text → Node × Text
cut_node s0 =
    let a = cut_text s0 in
    let b = cut_text a.1 in
    let c = cut_text b.1 in
    let d = cut_text c.1 in
    let e = cut_text d.1 in
    let f = cut_text e.1 in
    let g = cut_number f.1 in
    (
      record {
        id = a.0;
        domain = b.0;
        public_key = c.0;
        endpoint = d.0;
        vpn_ip = e.0;
        subdomain = f.0;
        joined_at = g.0;
      },
      g.1,
    )

cut_node-put_node : (n : Node) (rest : Text) → cut_node (put_node n rest) ≡ (n, rest)
unfolding cut_node put_node
cut_node-put_node n rest = simp (take-append, drop-append) refl

unfoldable put_nodes : List Node → Text
put_nodes [] = []
put_nodes (n ∷ ns) = put_node n (put_nodes ns)

unfoldable cut_nodes : ℕ → Text → List Node
cut_nodes zero s = []
cut_nodes (suc k) s = (cut_node s).0 ∷ cut_nodes k (cut_node s).1

cut_nodes-put_nodes : (ns : List Node) → cut_nodes (length ns) (put_nodes ns) ≡ ns
unfolding cut_nodes put_nodes
cut_nodes-put_nodes [] = refl
cut_nodes-put_nodes (n ∷ ns) =
    rw (cut_node-put_node n (put_nodes ns)) (ap (◌∷◌ n) (cut_nodes-put_nodes ns))

pub encode_saved : Saved → Text
encode_saved s =
    length s.nodes ∷ s.next_ip ∷ put_text s.token (put_text s.backup_secret (put_nodes s.nodes))

pub decode_saved : Text → Option Saved
decode_saved (count ∷ next ∷ t) =
    let a = cut_text t in
    let b = cut_text a.1 in
    some (record { nodes = cut_nodes count b.1; next_ip = next; token = a.0; backup_secret = b.0 })
decode_saved _ = none

abbrev pub codec : Codec
codec = record { encode = encode_saved; decode = decode_saved }

pub decode-encode : (s : Saved) → codec.decode (codec.encode s) ≡ some s
unfolding encode_saved decode_saved
decode-encode s = simp (take-append, drop-append, cut_nodes-put_nodes s.nodes) refl
