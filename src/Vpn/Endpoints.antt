-- ===== src/Vpn/Endpoints.antt =====
-- Texts of server/internal/vpn: parseHostPort, derivePingURL and BuildWireGuardConf.
use astralrelay_online.Common.{
  ℕ, suc, not, ◌&&◌, Option, none, some, List, [], ◌∷◌, ◌++◌, ◌==◌, ltb, if◌then◌else◌, take, drop,
}
use mathlib.Core.Option
use astralrelay_online.Common.Text.{Text, lit, has_prefix, is_empty, trim_space}

-- strings.LastIndex of one byte; `none` for -1.
unfoldable pub last_index : Text → ℕ → Option ℕ
last_index [] b = none
last_index (c ∷ s) b = elim (last_index s b) [
  | some i ↦ some (suc i)
  | none ↦ if c == b then some 0 else none
]

-- strings.Index of two bytes
unfoldable pub index2 : Text → ℕ → ℕ → Option ℕ
index2 [] a b = none
index2 (c ∷ s) a b =
    let rest = Option.map suc (index2 s a b) in
    if has_prefix (c ∷ s) (a ∷ b ∷ []) then some 0 else rest

unfoldable pub parse_host_port : Text → Text × Text
parse_host_port s =
    if is_empty s
    then ([], lit "443")
    else if has_prefix s (lit "[")
    then elim (index2 s b']' b':') [
      | none ↦ (s, lit "443")
      | some i ↦ if ltb 0 i then (take (suc i) s, drop (suc (suc i)) s) else (s, lit "443")
    ]
    else elim (last_index s b':') [
      | none ↦ (s, lit "443")
      | some i ↦ if ltb 0 i then (take i s, drop (suc i) s) else (s, lit "443")
    ]

abbrev host_of : Text → Text
host_of ep =
    trim_space
      (elim (last_index ep b':') [ none ↦ ep | some i ↦ if ltb 0 i then take i ep else ep ])

-- The loop of derivePingURL over the endpoints.
unfoldable pub ping_url : List Text → Text
ping_url [] = []
ping_url (ep ∷ eps) =
    let rest = ping_url eps in
    if is_empty ep
    then rest
    else if not (is_empty (host_of ep)) && not (has_prefix (host_of ep) (lit "["))
    then lit "https://" ++ (host_of ep ++ lit "/")
    else rest

unfoldable pub derive_ping_url : Text → Text → Text → Text
derive_ping_url wg ovpn xray = ping_url (xray ∷ ovpn ∷ wg ∷ [])

abbrev pub newline : Text
newline = 10 ∷ []

unfoldable pub build_wireguard_conf : Text → Text → Text → Text → Text
build_wireguard_conf priv server endpoint address =
    lit "[Interface]"
    ++ (newline
        ++ (lit "PrivateKey = "
            ++ (priv
                ++ (newline
                    ++ (lit "Address = "
                        ++ (address
                            ++ (newline
                                ++ (lit "DNS = 1.1.1.1, 8.8.8.8"
                                    ++ (newline
                                        ++ (newline
                                            ++ (lit "[VpnPeer]"
                                                ++ (newline
                                                    ++ (lit "PublicKey = "
                                                        ++ (server
                                                            ++ (newline
                                                            ++ (lit "Endpoint = "
                                                            ++ (endpoint
                                                            ++ (newline
                                                            ++ (lit "AllowedIPs = 0.0.0.0/0, ::/0"
                                                            ++ newline)))))))))))))))))))
