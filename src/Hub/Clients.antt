-- ===== src/Hub/Clients.antt =====
-- The map from recipients to sets of clients in server/internal/stream/hub.go.
use astralrelay_online.Common.{ℕ, Bool, false, ◌||◌, List, [], ◌∷◌, ◌++◌, if◌then◌else◌, ◌==◌}
use astralrelay_online.Common.Text.{Text, text_eq}

-- A client; `id` stands for the pointer, which is its identity.
pub record Client : Type 0 where
  pub id : ℕ
  pub recipient : Text
  pub sender : Text

abbrev pub ClientSets : Type 0
ClientSets = List (Text × List Client)

-- h.clients[recipient], where a missing key has no clients.
unfoldable pub lookup_clients : Text → ClientSets → List Client
lookup_clients r [] = []
lookup_clients r ((k, cs) ∷ m) = if text_eq k r then cs else lookup_clients r m

unfoldable pub has_client : ℕ → List Client → Bool
has_client i [] = false
has_client i (c ∷ cs) = (c.id == i) || has_client i cs

-- m[c] = struct{}{}
unfoldable pub put_client : Client → List Client → List Client
put_client c cs = if has_client c.id cs then cs else cs ++ c ∷ []

-- delete(m, c)
unfoldable pub delete_client : ℕ → List Client → List Client
delete_client i [] = []
delete_client i (c ∷ cs) = let rest = delete_client i cs in if c.id == i then rest else c ∷ rest

unfoldable pub register_in : Client → ClientSets → ClientSets
unfolding put_client
register_in c [] = (c.recipient, c ∷ []) ∷ []
register_in c ((k, cs) ∷ m) =
    if text_eq k c.recipient then (k, put_client c cs) ∷ m else (k, cs) ∷ register_in c m

abbrev pub kept_set : Text → List Client → ClientSets → ClientSets
kept_set k [] m = m
kept_set k (c ∷ cs) m = (k, c ∷ cs) ∷ m

unfoldable pub unregister_in : Client → ClientSets → ClientSets
unfolding delete_client
unregister_in c [] = []
unregister_in c ((k, cs) ∷ m) =
    let rest = unregister_in c m in
    if text_eq k c.recipient then kept_set k (delete_client c.id cs) m else (k, cs) ∷ rest
