-- ===== src/Auth/Devices.antt =====
-- The devices of a user: ListDevices, RenameDevice, RevokeDevice and CleanupExpiredTokens of
-- server/internal/auth/auth.go.
use astralrelay_online.Common.{
  ℕ, ◌+◌, Bool, not, ◌&&◌, ◌||◌, none, some, List, [], ◌∷◌, ◌==◌, ltb, leb, if◌then◌else◌, keep_if,
  Result, ok, err, map,
}
use astralrelay_online.Common.Text.{Text, trim_space}
use astralrelay_online.Auth.Tables.{
  Device, AccessToken, Store, owned, delete_device, revoke_where, is_outdated,
}
use astralrelay_online.Auth.Tokens.{AuthError, failed}

pub record DeviceInfo : Type 0 where
  pub device_id : ℕ
  pub name : Text
  pub created_at : ℕ
  pub is_current : Bool

abbrev info_of : ℕ → Device → DeviceInfo
info_of current d = record {
  device_id = d.id;
  name = elim d.name [ none ↦ [] | some n ↦ n ];
  created_at = d.created_at;
  is_current = d.id == current;
}

-- The place of a device under ORDER BY created_at DESC.
unfoldable pub insert_newest : Device → List Device → List Device
insert_newest d [] = d ∷ []
insert_newest d (e ∷ es) =
    let rest = insert_newest d es in if ltb d.created_at e.created_at then e ∷ rest else d ∷ e ∷ es

unfoldable pub newest_first : List Device → List Device
newest_first [] = []
newest_first (d ∷ ds) = insert_newest d (newest_first ds)

unfoldable pub list_devices : Bool → ℕ → ℕ → Store → Result AuthError (List DeviceInfo)
list_devices fails u current st =
    if fails
    then err failed
    else ok (map (info_of current) (newest_first (keep_if (λ d. d.user_id == u) st.devices)))

-- The bytes that WriteRune writes for a code point.
abbrev pub rune_len : ℕ → ℕ
rune_len r = if ltb r 128 then 1 else if ltb r 2048 then 2 else if ltb r 65536 then 3 else 4

abbrev pub max_len : ℕ
max_len = 64

-- The loop of sanitizeDeviceName, with the bytes that are in the buffer.
unfoldable pub sanitize_runes : ℕ → Text → Text
sanitize_runes written [] = []
sanitize_runes written (r ∷ rs) =
    let skipped = sanitize_runes written rs in
    let kept = r ∷ sanitize_runes (written + rune_len r) rs in
    if (r == 9) || (r == 10) || (r == 13) || ltb r 32
    then skipped
    else if leb max_len written
    then []
    else kept

-- sanitizeDeviceName, on a name as its code points.
unfoldable pub sanitize_device_name : Text → Text
sanitize_device_name s = sanitize_runes 0 (trim_space s)

abbrev rename_row : ℕ → ℕ → Text → Device → Device
rename_row u v name d = if owned u v d then record d { name = some name } else d

unfoldable pub rename_device : Bool → ℕ → ℕ → Text → Store → Store × Result AuthError (Unit {0})
rename_device fails u v name st = if fails then (st, err failed) else (
  record st { devices = map (rename_row u v (sanitize_device_name name)) st.devices },
  ok tt,
)

-- user_id = u AND device_id = v
abbrev pub on_device : ℕ → ℕ → AccessToken → Bool
on_device u v t = (t.user_id == u) && (t.device_id == v)

unfoldable pub revoke_device : Bool → Bool → ℕ → ℕ → ℕ → Store → Store × Result AuthError (Unit {0})
revoke_device update_fails delete_fails now u v st =
    let revoked = record st { tokens = revoke_where now (on_device u v) st.tokens } in
    if update_fails
    then (st, err failed)
    else if delete_fails
    then (revoked, err failed)
    else (delete_device u v revoked, ok tt)

unfoldable pub cleanup_expired_tokens : ℕ → List AccessToken → List AccessToken
cleanup_expired_tokens now ts = keep_if (λ t. not (is_outdated now t)) ts
