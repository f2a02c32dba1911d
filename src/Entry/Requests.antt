-- ===== src/Entry/Requests.antt =====
-- server/internal/api/handlers_auth.go: the bodies of requests and of answers, and what a login is for. A
-- request is its decoded value.
use astralrelay_online.Common.{
  ℕ, suc, Bool, Option, none, some, List, [], ◌∷◌, take, drop, if◌then◌else◌,
}
use astralrelay_online.Common.Text.{Text, is_empty, trim_space, index}
use astralrelay_online.Common.Trim.{norm}
use astralrelay_online.Keydir.{PrekeyItem}
use astralrelay_online.Auth.Login.{LoginInput}

-- The keys of a request, in base64.
pub record KeysRequest : Type 0 where
  pub identity_key : Text
  pub signed_prekey : Text
  pub signature : Text
  pub key_id : ℕ
  pub one_time_prekeys : List PrekeyItem

pub record LoginRequest : Type 0 where
  pub username : Text
  pub password : Text
  pub device_id : Text
  pub domain : Text
  pub request_keys_restore : Bool
  pub keys : Option KeysRequest

-- AuthVerifyResult
pub record VerifyResult : Type 0 where
  pub access_token : Text
  pub user_id : Text
  pub device_id : Text
  pub keys_backup : Option (Text × Text)

-- encoding/base64, of which an error is ignored, and encoding/json on the body of AuthVerify, for a
-- user, and on its answer.
pub record Codecs : Type 0 where
  pub unbase64 : Text → Text
  pub base64 : Text → Text
  pub marshal : Text → LoginRequest → Text
  pub read_verify : Text → Option VerifyResult

pub record LoginReply : Type 0 where
  pub user_id : Text
  pub device_id : Text
  pub access_token : Text
  pub keys_backup : Option (Text × Text)

abbrev pub own_or : Text → Text → Text
own_or own d = if is_empty d then own else d

-- The name and the domain that a login is for.
unfoldable pub login_name : Text → Text → Text → Text × Text
login_name own username domain = elim (index (trim_space username) b'@') [
  | none ↦ (trim_space username, own_or own (norm domain))
  | some i ↦ (
    trim_space (take i (trim_space username)),
    own_or own
        (if is_empty (norm domain) then norm (drop (suc i) (trim_space username)) else norm domain),
  )
]

unfoldable pub decode_prekeys : Codecs → List PrekeyItem → List PrekeyItem
decode_prekeys k [] = []
decode_prekeys k (p ∷ ps) = record p { key = k.unbase64 p.key } ∷ decode_prekeys k ps

abbrev no_keys : Text → LoginRequest → ℕ → LoginInput
no_keys name req device = record {
  username = name;
  password = req.password;
  device_id = device;
  request_keys_restore = req.request_keys_restore;
  identity_key = [];
  signed_prekey = [];
  signed_prekey_sig = [];
  signed_prekey_id = 0;
  one_time_prekeys = [];
}

abbrev with_keys : Codecs → KeysRequest → LoginInput → LoginInput
with_keys k keys in' = record in' {
  identity_key = k.unbase64 keys.identity_key;
  signed_prekey = k.unbase64 keys.signed_prekey;
  signed_prekey_sig = k.unbase64 keys.signature;
  signed_prekey_id = keys.key_id;
  one_time_prekeys = decode_prekeys k keys.one_time_prekeys;
}

unfoldable pub login_input : Codecs → Text → LoginRequest → ℕ → LoginInput
login_input k name req device = elim req.keys [
  | none ↦ no_keys name req device
  | some keys ↦ with_keys k keys (no_keys name req device)
]
