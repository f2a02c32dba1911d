-- ===== src/Auth/Setting.antt =====
-- A service and tables for the tests of server/internal/auth/auth.go.
use astralrelay_online.Common.{
  ℕ, zero, suc, ◌≡◌, refl, subst, Bool, true, false, Option, none, some, [], ◌∷◌, ◌++◌, arith,
  length, take, drop,
}
use astralrelay_online.Common.Cuts.{take-append, drop-append}
use astralrelay_online.Common.Text.{Text, lit, text_eq}
use astralrelay_online.Auth.Tables.{User, Device, AccessToken, Store}
use astralrelay_online.Auth.Tokens.{Service, Claims, access_claims}
use astralrelay_online.Auth.Accounts.{Drawn, RegisterInput, token_row}
use astralrelay_online.Auth.Login.{LoginInput}
use astralrelay_online.Auth.Standing.{IsSigning}

abbrev pub exp_code : Option ℕ → ℕ
exp_code none = 0
exp_code (some e) = suc e

abbrev pub code_exp : ℕ → Option ℕ
code_exp zero = none
code_exp (suc e) = some e

-- A signature that only spells the claims out.
abbrev pub spelled : Claims → Text
spelled c =
    c.user_id
    ∷ exp_code c.exp
    ∷ length c.device_id
    ∷ length c.jti
    ∷ length c.typ
    ∷ length c.iss
    ∷ (c.device_id ++ (c.jti ++ (c.typ ++ (c.iss ++ c.aud))))

abbrev pub read : Text → Option Claims
read (u ∷ e ∷ a ∷ b ∷ c ∷ d ∷ s) = some (record {
  user_id = u;
  device_id = take a s;
  jti = take b (drop a s);
  typ = take c (drop b (drop a s));
  iss = take d (drop c (drop b (drop a s)));
  aud = drop d (drop c (drop b (drop a s)));
  exp = code_exp e;
})
read _ = none

abbrev pub parse_uuid : Text → ℕ × Bool
parse_uuid (x ∷ []) = (x, true)
parse_uuid _ = (0, false)

-- A service without encryption, with bcrypt and sha256 that hide nothing.
abbrev pub service : Service
service = record {
  domain = lit "a.org";
  enc = none;
  sign = λ c. some (spelled c);
  verify = read;
  uuid_string = λ x. x ∷ [];
  uuid_parse = parse_uuid;
  bcrypt_hash = λ seed p. some p;
  bcrypt_compare = text_eq;
  sha256 = λ t. t;
}

exp_reads :
    (c : Claims) (e : Option ℕ)
    → some (record c { exp = code_exp (exp_code e) }) ≡ some (record c { exp = e })
exp_reads c none = refl
exp_reads c (some e) = refl

read-spelled : (c : Claims) → read (spelled c) ≡ some c
read-spelled c =
    let rest4 = c.iss ++ c.aud in
    let rest3 = c.typ ++ rest4 in
    let rest2 = c.jti ++ rest3 in
    rw
      (
        take-append c.device_id rest2,
        drop-append c.device_id rest2,
        take-append c.jti rest3,
        drop-append c.jti rest3,
        take-append c.typ rest4,
        drop-append c.typ rest4,
        take-append c.iss c.aud,
        drop-append c.iss c.aud,
      )
      (exp_reads c c.exp)

read_signed : (c : Claims) (t : Text) → some (spelled c) ≡ some t → read t ≡ some c
read_signed c t signed =
    let same : spelled c ≡ t = ground arith in subst (λ x. read x ≡ some c) same (read-spelled c)

pub service-IsSigning : IsSigning service
service-IsSigning = record {
  verify-sign = λ c t signed. read_signed c t signed;
  parse-string = λ x. refl;
  is_empty-string = λ x. refl;
}

abbrev pub drawn : ℕ → Drawn
drawn j = record { nonce = λ i. none; seed = 0; jti = j; user_id = 2 }

abbrev pub ann : User
ann = record { id = 1; username = lit "ann"; domain = lit "a.org"; password_hash = lit "secret" }

abbrev pub phone : Device
phone = record {
  id = 9;
  user_id = 1;
  identity_key = lit "ik";
  signed_prekey = lit "spk";
  signed_prekey_sig = lit "sig";
  signed_prekey_id = 1;
  name = none;
  created_at = 5;
}

abbrev pub store : Store
store = record {
  users = ann ∷ [];
  devices = phone ∷ [];
  prekeys = [];
  tokens = [];
  salts = [];
  backups = [];
  sessions = [];
}

abbrev pub bob_input : RegisterInput
bob_input = record {
  username = lit "bob";
  password = lit "hunter";
  device_id = 8;
  identity_key = lit "ik";
  signed_prekey = lit "spk";
  signed_prekey_sig = lit "sig";
  signed_prekey_id = 1;
  one_time_prekeys = [];
  keys_backup_salt = [];
  keys_backup_blob = [];
}

abbrev pub ann_login : Text → LoginInput
ann_login password = record {
  username = lit "ann";
  password = password;
  device_id = 9;
  request_keys_restore = false;
  identity_key = [];
  signed_prekey = [];
  signed_prekey_sig = [];
  signed_prekey_id = 0;
  one_time_prekeys = [];
}

abbrev pub token : Text
token = spelled (access_claims service 10 1 9 77)

abbrev pub row : AccessToken
row = token_row 10 (drawn 77) 1 9 token

abbrev pub logged_in : Store
logged_in = record store { tokens = row ∷ [] }
