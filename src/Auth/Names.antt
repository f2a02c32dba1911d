-- ===== src/Auth/Names.antt =====
-- Names of users, and what a refused registration or login leaves behind.
use astralrelay_online.Common.{
  ℕ, ◌≡◌, inl, inr, Bool, true, not, ◌&&◌, some, List, [], ◌∷◌, arith, Bool-cases, Option-cases, ok,
  Faults,
}
use astralrelay_online.Common.Text.{Text}
use astralrelay_online.Dbenc.{decrypt}
use astralrelay_online.Auth.Tables.{User, Store, find_account, is_found}
use astralrelay_online.Auth.Tokens.{Service}
use astralrelay_online.Auth.Accounts.{Drawn}
use astralrelay_online.Auth.Login.{LoginInput, LoginResult, check_password, login}
use astralrelay_online.Auth.Frame.{Limits}

-- No two users of a domain have one name.
unfoldable pub distinct : List User → Bool
distinct [] = true
distinct (u ∷ us) = not (is_found (find_account u.username u.domain us)) && distinct us

-- No limits.
abbrev Anything : Limits
Anything = record {
  Fresh = λ i. Unit;
  Spares = λ p. Unit;
  Leaves = λ v. Unit;
  Cleans = λ now. Unit;
}

-- Who gets a token from Login has an account on this server, whose stored password hash is read and
-- matches the password, or is empty, as the password is then.
pub login_needs :
    (s : Service) (f : Faults) (r : Drawn) (now : ℕ) (in' : LoginInput) (st : Store)
    (res : LoginResult)
    → (login s f r now in' st).1 ≡ ok res
    → (x : User) × (hash : Text) × (find_account in'.username s.domain st.users ≡ some x)
      × (decrypt s.enc x.password_hash ≡ some hash)
      × (check_password s hash in'.password ≡ true)
unfolding login
login_needs s f r now in' st res h = elim (Bool-cases (f 0)) [
  | inl bad ↦ absurd (ground (arith, bad))
  | inr asked ↦ elim (Option-cases (find_account in'.username s.domain st.users)) [
    | inl nobody ↦ absurd (ground (arith, asked, nobody))
    | inr (x, found) ↦ elim (Option-cases (decrypt s.enc x.password_hash)) [
      | inl lost ↦ absurd (ground (arith, asked, found, lost))
      | inr (hash, read) ↦ elim (Bool-cases (check_password s hash in'.password)) [
        | inl right ↦ (x, hash, found, read, right)
        | inr wrong ↦ absurd (ground (arith, asked, found, read, wrong))
      ]
    ]
  ]
]
