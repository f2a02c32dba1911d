-- ===== src/Auth/Frame/LoggingIn.antt =====
-- Login keeps what the statements keep.
use astralrelay_online.Common.{
  ℕ, suc, inl, inr, ap, List, [], ◌∷◌, Bool-cases, Option-cases, Result-cases, Faults, ltb, length,
}
use astralrelay_online.Common.Results.{OnOk, OnOk-value, or_fail}
use astralrelay_online.Dbenc.{encrypt, decrypt}
use astralrelay_online.Keydir.{PrekeyItem, max_one_time_prekeys}
use astralrelay_online.Auth.Tables.{
  User, AccessToken, Store, find_account, has_device, insert_device, insert_prekey_row,
}
use astralrelay_online.Auth.Tokens.{Service, AuthError, failed}
use astralrelay_online.Auth.Accounts.{Drawn, prekey_row, device_row}
use astralrelay_online.Auth.Login.{
  LoginInput, device_keys, add_prekeys, add_device, ready_device, log_in_user, login,
  check_password,
}
use astralrelay_online.Auth.Frame.{Limits, IsKept}
use astralrelay_online.Auth.Frame.Registering.{
  insert_device-Holds, insert_prekey_row-Holds, give_token-Holds,
}

module _ (l : Limits) (P : List User → List AccessToken → Type 0) (k : IsKept l P)
    (s : Service) where
  abbrev Holds : Store → Type 0
  Holds st = P st.users st.tokens

  add_prekeys-Holds :
      (f : Faults) (r : Drawn) (i v : ℕ) (items : List PrekeyItem) (st : Store)
      → Holds st
      → Holds (add_prekeys s f r i v items st).0
  unfolding add_prekeys insert_prekey_row
  add_prekeys-Holds f r i v [] st h = h
  add_prekeys-Holds f r i v (item ∷ items) st h =
      elim (Option-cases (encrypt s.enc (r.nonce i) item.key)) [
        | inl gone ↦ rw (gone, add_prekeys) h
        | inr (stored, sealed) ↦ elim (Bool-cases (f i)) [
          | inl bad ↦ rw (sealed, bad, add_prekeys) (add_prekeys-Holds f r (suc i) v items st h)
          | inr fine ↦ elim (Option-cases (insert_prekey_row (prekey_row v item stored) st)) [
            | inl clash ↦
                rw (sealed, fine, clash, add_prekeys) (add_prekeys-Holds f r (suc i) v items st h)
            | inr (next, put) ↦
                let here : OnOk {E = AuthError} Holds
                    (or_fail failed (insert_prekey_row (prekey_row v item stored) st)) =
                  insert_prekey_row-Holds l P k s (prekey_row v item stored) st h in
                let made = OnOk-value Holds _ next here (ap (or_fail failed) put) in
                rw (sealed, fine, put, add_prekeys)
                  (add_prekeys-Holds f r (suc i) v items next made)
          ]
        ]
      ]

  add_device-Holds :
      (f : Faults) (r : Drawn) (now u : ℕ) (in' : LoginInput) (st : Store)
      → Holds st
      → Holds (add_device s f r now u in' st).0
  unfolding add_device
  add_device-Holds f r now u in' st h = elim (Result-cases (device_keys s (f 2) r u in' st)) [
    | inr (e, none') ↦ rw (none', add_device) h
    | inl ((keys, key_id), got) ↦
        let device = device_row now in'.device_id u keys key_id in
        elim (Option-cases (insert_device device st)) [
          | inl clash ↦ rw (got, clash, add_device) h
          | inr (next, put) ↦
              let here = insert_device-Holds l P k s device st h in
              let made = OnOk-value Holds _ next here (ap (or_fail failed) put) in
              let filled = add_prekeys-Holds f r 10 in'.device_id in'.one_time_prekeys next made in
              elim (Bool-cases (f 3)) [
                | inl bad ↦ rw (got, put, bad, add_device) h
                | inr fine ↦
                    elim (Bool-cases (ltb max_one_time_prekeys (length in'.one_time_prekeys))) [
                      | inl many ↦ rw (got, put, fine, many, add_device) made
                      | inr few ↦ rw (got, put, fine, few, add_device) filled
                    ]
              ]
        ]
  ]

  ready_device-Holds :
      (f : Faults) (r : Drawn) (now u : ℕ) (in' : LoginInput) (st : Store)
      → Holds st
      → Holds (ready_device s f r now u in' st).0
  unfolding ready_device
  ready_device-Holds f r now u in' st h =
      let added = add_device-Holds f r now u in' st h in
      elim (Bool-cases (has_device u in'.device_id st.devices)) [
        | inl there ↦ rw there h
        | inr new ↦ rw new added
      ]

  log_in_user-Holds :
      (f : Faults) (r : Drawn) (now u : ℕ) (in' : LoginInput) (st : Store)
      → l.Fresh r.jti
      → Holds st
      → Holds (log_in_user s f r now u in' st).0
  unfolding log_in_user
  log_in_user-Holds f r now u in' st fresh h =
      let ready = ready_device s f r now u in' st in
      let after = ready_device-Holds f r now u in' st h in
      elim (Bool-cases (f 1)) [
        | inl bad ↦ rw (bad, log_in_user) h
        | inr asked ↦ elim (Result-cases ready.1) [
          | inr (e, stopped) ↦ rw (asked, stopped, log_in_user) after
          | inl (_, done) ↦
              rw (asked, done, log_in_user)
                (give_token-Holds l P k s f r now u in'.device_id ready.0 fresh after)
        ]
      ]

  pub login-Holds :
      (f : Faults) (r : Drawn) (now : ℕ) (in' : LoginInput) (st : Store)
      → l.Fresh r.jti
      → Holds st
      → Holds (login s f r now in' st).0
  unfolding login
  login-Holds f r now in' st fresh h = elim (Bool-cases (f 0)) [
    | inl bad ↦ rw (bad, login) h
    | inr asked ↦ elim (Option-cases (find_account in'.username s.domain st.users)) [
      | inl nobody ↦ rw (asked, nobody, login) h
      | inr (x, found) ↦ elim (Option-cases (decrypt s.enc x.password_hash)) [
        | inl lost ↦ rw (asked, found, lost, login) h
        | inr (hash, read) ↦ elim (Bool-cases (check_password s hash in'.password)) [
          | inl right ↦
              rw (asked, found, read, right, login) (log_in_user-Holds f r now x.id in' st fresh h)
          | inr wrong ↦ rw (asked, found, read, wrong, login) h
        ]
      ]
    ]
  ]
