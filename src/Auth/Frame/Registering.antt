-- ===== src/Auth/Frame/Registering.antt =====
-- Register and StoreKeyBackup keep what the statements keep.
use astralrelay_online.Common.{
  ℕ, suc, inl, inr, not, ◌&&◌, ◌||◌, List, [], ◌∷◌, arith, Bool-cases, Option-cases, Result-cases,
  Faults, ltb, length,
}
use astralrelay_online.Common.Results.{OnOk, OnOk->>=, OnOk-ok, OnOk-value, or_fail, fail_if}
use astralrelay_online.Common.Text.{Text, is_empty}
use astralrelay_online.Dbenc.{encrypt}
use astralrelay_online.Keydir.{Prekey, PrekeyItem, max_one_time_prekeys, find_prekey, is_there}
use astralrelay_online.Auth.Tables.{
  User, Device, AccessToken, Store, find_account, find_user_id, find_device, find_token, is_found,
  insert_user, insert_device, insert_token, insert_prekey_row,
}
use astralrelay_online.Auth.Tokens.{Service, AuthError, failed, too_many_prekeys, issue_token}
use astralrelay_online.Auth.Accounts.{
  Drawn, RegisterInput, insert_prekeys, register_tx, seal_backup, store_key_backup, give_token,
  backup_if_given, register, token_row, prekey_row, user_row, device_row, seal_keys, register_keys,
  StoredKeys,
}
use astralrelay_online.Auth.Frame.{Limits, IsKept}

module _ (l : Limits) (P : List User → List AccessToken → Type 0) (k : IsKept l P)
    (s : Service) where
  abbrev Holds : Store → Type 0
  Holds st = P st.users st.tokens

  insert_user-Holds :
      (u : User) (st : Store) → Holds st → OnOk Holds (or_fail failed (insert_user u st))
  unfolding insert_user OnOk
  insert_user-Holds u st h =
      let known =
        is_found (find_user_id u.id st.users)
        || is_found (find_account u.username u.domain st.users) in
      elim (Bool-cases known) [
        | inl clash ↦ rw clash tt
        | inr fine ↦ rw fine (k.adds_user u st.users st.tokens (ground (arith, fine)) h)
      ]

  pub insert_device-Holds :
      (d : Device) (st : Store) → Holds st → OnOk Holds (or_fail failed (insert_device d st))
  unfolding insert_device OnOk
  insert_device-Holds d st h =
      let bad =
        is_found (find_device d.id st.devices)
        || not (is_found (find_user_id d.user_id st.users)) in
      elim (Bool-cases bad) [ inl clash ↦ rw clash tt | inr fine ↦ rw fine h ]

  pub insert_prekey_row-Holds :
      (p : Prekey) (st : Store) → Holds st → OnOk Holds (or_fail failed (insert_prekey_row p st))
  unfolding insert_prekey_row OnOk
  insert_prekey_row-Holds p st h =
      elim (Bool-cases (is_there (find_prekey p.device p.key_id st.prekeys))) [
        | inl clash ↦ rw clash tt
        | inr fine ↦ rw fine h
      ]

  insert_token-Holds :
      (t : AccessToken) (st : Store) → l.Fresh t.jti → Holds st → Holds (insert_token t st)
  unfolding insert_token
  insert_token-Holds t st fresh h =
      let bad =
        is_found (find_token t.jti st.tokens)
        || not (is_found (find_device t.device_id st.devices))
        || not (is_found (find_user_id t.user_id st.users)) in
      elim (Bool-cases bad) [
        | inl clash ↦ rw clash h
        | inr fine ↦ rw fine (k.adds_token t st.users st.tokens fresh h)
      ]

  insert_prekeys-Holds :
      (f : Faults) (r : Drawn) (i v : ℕ) (items : List PrekeyItem) (st : Store)
      → Holds st
      → OnOk Holds (insert_prekeys s f r i v items st)
  unfolding insert_prekeys
  insert_prekeys-Holds f r i v [] st h = OnOk-ok AuthError Holds st h
  insert_prekeys-Holds f r i v (item ∷ items) st h =
      OnOk->>= Holds (or_fail failed (encrypt s.enc (r.nonce i) item.key)) _ (λ stored _.
        OnOk->>= Holds (fail_if (f i) failed) _ (λ _ _.
          OnOk->>= Holds (or_fail failed (insert_prekey_row (prekey_row v item stored) st)) _
            (λ next e. insert_prekeys-Holds f r (suc i) v items next (
              OnOk-value Holds _ next (insert_prekey_row-Holds (prekey_row v item stored) st h)
                e))))

  -- The part of the transaction after the user is inserted.
  add_keys-Holds :
      (f : Faults) (r : Drawn) (now : ℕ) (in' : RegisterInput) (st : Store)
      → Holds st
      → OnOk Holds (register_keys s f r now in' st)
  unfolding register_keys
  add_keys-Holds f r now in' st h =
      let seals = seal_keys s r in'.identity_key in'.signed_prekey in'.signed_prekey_sig in
      let device =
        λ (keys : StoredKeys). device_row now in'.device_id r.user_id keys in'.signed_prekey_id in
      let many = ltb max_one_time_prekeys (length in'.one_time_prekeys) in
      OnOk->>= Holds seals _ (λ keys _. OnOk->>= Holds (fail_if (f 3) failed) _ (λ _ _.
        OnOk->>= Holds (or_fail failed (insert_device (device keys) st)) _ (λ with_device added.
          let start =
            OnOk-value Holds _ with_device (insert_device-Holds (device keys) st h) added in
          let put = insert_prekeys s f r 10 in'.device_id in'.one_time_prekeys with_device in
          let puts =
            insert_prekeys-Holds f r 10 in'.device_id in'.one_time_prekeys with_device start in
          OnOk->>= Holds (fail_if many too_many_prekeys) _ (λ _ _.
            OnOk->>= Holds put _ (λ with_prekeys done.
              OnOk->>= Holds (fail_if (f 4) failed) _ (λ _ _.
                OnOk-ok AuthError Holds with_prekeys
                  (OnOk-value Holds _ with_prekeys puts done)))))))

  register_tx-Holds :
      (f : Faults) (r : Drawn) (now : ℕ) (in' : RegisterInput) (st : Store)
      → Holds st
      → OnOk Holds (register_tx s f r now in' st)
  unfolding register_tx
  register_tx-Holds f r now in' st h = OnOk->>= Holds (fail_if (f 1) failed) _ (λ _ _.
      OnOk->>= Holds (or_fail failed (s.bcrypt_hash r.seed in'.password)) _ (λ hash _.
        OnOk->>= Holds (or_fail failed (encrypt s.enc (r.nonce 0) hash)) _ (λ stored _.
          OnOk->>= Holds (fail_if (f 2) failed) _ (λ _ _.
            OnOk->>= Holds (or_fail failed (insert_user (user_row s r in' stored) st)) _
              (λ with_user made.
                let user = insert_user-Holds (user_row s r in' stored) st h in
                add_keys-Holds f r now in' with_user (OnOk-value Holds _ with_user user made))))))

  pub store_key_backup-Holds :
      (f : Faults) (r : Drawn) (u : ℕ) (salt bundle : Text) (st : Store)
      → Holds st
      → Holds (store_key_backup s f r u salt bundle st).0
  unfolding store_key_backup
  store_key_backup-Holds f r u salt bundle st h =
      elim (Result-cases (seal_backup s f r salt bundle)) [
        | inl (b, sealed) ↦ rw (sealed, store_key_backup) h
        | inr (e, bad) ↦ rw (bad, store_key_backup) h
      ]

  pub give_token-Holds :
      (f : Faults) (r : Drawn) (now u v : ℕ) (st : Store)
      → l.Fresh r.jti
      → Holds st
      → Holds (give_token s f r now u v st).0
  unfolding give_token
  give_token-Holds f r now u v st fresh h = elim (Option-cases (issue_token s now u v r.jti)) [
    | inl gone ↦ rw (gone, give_token) h
    | inr (token, issued) ↦ elim (Option-cases (encrypt s.enc (r.nonce 4) (s.sha256 token))) [
      | inl lost ↦ rw (issued, lost, give_token) h
      | inr (hash, sealed) ↦ elim (Bool-cases (f 9)) [
        | inl bad ↦ rw (issued, sealed, bad, give_token) h
        | inr fine ↦
            rw (issued, sealed, fine, give_token)
              (insert_token-Holds (token_row now r u v hash) st fresh h)
      ]
    ]
  ]

  backup_if_given-Holds :
      (f : Faults) (r : Drawn) (in' : RegisterInput) (st : Store)
      → Holds st
      → Holds (backup_if_given s f r in' st)
  unfolding backup_if_given
  backup_if_given-Holds f r in' st h =
      let given = not (is_empty in'.keys_backup_salt) && not (is_empty in'.keys_backup_blob) in
      let stored =
        store_key_backup-Holds f r r.user_id in'.keys_backup_salt in'.keys_backup_blob st h in
      elim (Bool-cases given) [ inl both ↦ rw both stored | inr one ↦ rw one h ]

  pub register-Holds :
      (f : Faults) (r : Drawn) (now : ℕ) (in' : RegisterInput) (st : Store)
      → l.Fresh r.jti
      → Holds st
      → Holds (register s f r now in' st).0
  unfolding register
  register-Holds f r now in' st fresh h = elim (Bool-cases (f 0)) [
    | inl bad ↦ rw (bad, register) h
    | inr asked ↦ elim (Bool-cases (is_found (find_account in'.username s.domain st.users))) [
      | inl taken ↦ rw (asked, taken, register) h
      | inr new ↦ elim (Result-cases (register_tx s f r now in' st)) [
        | inr (e, failed') ↦ rw (asked, new, failed', register) h
        | inl (made, done) ↦
            let after = OnOk-value Holds _ made (register_tx-Holds f r now in' st h) done in
            let backed = backup_if_given-Holds f r in' made after in
            rw (asked, new, done, register)
              (give_token-Holds f r now r.user_id in'.device_id (backup_if_given s f r in' made)
                fresh backed)
      ]
    ]
  ]
