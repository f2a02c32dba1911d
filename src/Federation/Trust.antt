-- ===== src/Federation/Trust.antt =====
-- How a domain gets on the lists of server/internal/federation/security.go, and stays there.
use astralrelay_online.Common.{
  ℕ, zero, suc, ◌+◌, ◌≤◌, ◌<◌, ◌≡◌, ◌≢◌, ◌↔◌, inl, inr, refl, ap, ◌∙◌, Bool, true, false, some,
  List, [], ◌∷◌, if◌then◌else◌, arith, ok, err, leb, Any, Bool-cases,
}
use astralrelay_online.Common.Text.{Text, lit, text_eq, text_eq_iff, text_eq_refl, is_empty}
use astralrelay_online.Common.Trim.{norm}
use astralrelay_online.Federation.Domains.{has, split_lines, has-add_lines, is_entry, line_domain}
use astralrelay_online.Federation.Security.{
  SecurityConfig, SecurityService, Files, Web, in_mode, load_blocklist, is_blocked, is_allowed,
  count_of, count_up, note_success, check_allowlist_for_transaction, not_in_allowlist,
}

-- A line of a list file that lists the domain.
abbrev pub Lists : Text → Text → Type 0
Lists domain line = (is_entry (line_domain line) ≡ true) × (line_domain line ≡ norm domain)

-- With a file and no address for a blocklist, a domain is blocked exactly when a line of the file,
-- lowered and trimmed, is no comment, not empty, and the domain trimmed and lowered.
pub is_blocked-load_blocklist :
    (files : Files) (web : Web) (s : SecurityService) (text domain : Text)
    → is_empty s.cfg.blocklist_url ≡ true
    → is_empty s.cfg.blocklist_path ≡ false
    → files s.cfg.blocklist_path ≡ some text
    → (is_blocked (load_blocklist files web s) domain ≡ true)
      ↔ Any (Lists domain) (split_lines text)
unfolding is_blocked load_blocklist
is_blocked-load_blocklist files web s text domain no_url path read =
    rw (no_url, path, read)
      (let e = has-add_lines (norm domain) (split_lines text) [] in
        (λ h. elim (e.0 h) [ inl x ↦ x | inr x ↦ absurd (not_has_nil x) ], λ h. e.1 (inl h)))
  where
    not_has_nil : has (norm domain) [] ≡ true → ⊥
    not_has_nil h = unfold has in cc

count_of-count_up :
    (d e : Text) (m : List (Text × ℕ))
    → count_of e (count_up d m) ≡ (if text_eq d e then count_of d m + 1 else count_of e m)
unfolding count_of count_up
count_of-count_up d e [] = ground (arith, text_eq_iff d e)
count_of-count_up d e ((k, n) ∷ m) =
    ground (arith, count_of-count_up d e m, text_eq_iff k d, text_eq_iff k e, text_eq_iff d e)

-- `k` transactions of one origin, each noted.
unfoldable pub notes : ℕ → SecurityService → Text → SecurityService
notes zero s d = s
notes (suc k) s d = note_success true (notes k s d) d

-- One more transaction of a domain that is not yet trusted.
note_success_counts :
    (s : SecurityService) (d : Text)
    → in_mode s (lit "auto") ≡ true
    → in_mode s (lit "open") ≡ false
    → is_empty (norm d) ≡ false
    → has (norm d) s.allowlist ≡ false
    → let t = note_success true s d in
      (t.cfg ≡ s.cfg)
      × (has (norm d) t.allowlist
          ≡ leb s.cfg.allowlist_trust_threshold (count_of (norm d) s.success_count + 1))
      × (count_of (norm d) t.success_count ≡ count_of (norm d) s.success_count + 1)
unfolding note_success has
note_success_counts s d auto closed named new =
    ground (arith, count_of-count_up (norm d) (norm d) s.success_count, text_eq_refl (norm d))

note_success_trusted :
    (s : SecurityService) (d : Text) → has (norm d) s.allowlist ≡ true → note_success true s d ≡ s
unfolding note_success
note_success_trusted s d old = ground arith

-- Where a domain stands after `k` of its transactions.
record Standing (s t : SecurityService) (d : Text) (k : ℕ) : Type 0 where
  same_cfg : t.cfg ≡ s.cfg
  trusted : has (norm d) t.allowlist ≡ leb s.cfg.allowlist_trust_threshold k
  counted : k < s.cfg.allowlist_trust_threshold → count_of (norm d) t.success_count ≡ k

note_success-Standing :
    (s t : SecurityService) (d : Text) (k : ℕ)
    → in_mode s (lit "auto") ≡ true
    → in_mode s (lit "open") ≡ false
    → is_empty (norm d) ≡ false
    → Standing s t d k
    → Standing s (note_success true t d) d (suc k)
note_success-Standing s t d k auto closed named v = elim (Bool-cases (has (norm d) t.allowlist)) [
  | inl old ↦
      let same = note_success_trusted t d old in
      record {
        same_cfg = ground (arith, v.same_cfg, same);
        trusted = ground (arith, v.trusted, same);
        counted = λ h. absurd (ground (arith, v.trusted));
      }
  | inr new ↦
      let auto' : in_mode t (lit "auto") ≡ true = rw (v.same_cfg) auto in
      let closed' : in_mode t (lit "open") ≡ false = rw (v.same_cfg) closed in
      let (c, h, n) = note_success_counts t d auto' closed' named new in
      let young : k < s.cfg.allowlist_trust_threshold = ground (arith, v.trusted) in
      let count = v.counted young in
      let limit = ap (λ (x : SecurityConfig). x.allowlist_trust_threshold) v.same_cfg in
      record {
        same_cfg = c ∙ v.same_cfg;
        trusted = ground (arith, h, count, limit);
        counted = λ z. ground (arith, n, count);
      }
]

notes-Standing :
    (s : SecurityService) (d : Text) (k : ℕ)
    → in_mode s (lit "auto") ≡ true
    → in_mode s (lit "open") ≡ false
    → is_empty (norm d) ≡ false
    → Standing s s d 0
    → Standing s (notes k s d) d k
unfolding notes
notes-Standing s d zero auto closed named v = v
notes-Standing s d (suc k) auto closed named v =
    note_success-Standing s (notes k s d) d k auto closed named
      (notes-Standing s d k auto closed named v)

-- In auto mode a domain with a name, not listed and with no transaction yet, is allowed after `k`
-- transactions exactly when `k` has reached the threshold.
pub is_allowed-notes :
    (s : SecurityService) (d : Text) (k : ℕ)
    → in_mode s (lit "auto") ≡ true
    → in_mode s (lit "open") ≡ false
    → is_empty (norm d) ≡ false
    → has (norm d) s.allowlist ≡ false
    → count_of (norm d) s.success_count ≡ 0
    → 1 ≤ s.cfg.allowlist_trust_threshold
    → is_allowed (notes k s d) d ≡ leb s.cfg.allowlist_trust_threshold k
unfolding is_allowed
is_allowed-notes s d k auto closed named new none_yet low =
    let v =
      notes-Standing s d k auto closed named
        (record { same_cfg = refl; trusted = ground arith; counted = λ h. none_yet }) in
    let closed' : in_mode (notes k s d) (lit "open") ≡ false = rw (v.same_cfg) closed in
    ground (arith, v.trusted, closed')

-- A domain's transactions change neither the trust in another domain nor its count.
pub note_success_frame :
    (can_open : Bool) (s : SecurityService) (d e : Text)
    → norm d ≢ norm e
    → let t = note_success can_open s d in
      (is_allowed t e ≡ is_allowed s e)
      × (count_of (norm e) t.success_count ≡ count_of (norm e) s.success_count)
      × (is_blocked t e ≡ is_blocked s e)
unfolding note_success is_allowed is_blocked has
note_success_frame can_open s d e other =
    ground
      (arith, count_of-count_up (norm d) (norm e) s.success_count, text_eq_iff (norm d) (norm e))

manual_tests :
    (m : Text)
    → m ≡ lit "manual"
    → (text_eq m (lit "open") ≡ false)
      × (text_eq m (lit "auto") ≡ false)
      × (text_eq m (lit "manual") ≡ true)
unfolding text_eq
manual_tests m e = rw e (refl, refl, refl)

-- In manual mode no transaction changes the lists, and a transaction passes exactly for the
-- domains that the list has.
pub manual_mode :
    (can_open : Bool) (s : SecurityService) (d : Text)
    → s.cfg.allowlist_mode ≡ lit "manual"
    → (note_success can_open s d ≡ s)
      × (check_allowlist_for_transaction s d
          ≡ (if has (norm d) s.allowlist then ok tt else err not_in_allowlist))
unfolding note_success check_allowlist_for_transaction
manual_mode can_open s d manual =
    let tests = manual_tests s.cfg.allowlist_mode manual in
    (ground (arith, tests), ground (arith, tests))
