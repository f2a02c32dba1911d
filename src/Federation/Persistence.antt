-- ===== src/Federation/Persistence.antt =====
-- The allowlist file of server/internal/federation/security.go, written and read again.
use astralrelay_online.Common.{
  ℕ, ◌≡◌, ◌≢◌, ◌⊎◌, ◌↔◌, inl, inr, refl, ap, sym, ◌∙◌, true, false, some, List, [], ◌∷◌, ◌++◌,
  arith, Any,
}
use mathlib.Core.List.{append_assoc}
use astralrelay_online.Common.Text.{
  Text, lit, is_empty, to_lower, trim_space, trim_left, trim_right,
}
use astralrelay_online.Common.Trim.{norm, norm_idem, trim_space-to_lower}
use astralrelay_online.Common.Cuts.{Free}
use astralrelay_online.Federation.Domains.{
  has, split_lines, cons_line, add_lines, has-add_lines, is_entry, line_domain,
}
use astralrelay_online.Federation.Security.{
  SecurityService, Files, in_mode, load_allowlist, is_allowed, add_to_allowlist,
}

cons_line-append :
    (c : ℕ) (ls ms : List Text) → ls ≢ [] → cons_line c (ls ++ ms) ≡ cons_line c ls ++ ms
cons_line-append c [] ms h = absurd (h refl)
cons_line-append c (l ∷ ls) ms h = refl

split_lines-ne-nil : (s : Text) → split_lines s ≢ []
unfolding split_lines
split_lines-ne-nil [] = λ e. cc
split_lines-ne-nil (c ∷ s) = λ e. ground arith

-- A file that ends a line is cut there.
pub split_lines-append : (s t : Text) → split_lines (s ++ (10 ∷ t)) ≡ split_lines s ++ split_lines t
unfolding split_lines
split_lines-append [] t = ground arith
split_lines-append (c ∷ s) t = ground (
  arith,
  split_lines-append s t,
  cons_line-append c (split_lines s) (split_lines t) (split_lines-ne-nil s),
)

split_lines-Free : (s : Text) → Free 10 s → split_lines s ≡ s ∷ []
unfolding split_lines
split_lines-Free [] h = refl
split_lines-Free (c ∷ s) h = ground (arith, split_lines-Free s h.1)

module _ (P : Text → Type 0) where
  Any-append : (xs ys : List Text) → Any P (xs ++ ys) ↔ (Any P xs ⊎ Any P ys)
  Any-append [] ys = (λ h. inr h, λ h. elim h [ inl e ↦ absurd e | inr e ↦ e ])
  Any-append (x ∷ xs) ys =
      let ih = Any-append xs ys in
      (
        λ h. elim h [
          | inl e ↦ inl (inl e)
          | inr e ↦ elim (ih.0 e) [ inl a ↦ inl (inr a) | inr b ↦ inr b ]
        ],
        λ h. elim h [
          | inl e ↦ elim e [ inl a ↦ inl a | inr a ↦ inr (ih.1 (inl a)) ]
          | inr b ↦ inr (ih.1 (inr b))
        ],
      )

line_domain-norm : (d : Text) → line_domain (norm d) ≡ norm d
unfolding line_domain
line_domain-norm d = trim_space-to_lower (norm d) ∙ norm_idem d

-- What a file's lines list.
abbrev pub Listed : Text → Text → Type 0
Listed q text =
    Any (λ l. (is_entry (line_domain l) ≡ true) × (line_domain l ≡ q)) (split_lines text)

abbrev Entry : Text → Text → Type 0
Entry q l = (is_entry (line_domain l) ≡ true) × (line_domain l ≡ q)

blank : is_entry (line_domain []) ≡ false
unfolding line_domain is_entry to_lower trim_space trim_left trim_right
blank = refl

blank_lines-Entry : (q : Text) → ¬ Any (Entry q) ([] ∷ [])
blank_lines-Entry q (inl e) = cc blank
blank_lines-Entry q (inr e) = e

split_lines_ended : (c : Text) → split_lines (c ++ 10 ∷ []) ≡ split_lines c ++ [] ∷ []
split_lines_ended c = split_lines-append c [] ∙ (unfold split_lines in refl)

split_lines_appended :
    (c d : Text)
    → Free 10 d
    → split_lines ((c ++ 10 ∷ []) ++ (d ++ 10 ∷ [])) ≡ split_lines c ++ d ∷ [] ∷ []
split_lines_appended c d free =
    ap split_lines (append_assoc c (10 ∷ []) (d ++ 10 ∷ []))
    ∙ split_lines-append c (d ++ 10 ∷ [])
    ∙ ap (◌++◌ (split_lines c))
        (split_lines_ended d ∙ ap (λ ls. ls ++ [] ∷ []) (split_lines-Free d free))

-- Appending a domain to a file that ends a line adds that domain to what the file lists.
Listed-append :
    (q c d : Text)
    → Free 10 (norm d)
    → is_entry (norm d) ≡ true
    → Listed q ((c ++ 10 ∷ []) ++ (norm d ++ 10 ∷ [])) ↔ (Listed q (c ++ 10 ∷ []) ⊎ (norm d ≡ q))
Listed-append q c d free entry =
    rw (split_lines_appended c (norm d) free, split_lines_ended c)
      (let new = Any-append (Entry q) (split_lines c) (norm d ∷ [] ∷ []) in
        let old = Any-append (Entry q) (split_lines c) ([] ∷ []) in
        (
          λ h. elim (new.0 h) [
            | inl a ↦ inl (old.1 (inl a))
            | inr b ↦ elim b [
              | inl e ↦ inr (sym (line_domain-norm d) ∙ e.1)
              | inr z ↦ absurd (blank_lines-Entry q z)
            ]
          ],
          λ h. elim h [
            | inl a ↦ elim (old.0 a) [
              | inl x ↦ new.1 (inl x)
              | inr z ↦ absurd (blank_lines-Entry q z)
            ]
            | inr e ↦
                new.1 (inr (inl (ap is_entry (line_domain-norm d) ∙ entry, line_domain-norm d ∙ e)))
          ],
        ))

not_has_nil : (q : Text) → ¬ (has q [] ≡ true)
unfolding has
not_has_nil q h = cc

named_entry : (d : Text) → is_entry d ≡ true → is_empty d ≡ false
unfolding is_entry
named_entry d h = ground arith

-- What AddToAllowlist keeps, and the line that it appends.
add_to_allowlist_line :
    (s : SecurityService) (d : Text)
    → is_empty (norm d) ≡ false
    → has (norm d) s.allowlist ≡ false
    → is_empty s.cfg.allowlist_path ≡ false
    → in_mode s (lit "auto") ≡ true
    → ((add_to_allowlist true s d).0.cfg ≡ s.cfg)
      × ((add_to_allowlist true s d).1 ≡ norm d ++ 10 ∷ [])
unfolding add_to_allowlist
add_to_allowlist_line s d named new path auto = ground arith

is_allowed-load_allowlist :
    (files : Files) (s : SecurityService) (text e : Text)
    → in_mode s (lit "open") ≡ false
    → in_mode s (lit "auto") ≡ true
    → is_empty s.cfg.allowlist_path ≡ false
    → files s.cfg.allowlist_path ≡ some text
    → (is_allowed (load_allowlist files s) e ≡ true) ↔ Listed (norm e) text
unfolding is_allowed load_allowlist
is_allowed-load_allowlist files s text e closed auto path read =
    let e' : is_allowed (load_allowlist files s) e
        ≡ has (norm e) (add_lines (split_lines text) []) =
      ground arith in
    let both = has-add_lines (norm e) (split_lines text) [] in
    (
      λ h. elim (both.0 (sym e' ∙ h)) [ inl x ↦ x | inr x ↦ absurd (not_has_nil (norm e) x) ],
      λ h. e' ∙ both.1 (inl h),
    )

-- In auto mode, over an allowlist file whose last line is ended, a domain that is added and
-- appended is allowed after a restart from the file, and so are all that were and no others.
pub restart-add_to_allowlist :
    (files files' : Files) (s : SecurityService) (c d e : Text)
    → in_mode s (lit "open") ≡ false
    → in_mode s (lit "auto") ≡ true
    → is_empty s.cfg.allowlist_path ≡ false
    → has (norm d) s.allowlist ≡ false
    → is_entry (norm d) ≡ true
    → Free 10 (norm d)
    → files s.cfg.allowlist_path ≡ some (c ++ 10 ∷ [])
    → files' s.cfg.allowlist_path ≡ some ((c ++ 10 ∷ []) ++ (add_to_allowlist true s d).1)
    → (is_allowed (load_allowlist files' (add_to_allowlist true s d).0) e ≡ true)
      ↔ ((is_allowed (load_allowlist files s) e ≡ true) ⊎ (norm d ≡ norm e))
restart-add_to_allowlist files files' s c d e closed auto path new entry free read read' =
    let named : is_empty (norm d) ≡ false = named_entry (norm d) entry in
    let (same, line) = add_to_allowlist_line s d named new path auto in
    let t = (add_to_allowlist true s d).0 in
    let before = is_allowed-load_allowlist files s (c ++ 10 ∷ []) e closed auto path read in
    let after =
      is_allowed-load_allowlist files' t ((c ++ 10 ∷ []) ++ (norm d ++ 10 ∷ [])) e (rw same closed)
        (rw same auto) (rw same path) (rw same (rw line at read')) in
    let lists = Listed-append (norm e) c d free entry in
    (
      λ h. elim (lists.0 (after.0 h)) [ inl x ↦ inl (before.1 x) | inr x ↦ inr x ],
      λ h. elim h [
        | inl x ↦ after.1 (lists.1 (inl (before.0 x)))
        | inr x ↦ after.1 (lists.1 (inr x))
      ],
    )
