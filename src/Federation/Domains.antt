-- ===== src/Federation/Domains.antt =====
-- The lists of domains of server/internal/federation/security.go: sets as lists of normal texts,
-- and the lines of a file.
use astralrelay_online.Common.{
  ℕ, ◌≡◌, ◌⊎◌, ◌↔◌, inl, inr, Bool, true, false, not, ◌&&◌, ◌||◌, List, [], ◌∷◌, ◌==◌,
  if◌then◌else◌, arith, Any,
}
use astralrelay_online.Common.Text.{
  Text, lit, text_eq, text_eq_iff, has_prefix, is_empty, trim_space, to_lower,
}

-- _, ok := set[d]
unfoldable pub has : Text → List Text → Bool
has d [] = false
has d (x ∷ xs) = text_eq x d || has d xs

-- strings.Split(s, "\n")
abbrev pub cons_line : ℕ → List Text → List Text
cons_line c [] = (c ∷ []) ∷ []
cons_line c (l ∷ ls) = (c ∷ l) ∷ ls

unfoldable pub split_lines : Text → List Text
split_lines [] = [] ∷ []
split_lines (c ∷ s) = let rest = split_lines s in if c == 10 then [] ∷ rest else cons_line c rest

-- The line's domain, and whether it is one: not empty and no comment.
unfoldable pub line_domain : Text → Text
line_domain line = trim_space (to_lower line)

unfoldable pub is_entry : Text → Bool
is_entry d = not (is_empty d) && not (has_prefix d (lit "#"))

-- The loop over the lines of a list file.
unfoldable pub add_lines : List Text → List Text → List Text
unfolding line_domain is_entry
add_lines [] set = set
add_lines (line ∷ lines) set =
    add_lines lines (if is_entry (line_domain line) then line_domain line ∷ set else set)

-- The loop over a JSON list, which takes every string.
unfoldable pub add_all : List Text → List Text → List Text
add_all [] set = set
add_all (d ∷ ds) set = add_all ds (to_lower (trim_space d) ∷ set)

has-add_line :
    (q line : Text) (set : List Text)
    → (has q (if is_entry (line_domain line) then line_domain line ∷ set else set) ≡ true)
      ↔ (((is_entry (line_domain line) ≡ true) × (line_domain line ≡ q)) ⊎ (has q set ≡ true))
unfolding has
has-add_line q line set = (
  λ h. ground (arith, text_eq_iff (line_domain line) q),
  λ h. ground (arith, text_eq_iff (line_domain line) q),
)

-- A domain is listed after the loop exactly when it was before, or some line is an entry for it.
pub has-add_lines :
    (q : Text) (lines set : List Text)
    → (has q (add_lines lines set) ≡ true) ↔ (
        Any (λ l. (is_entry (line_domain l) ≡ true) × (line_domain l ≡ q)) lines
        ⊎ (has q set ≡ true))
unfolding add_lines
has-add_lines q [] set = (λ h. inr h, λ h. elim h [ inl e ↦ absurd e | inr e ↦ e ])
has-add_lines q (l ∷ ls) set =
    let ih = has-add_lines q ls (if is_entry (line_domain l) then line_domain l ∷ set else set) in
    let one = has-add_line q l set in
    (
      λ h. elim (ih.0 h) [
        | inl e ↦ inl (inr e)
        | inr e ↦ elim (one.0 e) [ inl x ↦ inl (inl x) | inr x ↦ inr x ]
      ],
      λ h. elim h [
        | inl e ↦ elim e [ inl x ↦ ih.1 (inr (one.1 (inl x))) | inr x ↦ ih.1 (inl x) ]
        | inr x ↦ ih.1 (inr (one.1 (inr x)))
      ],
    )
