-- ===== src/Federation/Escape.antt =====
-- url.PathEscape and url.QueryEscape, which the requests of server/internal/federation/client.go use.
use astralrelay_online.Common.{
  ℕ, ◌+◌, ◌/◌, ◌%◌, ◌≡◌, ◌≢◌, inl, inr, Bool, true, ◌&&◌, ◌||◌, [], ◌∷◌, ◌++◌, ◌==◌, ltb, leb,
  if◌then◌else◌, arith, Bool-cases,
}
use astralrelay_online.Common.Cuts.{Free}
use astralrelay_online.Common.Text.{Text}

abbrev is_between : ℕ → ℕ → ℕ → Bool
is_between a b c = leb a c && leb c b

unfoldable pub is_unreserved : ℕ → Bool
is_unreserved c =
    is_between 97 122 c
    || is_between 65 90 c
    || is_between 48 57 c
    || (c == b'-')
    || (c == b'_')
    || (c == b'.')
    || (c == b'~')

-- Bytes that a segment of a path keeps: $ & + = : @
unfoldable pub is_segment_byte : ℕ → Bool
is_segment_byte c =
    (c == b'$') || (c == b'&') || (c == b'+') || (c == b'=') || (c == b':') || (c == b'@')

abbrev pub upper_hex : ℕ → ℕ
upper_hex n = if ltb n 10 then 48 + n else 55 + n

abbrev percent_byte : ℕ
percent_byte = b'%'

abbrev pub percent : ℕ → Text
percent c = b'%' ∷ upper_hex (c / 16) ∷ upper_hex (c % 16) ∷ []

unfoldable pub path_escape : Text → Text
path_escape [] = []
path_escape (c ∷ s) =
    let rest = path_escape s in
    if is_unreserved c || is_segment_byte c then c ∷ rest else percent c ++ rest

unfoldable pub query_escape : Text → Text
query_escape [] = []
query_escape (c ∷ s) =
    let rest = query_escape s in
    if is_unreserved c then c ∷ rest else if c == b' ' then b'+' ∷ rest else percent c ++ rest

kept_no_slash : (c : ℕ) → (is_unreserved c || is_segment_byte c) ≡ true → c ≢ b'/'
unfolding is_unreserved is_segment_byte
kept_no_slash c h = ground arith

hex_no_slash : (n : ℕ) → upper_hex n ≢ b'/'
hex_no_slash n = ground arith

percent_no_slash : percent_byte ≢ b'/'
percent_no_slash = ground arith

-- No slash is left in a segment.
pub path_escape-Free : (s : Text) → Free b'/' (path_escape s)
unfolding path_escape
path_escape-Free [] = tt
path_escape-Free (c ∷ s) =
    let rest = path_escape-Free s in
    elim (Bool-cases (is_unreserved c || is_segment_byte c)) [
      | inl kept ↦ rw kept (kept_no_slash c kept, rest)
      | inr escaped ↦
          rw escaped (percent_no_slash, (hex_no_slash (c / 16), (hex_no_slash (c % 16), rest)))
    ]
