-- ===== src/Rooms/Addr.antt =====
-- Room addresses !room_id:domain of server/internal/rooms/rooms.go.
use astralrelay_online.Common.{
  ℕ, suc, ◌+◌, ◌≡◌, ◌≢◌, refl, Bool, Option, none, some, [], ◌∷◌, ◌++◌, ◌<◌, if◌then◌else◌, ltb,
  length, take, drop, length-append, length-drop, ap, sym, ◌∙◌, inl, inr, arith, Option-cases,
}
use native.Mathlib.Numerals.{add-one}
use astralrelay_online.Common.Text.{Text, lit, index, has_prefix}
use astralrelay_online.Common.Cuts.{Free, index-append, index-Split, take-append, drop_past}

-- s[:strings.Index(s, ":")], or s where there is no colon
unfoldable pub until_colon : Text → Text
until_colon s = elim (index s b':') [ none ↦ s | some i ↦ take i s ]

-- The package github.com/google/uuid.
module _ (uuid_string : ℕ → Text) where
  unfoldable pub room_addr : ℕ → Text → Text
  room_addr room domain = b'!' ∷ (uuid_string room ++ (b':' ∷ domain))

unfoldable pub is_room_addr : Text → Bool
is_room_addr addr = has_prefix addr (lit "!")

unfoldable pub parse_room_addr : Text → Option (Text × Text)
parse_room_addr addr =
    if has_prefix addr (lit "!")
    then (let rest = drop 1 addr in
        elim (index rest b':') [
          | none ↦ none
          | some i ↦
              if ltb (i + 1) (length rest) then some (take i rest, drop (i + 1) rest) else none
        ])
    else none

-- The address of a room of a server with a name parses to the room and the server.
pub parse_room_addr-room_addr :
    (uuid_string : ℕ → Text) (room : ℕ) (domain : Text)
    → Free b':' (uuid_string room)
    → domain ≢ []
    → parse_room_addr (room_addr uuid_string room domain) ≡ some (uuid_string room, domain)
unfolding parse_room_addr room_addr has_prefix
parse_room_addr-room_addr uuid_string room [] free named = absurd (named refl)
parse_room_addr-room_addr uuid_string room (c ∷ domain) free named =
    rw (index-append b':' (uuid_string room) (c ∷ domain) free) (
      ground (
        arith,
        length-append (uuid_string room) (b':' ∷ c ∷ domain),
        take-append (uuid_string room) (b':' ∷ c ∷ domain),
        drop_past (uuid_string room) b':' (c ∷ domain),
      ))

-- What is parsed is the text of the address: an exclamation mark, a part without colons, a colon
-- and a part that is not empty.
pub room_addr-parse_room_addr :
    (addr room domain : Text)
    → parse_room_addr addr ≡ some (room, domain)
    → (addr ≡ b'!' ∷ (room ++ (b':' ∷ domain))) × Free b':' room × (domain ≢ [])
unfolding parse_room_addr has_prefix
room_addr-parse_room_addr [] room domain h = cc
room_addr-parse_room_addr (c ∷ rest) room domain h = elim (Option-cases (index rest b':')) [
  | inl e ↦ ground arith
  | inr (i, e) ↦
      let (split, free, inside) = index-Split b':' rest i e in
      let first : c ≡ b'!' = ground arith in
      let before : room ≡ take i rest = ground arith in
      let after : domain ≡ drop (suc i) rest = ground (arith, add-one i) in
      let more : i + 1 < length rest = ground arith in
      (
        rw (first, before, after) (ap (◌∷◌ b'!') split),
        rw before free,
        λ empty. omega (arith, length-drop (suc i) rest, ap length (sym after ∙ empty)),
      )
]
