-- ===== src/Hub/Sets.antt =====
-- The sets of clients of server/internal/stream/hub.go stay in order.
use astralrelay_online.Common.{
  ℕ, ◌≡◌, ◌≢◌, inl, inr, refl, sym, false, ◌||◌, List, [], ◌∷◌, ◌++◌, ◌==◌, arith, All, Bool-cases,
}
use astralrelay_online.Common.Text.{Text, text_eq, text_eq_iff}
use astralrelay_online.Hub.Clients.{
  Client, ClientSets, has_client, delete_client, register_in, unregister_in, kept_set,
}

-- No two clients of a set are the same.
abbrev pub Distinct : List Client → Type 0
Distinct [] = Unit {0}
Distinct (c ∷ cs) = (has_client c.id cs ≡ false) × Distinct cs

-- A set that is there has clients, all different, and all of its recipient.
abbrev pub Tidy : ClientSets → Type 0
Tidy [] = Unit {0}
Tidy ((k, cs) ∷ m) = ((cs ≢ []) × Distinct cs × All (λ c. c.recipient ≡ k) cs) × Tidy m

pub has_client-append :
    (i : ℕ) (cs : List Client) (c : Client)
    → has_client i (cs ++ c ∷ []) ≡ (has_client i cs || (c.id == i))
unfolding has_client
has_client-append i [] c = ground arith
has_client-append i (x ∷ cs) c = ground (arith, has_client-append i cs c)

has_client-delete_client :
    (i j : ℕ) (cs : List Client)
    → has_client i cs ≡ false
    → has_client i (delete_client j cs) ≡ false
unfolding has_client delete_client
has_client-delete_client i j [] h = refl
has_client-delete_client i j (x ∷ cs) h = ground (arith, has_client-delete_client i j cs)

Distinct-append :
    (cs : List Client) (c : Client)
    → Distinct cs
    → has_client c.id cs ≡ false
    → Distinct (cs ++ c ∷ [])
unfolding has_client
Distinct-append [] c d h = (refl, tt)
Distinct-append (x ∷ cs) c d h =
    (ground (arith, has_client-append x.id cs c, d.0), Distinct-append cs c d.1 (ground arith))

Distinct-delete_client : (i : ℕ) (cs : List Client) → Distinct cs → Distinct (delete_client i cs)
unfolding delete_client
Distinct-delete_client i [] d = tt
Distinct-delete_client i (x ∷ cs) d = elim (Bool-cases (x.id == i)) [
  | inl same ↦ rw same (Distinct-delete_client i cs d.1)
  | inr other ↦ rw other (has_client-delete_client x.id i cs d.0, Distinct-delete_client i cs d.1)
]

All-append :
    (P : Client → Type 0) (cs : List Client) (c : Client) → All P cs → P c → All P (cs ++ c ∷ [])
All-append P [] c a p = (p, tt)
All-append P (x ∷ cs) c a p = (a.0, All-append P cs c a.1 p)

All-delete_client :
    (P : Client → Type 0) (i : ℕ) (cs : List Client) → All P cs → All P (delete_client i cs)
unfolding delete_client
All-delete_client P i [] a = tt
All-delete_client P i (x ∷ cs) a = elim (Bool-cases (x.id == i)) [
  | inl same ↦ rw same (All-delete_client P i cs a.1)
  | inr other ↦ rw other (a.0, All-delete_client P i cs a.1)
]

pub append-ne-nil : (cs : List Client) (c : Client) → (cs ++ c ∷ []) ≢ []
append-ne-nil [] c e = ground arith
append-ne-nil (x ∷ cs) c e = ground arith

pub register_in-Tidy : (c : Client) (m : ClientSets) → Tidy m → Tidy (register_in c m)
unfolding register_in has_client
register_in-Tidy c [] t = (((λ e. ground arith), (refl, tt), (refl, tt)), tt)
register_in-Tidy c ((k, cs) ∷ m) ((full, apart, mine), rest) =
    elim (Bool-cases (text_eq k c.recipient)) [
      | inr other ↦ rw other ((full, apart, mine), register_in-Tidy c m rest)
      | inl here ↦ elim (Bool-cases (has_client c.id cs)) [
        | inl known ↦ rw (here, known) ((full, apart, mine), rest)
        | inr new ↦
            rw (here, new)
              (
                (
                  append-ne-nil cs c,
                  Distinct-append cs c apart new,
                  All-append (λ x. x.recipient ≡ k) cs c mine
                      (sym ((text_eq_iff k c.recipient).0 here)),
                ),
                rest,
              )
      ]
    ]

kept_set-Tidy :
    (k : Text) (cs : List Client) (m : ClientSets)
    → Distinct cs
    → All (λ c. c.recipient ≡ k) cs
    → Tidy m
    → Tidy (kept_set k cs m)
kept_set-Tidy k [] m d a t = t
kept_set-Tidy k (c ∷ cs) m d a t = (((λ e. ground arith), d, a), t)

pub unregister_in-Tidy : (c : Client) (m : ClientSets) → Tidy m → Tidy (unregister_in c m)
unfolding unregister_in
unregister_in-Tidy c [] t = tt
unregister_in-Tidy c ((k, cs) ∷ m) ((full, apart, mine), rest) =
    elim (Bool-cases (text_eq k c.recipient)) [
      | inr other ↦ rw other ((full, apart, mine), unregister_in-Tidy c m rest)
      | inl here ↦ rw here (
          kept_set-Tidy k (delete_client c.id cs) m (Distinct-delete_client c.id cs apart)
            (All-delete_client (λ x. x.recipient ≡ k) c.id cs mine) rest)
    ]
