-- ===== src/Keydir/Once.antt =====
-- A one-time prekey is given out once.
use astralrelay_online.Common.{
  ℕ, suc, ◌≡◌, ◌≢◌, inl, inr, refl, ap, ◌∙◌, Bool, true, false, ◌&&◌, ◌||◌, none, some, List, [],
  ◌∷◌, ◌++◌, ◌==◌, Faults, arith, Bool-cases, Option-cases, All,
}
use astralrelay_online.Keydir.{
  Prekey, PrekeyItem, is_free, is_there, keyed, first_key, consume, find_prekey, take_prekey,
  insert_prekey, insert_all, update_keys, Call, takes, updates, cleans, step, run,
}

-- Rows of the key that are not consumed.
unfoldable free_rows : ℕ → ℕ → List Prekey → Bool
free_rows v k [] = false
free_rows v k (p ∷ ps) = (keyed v k p && is_free p) || free_rows v k ps

-- The key is in the table, and consumed.
abbrev Spent : ℕ → ℕ → List Prekey → Type 0
Spent v k ps = (is_there (find_prekey v k ps) ≡ true) × (free_rows v k ps ≡ false)

first_key-free_rows :
    (v k : ℕ) (ps : List Prekey) → first_key v ps ≡ some k → free_rows v k ps ≡ true
unfolding first_key free_rows
first_key-free_rows v k [] h = absurd (ground arith)
first_key-free_rows v k (p ∷ ps) h = elim (Option-cases (first_key v ps)) [
  | inl gone ↦ ground (arith, gone)
  | inr (j, found) ↦ elim (Bool-cases (j == k)) [
    | inl same ↦
        let e : j ≡ k = ground arith in
        ground (arith, found, first_key-free_rows v k ps (found ∙ ap some e))
    | inr other ↦ ground (arith, found)
  ]
]

free_rows-find_prekey :
    (v k : ℕ) (ps : List Prekey) → free_rows v k ps ≡ true → is_there (find_prekey v k ps) ≡ true
unfolding free_rows find_prekey
free_rows-find_prekey v k [] h = absurd (ground arith)
free_rows-find_prekey v k (p ∷ ps) h = ground (arith, free_rows-find_prekey v k ps)

consume-find_prekey :
    (now v k w j : ℕ) (ps : List Prekey)
    → is_there (find_prekey w j (consume now v k ps)) ≡ is_there (find_prekey w j ps)
unfolding consume find_prekey
consume-find_prekey now v k w j [] = refl
consume-find_prekey now v k w j (p ∷ ps) = ground (arith, consume-find_prekey now v k w j ps)

consume-free_rows : (now v k : ℕ) (ps : List Prekey) → free_rows v k (consume now v k ps) ≡ false
unfolding consume free_rows
consume-free_rows now v k [] = refl
consume-free_rows now v k (p ∷ ps) = ground (arith, consume-free_rows now v k ps)

consume-stays :
    (now v k w j : ℕ) (ps : List Prekey)
    → free_rows w j ps ≡ false
    → free_rows w j (consume now v k ps) ≡ false
unfolding consume free_rows
consume-stays now v k w j [] h = refl
consume-stays now v k w j (p ∷ ps) h = ground (arith, consume-stays now v k w j ps)

take_prekey-Spent :
    (f : Bool) (now v w j : ℕ) (ps : List Prekey)
    → Spent w j ps
    → Spent w j (take_prekey f now v ps).0
unfolding take_prekey
take_prekey-Spent f now v w j ps (there, spent) = elim (Option-cases (first_key v ps)) [
  | inl gone ↦ (ground (arith, gone), ground (arith, gone))
  | inr (k, found) ↦ (
    ground (arith, found, consume-find_prekey now v k w j ps),
    ground (arith, found, consume-stays now v k w j ps spent),
  )
]

append-find_prekey :
    (w j : ℕ) (ps : List Prekey) (p : Prekey)
    → is_there (find_prekey w j ps) ≡ true
    → is_there (find_prekey w j (ps ++ p ∷ [])) ≡ true
unfolding find_prekey
append-find_prekey w j [] p h = absurd (ground arith)
append-find_prekey w j (q ∷ ps) p h = ground (arith, append-find_prekey w j ps p)

append-free_rows :
    (w j : ℕ) (ps : List Prekey) (p : Prekey)
    → free_rows w j ps ≡ false
    → keyed w j p ≡ false
    → free_rows w j (ps ++ p ∷ []) ≡ false
unfolding free_rows
append-free_rows w j [] p h k = ground arith
append-free_rows w j (q ∷ ps) p h k = ground (arith, append-free_rows w j ps p)

insert_prekey-Spent :
    (v w j : ℕ) (item : PrekeyItem) (ps : List Prekey)
    → Spent w j ps
    → Spent w j (insert_prekey v item ps)
unfolding insert_prekey
insert_prekey-Spent v w j item ps (there, spent) =
    let new : Prekey = record {
      device = v;
      key_id = item.key_id;
      prekey = item.key;
      consumed_at = none;
    } in
    elim (Bool-cases (is_there (find_prekey v item.key_id ps))) [
      | inl known ↦ rw known (there, spent)
      | inr unknown ↦
          let apart : keyed w j new ≡ false = ground arith in
          rw unknown (append-find_prekey w j ps new there, append-free_rows w j ps new spent apart)
    ]

insert_all-Spent :
    (f : Faults) (i v w j : ℕ) (items : List PrekeyItem) (ps : List Prekey)
    → Spent w j ps
    → Spent w j (insert_all f i v items ps).0
unfolding insert_all
insert_all-Spent f i v w j [] ps s = s
insert_all-Spent f i v w j (item ∷ items) ps s =
    let rest =
      insert_all-Spent f (suc i) v w j items (insert_prekey v item ps)
        (insert_prekey-Spent v w j item ps s) in
    elim (Bool-cases (f i)) [ inl bad ↦ rw bad s | inr fine ↦ rw fine rest ]

update_keys-Spent :
    (f : Faults) (v w j : ℕ) (items : List PrekeyItem) (ps : List Prekey)
    → Spent w j ps
    → Spent w j (update_keys f v items ps).0
unfolding update_keys
update_keys-Spent f v w j items ps s =
    let all = insert_all-Spent f 1 v w j items ps s in
    (ground (arith, s.0, all.0), ground (arith, s.1, all.1))

-- No cleanup among the calls.
abbrev pub IsUnclean : Call → Type 0
IsUnclean (cleans now) = ⊥
IsUnclean _ = Unit {0}

step-Spent :
    (w j : ℕ) (ps : List Prekey) (c : Call) → IsUnclean c → Spent w j ps → Spent w j (step ps c)
unfolding step
step-Spent w j ps (takes f now v) u s = take_prekey-Spent f now v w j ps s
step-Spent w j ps (updates f v items) u s = update_keys-Spent f v w j items ps s
step-Spent w j ps (cleans now) u s = absurd u

run-Spent :
    (w j : ℕ) (ps : List Prekey) (cs : List Call)
    → All IsUnclean cs
    → Spent w j ps
    → Spent w j (run ps cs)
unfolding run
run-Spent w j ps [] u s = s
run-Spent w j ps (c ∷ cs) u s = run-Spent w j (step ps c) cs u.1 (step-Spent w j ps c u.0 s)

taken :
    (f : Bool) (now v k : ℕ) (ps : List Prekey)
    → (take_prekey f now v ps).1 ≡ some k
    → (first_key v ps ≡ some k) × ((take_prekey f now v ps).0 ≡ consume now v k ps)
unfolding take_prekey
taken f now v k ps h = elim (Option-cases (first_key v ps)) [
  | inl gone ↦ absurd (ground (arith, gone))
  | inr (j, found) ↦
      let same : j ≡ k = ground (arith, found) in
      (found ∙ ap some same, ground (arith, found, same))
]

-- A prekey that a device has given out is not given out again, whatever bundles are asked for and
-- whatever prekeys are uploaded, before the next cleanup of consumed prekeys.
pub taken_once :
    (f g : Bool) (now later v k : ℕ) (ps : List Prekey) (cs : List Call)
    → (take_prekey f now v ps).1 ≡ some k
    → All IsUnclean cs
    → (take_prekey g later v (run (take_prekey f now v ps).0 cs)).1 ≢ some k
taken_once f g now later v k ps cs got unclean again =
    let (first, same) = taken f now v k ps got in
    let there = free_rows-find_prekey v k ps (first_key-free_rows v k ps first) in
    let spent : Spent v k (take_prekey f now v ps).0 =
      rw same (consume-find_prekey now v k v k ps ∙ there, consume-free_rows now v k ps) in
    let end = run-Spent v k (take_prekey f now v ps).0 cs unclean spent in
    let back = taken g later v k (run (take_prekey f now v ps).0 cs) again in
    let free = first_key-free_rows v k (run (take_prekey f now v ps).0 cs) back.0 in
    ground (arith, end.1, free)
