-- ===== src/Keydir.antt =====
-- server/internal/keydir/keydir.go: the one-time prekeys of the devices. Each prekey is given out once,
-- and a device has a quota of them. Times are seconds.
pub mod Prekeys
pub mod Once
mod Examples
use astralrelay_online.Common.{
  ℕ, zero, suc, ◌+◌, ◌*◌, ◌%◌, ◌≡◌, Bool, true, false, not, ◌&&◌, ◌||◌, Option, none, some, List,
  [], ◌∷◌, ◌++◌, if◌then◌else◌, ◌==◌, ltb, leb, length, keep_if, Faults, Result, ok, err,
}
use astralrelay_online.Common.Text.{Text}

-- A row of one_time_prekeys; `consumed_at` is none for NULL.
pub record Prekey : Type 0 where
  pub device : ℕ
  pub key_id : ℕ
  pub prekey : Text
  pub consumed_at : Option ℕ

pub record PrekeyItem : Type 0 where
  pub key : Text
  pub key_id : ℕ

pub data KeyError : Type 0 where
  quota_exceeded db_error : KeyError

abbrev pub is_free : Prekey → Bool
is_free p = elim p.consumed_at [ none ↦ true | some t ↦ false ]

-- device_id = v AND consumed_at IS NULL
unfoldable pub is_unconsumed : ℕ → Prekey → Bool
is_unconsumed v p = (p.device == v) && is_free p

abbrev lesser : Option ℕ → ℕ → Option ℕ
lesser none k = some k
lesser (some j) k = some (if leb k j then k else j)

-- SELECT … WHERE device_id = v AND consumed_at IS NULL ORDER BY key_id LIMIT 1
unfoldable pub first_key : ℕ → List Prekey → Option ℕ
unfolding is_unconsumed
first_key v [] = none
first_key v (p ∷ ps) =
    let rest = first_key v ps in if is_unconsumed v p then lesser rest p.key_id else rest

abbrev pub keyed : ℕ → ℕ → Prekey → Bool
keyed v k p = (p.device == v) && (p.key_id == k)

-- UPDATE … SET consumed_at = now; the key of a row is (device_id, key_id).
unfoldable pub consume : ℕ → ℕ → ℕ → List Prekey → List Prekey
consume now v k [] = []
consume now v k (p ∷ ps) =
    let rest = consume now v k ps in
    if keyed v k p then record p { consumed_at = some now } ∷ rest else p ∷ rest

unfoldable pub find_prekey : ℕ → ℕ → List Prekey → Option Prekey
find_prekey v k [] = none
find_prekey v k (p ∷ ps) = if keyed v k p then some p else find_prekey v k ps

-- The prekey of a bundle, with its identifier; a call that fails leaves it out.
unfoldable pub take_prekey : Bool → ℕ → ℕ → List Prekey → List Prekey × Option ℕ
take_prekey fails now v ps =
    if fails
    then (ps, none)
    else elim (first_key v ps) [ none ↦ (ps, none) | some k ↦ (consume now v k ps, some k) ]

-- SELECT COUNT(*) … WHERE device_id = v AND consumed_at IS NULL
unfoldable pub unconsumed : ℕ → List Prekey → ℕ
unfolding is_unconsumed
unconsumed v [] = 0
unconsumed v (p ∷ ps) = let rest = unconsumed v ps in if is_unconsumed v p then suc rest else rest

abbrev pub is_there : Option Prekey → Bool
is_there none = false
is_there (some p) = true

-- INSERT … ON CONFLICT (device_id, key_id) DO NOTHING
unfoldable pub insert_prekey : ℕ → PrekeyItem → List Prekey → List Prekey
insert_prekey v item ps =
    if is_there (find_prekey v item.key_id ps)
    then ps
    else ps
      ++ record { device = v; key_id = item.key_id; prekey = item.key; consumed_at = none } ∷ []

-- The loop of inserts, which the first failing one ends.
unfoldable pub insert_all :
    Faults → ℕ → ℕ → List PrekeyItem → List Prekey → List Prekey × Result KeyError (Unit {0})
insert_all f i v [] ps = (ps, ok tt)
insert_all f i v (item ∷ items) ps =
    let rest = insert_all f (suc i) v items (insert_prekey v item ps) in
    if f i then (ps, err db_error) else rest

abbrev pub max_one_time_prekeys : ℕ
max_one_time_prekeys = 500

-- The part of UpdateKeys for one-time prekeys.
unfoldable pub update_keys :
    Faults → ℕ → List PrekeyItem → List Prekey → List Prekey × Result KeyError (Unit {0})
update_keys f v items ps =
    if length items == 0
    then (ps, ok tt)
    else if f 0
    then (ps, err db_error)
    else if ltb max_one_time_prekeys (unconsumed v ps + length items)
    then (ps, err quota_exceeded)
    else insert_all f 1 v items ps

abbrev is_kept : ℕ → Prekey → Bool
is_kept now p = elim p.consumed_at [ none ↦ true | some t ↦ leb now (t + 30 * 24 * 3600) ]

-- DELETE … WHERE consumed_at < NOW() - INTERVAL '30 days'
unfoldable pub cleanup : ℕ → List Prekey → List Prekey
cleanup now ps = keep_if (is_kept now) ps

-- The first four bytes of a UUID as a number, and whether it is the nil UUID.
unfoldable pub signal_device_id : Bool → ℕ → ℕ
signal_device_id is_nil n = if is_nil then 1 else n % 16383 + 1

-- A call of GetBundle, UpdateKeys or the cleanup.
pub data Call : Type 0 where
  takes : Bool → ℕ → ℕ → Call
  updates : Faults → ℕ → List PrekeyItem → Call
  cleans : ℕ → Call

unfoldable pub step : List Prekey → Call → List Prekey
step ps (takes f now v) = (take_prekey f now v ps).0
step ps (updates f v items) = (update_keys f v items ps).0
step ps (cleans now) = cleanup now ps

unfoldable pub run : List Prekey → List Call → List Prekey
run ps [] = ps
run ps (c ∷ cs) = run (step ps c) cs
