-- ===== src/Keydir/Examples.antt =====
-- Tests of the model of server/internal/keydir/keydir.go, and its theorems at concrete inputs.
use astralrelay_online.Common.{ℕ, ◌≡◌, ◌≢◌, refl, false, none, some, List, [], ◌∷◌, no_faults}
use astralrelay_online.Common.Text.{lit}
use astralrelay_online.Keydir.{
  Prekey, PrekeyItem, Call, takes, updates, run, take_prekey, first_key, signal_device_id,
}
use astralrelay_online.Keydir.Once.{taken_once}

abbrev key : ℕ → Prekey
key k = record { device = 7; key_id = k; prekey = lit "p"; consumed_at = none }

abbrev table : List Prekey
table = key 5 ∷ key 3 ∷ []

abbrev item : PrekeyItem
item = record { key = lit "q"; key_id = 3 }

-- The least key goes first.
take_test : (take_prekey false 10 7 table).1 ≡ some 3
unfolding take_prekey first_key
take_test = refl

device_test : signal_device_id false 16383 ≡ 1
unfolding signal_device_id
device_test = refl

abbrev calls : List Call
calls = updates no_faults 7 (item ∷ []) ∷ takes false 11 7 ∷ []

taken_once_example :
    (take_prekey false 20 7 (run (take_prekey false 10 7 table).0 calls)).1 ≢ some 3
taken_once_example = taken_once false false 10 20 7 3 table calls take_test (tt, (tt, tt))
