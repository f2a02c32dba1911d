-- ===== src/Keydir/Prekeys.antt =====
-- How many one-time prekeys a device has, and how often one is given out.
use astralrelay_online.Common.{ℕ, ◌≤◌, List}
use astralrelay_online.Keydir.{Prekey, unconsumed}

abbrev pub InQuota : List Prekey → Type 0
InQuota ps = (w : ℕ) → unconsumed w ps ≤ 500
