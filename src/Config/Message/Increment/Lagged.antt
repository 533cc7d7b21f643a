-- ===== src/Config/Message/Increment/Lagged.antt =====
-- The lagged diffs of an incremented message: its own diff becomes one (`increment_impl` of
-- src/config.cpp).
use libsession_util.Prelude.{◌≡◌, none, if◌then◌else◌}
use libsession_util.Prelude.Int.{ℤ, leb_ℤ}
use libsession_util.Keys.{bytes_ord, int_ord, pair_ord}
use libsession_util.Containers.SortedMap
use libsession_util.Config.Message.{Message, SeqnoHash, LaggedDiffs}

-- What the second loop has to find, of what it leaves.
Finds : ℤ → LaggedDiffs → LaggedDiffs → Type 0
Finds curr lags l =
    (k : SeqnoHash) → SortedMap.find k l ≡ (if leb_ℤ curr k.0 then none else SortedMap.find k lags)
