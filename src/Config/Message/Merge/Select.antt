-- ===== src/Config/Message/Merge/Select.antt =====
-- Which messages take part in a merge: those that no other message includes, each once, and none
-- that lies too far behind.
use libsession_util.Prelude.{
  ℕ, ◌+◌, Bool, true, false, ◌||◌, Option, none, some, List, [], ◌∷◌, ◌++◌, ◌^◌, ◌-◌, if◌then◌else◌,
}
use libsession_util.Prelude.Int.{ℤ, pos, negsuc, ltb_ℤ, leb_ℤ, ◌+ℤ◌, ◌-ℤ◌}
use libsession_util.Order.{less, same}
use libsession_util.Keys.{bytes_ord, int_ord, pair_ord, list_lt}
use libsession_util.Containers.SortedMap
use libsession_util.Config.Message.{Message, seqno}
use libsession_util.Config.Message.Read.{is_set}

abbrev pub Marked : Type 0
Marked = Message × Bool

-- `conf2.lagged_diffs_.count(conf.seqno_hash_)`
unfoldable pub includes : Message → Message → Bool
unfolding SortedMap.find list_lt
includes conf conf2 = is_set (SortedMap.find conf.seqno_hash_ conf2.lagged_diffs_)

-- `conf2.seqno_hash_ == conf.seqno_hash_`
unfoldable pub duplicates : Message → Message → Bool
unfolding list_lt
duplicates conf conf2 = same conf2.seqno_hash_ conf.seqno_hash_

abbrev pub any_of {ℓ} : {A : Type ℓ} → (A → Bool) → List A → Bool
any_of p [] = false
any_of p (x ∷ xs) = p x || any_of p xs

-- The inner loop for one message, between the messages before it and those behind it.
unfoldable pub is_redundant : List Message → Message → List Message → Bool
unfolding includes duplicates
is_redundant earlier conf later =
    any_of (λ c. includes conf c || duplicates conf c) earlier || any_of (includes conf) later

-- The loop over the messages.
unfoldable pub mark_redundant : List Message → List Message → List Marked
unfolding is_redundant
mark_redundant earlier [] = []
mark_redundant earlier (m ∷ ms) =
    (m, is_redundant earlier m ms) ∷ mark_redundant (earlier ++ (m ∷ [])) ms

-- The highest sequence number; the source starts from the lowest `int64_t`.
abbrev pub higher : ℤ → ℤ → ℤ
higher a b = if ltb_ℤ a b then b else a

unfoldable pub max_from : ℤ → List Message → ℤ
max_from top [] = top
max_from top (m ∷ ms) = max_from (higher top (seqno m)) ms

unfoldable pub max_seqno : List Message → ℤ
unfolding max_from
max_seqno [] = negsuc (2 ^ 63 - 1)
max_seqno (m ∷ ms) = max_from (seqno m) ms

-- The sum of two `int64_t`, which wraps around.
abbrev pub wrap_int64 : ℤ → ℤ
wrap_int64 i =
    if ltb_ℤ i (pos (2 ^ 63))
    then (if ltb_ℤ i (negsuc (2 ^ 63 - 1)) then i +ℤ pos (2 ^ 64) else i)
    else i -ℤ pos (2 ^ 64)

unfoldable pub add_int64 : ℤ → ℤ → ℤ
unfolding ◌+ℤ◌ ◌-ℤ◌
add_int64 a b = wrap_int64 (a +ℤ b)

-- `conf.seqno() + lag <= max_seqno`
unfoldable pub mark_old : ℤ → ℤ → List Marked → List Marked
unfolding add_int64
mark_old lag top [] = []
mark_old lag top ((m, redundant) ∷ ms) =
    (m, redundant || leb_ℤ (add_int64 (seqno m) lag) top) ∷ mark_old lag top ms

-- The messages that are not redundant.
unfoldable pub live : List Marked → List Message
live [] = []
live ((m, redundant) ∷ ms) = if redundant then live ms else m ∷ live ms

-- If exactly one message is not redundant: its index, and the message.
unfoldable pub sole_live : ℕ → List Marked → Option (ℕ × Message)
unfolding live
sole_live i [] = none
sole_live i ((m, redundant) ∷ ms) =
    let rest = sole_live (i + 1) ms in
    if redundant then rest else elim (live ms) [ [] ↦ some (i, m) | c ∷ cs ↦ none ]

-- `a < b` of `std::max_element`: a redundant message is below one that is not.
unfoldable pub worse : Marked → Marked → Bool
unfolding list_lt
worse (a, ra) (b, rb) =
    if ra
    then (if rb then less a.seqno_hash_ b.seqno_hash_ else true)
    else if rb
    then false
    else less a.seqno_hash_ b.seqno_hash_

-- `std::max_element`: the first of the best.
unfoldable pub best_from : ℕ → ℕ × Marked → List Marked → ℕ × Marked
unfolding worse
best_from i top [] = top
best_from i top (m ∷ ms) = best_from (i + 1) (if worse top.1 m then (i, m) else top) ms

unfoldable pub best : List Marked → Option (ℕ × Message)
unfolding best_from
best [] = none
best (m ∷ ms) = let (i, (c, redundant)) = best_from 1 (0, m) ms in some (i, c)
