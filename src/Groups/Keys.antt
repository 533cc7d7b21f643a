-- ===== src/Groups/Keys.antt =====
-- The encryption keys of a closed group (src/config/groups/keys.cpp): the list of keys and its
-- expiry, the hashes of the messages in use, the pending key, and what an accepted key message does
-- to them and to the two configs of the group. An `unordered_set` is kept in order. Times are
-- milliseconds; their sums do not leave `int64_t`.
pub mod Loads
pub mod Ordered
pub mod Expiry
pub mod Laws
pub mod Accepts
pub mod Rekeys
pub mod Dump
pub mod Crypt
pub mod Rekey
pub mod Parse
pub mod Message
pub mod Subaccount
pub mod Starts
use libsession_util.Prelude.{
  ℕ, Bool, true, false, not, ◌&&◌, ◌||◌, Option, none, some, List, [], ◌∷◌, ◌++◌, if◌then◌else◌,
}
use libsession_util.Prelude.Int.{ℤ, pos, negsuc, ◌+ℤ◌, ltb_ℤ}
use libsession_util.Prelude.Result.{Result, ok, err, runtime_error, guard, ◌>>=◌}
use libsession_util.Order.{Ord, less, same}
use libsession_util.Keys.{Bytes, int_ord, bytes_ord, pair_ord, list_lt, pair_lt}
use libsession_util.Containers.SortedMap
use libsession_util.Containers.SortedSet
use libsession_util.Config.Data.{is_nil}
use libsession_util.Config.Message.Read.{is_set}
use libsession_util.Config.Signing.{ConfigSig}
use libsession_util.Config.Base.{ConfigBase, Env}
use libsession_util.Config.Base.Keyring.{replace_keys}

-- `key_info`, its members in the order of `cmpval()`
pub record KeyInfo : Type 0 where
  pub generation : ℤ
  pub timestamp : ℤ
  pub key : Bytes

-- `cmpval()` and `operator<`
abbrev pub cmpval : KeyInfo → ℤ × (ℤ × Bytes)
cmpval k = (k.generation, (k.timestamp, k.key))

unfoldable pub key_lt : KeyInfo → KeyInfo → Bool
unfolding list_lt
key_lt a b = pair_lt (cmpval a) (cmpval b)

-- The state of `Keys`, with what it has from `ConfigSig`.
pub record Keys : Type 0 where
  pub sig : ConfigSig
  pub user_ed25519_sk : Bytes
  pub keys : List KeyInfo
  pub active_msgs : List (ℤ × List Bytes)
  pub pending_key : Bytes
  pub pending_key_config : Bytes
  pub pending_gen : ℤ
  pub needs_dump : Bool

-- `KEY_EXPIRY`: 60 days.
abbrev pub key_expiry : ℕ
key_expiry = 5184000000

abbrev pub admin : Keys → Bool
admin g = is_set g.sig.sign_sk && is_set g.sig.sign_pk

-- `keys_.back()` and `keys_.front()`
abbrev pub back : KeyInfo → List KeyInfo → KeyInfo
back k [] = k
back k (j ∷ ks) = back j ks

abbrev pub is_old : KeyInfo → KeyInfo → Bool
is_old k newest = ltb_ℤ (k.timestamp +ℤ pos key_expiry) newest.timestamp

-- The loop of `remove_expired`: what is kept if the keys before `kept` lapse. The generation is
-- that of `it`, and the list is what follows it.
unfoldable pub unlapsed : KeyInfo → ℤ → List KeyInfo → List KeyInfo → List KeyInfo
unlapsed newest gen kept [] = kept
unlapsed newest gen kept (k ∷ ks) = elim (same gen k.generation) [
  | true ↦ unlapsed newest gen kept ks
  | false ↦ elim (is_old k newest) [
    | true ↦ unlapsed newest k.generation (k ∷ ks) ks
    | false ↦ kept
  ]
]

unfoldable pub unexpired : List KeyInfo → List KeyInfo
unfolding unlapsed
unexpired [] = []
unexpired (k ∷ ks) = unlapsed (back k ks) k.generation (k ∷ ks) ks

-- `active_msgs_.erase(active_msgs_.begin(), active_msgs_.lower_bound(gen))`
unfoldable pub erase_below : ℤ → List (ℤ × List Bytes) → List (ℤ × List Bytes)
erase_below gen [] = []
erase_below gen ((g, hashes) ∷ m) = if less g gen then erase_below gen m else (g, hashes) ∷ m

unfoldable pub active_for : List KeyInfo → List (ℤ × List Bytes) → List (ℤ × List Bytes)
unfolding erase_below
active_for [] m = []
active_for (k ∷ ks) m = erase_below k.generation m

unfoldable pub remove_expired : Keys → Keys
unfolding unexpired active_for
remove_expired g =
    let kept = unexpired g.keys in
    record g { keys = kept; active_msgs = active_for kept g.active_msgs }

-- `active_msgs_[gen].emplace(hash)`
unfoldable pub add_active : ℤ → Bytes → List (ℤ × List Bytes) → List (ℤ × List Bytes)
unfolding SortedMap.find SortedMap.assign SortedSet.insert list_lt
add_active gen hash m =
    let hashes : List Bytes = elim (SortedMap.find gen m) [ none ↦ [] | some s ↦ s ] in
    SortedMap.assign gen (SortedSet.insert hash hashes) m

-- The search among the keys of one generation, whatever their times.
unfoldable pub is_known : KeyInfo → List KeyInfo → Bool
unfolding list_lt
is_known k [] = false
is_known k (j ∷ ks) = (same j.generation k.generation && same j.key k.key) || is_known k ks

-- The insertion at `std::lower_bound`.
unfoldable pub insert_sorted : KeyInfo → List KeyInfo → List KeyInfo
unfolding key_lt
insert_sorted k [] = k ∷ []
insert_sorted k (j ∷ ks) = if key_lt j k then j ∷ insert_sorted k ks else k ∷ j ∷ ks

-- Whether a key is stale on arrival: it would go before keys of which the first one, of a later
-- generation, is itself more than `KEY_EXPIRY` older than the last.
unfoldable pub is_stale : KeyInfo → List KeyInfo → Bool
unfolding key_lt
is_stale k [] = false
is_stale k (j ∷ []) = false
is_stale k (j ∷ i ∷ ks) =
    not (key_lt j k) && ltb_ℤ k.generation j.generation && is_old j (back i ks)

unfoldable pub insert_key : Bytes → KeyInfo → Keys → Keys
unfolding is_known is_stale add_active insert_sorted remove_expired
insert_key hash k g =
    let active = add_active k.generation hash g.active_msgs in
    if is_known k g.keys
    then record g { active_msgs = active }
    else if is_stale k g.keys
    then g
    else (record (remove_expired
        (record g { active_msgs = active; keys = insert_sorted k g.keys })) { needs_dump = true })

-- `group_keys()`: the pending key, then the keys from the newest on.
abbrev pub newest_first : List KeyInfo → List Bytes
newest_first [] = []
newest_first (k ∷ ks) = newest_first ks ++ (k.key ∷ [])

unfoldable pub group_keys : Keys → List Bytes
group_keys g =
    let stored = newest_first g.keys in
    if is_nil g.pending_key_config then stored else g.pending_key ∷ stored

unfoldable pub group_enc_key : Keys → Result Bytes
group_enc_key g =
    if is_nil g.pending_key_config
    then (elim g.keys [ [] ↦ err runtime_error | k ∷ ks ↦ ok (back k ks).key ])
    else ok g.pending_key

-- The last two keys have one generation.
abbrev pub shares_newest : List KeyInfo → Bool
shares_newest [] = false
shares_newest (k ∷ []) = false
shares_newest (k ∷ j ∷ []) = same k.generation j.generation
shares_newest (k ∷ j ∷ i ∷ ks) = shares_newest (j ∷ i ∷ ks)

unfoldable pub needs_rekey : Keys → Bool
needs_rekey g = admin g && shares_newest g.keys

-- `pending_config()` and `pending_key()`
abbrev pub pending_config : Keys → Option Bytes
pending_config g = if is_nil g.pending_key_config then none else some g.pending_key_config

abbrev pub pending_key_if : Keys → Option Bytes
pending_key_if g = if is_nil g.pending_key_config then none else some g.pending_key

unfoldable pub insert_all : List Bytes → List Bytes → List Bytes
unfolding SortedSet.insert list_lt
insert_all [] s = s
insert_all (h ∷ hs) s = insert_all hs (SortedSet.insert h s)

unfoldable pub union : List (ℤ × List Bytes) → List Bytes
unfolding insert_all
union [] = []
union ((g, hs) ∷ m) = insert_all hs (union m)

abbrev pub active_hashes : Keys → List Bytes
active_hashes g = union g.active_msgs
