-- ===== src/Config/Base/Keyring.antt =====
-- The encryption keys of a config object: `has_key`, `add_key`, `remove_key`, `clear_keys`,
-- `replace_keys`, `load_key` (src/config/base.cpp). The reserve of memory is not modelled.
pub mod Laws
use libsession_util.Prelude.{
  ℕ, zero, suc, ◌==◌, Bool, true, false, not, ◌&&◌, ◌||◌, List, [], ◌∷◌, ◌++◌, length, take, ltb,
  leb, if◌then◌else◌,
}
use libsession_util.Prelude.Result.{Result, ok, guard, invalid_argument, ◌>>=◌, ◌>>◌}
use libsession_util.Order.{same}
use libsession_util.Keys.{Bytes, bytes_ord, list_lt}
use libsession_util.Config.Data.{is_nil}
use libsession_util.Config.Base.{ConfigBase, Env, is_readonly}
use libsession_util.Config.Base.State.{make_dirty}

-- The loop of `has_key`, and of `std::remove_if` from an index on.
unfoldable pub among : Bytes → List Bytes → Bool
unfolding list_lt
among key [] = false
among key (k ∷ ks) = same key k || among key ks

unfoldable pub remove_from : ℕ → Bytes → List Bytes → List Bytes
unfolding list_lt
remove_from from key [] = []
remove_from zero key (k ∷ ks) =
    let rest = remove_from zero key ks in if same key k then rest else k ∷ rest
remove_from (suc from) key (k ∷ ks) = k ∷ remove_from from key ks

abbrev pub is_front : Bytes → List Bytes → Bool
is_front key [] = false
is_front key (k ∷ ks) = same k key

unfoldable pub has_key : Bytes → ConfigBase → Result Bool
unfolding among
has_key key c = do guard (length key == 32) invalid_argument; ok (among key c.keys)

-- `dirty()` where a test asks for it.
abbrev pub dirty_if : Env → Bool → ConfigBase → Result ConfigBase
dirty_if env b c = if b then make_dirty env c else ok c

unfoldable pub remove_key : Env → Bytes → ℕ → Bool → ConfigBase → Result (ConfigBase × Bool)
unfolding remove_from make_dirty
remove_key env key from dirty_config c =
    let left = remove_from from key c.keys in
    let removed = (do
      c' ←
          dirty_if env (dirty_config && not (is_readonly c) && is_front key c.keys)
            (record c { keys = left })
      ok (c', ltb (length left) (length c.keys))) in
    if leb (length c.keys) from then ok (c, false) else removed

unfoldable pub add_key : Env → Bytes → Bool → Bool → ConfigBase → Result ConfigBase
unfolding among remove_key
add_key env key high_priority dirty_config c = do
  guard (length key == 32) invalid_argument
  let added = (do
    (c1, removed) ← (if high_priority then remove_key env key 1 false c else ok (c, false))
    let keys' = if high_priority then key ∷ c1.keys else c1.keys ++ (key ∷ [])
    let c2 = record c1 { keys = keys' }
    dirty_if env (dirty_config && not (is_readonly c2) && (length keys' == 1 || high_priority)) c2)
  if is_front key c.keys || (not high_priority && among key c.keys) then ok c else added

unfoldable pub clear_keys : Env → Bool → ConfigBase → Result (ConfigBase × ℕ)
unfolding make_dirty
clear_keys env dirty_config c = do
  c' ←
      dirty_if env (dirty_config && not (is_readonly c) && not (is_nil c.keys))
        (record c { keys = [] })
  ok (c', length c.keys)

abbrev pub all_32 : List Bytes → Bool
all_32 [] = true
all_32 (k ∷ ks) = length k == 32 && all_32 ks

unfoldable pub add_keys : Env → List Bytes → ConfigBase → Result ConfigBase
unfolding add_key
add_keys env [] c = ok c
add_keys env (k ∷ ks) c = do c' ← add_key env k false false c; add_keys env ks c'

unfoldable pub replace_keys : Env → List Bytes → Bool → ConfigBase → Result ConfigBase
unfolding clear_keys add_keys
replace_keys env [] dirty_config c =
    let cleared = (do (c', n) ← clear_keys env dirty_config c; ok c') in
    if is_nil c.keys then ok c else cleared
replace_keys env (k ∷ ks) dirty_config c = do
  guard (all_32 (k ∷ ks)) invalid_argument
  let dirties = dirty_config && not (is_readonly c) && (is_nil c.keys || not (is_front k c.keys))
  c' ← add_keys env (k ∷ ks) (record c { keys = [] })
  dirty_if env dirties c'

-- `load_key`, of a seed or a secret key; the key is its first 32 bytes.
unfoldable pub load_key : Env → Bytes → ConfigBase → Result ConfigBase
unfolding add_key
load_key env secretkey c = do
  guard (length secretkey == 64 || length secretkey == 32) invalid_argument
  add_key env (take 32 secretkey) true false c
