-- ===== src/Groups/Keys/Parse/Receives.antt =====
-- The message of `rekey` gives its key to every member and every admin (`rekey` and
-- `load_key_message` of src/config/groups/keys.cpp).
use libsession_util.Prelude.{
  ℕ, suc, ◌+◌, ◌*◌, ◌%◌, ◌≡◌, refl, ap, ◌∙◌, Bool, true, false, Option, none, some, List, [], ◌∷◌,
  ◌++◌, length, arith, map, length-append, All-append,
}
use libsession_util.Prelude.Int.{ℤ, pos, leb_ℤ}
use libsession_util.Prelude.Result.{ok}
use libsession_util.Keys.{Bytes, bytes, list_lt}
use libsession_util.Config.Bt.{BtDict, text}
use libsession_util.Config.Encrypt.RoundTrip.{IsSodium}
use libsession_util.Config.Message.Read.{
  skip_until, sig_key, is_set, verify_config_sig, check_signature,
}
use libsession_util.MultiEncrypt.{texts}
use libsession_util.MultiEncrypt.Simple.{consumed-texts}
use libsession_util.Groups.Keys.{KeyInfo, Keys}
use libsession_util.Groups.Keys.Crypt.{Crypto, compute_xpk, n_junk}
use libsession_util.Groups.Keys.Rekey.{junk_entries}
use libsession_util.Groups.Keys.Parse.{
  deliveries, verifying_key, own_keys, find_own, either, admin_part, parse_full, parse_key_message,
}
use libsession_util.Groups.Keys.Parse.Lists.{Sized, is_48, drain-ok, cut_lem, filled_up}
use libsession_util.Config.Bt.{integer, list, blank, field}

length-map_ok : (ts : List Bytes) → length (map (λ (t : Bytes). ok t) ts) ≡ length ts
length-map_ok [] = refl
length-map_ok (t ∷ ts) = ap suc (length-map_ok ts)

-- The entries of a message: all of one size, and a multiple of 45.
module _ (x : Crypto) (law : IsSodium x.env.sodium)
    (random_size : (n : ℕ) (seed : Bytes) → length (x.deterministic n seed) ≡ n)
    (h1 sk : Bytes) where
  junk_lem :
      (count : ℕ)
      → Sized (junk_entries x h1 sk count) × (length (junk_entries x h1 sk count) ≡ n_junk count)
  unfolding junk_entries
  junk_lem count =
      cut_lem (n_junk count) _ _ (random_size _ _)
        (omega (arith, random_size (48 * n_junk count) _))

  pub entries_lem :
      (copies : List Bytes)
      → Sized copies
      → Sized (copies ++ junk_entries x h1 sk (length copies))
        × (length (copies ++ junk_entries x h1 sk (length copies)) % 45 ≡ 0)
  entries_lem copies h =
      let (sized, count) = junk_lem (length copies) in
      (
        All-append _ copies _ h sized,
        ap (λ z. z % 45) (length-append copies _ ∙ ap (λ n. length copies + n) count)
            ∙ filled_up (length copies),
      )

-- A full message whose parts are as they should be, with a key for the account.
module _ (x : Crypto) (h : Keys) (timestamp gen : ℤ) (nonce admin_key group_xpk sig : Bytes)
    (own : Bytes × Bytes) (entries : List Bytes) where
  -- What follows the nonce.
  abbrev pub body : BtDict
  body = field (bytes "G") (integer gen) (
      field (bytes "K") (text admin_key)
        (field (bytes "k") (list (texts entries)) (field sig_key (text sig) blank)))

  pub parse_full_lem :
      (found plain : Option Bytes) (left : List Bytes) (key : Bytes)
      → leb_ℤ (pos 0) gen ≡ true
      → length admin_key ≡ 48
      → admin_part x h nonce admin_key ≡ ok found
      → find_own x (deliveries is_48 (is_set found) (map ok entries)) nonce own group_xpk
        ≡ ok (plain, map ok left)
      → length entries % 45 ≡ 0
      → either x plain found ≡ some key
      → parse_full x h timestamp nonce own group_xpk body
        ≡ ok (
          record { generation = gen; timestamp = timestamp; key = key } ∷ [],
          none,
          field sig_key (text sig) blank,
        )
  unfolding parse_full skip_until list_lt
  parse_full_lem found plain left key p l a f n e =
      rw
        (parse_full, p, l, a, consumed-texts entries, f, drain-ok left, length-map_ok entries, n, e)
        refl

verify_last :
    (signed sig : Bytes) (verify : Bytes → Bytes → Bool)
    → length sig ≡ 64
    → verify signed sig ≡ true
    → verify_config_sig signed (field sig_key (text sig) blank) (some verify) false ≡ ok (some sig)
unfolding verify_config_sig check_signature skip_until list_lt
verify_last signed sig verify l v = rw (l, v) refl

verify_own :
    (h : Keys) (signed sig : Bytes) (verify : Bytes → Bytes → Bool)
    → h.sig.verifier ≡ some verify
    → length sig ≡ 64
    → verify signed sig ≡ true
    → verify_config_sig signed (field sig_key (text sig) blank) h.sig.verifier false ≡ ok (some sig)
verify_own h signed sig verify e l v =
    ap (λ z. verify_config_sig signed (field sig_key (text sig) blank) z false) e
    ∙ verify_last signed sig verify l v

verifying_key_set :
    (x : Crypto) (h : Keys) (pk : Bytes) (verify : Bytes → Bytes → Bool)
    → h.sig.sign_pk ≡ some pk
    → h.sig.verifier ≡ some verify
    → verifying_key x h ≡ ok pk
unfolding verifying_key
verifying_key_set x h pk verify s v = rw (verifying_key, s, v) refl

-- The keys that a message gives are those of its body, if the rest of it passes.
pub parse_key_message_lem :
    (x : Crypto) (h : Keys) (timestamp gen : ℤ) (nonce admin_key pk group_xpk sig message : Bytes)
    (own : Bytes × Bytes) (entries : List Bytes) (keys : List KeyInfo)
    (verify : Bytes → Bytes → Bool)
    → x.env.codec.open_dict message ≡ ok tt
    → x.env.codec.decode message
      ≡ some (
          field
            (bytes "#")
            (text nonce)
            (body x h timestamp gen nonce admin_key group_xpk sig own entries))
    → h.sig.sign_pk ≡ some pk
    → h.sig.verifier ≡ some verify
    → verify (x.env.codec.signed_part message) sig ≡ true
    → length sig ≡ 64
    → compute_xpk x.curve pk ≡ ok group_xpk
    → own_keys x h ≡ ok own
    → parse_full x h timestamp nonce own group_xpk
        (body x h timestamp gen nonce admin_key group_xpk sig own entries)
      ≡ ok (keys, none, field sig_key (text sig) blank)
    → parse_key_message x message timestamp h ≡ ok (keys, none)
unfolding parse_key_message skip_until list_lt
parse_key_message_lem x h timestamp gen nonce admin_key pk group_xpk sig message own entries keys
      verify o d s v a l c w f =
    rw
      (
        parse_key_message,
        o,
        verifying_key_set x h pk verify s v,
        c,
        d,
        w,
        f,
        verify_own h (x.env.codec.signed_part message) sig verify v l a,
      )
      refl
