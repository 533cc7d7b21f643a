-- ===== src/Groups/Keys/Parse/Settles.antt =====
-- A rekey is settled by its own message (`rekey` and `load_key_message` of
-- src/config/groups/keys.cpp).
use libsession_util.Prelude.{
  ℕ, ◌≡◌, inl, inr, refl, sym, ap, subst, ◌∙◌, Bool, true, false, ◌||◌, none, some, List, [], ◌∷◌,
  length, arith, Bool-cases,
}
use libsession_util.Prelude.Int.{ℤ, pos, leb_ℤ, ltb_ℤ}
use libsession_util.Prelude.Result.{Result, ok, ◌>>=◌, >>=-eq-ok, ok_injective}
use libsession_util.Order.{same, same_refl}
use libsession_util.Keys.{Bytes, bytes_ord}
use libsession_util.Config.Data.{is_nil}
use libsession_util.Config.Bt.{BtDict}
use libsession_util.Config.Base.Keyring.{replace_keys}
use libsession_util.Config.Encrypt.RoundTrip.{IsSodium}
use libsession_util.MultiEncrypt.Laws.{Commits}
use libsession_util.Groups.Keys.{
  KeyInfo, Keys, admin, is_known, is_stale, insert_key, remove_expired, group_keys, pending_config,
}
use libsession_util.Groups.Keys.Crypt.{Crypto, admin_keys, compute_xpk, member_xpks}
use libsession_util.Groups.Keys.Loads.{
  Group, settles, drop_pending, insert_keys, share_keys, accept,
}
use libsession_util.Groups.Keys.Laws.{IsWell, Is32}
use libsession_util.Groups.Keys.Accepts.{Shares, accept_lem}
use libsession_util.Groups.Keys.Rekey.{next_generation, make_rekey, rekey}
use libsession_util.Groups.Keys.Parse.{parse_key_message, load_key_message}
use libsession_util.Groups.Keys.Parse.Rekeyed.{make_rekey-Made, Reads, IsAdmin}
use libsession_util.Groups.Keys.Parse.Lists.{length-take}
use libsession_util.Groups.Keys.Parse.Readers.{parse-rekey}

insert_key-pending :
    (hash : Bytes) (k : KeyInfo) (g : Keys)
    → (insert_key hash k g).pending_key_config ≡ g.pending_key_config
unfolding insert_key remove_expired
insert_key-pending hash k g = elim (Bool-cases (is_known k g.keys)) [
  | inl p ↦ rw p refl
  | inr p ↦ elim (Bool-cases (is_stale k g.keys)) [
    | inl s ↦ rw (p, s) refl
    | inr s ↦ rw (p, s) refl
  ]
]

settles_own :
    (k : KeyInfo) (g : Keys)
    → admin g ≡ true
    → k.key ≡ g.pending_key
    → is_nil g.pending_key_config ≡ false
    → settles (k ∷ []) g ≡ true
unfolding settles
settles_own k g a e n =
    let own : same k.key g.pending_key ≡ true = ap (λ z. same k.key z) (sym e) ∙ same_refl k.key in
    rw (settles, a, n, own) (or_true (ltb_ℤ g.pending_gen k.generation))
  where
    or_true : (b : Bool) → (b || true) ≡ true
    or_true true = refl
    or_true false = refl

-- The pending key settles itself, in an admin's account.
drop_pending-own :
    (k : KeyInfo) (g : Keys)
    → admin g ≡ true
    → k.key ≡ g.pending_key
    → (drop_pending (k ∷ []) g).pending_key_config ≡ []
unfolding drop_pending
drop_pending-own k g a e = elim (Bool-cases (settles (k ∷ []) g)) [
  | inl s ↦ rw (drop_pending, s) refl
  | inr s ↦ elim (Bool-cases (is_nil g.pending_key_config)) [
    | inl n ↦ rw (drop_pending, s) (nil_of g.pending_key_config n)
    | inr n ↦ absurd (ground (arith, settles_own k g a e n, s))
  ]
]
  where
    nil_of : (bs : Bytes) → is_nil bs ≡ true → bs ≡ []
    nil_of [] h = refl
    nil_of (b ∷ bs) h = cc

share_keys-keys :
    (x : Crypto) (dirty : Bool) (g g' : Group) → share_keys x.env dirty g ≡ ok g' → g'.keys ≡ g.keys
unfolding share_keys
share_keys-keys x dirty g g' e =
    let (m, p, r) = >>=-eq-ok (replace_keys x.env (group_keys g.keys) dirty g.members) _ e in
    let (i, q, t) = >>=-eq-ok (replace_keys x.env (group_keys g.keys) dirty g.info) _ r in
    ap (λ z. z.keys) (sym (ok_injective _ g' t))

-- A message with one key, that of the account's own pending rekey, is accepted and settles it.
accept_own :
    (x : Crypto) (hash : Bytes) (k : KeyInfo) (g : Group)
    → IsWell g.keys
    → admin g.keys ≡ true
    → k.key ≡ g.keys.pending_key
    → Is32 k
    → (g' : Group) × (accept x.env hash (k ∷ []) none g ≡ ok (g', true))
      × IsWell g'.keys
      × Shares g'
      × (pending_config g'.keys ≡ none)
unfolding accept insert_keys
accept_own x hash k g w a e l =
    let (g', p, w', s) = accept_lem x.env hash (k ∷ []) none g w (ap length (sym e) ∙ l) (l, tt) in
    let keys' = insert_keys hash (k ∷ []) (drop_pending (k ∷ []) g.keys) in
    let more : Group → Result (Group × Bool) = λ g1. ok (g1, true) in
    let (g1, q, r) = >>=-eq-ok (share_keys x.env false (record g { keys = keys' })) more p in
    let same_group : g1 ≡ g' = ap (λ z. z.0) (ok_injective (g1, true) (g', true) r) in
    let kept : g'.keys ≡ keys' =
      ap (λ z. z.keys) (sym same_group)
      ∙ share_keys-keys x false (record g { keys = keys' }) g1 q in
    let settled : g'.keys.pending_key_config ≡ [] =
      ap (λ z. z.pending_key_config) kept
      ∙ insert_key-pending hash k (drop_pending (k ∷ []) g.keys)
      ∙ drop_pending-own k g.keys a e in
    (g', p, w', elim s as (λ z. Shares g') [ inl n ↦ cc | inr t ↦ t ], rw settled refl)

module _ (x : Crypto) (sids : List Bytes) (g g' : Group) (message : Bytes) where
  -- The keys with the pending key of a rekey.
  abbrev rekeyed : Bytes → BtDict → Keys
  rekeyed key d = record g.keys {
    pending_gen = next_generation g.keys.keys;
    pending_key = key;
    pending_key_config = x.env.codec.encode d;
    needs_dump = true;
  }

  abbrev with_message : BtDict → Group → Result (Group × Bytes)
  with_message d g1 = ok (g1, x.env.codec.encode d)

  abbrev share_rekeyed : Bytes × BtDict → Result (Group × Bytes)
  share_rekeyed (key, d) =
      share_keys x.env true (record g { keys = rekeyed key d }) >>= with_message d

  rekey_keys :
      (key : Bytes) (d : BtDict)
      → rekey x sids g ≡ ok (g', message)
      → make_rekey x sids g.keys ≡ ok (key, d)
      → (message ≡ x.env.codec.encode d) × (g'.keys ≡ rekeyed key d)
  unfolding rekey
  rekey_keys key d e m =
      let (made, p, r) = >>=-eq-ok (make_rekey x sids g.keys) share_rekeyed e in
      let q : made ≡ (key, d) = ok_injective made (key, d) (sym p ∙ m) in
      let r' = subst (λ z. share_rekeyed z ≡ ok (g', message)) q r in
      let (g1, s, t) =
        >>=-eq-ok (share_keys x.env true (record g { keys = rekeyed key d })) (with_message d) r' in
      let same_pair = ok_injective (g1, x.env.codec.encode d) (g', message) t in
      (
        sym (ap (λ z. z.1) same_pair),
        ap (λ z. z.0.keys) (sym same_pair)
            ∙ share_keys-keys x true (record g { keys = rekeyed key d }) g1 s,
      )

  -- An admin's rekey is settled when its message comes back: `load_key_message` accepts it, nothing
  -- is pending any more, the state is well formed, and the info and the members encrypt with the key
  -- of the group. What is asked of libsodium and of the message is as for any other reader.
  pub rekey-settles :
      (key sk pk xpk : Bytes) (xpks : List Bytes) (d : BtDict) (hash : Bytes) (timestamp : ℤ)
      → IsSodium x.env.sodium
      → Commits x.env.sodium
      → ((n : ℕ) (seed : Bytes) → length (x.deterministic n seed) ≡ n)
      → rekey x sids g ≡ ok (g', message)
      → make_rekey x sids g.keys ≡ ok (key, d)
      → admin_keys g.keys ≡ ok (sk, pk)
      → compute_xpk x.curve pk ≡ ok xpk
      → member_xpks x.oxenc sids ≡ ok xpks
      → g.keys.sig.sign_pk ≡ some pk
      → IsAdmin x g.keys g.keys xpk
      → Reads x g.keys d
      → leb_ℤ (pos 0) (next_generation g.keys.keys) ≡ true
      → IsWell g.keys
      → (g'' : Group) × (load_key_message x hash message timestamp g' ≡ ok (g'', true))
        × IsWell g''.keys
        × Shares g''
        × (pending_config g''.keys ≡ none)
  unfolding load_key_message
  rekey-settles key sk pk xpk xpks d hash timestamp law commits random_size e m k c xs s r reads p
        w =
      let (t, q) = rekey_keys key d e m in
      let made = make_rekey-Made x sids g.keys key d law m in
      let l : length key ≡ 32 =
        ap length (sym made.key_eq) ∙ length-take 32 made.h1 (omega (arith, made.h1_size)) in
      let own : KeyInfo = record {
        generation = next_generation g.keys.keys;
        timestamp = timestamp;
        key = key;
      } in
      let h : Keys = rekeyed key d in
      let r' : IsAdmin x g.keys h xpk = record {
        is_admin = r.is_admin;
        same_sig = r.same_sig;
        shared = r.shared;
        unset_shared = r.unset_shared;
        xsk_size = r.xsk_size;
        xpk_size = r.xpk_size;
      } in
      let reads' : Reads x h d = record {
        opens = reads.opens;
        decodes = reads.decodes;
        verify = reads.verify;
        verifier_eq = reads.verifier_eq;
        accepts = reads.accepts;
      } in
      let parsed : parse_key_message x (x.env.codec.encode d) timestamp h ≡ ok (own ∷ [], none) =
        parse-rekey x sids g.keys h key sk pk xpk xpks d timestamp law commits random_size m k c xs
          (inr r') reads' s p in
      let parsed' : parse_key_message x message timestamp g'.keys ≡ ok (own ∷ [], none) =
        subst (λ z. parse_key_message x z timestamp g'.keys ≡ ok (own ∷ [], none)) (sym t)
          (subst (λ z. parse_key_message x (x.env.codec.encode d) timestamp z ≡ ok (own ∷ [], none))
            (sym q) parsed) in
      let (g'', a, w', sh, n) =
        accept_own x hash own g' (subst IsWell (sym q) w) (ap (λ z. admin z) q ∙ r.is_admin)
          (ap (λ z. z.pending_key) (sym q)) l in
      (g'', rw (load_key_message, parsed') a, w', sh, n)
