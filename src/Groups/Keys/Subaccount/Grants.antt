-- ===== src/Groups/Keys/Subaccount/Grants.antt =====
-- What an admin grants with a subaccount (src/config/groups/keys.cpp).
use libsession_util.Prelude.{
  ◌≡◌, refl, sym, ap, subst, ◌∙◌, Bool, true, false, not, ◌&&◌, ◌||◌, ◌==◌, some, ◌++◌, length,
  take, drop, length-append, Bool-cases, inl, inr, arith, if◌then◌else◌,
}
use libsession_util.Prelude.Result.{ok, >>=-eq-ok, ok_injective}
use libsession_util.Keys.{Bytes, bytes}
use libsession_util.Config.Encrypt.RoundTrip.{take_append, drop_append}
use libsession_util.Config.Signing.{seed_hash}
use libsession_util.User.Ids.{prefix_03, prefix_05, session_id_pk}
use libsession_util.Groups.Keys.{Keys}
use libsession_util.Groups.Keys.Crypt.{Crypto, admin_keys}
use libsession_util.Groups.Keys.Message.{group_pk}
use libsession_util.Groups.Keys.Subaccount.{
  Scalars, allows, subaccount_head, clear_sign, product, subaccount_blind_factor, blinded,
  swarm_make_subaccount, swarm_subaccount_token, own_product, blinded_signature,
  swarm_subaccount_sign, verify_subaccount_of, swarm_verify_subaccount,
}

-- What the flags of a head allow.
allows-head :
    (write del w d : Bool) (rest : Bytes)
    → allows (subaccount_head write del ++ rest) w d ≡ ((write || not w) && (del || not d))
allows-head true true true true rest = refl
allows-head true true true false rest = refl
allows-head true true false true rest = refl
allows-head true true false false rest = refl
allows-head true false true true rest = refl
allows-head true false true false rest = refl
allows-head true false false true rest = refl
allows-head true false false false rest = refl
allows-head false true true true rest = refl
allows-head false true true false rest = refl
allows-head false true false true rest = refl
allows-head false true false false rest = refl
allows-head false false true true rest = refl
allows-head false false true false rest = refl
allows-head false false false true rest = refl
allows-head false false false false rest = refl

-- The keys of the group: signatures have 64 bytes and verify, and the id of the group is read.
pub record SignsFor (x : Crypto) (sk pk : Bytes) : Type 0 where
  pub sig_size : (t : Bytes) → length (x.ed25519.sign_detached t sk) ≡ 64
  pub verifies : (t : Bytes) → x.ed25519.verify_detached (x.ed25519.sign_detached t sk) t pk ≡ true
  pub id_read : session_id_pk x.oxenc (prefix_03 ++ x.oxenc.to_hex pk) prefix_03 ≡ ok pk

-- The session id is that of the account: the point of its X25519 key is the account's public key,
-- up to the sign. A reduced scalar has 32 bytes.
pub record IsOwn (x : Crypto) (c : Scalars) (session_id session_xpk user_sk : Bytes) : Type 0 where
  pub id_read : session_id_pk x.oxenc session_id prefix_05 ≡ ok session_xpk
  pub point : c.xed_pubkey session_xpk ≡ clear_sign (x.ed25519.sk_to_pk user_sk)
  pub reduced : (t : Bytes) → length (c.reduce t) ≡ 32

module _ (x : Crypto) (c : Scalars) where
  length-factor :
      (session_xpk k : Bytes) (g : Keys)
      → ((t : Bytes) → length (c.reduce t) ≡ 32)
      → subaccount_blind_factor x c session_xpk g ≡ ok k
      → length k ≡ 32
  unfolding subaccount_blind_factor
  length-factor session_xpk k g size h =
      let (mask, m, h1) =
        >>=-eq-ok (seed_hash x.ed25519 (bytes "SessionGroupSubaccountMask") g.sig) _ h in
      let (pk, p, h2) = >>=-eq-ok (group_pk g) _ h1 in
      subst (λ z. length z ≡ 32) (ok_injective _ k h2) (size _)

  -- What an admin made for a session id.
  record Granted (session_id session_xpk : Bytes) (write del : Bool) (g : Keys) (sk v : Bytes)
      : Type 0 where
    k : Bytes
    kt : Bytes
    blinded_eq : blinded x c session_xpk g ≡ ok (k, kt)
    product_eq : product (c.scalarmult k (c.xed_pubkey session_xpk)) ≡ ok kt
    k_size : length k ≡ 32
    value :
        subaccount_head write del
          ++ (k ++ x.ed25519.sign_detached (subaccount_head write del ++ kt) sk)
        ≡ v

  blinded-parts :
      (session_xpk k kt : Bytes) (g : Keys)
      → blinded x c session_xpk g ≡ ok (k, kt)
      → (subaccount_blind_factor x c session_xpk g ≡ ok k)
        × (product (c.scalarmult k (c.xed_pubkey session_xpk)) ≡ ok kt)
  blinded-parts session_xpk k kt g h =
      let (k', f, h1) = >>=-eq-ok (subaccount_blind_factor x c session_xpk g) _ h in
      let (kt', p, h2) = >>=-eq-ok (product (c.scalarmult k' (c.xed_pubkey session_xpk))) _ h1 in
      let e : (k', kt') ≡ (k, kt) = ok_injective (k', kt') (k, kt) h2 in
      let ek : k' ≡ k = ap (λ z. z.0) e in
      (
        f ∙ ap ok ek,
        subst (λ z. product (c.scalarmult z (c.xed_pubkey session_xpk)) ≡ ok kt) ek
            (p ∙ ap (λ z. ok (z.1)) e),
      )

  make-Granted :
      (session_id session_xpk v sk pk : Bytes) (write del : Bool) (g : Keys)
      → ((t : Bytes) → length (c.reduce t) ≡ 32)
      → session_id_pk x.oxenc session_id prefix_05 ≡ ok session_xpk
      → admin_keys g ≡ ok (sk, pk)
      → swarm_make_subaccount x c session_id write del g ≡ ok v
      → Granted session_id session_xpk write del g sk v
  unfolding swarm_make_subaccount
  make-Granted session_id session_xpk v sk pk write del g size i a h =
      let (keys, a', h1) = >>=-eq-ok (admin_keys g) _ h in
      let (xpk, i', h2) = >>=-eq-ok (session_id_pk x.oxenc session_id prefix_05) _ h1 in
      let (b, q, h3) = >>=-eq-ok (blinded x c xpk g) _ h2 in
      let ex : xpk ≡ session_xpk = ok_injective xpk session_xpk (sym i' ∙ i) in
      let ek : keys ≡ (sk, pk) = ok_injective keys (sk, pk) (sym a' ∙ a) in
      let q' = subst (λ z. blinded x c z g ≡ ok b) ex q in
      let parts = blinded-parts session_xpk b.0 b.1 g q' in
      let head = subaccount_head write del in
      record {
        k = b.0;
        kt = b.1;
        blinded_eq = q';
        product_eq = parts.1;
        k_size = length-factor session_xpk b.0 g size parts.0;
        value =
            subst (λ z. head ++ (b.0 ++ x.ed25519.sign_detached (head ++ b.1) z) ≡ v)
              (ap (λ z. z.0) ek) (ok_injective _ v h3);
      }

  -- The parts of a value that was made, as the member takes it apart.
  record Taken (write del : Bool) (k kt sig v : Bytes) (user_sk : Bytes) : Type 0 where
    size : (length v == 100) ≡ true
    head_eq : take 4 v ≡ subaccount_head write del
    sig_eq : drop 36 v ≡ sig
    own : own_product x c v user_sk ≡ ok kt
    allowed : (w d : Bool) → allows v w d ≡ ((write || not w) && (del || not d))

  taken :
      (session_id session_xpk v sk pk : Bytes) (write del : Bool) (g h : Keys)
      → SignsFor x sk pk
      → IsOwn x c session_id session_xpk h.user_ed25519_sk
      → (m : Granted session_id session_xpk write del g sk v)
      → Taken write del m.k m.kt
          (x.ed25519.sign_detached (subaccount_head write del ++ m.kt) sk)
          v
          h.user_ed25519_sk
  taken session_id session_xpk v sk pk write del g h s o m =
      let sig = x.ed25519.sign_detached (subaccount_head write del ++ m.kt) sk in
      let first : take 32 (m.k ++ sig) ≡ m.k =
        subst (λ z. take z (m.k ++ sig) ≡ m.k) m.k_size (take_append m.k sig) in
      let second : drop 32 (m.k ++ sig) ≡ sig =
        subst (λ z. drop z (m.k ++ sig) ≡ sig) m.k_size (drop_append m.k sig) in
      let full : (length (subaccount_head write del ++ (m.k ++ sig)) == 100) ≡ true =
        ground (
          arith,
          length-append m.k sig,
          m.k_size,
          s.sig_size (subaccount_head write del ++ m.kt),
        ) in
      subst (λ z. Taken write del m.k m.kt sig z h.user_ed25519_sk) m.value
        (record {
          size = full;
          head_eq = refl;
          sig_eq = second;
          own =
              ap (λ z. product (c.scalarmult z (clear_sign (x.ed25519.sk_to_pk h.user_ed25519_sk))))
                first
              ∙ ap (λ z. product (c.scalarmult m.k z)) (sym o.point)
              ∙ m.product_eq;
          allowed = λ w d. allows-head write del w d (m.k ++ sig);
        })

  -- A value that an admin makes for a member's session id is checked by the member, for writing and
  -- deleting or not, with the result that both were granted as far as they are asked for. The keys
  -- of the group are valid, and the session id is that of the member's account.
  pub swarm_verify_subaccount-make :
      (session_id session_xpk v sk pk : Bytes) (write del w d : Bool) (g h : Keys)
      → SignsFor x sk pk
      → IsOwn x c session_id session_xpk h.user_ed25519_sk
      → admin_keys g ≡ ok (sk, pk)
      → h.sig.sign_pk ≡ some pk
      → swarm_make_subaccount x c session_id write del g ≡ ok v
      → swarm_verify_subaccount x c v w d h ≡ ok ((write || not w) && (del || not d))
  unfolding swarm_verify_subaccount verify_subaccount_of
  swarm_verify_subaccount-make session_id session_xpk v sk pk write del w d g h s o a hp e =
      let m = make-Granted session_id session_xpk v sk pk write del g o.reduced o.id_read a e in
      let t = taken session_id session_xpk v sk pk write del g h s o m in
      let valid = s.verifies (subaccount_head write del ++ m.kt) in
      elim (Bool-cases ((write || not w) && (del || not d))) [
        | inl p ↦
            let all : allows v w d ≡ true = t.allowed w d ∙ p in
            rw (hp, p)
              (rw (s.id_read)
                (rw (t.size, all) (rw (t.own) (rw (t.head_eq, t.sig_eq, valid) refl))))
        | inr p ↦
            let none_of : allows v w d ≡ false = t.allowed w d ∙ p in
            rw (hp, p) (rw (s.id_read) (rw (t.size, none_of) refl))
      ]

  -- What `swarm_subaccount_sign` returns of a token and the two signatures: themselves, or base64.
  abbrev pub in_form : Bool → Bytes → Bytes → Bytes → Bytes × (Bytes × Bytes)
  in_form binary token sub_sig sig =
      if binary
      then (token, (sub_sig, sig))
      else (c.to_base64 token, (c.to_base64 sub_sig, c.to_base64 sig))

  -- Where an admin made a value for a member's session id, the admin's token for it is there too,
  -- and there is a signature of the token that verifies with the key of the group. Whatever the
  -- member signs with the value comes with that token, with that signature, and with the member's
  -- own signature of the message by the blinded key: the key of the token and the factor that the
  -- value holds behind its flags. The three are bytes if the binary form is asked for, and their
  -- base64 texts if not. The keys of the group are valid, and the session id is that of the member's
  -- account.
  pub swarm_subaccount_sign-token :
      (session_id session_xpk v sk pk : Bytes) (write del : Bool) (g h : Keys)
      → SignsFor x sk pk
      → IsOwn x c session_id session_xpk h.user_ed25519_sk
      → admin_keys g ≡ ok (sk, pk)
      → h.sig.sign_pk ≡ some pk
      → swarm_make_subaccount x c session_id write del g ≡ ok v
      → (token : Bytes) × (sub_sig : Bytes) × (swarm_subaccount_token x c session_id write del g
          ≡ ok token)
        × (x.ed25519.verify_detached sub_sig token pk ≡ true)
        × ((msg : Bytes) (binary : Bool)
            → swarm_subaccount_sign x c msg v binary h
              ≡ ok (
                  in_form binary token sub_sig (
                    blinded_signature x c msg
                      (take 32 (drop 4 v))
                      (drop 4 token)
                      h.user_ed25519_sk)))
  unfolding swarm_subaccount_token swarm_subaccount_sign
  swarm_subaccount_sign-token session_id session_xpk v sk pk write del g h s o a hp e =
      let m = make-Granted session_id session_xpk v sk pk write del g o.reduced o.id_read a e in
      let t = taken session_id session_xpk v sk pk write del g h s o m in
      let token : Bytes = subaccount_head write del ++ m.kt in
      (
        token,
        x.ed25519.sign_detached token sk,
        rw a (rw (o.id_read) (rw (m.blinded_eq) refl)),
        s.verifies token,
        λ msg binary. rw (t.size) (rw (hp, group_pk) (rw (t.own) (rw (t.head_eq, t.sig_eq) refl))),
      )
