-- ===== src/MultiEncrypt/Laws.antt =====
-- A recipient decrypts the message (src/multi_encrypt.cpp).
use libsession_util.Prelude.{
  ◌+◌, ◌≡◌, ◌⊎◌, inl, inr, refl, sym, ap, ap₂, subst, ◌∙◌, ◌==◌, Bool, true, false, none, some,
  List, [], ◌∷◌, ◌++◌, length, take, replicate, ltb, leb, arith, map, All, All-map, Option-cases,
  if◌then◌else◌,
}
use libsession_util.Prelude.Result.{
  Result, Error, ok, err, guard, logic_error, invalid_argument, ◌>>=◌, ◌>>◌, >>=-eq-ok, guard-eq-ok,
  if-eq-ok, ok_injective,
}
use libsession_util.Keys.{Bytes}
use libsession_util.Config.Encrypt.{Sodium, tag_size}
use libsession_util.Config.Encrypt.RoundTrip.{IsSodium}
use libsession_util.MultiEncrypt.{
  Curve, all_32, validate_multi_fields, encrypt_multi_key, decrypt_multi_impl, encrypt_each,
  encrypt_for_multiple, decrypt_each, decrypt_for_multiple,
}

-- XChaCha20-Poly1305 accepts a ciphertext under no other key than its own, of the keys that are
-- hashes under one domain.
abbrev pub Commits : Sodium → Type 0
Commits s =
    (m nonce domain a b x : Bytes)
    → s.aead_decrypt (s.aead_encrypt m nonce (s.generichash 32 domain a)) nonce
        (s.generichash 32 domain b)
      ≡ some x
    → s.generichash 32 domain b ≡ s.generichash 32 domain a

-- A text is in a list.
abbrev pub Among : Bytes → List Bytes → Type 0
Among a [] = ⊥
Among a (b ∷ bs) = (a ≡ b) ⊎ Among a bs

guard-eq_true : (t : Bool) (e : Error) (u : Unit {0}) → guard t e ≡ ok u → t ≡ true
guard-eq_true true e u h = refl
guard-eq_true false e u h = cc

-- Fields that are valid for the sender are so for a recipient.
validated :
    (nonce a pk_a b pk_b : Bytes) (u : Unit {0})
    → validate_multi_fields nonce a pk_a ≡ ok u
    → length b ≡ 32
    → length pk_b ≡ 32
    → (validate_multi_fields nonce b pk_b ≡ ok tt) × ((length pk_a == 32) ≡ true)
validated nonce a pk_a b pk_b u v lb lpk =
    let (p, v1) =
      guard-eq-ok (leb 24 (length nonce)) logic_error
        (guard (length a == 32) logic_error >> guard (length pk_a == 32) logic_error) v in
    let (q, v2) =
      guard-eq-ok (length a == 32) logic_error (guard (length pk_a == 32) logic_error) v1 in
    (rw (p, lb, lpk) refl, guard-eq_true (length pk_a == 32) logic_error u v2)

module _ (s : Sodium) (c : Curve) (m nonce domain : Bytes) where
  -- A copy of the message, under a key that is a hash.
  abbrev pub IsCopy : Bytes → Type 0
  IsCopy t = (x : Bytes) × (t ≡ s.aead_encrypt m nonce (s.generichash 32 (take 64 domain) x))

  -- The key for a recipient.
  abbrev pub key_for : Bytes → Bytes → Bytes → Bytes
  key_for shared pk_a pk_b = s.generichash 32 (take 64 domain) (shared ++ (pk_a ++ pk_b))

  -- Copies only, the one for the recipient among them.
  abbrev pub Copies : Bytes → List Bytes → Type 0
  Copies key copies = All IsCopy copies × Among (s.aead_encrypt m nonce key) copies

  abbrev seal : Bytes → Bytes → Bool → List Bytes → Result (List Bytes)
  seal a pk_a ignore rs = encrypt_each s c true (m ∷ []) rs nonce a pk_a domain ignore

  -- What the key for a recipient leads to.
  abbrev with_key : Bytes → Bytes → Bool → List Bytes → Result Bytes → Result (List Bytes)
  with_key a pk_a ignore rs key = elim key [
    | err e ↦ if ignore then seal a pk_a ignore rs else err e
    | ok key ↦ seal a pk_a ignore rs >>= (λ copies. ok (s.aead_encrypt m nonce key ∷ copies))
  ]

  no_key :
      (a pk_a r : Bytes)
      → c.scalarmult a r ≡ none
      → encrypt_multi_key s c a pk_a r true domain ≡ err invalid_argument
  unfolding encrypt_multi_key
  no_key a pk_a r n = rw (n, encrypt_multi_key) refl

  some_key :
      (a pk_a r buf : Bytes)
      → c.scalarmult a r ≡ some buf
      → encrypt_multi_key s c a pk_a r true domain ≡ ok (key_for buf pk_a r)
  unfolding encrypt_multi_key
  some_key a pk_a r buf n = rw (n, encrypt_multi_key) refl

  -- What the first recipient adds to the copies: nothing if the key is invalid and that is ignored.
  seal_step :
      (a pk_a : Bytes) (ignore : Bool) (r : Bytes) (rs copies : List Bytes)
      → seal a pk_a ignore (r ∷ rs) ≡ ok copies
      → ((c.scalarmult a r ≡ none) × (seal a pk_a ignore rs ≡ ok copies))
        ⊎ ((buf : Bytes) × (rest : List Bytes) × (c.scalarmult a r ≡ some buf)
            × (seal a pk_a ignore rs ≡ ok rest)
            × (s.aead_encrypt m nonce (key_for buf pk_a r) ∷ rest ≡ copies))
  unfolding encrypt_each
  seal_step a pk_a ignore r rs copies e = elim (Option-cases (c.scalarmult a r)) [
    | inl n ↦
        let e' = subst (λ k. with_key a pk_a ignore rs k ≡ ok copies) (no_key a pk_a r n) e in
        elim (if-eq-ok ignore (seal a pk_a ignore rs) (err invalid_argument) e') [
          | inl (p, q) ↦ inl (n, q)
          | inr (p, q) ↦ cc
        ]
    | inr (buf, n) ↦
        let e' = subst (λ k. with_key a pk_a ignore rs k ≡ ok copies) (some_key a pk_a r buf n) e in
        let (rest, p, q) =
          >>=-eq-ok (seal a pk_a ignore rs)
            (λ copies. ok (s.aead_encrypt m nonce (key_for buf pk_a r) ∷ copies)) e' in
        inr (buf, rest, n, p, ok_injective _ copies q)
  ]

  seal-All :
      (a pk_a : Bytes) (ignore : Bool) (rs copies : List Bytes)
      → seal a pk_a ignore rs ≡ ok copies
      → All IsCopy copies
  unfolding encrypt_each
  seal-All a pk_a ignore [] copies e = subst (All IsCopy) (ok_injective [] copies e) tt
  seal-All a pk_a ignore (r ∷ rs) copies e = elim (seal_step a pk_a ignore r rs copies e) [
    | inl (n, q) ↦ seal-All a pk_a ignore rs copies q
    | inr (buf, rest, n, p, q) ↦
        subst (All IsCopy) q ((buf ++ (pk_a ++ r), refl), seal-All a pk_a ignore rs rest p)
  ]

  seal-Among :
      (a pk_a b shared : Bytes) (ignore : Bool) (rs copies : List Bytes)
      → seal a pk_a ignore rs ≡ ok copies
      → Among b rs
      → c.scalarmult a b ≡ some shared
      → Among (s.aead_encrypt m nonce (key_for shared pk_a b)) copies
  seal-Among a pk_a b shared ignore [] copies e h d = absurd h
  seal-Among a pk_a b shared ignore (r ∷ rs) copies e h d =
      elim (seal_step a pk_a ignore r rs copies e) [
        | inl (n, q) ↦ elim h [
          | inl w ↦ let no : c.scalarmult a b ≡ none = ap (c.scalarmult a) w ∙ n in cc
          | inr w ↦ seal-Among a pk_a b shared ignore rs copies q w d
        ]
        | inr (buf, rest, n, p, q) ↦ elim h [
          | inl w ↦
              let k : some buf ≡ some shared = sym n ∙ ap (c.scalarmult a) (sym w) ∙ d in
              let j : buf ≡ shared = cc in
              subst (Among (s.aead_encrypt m nonce (key_for shared pk_a b))) q
                (inl (ap₂ (λ x y. s.aead_encrypt m nonce (key_for x pk_a y)) (sym j) w))
          | inr w ↦
              subst (Among (s.aead_encrypt m nonce (key_for shared pk_a b))) q
                (inr (seal-Among a pk_a b shared ignore rs rest p w d))
        ]
      ]

  module _ (law : IsSodium s) (commits : Commits s) where
    -- A copy is opened with a hash as the key, if at all, to the message.
    open_copy :
        (t x : Bytes)
        → IsCopy t
        → let r = s.aead_decrypt t nonce (s.generichash 32 (take 64 domain) x) in
          (r ≡ none) ⊎ (r ≡ some m)
    open_copy t x (y, e) =
        elim (Option-cases (s.aead_decrypt t nonce (s.generichash 32 (take 64 domain) x))) [
          | inl n ↦ inl n
          | inr (z, n) ↦
              let n' =
                subst (λ w. s.aead_decrypt w nonce (s.generichash 32 (take 64 domain) x) ≡ some z) e
                  n in
              let k = commits m nonce (take 64 domain) y x z n' in
              inr (
                ap₂ (λ w v. s.aead_decrypt w nonce v) e k
                ∙ law.decrypts m nonce (s.generichash 32 (take 64 domain) y))
        ]

    copy_length : (t : Bytes) → IsCopy t → length t ≡ length m + tag_size
    copy_length t (y, e) = ap length e ∙ law.cipher_size m nonce _

    open_long :
        (t key : Bytes) → IsCopy t → decrypt_multi_impl s c t key nonce ≡ s.aead_decrypt t nonce key
    unfolding decrypt_multi_impl
    open_long t key h =
        let l : ltb (length t) tag_size ≡ false = ground (arith, copy_length t h) in rw l refl

    -- The search finds the message wherever the recipient's copy stands, whatever follows.
    decrypt_each-copies :
        (x : Bytes) (copies : List Bytes) (more : List (Result Bytes))
        → All IsCopy copies
        → Among (s.aead_encrypt m nonce (s.generichash 32 (take 64 domain) x)) copies
        → (rest : List Bytes) × (decrypt_each s c
              (s.generichash 32 (take 64 domain) x)
              nonce
              (map ok copies ++ more)
            ≡ ok (some m, map ok rest ++ more))
    unfolding decrypt_each
    decrypt_each-copies x [] more h w = absurd w
    decrypt_each-copies x (t ∷ ts) more h w =
        let key = s.generichash 32 (take 64 domain) x in
        let long = open_long t key h.0 in
        elim (open_copy t x h.0) [
          | inr p ↦ (ts, rw (long, p, decrypt_each) refl)
          | inl p ↦ elim w [
            | inl q ↦
                let some_m : s.aead_decrypt t nonce key ≡ some m =
                  ap (λ z. s.aead_decrypt z nonce key) (sym q) ∙ law.decrypts m nonce key in
                cc
            | inr q ↦
                let (rest, r) = decrypt_each-copies x ts more h.1 q in
                (rest, rw (long, p, decrypt_each) r)
          ]
        ]

    -- The sender's public key has 32 bytes.
    pub length-sender :
        (a pk_a : Bytes) (ignore : Bool) (recipients copies : List Bytes)
        → encrypt_for_multiple s c (m ∷ []) recipients nonce a pk_a domain ignore ≡ ok copies
        → (length pk_a == 32) ≡ true
    unfolding encrypt_for_multiple
    length-sender a pk_a ignore recipients copies e =
        let (u, v, e1) = >>=-eq-ok (validate_multi_fields nonce a pk_a) _ e in
        (validated nonce a pk_a (replicate 32 0) (replicate 32 0) u v refl refl).1

    -- Each copy is 16 bytes longer than the message.
    pub length-encrypt_for_multiple :
        (a pk_a : Bytes) (ignore : Bool) (recipients copies : List Bytes)
        → encrypt_for_multiple s c (m ∷ []) recipients nonce a pk_a domain ignore ≡ ok copies
        → All (λ t. length t ≡ length m + tag_size) copies
    unfolding encrypt_for_multiple
    length-encrypt_for_multiple a pk_a ignore recipients copies e =
        let (u, v, e1) = >>=-eq-ok (validate_multi_fields nonce a pk_a) _ e in
        let (w32, e2) = guard-eq-ok (all_32 recipients) logic_error _ e1 in
        All-map copy_length copies (seal-All a pk_a ignore recipients copies e2)

    some_key_back :
        (a pk_a b pk_b shared : Bytes)
        → c.scalarmult b pk_a ≡ some shared
        → encrypt_multi_key s c b pk_b pk_a false domain ≡ ok (key_for shared pk_a pk_b)
    unfolding encrypt_multi_key
    some_key_back a pk_a b pk_b shared k = rw (k, encrypt_multi_key) refl

    -- What `encrypt_for_multiple` makes of one message, each recipient with a valid key decrypts to
    -- the message, wherever its copy stands and whatever follows the copies; the sender's and the
    -- recipient's products of keys agree.
    pub decrypt-encrypt_for_multiple :
        (a pk_a b pk_b shared : Bytes) (ignore : Bool) (recipients copies : List Bytes)
        (more : List (Result Bytes))
        → encrypt_for_multiple s c (m ∷ []) recipients nonce a pk_a domain ignore ≡ ok copies
        → Among pk_b recipients
        → c.scalarmult a pk_b ≡ some shared
        → c.scalarmult b pk_a ≡ some shared
        → length b ≡ 32
        → length pk_b ≡ 32
        → (rest : List Bytes) × (decrypt_for_multiple s c
              (map ok copies ++ more)
              nonce
              b
              pk_b
              pk_a
              domain
            ≡ ok (some m, map ok rest ++ more))
    unfolding decrypt_for_multiple encrypt_for_multiple
    decrypt-encrypt_for_multiple a pk_a b pk_b shared ignore recipients copies more e w d k lb lpk =
        let (u, v, e1) = >>=-eq-ok (validate_multi_fields nonce a pk_a) _ e in
        let valid = validated nonce a pk_a b pk_b u v lb lpk in
        let (w32, e2) = guard-eq-ok (all_32 recipients) logic_error _ e1 in
        let key = some_key_back a pk_a b pk_b shared k in
        let (rest, r) =
          decrypt_each-copies (shared ++ (pk_a ++ pk_b)) copies more
            (seal-All a pk_a ignore recipients copies e2)
            (seal-Among a pk_a pk_b shared ignore recipients copies e2 w d) in
        (rest, rw (valid.0, valid.1, key) r)

-- Where no ciphertext is given, nothing is decrypted, if the fields are valid.
pub decrypt_nothing :
    (s : Sodium) (c : Curve) (nonce b pk_b pk_a domain shared : Bytes)
    → leb 24 (length nonce) ≡ true
    → length b ≡ 32
    → length pk_b ≡ 32
    → (length pk_a == 32) ≡ true
    → c.scalarmult b pk_a ≡ some shared
    → decrypt_for_multiple s c [] nonce b pk_b pk_a domain ≡ ok (none, [])
unfolding decrypt_for_multiple encrypt_multi_key decrypt_each
decrypt_nothing s c nonce b pk_b pk_a domain shared n lb lpk la k =
    rw (decrypt_for_multiple, n, lb, lpk, la, encrypt_multi_key, k) refl
