-- ===== src/Groups/Keys/Message/Reads.antt =====
-- Who reads a group message (`encrypt_message` and `decrypt_message` of src/config/groups/keys.cpp).
use libsession_util.Prelude.{
  ℕ, ◌≤◌, ◌≡◌, refl, sym, ap, subst, ◌∙◌, Bool, true, false, ◌&&◌, Option, some, List, [], ◌∷◌,
  ◌++◌, length, take, drop, replicate, map, if◌then◌else◌, leb, ltb, length-append, length-drop,
  Bool-cases, Option-cases, inl, inr, arith,
}
use libsession_util.Prelude.Result.{ok, err, runtime_error, ok_injective}
use libsession_util.Keys.{Bytes, list_lt}
use libsession_util.Config.Data.{is_nil}
use libsession_util.Config.Bt.{BtDict}
use libsession_util.Config.Message.Read.{skip_until}
use libsession_util.Config.Encrypt.{Sodium, nonce_size, encrypt_data_overhead}
use libsession_util.Config.Encrypt.RoundTrip.{IsSodium, take_append, drop_append}
use libsession_util.MultiEncrypt.Laws.{Among}
use libsession_util.User.Ids.{prefix_05}
use libsession_util.Groups.Keys.{KeyInfo, Keys, back, group_enc_key}
use libsession_util.Groups.Keys.Crypt.{Crypto}
use libsession_util.Groups.Keys.Message.{
  message_dict, pad_encoded, group_pk, try_keys, tried, up_to_nonzero, without_padding, front_is,
  back_is, max_plaintext_message_size, payload, made_dict, encrypt_message, session_id_of,
  decompressed, uncompressed_part, compressed_part, read_message, opened, read_padded,
  decrypt_message,
}
use libsession_util.Groups.Keys.Parse.Lists.{length-take}
use libsession_util.Groups.Keys.Message.Padding.{up_to_nonzero-append, pad_encoded-append}

-- XChaCha20-Poly1305 authenticates a message: no key opens it to another one.
abbrev pub Authenticates : Sodium → Type 0
Authenticates s =
    (m nonce key k y : Bytes) → s.aead_decrypt (s.aead_encrypt m nonce key) nonce k ≡ some y → y ≡ m

-- The first key that opens a message, of which only the message comes, gives the message.
try_keys-Among :
    (opens : Bytes → Option Bytes) (m key : Bytes) (ks : List Bytes)
    → ((k y : Bytes) → opens k ≡ some y → y ≡ m)
    → opens key ≡ some m
    → Among key ks
    → try_keys opens ks ≡ some m
unfolding try_keys
try_keys-Among opens m key (k ∷ ks) only h a = elim (Option-cases (opens k)) [
  | inr (y, e) ↦ rw (e, try_keys) (ap some (only k y e))
  | inl n ↦
      rw (n, try_keys) (elim a [ inl e ↦ cc | inr b ↦ try_keys-Among opens m key ks only h b ])
]
try_keys-Among opens m key [] only h a = absurd a

back-Among :
    (k : KeyInfo) (ks : List KeyInfo)
    → Among (back k ks).key (map (λ (j : KeyInfo). j.key) (k ∷ ks))
back-Among k [] = inl refl
back-Among k (j ∷ ks) = inr (back-Among j ks)

tried-Among :
    (no_pending : Bool) (pending key : Bytes) (ks : List KeyInfo)
    → (if no_pending
        then (elim ks [ [] ↦ err runtime_error | j ∷ js ↦ ok (back j js).key ])
        else ok pending)
      ≡ ok key
    → Among key (
        if no_pending
        then map (λ (j : KeyInfo). j.key) ks
        else pending ∷ map (λ (j : KeyInfo). j.key) ks)
tried-Among true pending key [] h = cc
tried-Among true pending key (k ∷ ks) h =
    subst (λ z. Among z (map (λ (j : KeyInfo). j.key) (k ∷ ks)))
      (ok_injective (back k ks).key key h) (back-Among k ks)
tried-Among false pending key ks h = inl (sym (ok_injective pending key h))

-- The key that encrypts is among those that are tried.
pub group_enc_key-Among : (g : Keys) (key : Bytes) → group_enc_key g ≡ ok key → Among key (tried g)
unfolding group_enc_key
group_enc_key-Among g key h = tried-Among (is_nil g.pending_key_config) g.pending_key key g.keys h

not_nil-front : (t : Bytes) → front_is b'd' t ≡ true → is_nil t ≡ false
not_nil-front [] h = cc
not_nil-front (c ∷ t) h = refl

-- The text of a dict in oxenc's form.
pub record IsText (x : Crypto) (d : BtDict) : Type 0 where
  pub front_eq : front_is b'd' (x.env.codec.encode d) ≡ true
  pub back_eq : back_is b'e' (x.env.codec.encode d) ≡ true
  pub opens : x.env.codec.open_dict (x.env.codec.encode d) ≡ ok tt
  pub decodes : x.env.codec.decode (x.env.codec.encode d) ≡ some d

-- The keys of an author: the signatures verify, and the public key has a Curve25519 form.
pub record IsAuthor (x : Crypto) (sk x_pk : Bytes) : Type 0 where
  pub sk_size : length sk ≡ 64
  pub converts : x.curve.pk_to_curve (take 32 (drop 32 sk)) ≡ some x_pk
  pub sig_size : (t : Bytes) → length (x.ed25519.sign_detached t sk) ≡ 64
  pub verifies :
      (t : Bytes)
      → x.ed25519.verify_detached (x.ed25519.sign_detached t sk) t (take 32 (drop 32 sk)) ≡ true

module _ (x : Crypto) (zstd_decompress : Bytes → ℕ → Option Bytes) where
  -- What zstd documents, of one text: its compressed form has a header, and is decompressed.
  pub record Compresses (plaintext : Bytes) : Type 0 where
    pub not_empty : is_nil (x.env.zstd_compress plaintext 1) ≡ false
    pub decompresses :
        zstd_decompress (x.env.zstd_compress plaintext 1) max_plaintext_message_size
        ≡ some plaintext

  module _ (pk author sig data_ x_pk : Bytes) (la : length author ≡ 32)
      (e : x.curve.pk_to_curve author ≡ some x_pk) (ls : length sig ≡ 64) (n : is_nil data_ ≡ false)
      (v : x.ed25519.verify_detached sig (data_ ++ pk) author ≡ true) where
    read_uncompressed :
        read_message x zstd_decompress pk (message_dict author sig data_ false)
        ≡ ok (prefix_05 ++ x.oxenc.to_hex x_pk, data_)
    unfolding read_message skip_until uncompressed_part compressed_part list_lt
    read_uncompressed =
        rw (la, e, session_id_of) (rw n (rw ls (rw (n, compressed_part) (rw v refl))))

    read_compressed :
        (plain : Bytes)
        → zstd_decompress data_ max_plaintext_message_size ≡ some plain
        → read_message x zstd_decompress pk (message_dict author sig data_ true)
          ≡ ok (prefix_05 ++ x.oxenc.to_hex x_pk, plain)
    unfolding read_message skip_until uncompressed_part compressed_part list_lt
    read_compressed plain z =
        rw (la, e, session_id_of)
          (rw ls (rw (n, compressed_part) (rw v (rw (z, decompressed) refl))))

  author_size : (sk x_pk : Bytes) → IsAuthor x sk x_pk → length (take 32 (drop 32 sk)) ≡ 32
  author_size sk x_pk a = length-take 32 (drop 32 sk) (omega (arith, length-drop 32 sk, a.sk_size))

  -- The dict that is sent is read.
  read_made :
      (plaintext pk sk x_pk : Bytes) (compress : Bool)
      → IsAuthor x sk x_pk
      → is_nil plaintext ≡ false
      → Compresses plaintext
      → read_message x zstd_decompress pk (made_dict x (payload x plaintext compress) pk sk)
        ≡ ok (prefix_05 ++ x.oxenc.to_hex x_pk, plaintext)
  read_made plaintext pk sk x_pk compress a n z =
      let z' = x.env.zstd_compress plaintext 1 in
      let author = take 32 (drop 32 sk) in
      let la = author_size sk x_pk a in
      elim (Bool-cases (compress && ltb (length z') (length plaintext))) [
        | inl p ↦
            rw (p, payload)
              (read_compressed pk author (x.ed25519.sign_detached (z' ++ pk) sk) z' x_pk la
                a.converts (a.sig_size (z' ++ pk)) z.not_empty (a.verifies (z' ++ pk)) plaintext
                z.decompresses)
        | inr p ↦
            rw (p, payload)
              (read_uncompressed pk author (x.ed25519.sign_detached (plaintext ++ pk) sk) plaintext
                x_pk la a.converts (a.sig_size (plaintext ++ pk)) n (a.verifies (plaintext ++ pk)))
      ]

  -- A dict behind its padding.
  read_padded_lem :
      (t pk : Bytes) (n : ℕ) (d : BtDict) (h : Keys)
      → back_is b'e' t ≡ true
      → front_is b'd' t ≡ true
      → x.env.codec.open_dict t ≡ ok tt
      → x.env.codec.decode t ≡ some d
      → h.sig.sign_pk ≡ some pk
      → read_padded x zstd_decompress (t ++ replicate n 0) h ≡ read_message x zstd_decompress pk d
  unfolding read_padded
  read_padded_lem t pk n d h b f o w s =
      let full : is_nil t ≡ false = not_nil-front t f in
      let strip : up_to_nonzero (t ++ replicate n 0) ≡ t =
        up_to_nonzero-append b'e' t n (omega arith) b in
      let same : without_padding (t ++ replicate n 0) ≡ t =
        rw (strip, full, without_padding) refl in
      rw (same) (rw (f, b, o, w, s, group_pk) refl)

  -- A text that is sealed behind a nonce is found by a key among those that are tried.
  decrypt_sealed :
      (padded nonce key : Bytes) (h : Keys)
      → IsSodium x.env.sodium
      → Authenticates x.env.sodium
      → length nonce ≡ nonce_size
      → Among key (tried h)
      → decrypt_message x zstd_decompress (nonce ++ x.env.sodium.aead_encrypt padded nonce key) h
        ≡ read_padded x zstd_decompress padded h
  unfolding decrypt_message opened
  decrypt_sealed padded nonce key h law auth l a =
      let sealed = x.env.sodium.aead_encrypt padded nonce key in
      let big : leb encrypt_data_overhead (length (nonce ++ sealed)) ≡ true =
        ground (arith, length-append nonce sealed, law.cipher_size padded nonce key, l) in
      let head : take nonce_size (nonce ++ sealed) ≡ nonce =
        subst (λ z. take z (nonce ++ sealed) ≡ nonce) l (take_append nonce sealed) in
      let tail : drop nonce_size (nonce ++ sealed) ≡ sealed =
        subst (λ z. drop z (nonce ++ sealed) ≡ sealed) l (drop_append nonce sealed) in
      let found =
        try_keys-Among (x.env.sodium.aead_decrypt sealed nonce) padded key (tried h)
          (auth padded nonce key) (law.decrypts padded nonce key) a in
      let open_eq : opened x nonce sealed h ≡ ok padded = rw (found, opened) refl in
      rw big (rw (head, tail) (rw open_eq refl))

  -- What is sent, where the group has keys.
  encrypt_message-eq-ok :
      (plaintext nonce pk key : Bytes) (compress : Bool) (padding : ℕ) (g : Keys)
      → length plaintext ≤ max_plaintext_message_size
      → g.sig.sign_pk ≡ some pk
      → group_enc_key g ≡ ok key
      → encrypt_message x plaintext compress padding nonce g
        ≡ ok (
            nonce
            ++ x.env.sodium.aead_encrypt
                (pad_encoded padding (
                  x.env.codec.encode
                    (made_dict x (payload x plaintext compress) pk g.user_ed25519_sk)))
                nonce
                key)
  unfolding encrypt_message
  encrypt_message-eq-ok plaintext nonce pk key compress padding g b s k =
      let small : leb (length plaintext) max_plaintext_message_size ≡ true = ground arith in
      rw small (rw (s, group_pk) (rw k refl))

  -- What is sent is read as its dict.
  reads_sent :
      (plaintext nonce pk key : Bytes) (compress : Bool) (padding : ℕ) (g h : Keys)
      → IsSodium x.env.sodium
      → Authenticates x.env.sodium
      → IsText x (made_dict x (payload x plaintext compress) pk g.user_ed25519_sk)
      → length plaintext ≤ max_plaintext_message_size
      → length nonce ≡ nonce_size
      → g.sig.sign_pk ≡ some pk
      → h.sig.sign_pk ≡ some pk
      → group_enc_key g ≡ ok key
      → Among key (tried h)
      → (c : Bytes) × (encrypt_message x plaintext compress padding nonce g ≡ ok c)
        × (decrypt_message x zstd_decompress c h
            ≡ read_message x zstd_decompress pk
                (made_dict x (payload x plaintext compress) pk g.user_ed25519_sk))
  reads_sent plaintext nonce pk key compress padding g h law auth t b l sg sh k w =
      let d = made_dict x (payload x plaintext compress) pk g.user_ed25519_sk in
      let (m, p) = pad_encoded-append padding (x.env.codec.encode d) in
      let padded = pad_encoded padding (x.env.codec.encode d) in
      (
        nonce ++ x.env.sodium.aead_encrypt padded nonce key,
        encrypt_message-eq-ok plaintext nonce pk key compress padding g b sg k,
        decrypt_sealed padded nonce key h law auth l w
            ∙ ap (λ v. read_padded x zstd_decompress v h) p
            ∙ read_padded_lem (x.env.codec.encode d) pk m d h t.back_eq t.front_eq t.opens t.decodes
                sh,
      )

  read_empty :
      (pk sk x_pk : Bytes) (compress : Bool)
      → IsAuthor x sk x_pk
      → read_message x zstd_decompress pk (made_dict x (payload x [] compress) pk sk)
        ≡ err runtime_error
  unfolding read_message skip_until uncompressed_part list_lt
  read_empty pk sk x_pk compress a =
      let small : (compress && ltb (length (x.env.zstd_compress [] 1)) 0) ≡ false = ground arith in
      rw (small, payload) (rw (author_size sk x_pk a, a.converts, session_id_of) refl)

  -- A message that is not empty and not larger than the limit is encrypted, compressed or not and
  -- with any padding, and each member of the group who has the key that encrypts it, as the pending
  -- one or another, decrypts it to the message and its author's session id. The nonce has 24 bytes,
  -- the author's keys are valid, and the dict and the compressed message can be read back.
  pub decrypt-encrypt_message :
      (plaintext nonce pk key x_pk : Bytes) (compress : Bool) (padding : ℕ) (g h : Keys)
      → IsSodium x.env.sodium
      → Authenticates x.env.sodium
      → IsText x (made_dict x (payload x plaintext compress) pk g.user_ed25519_sk)
      → IsAuthor x g.user_ed25519_sk x_pk
      → Compresses plaintext
      → is_nil plaintext ≡ false
      → length plaintext ≤ max_plaintext_message_size
      → length nonce ≡ nonce_size
      → g.sig.sign_pk ≡ some pk
      → h.sig.sign_pk ≡ some pk
      → group_enc_key g ≡ ok key
      → Among key (tried h)
      → (c : Bytes) × (encrypt_message x plaintext compress padding nonce g ≡ ok c)
        × (decrypt_message x zstd_decompress c h ≡ ok (prefix_05 ++ x.oxenc.to_hex x_pk, plaintext))
  decrypt-encrypt_message plaintext nonce pk key x_pk compress padding g h law auth t a z n b l sg
        sh k w =
      let (c, e, r) =
        reads_sent plaintext nonce pk key compress padding g h law auth t b l sg sh k w in
      (c, e, r ∙ read_made plaintext pk g.user_ed25519_sk x_pk compress a n z)

  -- An empty message is encrypted, compressed or not and with any padding, and each member of the
  -- group who has the key that encrypts it refuses it. The nonce has 24 bytes, the author's keys are
  -- valid, and the dict can be read back.
  pub encrypt_message_empty :
      (nonce pk key x_pk : Bytes) (compress : Bool) (padding : ℕ) (g h : Keys)
      → IsSodium x.env.sodium
      → Authenticates x.env.sodium
      → IsText x (made_dict x (payload x [] compress) pk g.user_ed25519_sk)
      → IsAuthor x g.user_ed25519_sk x_pk
      → length nonce ≡ nonce_size
      → g.sig.sign_pk ≡ some pk
      → h.sig.sign_pk ≡ some pk
      → group_enc_key g ≡ ok key
      → Among key (tried h)
      → (c : Bytes) × (encrypt_message x [] compress padding nonce g ≡ ok c)
        × (decrypt_message x zstd_decompress c h ≡ err runtime_error)
  encrypt_message_empty nonce pk key x_pk compress padding g h law auth t a l sg sh k w =
      let (c, e, r) =
        reads_sent [] nonce pk key compress padding g h law auth t (omega arith) l sg sh k w in
      (c, e, r ∙ read_empty pk g.user_ed25519_sk x_pk compress a)
