-- ===== src/MultiEncrypt/Simple.antt =====
-- The message that carries the copies comes back, and its entries are a multiple of the padding
-- (`encrypt_for_multiple_simple` and `decrypt_for_multiple_simple` of src/multi_encrypt.cpp).
use libsession_util.Prelude.{
  ℕ, zero, suc, ◌+◌, ◌%◌, ◌≤◌, ◌<◌, ◌≡◌, ◌⊎◌, inl, inr, refl, sym, ap, ap₂, subst, ◌∙◌, ◌==◌,
  ==_iff, Bool, true, false, Option, none, some, List, [], ◌∷◌, ◌++◌, length, arith, map,
  Bool-cases, if◌then◌else◌, length-append, append-nil,
}
use native.Mathlib.Nat.{suc-mod, mod-eq_of_lt, mod_self}
use native.Mathlib.Decide.{dec_lt}
use libsession_util.Prelude.Result.{
  Result, ok, err, invalid_argument, ◌>>=◌, >>=-eq-ok, guard-eq-ok, ok_injective,
}
use libsession_util.Keys.{Bytes, bytes, list_lt}
use libsession_util.Config.Bt.{BtDict, text, list, blank, field}
use libsession_util.Config.Encrypt.{Sodium}
use libsession_util.Config.Encrypt.RoundTrip.{IsSodium}
use libsession_util.Config.Message.Read.{skip_until}
use libsession_util.MultiEncrypt.{
  Curve, encrypt_for_multiple, decrypt_for_multiple, texts, consumed, junk_from, pad_size,
  padded_copies, encrypt_for_multiple_simple, decrypt_simple, decrypt_for_multiple_simple,
}
use libsession_util.MultiEncrypt.Laws.{Commits, Among, decrypt-encrypt_for_multiple}

pub consumed-texts : (ts : List Bytes) → consumed (texts ts) ≡ map ok ts
consumed-texts [] = refl
consumed-texts (t ∷ ts) = ap (ok t ∷◌) (consumed-texts ts)

pub map-append :
    (xs ys : List Bytes) → map (λ (t : Bytes). ok t) (xs ++ ys) ≡ map ok xs ++ map ok ys
map-append [] ys = refl
map-append (x ∷ xs) ys = ap (ok x ∷◌) (map-append xs ys)

-- The residue of the next count: zero, or one more.
residue_next :
    (count pad : ℕ) → 1 < pad → ((count + 1) % pad ≡ 0) ⊎ ((count + 1) % pad ≡ count % pad + 1)
residue_next count pad h =
    let lt : count % pad < pad = omega arith in
    let one : (count + 1) % pad ≡ suc count % pad = ap (λ z. z % pad) (omega arith) in
    elim (dec_lt (suc (count % pad)) pad) [
      | yes p ↦
          inr (
            one
            ∙ suc-mod count pad
            ∙ mod-eq_of_lt {n = suc (count % pad)} {m = pad} p
            ∙ omega arith)
      | no p ↦
          let e : suc (count % pad) ≡ pad = omega arith in
          inl (one ∙ suc-mod count pad ∙ ap (λ z. z % pad) e ∙ mod_self pad)
    ]

-- The loop ends by its test: with the fuel that is left to the next multiple, or `pad` to begin
-- with, the count that it reaches is a multiple of `pad`.
junk_from-count :
    (junk : ℕ → Bytes) (pad fuel count : ℕ)
    → 1 < pad
    → (count % pad ≡ 0) ⊎ (pad ≤ count % pad + fuel)
    → (count + length (junk_from junk pad fuel count)) % pad ≡ 0
unfolding junk_from
junk_from-count junk pad zero count p h =
    let lt : count % pad < pad = omega arith in
    elim h [ inl e ↦ ap (λ z. z % pad) (omega arith) ∙ e | inr l ↦ absurd (omega arith) ]
junk_from-count junk pad (suc fuel) count p h = elim (Bool-cases (count % pad == 0)) [
  | inl e ↦ rw e (ground (arith, e))
  | inr n ↦ rw n (
      let next : ((count + 1) % pad ≡ 0) ⊎ (pad ≤ (count + 1) % pad + fuel) =
        ground (arith, n, h, residue_next count pad p) in
      ap (λ z. z % pad) (omega arith) ∙ junk_from-count junk pad fuel (count + 1) p next)
]

-- With junk entries asked for, and a first message that is not empty, the loop that adds them ends,
-- and the number of entries is a multiple of `pad`.
pub padded_copies-multiple :
    (random : ℕ → ℕ → Bytes) (m : Bytes) (ms copies : List Bytes) (pad : ℕ)
    → 1 < pad
    → 0 < length m
    → length (padded_copies random (m ∷ ms) pad copies) % pad ≡ 0
padded_copies-multiple random m ms copies pad p l =
    let size : pad_size (m ∷ ms) pad ≡ length m = ground arith in
    let some_junk : (length m == 0) ≡ false = ground arith in
    rw (size, some_junk)
      (ap (λ z. z % pad)
          (length-append copies (junk_from (random (length m)) pad pad (length copies)))
        ∙ junk_from-count (random (length m)) pad pad (length copies) p (inr (omega arith)))

-- The entries are the copies and some more.
padded_copies-append :
    (random : ℕ → ℕ → Bytes) (messages : List Bytes) (pad : ℕ) (copies : List Bytes)
    → (more : List Bytes) × (padded_copies random messages pad copies ≡ copies ++ more)
padded_copies-append random messages pad copies = elim (Bool-cases (pad_size messages pad == 0)) [
  | inl p ↦ ([], rw p (sym (append-nil copies)))
  | inr p ↦ (junk_from (random (pad_size messages pad)) pad pad (length copies), rw p refl)
]

module _ (s : Sodium) (c : Curve) (law : IsSodium s) (commits : Commits s) where
  -- What comes of the size of the nonce and of what is decrypted.
  abbrev outcome : Bool → Result (Option Bytes × List (Result Bytes)) → Option Bytes
  outcome b r = elim (if b then (do (m, rest) ← r; ok m) else ok none) [ ok m ↦ m | err e ↦ none ]

  -- What a recipient reads of a message with a nonce and the copies.
  read_simple :
      (m nonce domain b pk_b pk_a : Bytes) (entries rest : List Bytes)
      → length nonce ≡ 24
      → decrypt_for_multiple s c (map ok entries) nonce b pk_b pk_a domain
        ≡ ok (some m, map ok rest)
      → decrypt_for_multiple_simple s c
          (field (bytes "#") (text nonce) (field (bytes "e") (list (texts entries)) blank))
          b
          pk_b
          pk_a
          domain
        ≡ some m
  unfolding decrypt_for_multiple_simple decrypt_simple skip_until list_lt
  read_simple m nonce domain b pk_b pk_a entries rest l h =
      let size : (length nonce == 24) ≡ true = rw l refl in
      subst
        (λ z.
          outcome (length nonce == 24) (decrypt_for_multiple s c z nonce b pk_b pk_a domain)
          ≡ some m)
        (sym (consumed-texts entries)) (ap₂ outcome size h)

  module _ (m domain a pk_a b pk_b shared : Bytes) (recipients : List Bytes)
      (random : ℕ → ℕ → Bytes) (pad : ℕ) (w : Among pk_b recipients)
      (g : c.scalarmult a pk_b ≡ some shared) (k : c.scalarmult b pk_a ≡ some shared)
      (lb : length b ≡ 32) (lpk : length pk_b ≡ 32) where
    with_nonce :
        (nonce : Bytes) (d : BtDict)
        → length nonce ≡ 24
        → (encrypt_for_multiple s c (m ∷ []) recipients nonce a pk_a domain false >>= (λ copies.
            ok (
              field (bytes "#") (text nonce) (
                field
                  (bytes "e")
                  (list (texts (padded_copies random (m ∷ []) pad copies)))
                  blank))))
          ≡ ok d
        → decrypt_for_multiple_simple s c d b pk_b pk_a domain ≡ some m
    with_nonce nonce d l e =
        let (copies, p, q) =
          >>=-eq-ok (encrypt_for_multiple s c (m ∷ []) recipients nonce a pk_a domain false) _ e in
        let (more, t) = padded_copies-append random (m ∷ []) pad copies in
        let (rest, r) =
          decrypt-encrypt_for_multiple s c m nonce domain law commits a pk_a b pk_b shared false
            recipients copies (map ok more) p w g k lb lpk in
        let r' : decrypt_for_multiple s c (map ok (padded_copies random (m ∷ []) pad copies)) nonce
              b pk_b pk_a domain
            ≡ ok (some m, map ok (rest ++ more)) =
          rw (t, map-append copies more, map-append rest more) r in
        subst (λ z. decrypt_for_multiple_simple s c z b pk_b pk_a domain ≡ some m)
          (ok_injective _ d q)
          (read_simple m nonce domain b pk_b pk_a (padded_copies random (m ∷ []) pad copies)
            (rest ++ more) l r')

    -- A message that `encrypt_for_multiple_simple` makes of one text, with a given nonce or a random
    -- one of 24 bytes, and with any padding: each recipient whose key is valid reads the text.
    pub decrypt-encrypt_simple :
        (fresh : Bytes) (nonce : Option Bytes) (d : BtDict)
        → length fresh ≡ 24
        → encrypt_for_multiple_simple s c random fresh (m ∷ []) recipients a pk_a domain nonce pad
          ≡ ok d
        → decrypt_for_multiple_simple s c d b pk_b pk_a domain ≡ some m
    unfolding encrypt_for_multiple_simple
    decrypt-encrypt_simple fresh (some nonce) d l e =
        let (l', e1) = guard-eq-ok (length nonce == 24) invalid_argument _ e in
        with_nonce nonce d ((==_iff _ 24).0 l') e1
    decrypt-encrypt_simple fresh none d l e = with_nonce fresh d l e
