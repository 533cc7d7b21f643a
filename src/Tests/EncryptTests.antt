-- ===== src/Tests/EncryptTests.antt =====
-- Encryption, padding and the merge of dicts at concrete inputs, with a toy cipher that appends a
-- tag.
use libsession_util.Prelude.{
  ℕ, ◌+◌, ◌-◌, ◌%◌, ◌≤◌, ◌<◌, ◌≡◌, ◌≢◌, refl, ap, some, List, [], ◌∷◌, ◌++◌, arith, length, take,
  replicate, length-append,
}
use libsession_util.Prelude.Result.{ok}
use libsession_util.Keys.{Bytes, nat_ord}
use libsession_util.Containers.SortedMap
use libsession_util.Config.Encrypt.{
  Sodium, encrypt, decrypt, padding_chunk, padded_size, pad_message, strip_padding,
  make_encrypt_key,
}
use libsession_util.Config.Encrypt.RoundTrip
use libsession_util.Config.Encrypt.RoundTrip.{IsSodium, take_append}
use libsession_util.Config.Encrypt.Padding
use libsession_util.Config.Encrypt.Padding.{length-replicate}
use libsession_util.BtMerge.{merge_dicts, or_else}
use libsession_util.BtMerge.Laws

abbrev pub toy : Sodium
toy = record {
  generichash = λ n key message. replicate n 0;
  aead_encrypt = λ message nonce key. message ++ replicate 16 0;
  aead_decrypt = λ c nonce key. some (take (length c - 16) c);
  big_endian = λ n. replicate 8 n;
}

pub toy_decrypts :
    (message nonce key : Bytes)
    → toy.aead_decrypt (toy.aead_encrypt message nonce key) nonce key ≡ some message
toy_decrypts message nonce key =
    let e : length (message ++ replicate 16 0) - 16 ≡ length message =
      omega (arith, length-append message (replicate 16 0)) in
    rw (e) (ap some (take_append message (replicate 16 0)))

abbrev pub toy_IsSodium : IsSodium toy
toy_IsSodium = record {
  hash_size = λ n key message. length-replicate n;
  cipher_size = λ message nonce key. length-append message (replicate 16 0);
  decrypts = toy_decrypts;
}

abbrev pub test_key : Bytes
test_key = replicate 32 7

abbrev hello : Bytes
hello = 1 ∷ 2 ∷ 3 ∷ []

abbrev sealed : Bytes
sealed = (hello ++ replicate 16 0) ++ replicate 24 0

sealed_lem : encrypt toy hello test_key (b'x' ∷ []) ≡ ok sealed
unfolding encrypt make_encrypt_key
sealed_lem = refl

decrypt-encrypt_example : decrypt toy sealed test_key (b'x' ∷ []) ≡ ok hello
decrypt-encrypt_example =
    RoundTrip.decrypt-encrypt toy toy_IsSodium hello test_key (b'x' ∷ []) sealed sealed_lem

size_of_240 :
    (200 ≤ padded_size 200 40)
    × (padded_size 200 40 + 40 < 200 + 40 + padding_chunk (200 + 40))
    × ((padded_size 200 40 + 40) % padding_chunk (200 + 40) ≡ 0)
size_of_240 = Padding.padded_size_bounds 200 40

one_nonzero : ◌≢◌ {A = ℕ} 1 0
one_nonzero = omega arith

padded_message_comes_back :
    (strip_padding (pad_message hello 40) ≡ hello)
    × (length (pad_message hello 40) ≡ padded_size (length hello) 40)
padded_message_comes_back = Padding.strip_padding-pad_message 1 (2 ∷ 3 ∷ []) 40 one_nonzero

abbrev first : List (ℕ × ℕ)
first = (1, 10) ∷ (3, 30) ∷ []

abbrev second : List (ℕ × ℕ)
second = (1, 11) ∷ (2, 20) ∷ []

merge_dicts_lem_example :
    SortedMap.IsSorted (merge_dicts first second)
    × ((x : ℕ)
        → SortedMap.find x (merge_dicts first second)
          ≡ or_else (SortedMap.find x first) (SortedMap.find x second))
merge_dicts_lem_example =
    Laws.merge_dicts_lem first second ((refl, tt), (tt, tt)) ((refl, tt), (tt, tt))

merge_dicts_run : merge_dicts first second ≡ (1, 10) ∷ (2, 20) ∷ (3, 30) ∷ []
unfolding merge_dicts
merge_dicts_run = refl
