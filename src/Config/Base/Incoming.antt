-- ===== src/Config/Base/Incoming.antt =====
-- What `ConfigBase::merge` does with incoming messages before it merges them (src/config/base.cpp):
-- unwrapping, decryption, padding, compression and the collection of the parts.
pub mod Adopt
use libsession_util.Prelude.{
  ℕ, Bool, true, false, not, ◌&&◌, ◌||◌, Option, none, some, List, [], ◌∷◌, ◌++◌, if◌then◌else◌,
}
use libsession_util.Prelude.Result.{Error, Result, ok, err, decrypt_error, ◌>>=◌}
use libsession_util.Keys.{Bytes, bytes_ord, list_lt}
use libsession_util.Containers.SortedSet
use libsession_util.Config.Data.{is_nil}
use libsession_util.Config.Encrypt.{decrypt, strip_padding}
use libsession_util.Config.Base.{ConfigBase, Kind, Env, Multiparts}
use libsession_util.Config.Base.Multipart.{Handled, handle_multipart, inflate, starts_with}

-- A message with the hash that the server knows it by.
abbrev pub Incoming : Type 0
Incoming = Bytes × Bytes

-- One entry of `all_hashes` with the entry of `all_confs` at the same index.
abbrev pub Candidate : Type 0
Candidate = List Bytes × Bytes

abbrev pub is_decrypt_error : Error → Bool
is_decrypt_error decrypt_error = true
is_decrypt_error _ = false

-- What the loop over the plaintexts collects and changes.
pub record Received : Type 0 where
  pub candidates : List Candidate
  pub good_hashes : List Bytes
  pub multiparts : Multiparts
  pub needs_dump : Bool

module _ (env : Env) (kind : Kind) where
  -- The unwrapping of protobuf messages, up to twice, where the class accepts them.
  unfoldable pub unwrap : Bytes → Bytes → Bytes
  unwrap key conf = elim (env.unwrap_config key conf) [
    | none ↦ conf
    | some unwrapped ↦ elim (env.unwrap_config key unwrapped) [
      | some unwrapped2 ↦ unwrapped2
      | none ↦ unwrapped
    ]
  ]

  unfoldable pub unwrap_all : List Bytes → List Incoming → List Incoming
  unfolding unwrap
  unwrap_all keys [] = []
  unwrap_all keys ((hash, conf) ∷ configs) =
      let unwrapped : Bytes = elim keys [ [] ↦ conf | key ∷ ks ↦ unwrap key conf ] in
      (hash, if kind.accepts_protobuf then unwrapped else conf) ∷ unwrap_all keys configs

  -- The keys are tried in order; only a `decrypt_error` is caught.
  unfoldable pub decrypt_any : List Bytes → Bytes → Result (Option Bytes)
  unfolding decrypt
  decrypt_any [] conf = ok none
  decrypt_any (key ∷ keys) conf =
      let rest = decrypt_any keys conf in
      elim (decrypt env.sodium conf key kind.encryption_domain) [
        | ok plain ↦ ok (some plain)
        | err e ↦ if is_decrypt_error e then rest else err e
      ]

  unfoldable pub decrypt_all : List Bytes → List Incoming → Result (List Incoming)
  unfolding decrypt_any
  decrypt_all keys [] = ok []
  decrypt_all keys ((hash, conf) ∷ configs) = do
    plain ← decrypt_any keys conf
    rest ← decrypt_all keys configs
    ok (elim plain [ none ↦ rest | some p ↦ (hash, p) ∷ rest ])

  -- One plaintext without its padding.
  unfoldable pub receive_multipart : ℕ → Bytes → Bytes → Received → Received
  unfolding handle_multipart SortedSet.insert list_lt
  receive_multipart now hash plain r =
      let h = handle_multipart env now hash plain r.multiparts in
      record {
        candidates = elim h.completed [
          | none ↦ r.candidates
          | some candidate ↦ r.candidates ++ (candidate ∷ [])
        ];
        good_hashes = if h.accepted then SortedSet.insert hash r.good_hashes else r.good_hashes;
        multiparts = h.multiparts;
        needs_dump = h.needs_dump || r.needs_dump;
      }

  unfoldable pub receive_single : Bytes → Bytes → Received → Received
  unfolding inflate SortedSet.insert list_lt
  receive_single hash plain r = elim (inflate env.zstd_decompress plain) [
    | none ↦ r
    | some conf ↦ record r {
      candidates = r.candidates ++ ((hash ∷ [], conf) ∷ []);
      good_hashes = SortedSet.insert hash r.good_hashes;
    }
  ]

  unfoldable pub receive : ℕ → Incoming → Received → Received
  unfolding receive_multipart receive_single strip_padding
  receive now (hash, padded) r =
      let plain = strip_padding padded in
      if is_nil plain
      then r
      else if starts_with b'm' plain
      then receive_multipart now hash plain r
      else receive_single hash plain r

  unfoldable pub receive_all : ℕ → List Incoming → Received → Received
  unfolding receive
  receive_all now [] r = r
  receive_all now (i ∷ is) r = receive_all now is (receive now i r)
