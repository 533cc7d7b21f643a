-- ===== src/Config/Message/Parties.antt =====
-- The verifier and the signer of a message through reading, merging and incrementing, and which
-- routines give a mutable message.
use libsession_util.Prelude.{◌≡◌, refl, ◌∙◌, ap, Bool, true, false, Option, none, some}
use libsession_util.Prelude.Result.{
  Result, ok, err, bt_deserialize_invalid, Ensures, Ensures-ok, Ensures-err, Ensures->>=,
  Ensures-bind,
}
use libsession_util.Prelude.Int.{ℤ, pos, ◌+ℤ◌}
use libsession_util.Keys.{Bytes}
use libsession_util.Config.Data.{Dict}
use libsession_util.Config.Message.{Codec, Message, Verifier, Signer, seqno, is_mutable}
use libsession_util.Config.Message.Read.{read_contents, read_message, parse_message, rethrow}
use libsession_util.Config.Message.Write.{serialize, serialize_impl, hash, diff}
use libsession_util.Config.Message.Mutable.{increment, increment_impl}

abbrev pub Carries : Verifier → Signer → Message → Type 0
Carries v s m = (m.verifier ≡ v) × (m.signer ≡ s)

pub rethrow-Ensures {ℓ κ} :
    {A : Type ℓ} (P : A → Type κ) (r : Result A) → Ensures P r → Ensures P (rethrow r)
rethrow-Ensures P (ok a) h = h
rethrow-Ensures P (err bt_deserialize_invalid) h = Ensures-err P _
rethrow-Ensures P (err e) h = h

module _ (x : Codec) (v : Verifier) (s : Signer) (lag : ℤ) where
  read_message-Carries :
      (conf : Bytes) (trust : Bool) → Ensures (Carries v s) (read_message x conf v s lag trust)
  unfolding read_message
  read_message-Carries conf trust =
      Ensures->>= _ (read_contents x conf v lag trust) _ (λ c. Ensures-ok _ _ (refl, refl))

  pub parse_message-Carries :
      (conf : Bytes) (trust : Bool) → Ensures (Carries v s) (parse_message x conf v s lag trust)
  unfolding parse_message
  parse_message-Carries conf trust =
      Ensures->>= _ (x.open_dict conf) (λ done. rethrow (read_message x conf v s lag trust))
        (λ u.
          rethrow-Ensures (Carries v s) (read_message x conf v s lag trust)
            (read_message-Carries conf trust))

-- A message that has the parties and the number of another one, and is mutable if that one is.
abbrev pub Follows : Message → Message → Type 0
Follows m m' =
    Carries m.verifier m.signer m' × (seqno m' ≡ seqno m) × (is_mutable m' ≡ is_mutable m)

abbrev pub has_origin : Option Dict → Bool
has_origin none = false
has_origin (some d) = true

module _ (x : Codec) where
  Follows-by_orig : (m : Message) (o : Option Dict) → m.orig_data_ ≡ o → Follows m (diff x m)
  unfolding diff
  Follows-by_orig m none e = rw (e, diff) ((refl, refl), refl, ap has_origin e)
  Follows-by_orig m (some d) e = rw (e, diff) ((refl, refl), refl, ap has_origin e)

  pub diff-Follows : (m : Message) → Follows m (diff x m)
  diff-Follows m = Follows-by_orig m m.orig_data_ refl

  pub serialize-Follows :
      (m : Message) (b : Bool) → Ensures (λ (r : Message × Bytes). Follows m r.0) (serialize x m b)
  unfolding serialize
  serialize-Follows m b =
      Ensures->>= _ (serialize_impl x (diff x m) (diff x m).diff_ b) _
        (λ out. Ensures-ok _ _ (diff-Follows m))

  hash_by_orig : (m : Message) (o : Option Dict) → m.orig_data_ ≡ o → Ensures (Follows m) (hash x m)
  unfolding hash
  hash_by_orig m none e = rw (e, hash) (Ensures-ok _ m ((refl, refl), refl, ap has_origin e))
  hash_by_orig m (some d) e =
      rw (e, hash)
        (Ensures-bind _ _ (serialize x m true) _ (serialize-Follows m true)
          (λ r h. Ensures-ok _ _ (h.0, h.1, h.2 ∙ ap has_origin e)))

  pub hash-Follows : (m : Message) → Ensures (Follows m) (hash x m)
  hash-Follows m = hash_by_orig m m.orig_data_ refl

  -- Incrementing gives a mutable message with the next sequence number.
  pub increment-lem :
      (m : Message)
      → Ensures
          (λ m'.
            Carries m.verifier m.signer m' × (seqno m' ≡ seqno m +ℤ pos 1) × (is_mutable m' ≡ true))
          (increment x m)
  unfolding increment increment_impl
  increment-lem m =
      Ensures-bind (Follows m) _ (hash x m) _ (hash-Follows m)
        (λ m' h. Ensures-ok _ _ (h.0, ap (λ s. s +ℤ pos 1) h.1, refl))
