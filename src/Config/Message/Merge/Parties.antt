-- ===== src/Config/Message/Merge/Parties.antt =====
-- The merged message has the verifier and the signer that the merge was given, and the merge into
-- a mutable message gives a mutable one.
use libsession_util.Prelude.{
  length, not, ◌&&◌, ◌==◌, ◌≡◌, refl, ◌+◌, true, false, ℕ, Option, none, some, List, [], ◌∷◌, ◌++◌,
  All, if◌then◌else◌,
}
use libsession_util.Prelude.Result.{
  Result, ok, err, Ensures, Ensures-ok, Ensures-err, Ensures->>=, Ensures-bind, Ensures-if,
  Ensures-eq_ok, guard, config_error,
}
use libsession_util.Prelude.Int.{ℤ}
use libsession_util.Keys.{Bytes}
use libsession_util.Config.Message.{Codec, Message, Verifier, Signer, is_mutable, merged}
use libsession_util.Config.Message.Read.{parse_message, is_set}
use libsession_util.Config.Message.Mutable.{increment_impl}
use libsession_util.Config.Message.Write.{serialize_impl}
use libsession_util.Config.Message.Merge.Replay.{sort_descending, replay_of, apply_replay}
use libsession_util.Config.Message.Parties.{Carries, parse_message-Carries}
use libsession_util.Config.Message.Merge.{
  Handler, is_config_error, load_all, marked, merge_live, merged_of, select, merge_messages,
  merge_mutable,
}
use libsession_util.Config.Message.Merge.Select.{
  Marked, mark_redundant, mark_old, max_seqno, sole_live, live, best, best_from, worse,
}

-- What holds of every message holds of the ones that the selection picks.
module _ (P : Message → Type 0) where
  abbrev pub AllMarked : List Marked → Type 0
  AllMarked = All (λ (c : Marked). P c.0)

  mark_redundant-All :
      (earlier ms : List Message) → All P ms → AllMarked (mark_redundant earlier ms)
  unfolding mark_redundant
  mark_redundant-All earlier [] h = tt
  mark_redundant-All earlier (m ∷ ms) h = (h.0, mark_redundant-All (earlier ++ (m ∷ [])) ms h.1)

  mark_old-All : (lag top : ℤ) (ms : List Marked) → AllMarked ms → AllMarked (mark_old lag top ms)
  unfolding mark_old
  mark_old-All lag top [] h = tt
  mark_old-All lag top (m ∷ ms) h = (h.0, mark_old-All lag top ms h.1)

  abbrev pub Holds : Option (ℕ × Message) → Type 0
  Holds none = Unit
  Holds (some (i, m)) = P m

  pub sole_live-All : (i : ℕ) (ms : List Marked) → AllMarked ms → Holds (sole_live i ms)
  unfolding sole_live
  sole_live-All i [] h = tt
  sole_live-All i ((m, true) ∷ ms) h = sole_live-All (i + 1) ms h.1
  sole_live-All i ((m, false) ∷ ms) h =
      elim (live ms) as (λ l. Holds (elim l [ [] ↦ some (i, m) | c ∷ cs ↦ none ])) [
        | [] ↦ h.0
        | c ∷ cs ↦ tt
      ]

  best_from-All :
      (i : ℕ) (top : ℕ × Marked) (ms : List Marked)
      → P top.1.0
      → AllMarked ms
      → P (best_from i top ms).1.0
  unfolding best_from
  best_from-All i top [] p h = p
  best_from-All i top (m ∷ ms) p h =
      elim (worse top.1 m) as (λ b. P (best_from (i + 1) (if b then (i, m) else top) ms).1.0) [
        | true ↦ best_from-All (i + 1) (i, m) ms h.0 h.1
        | false ↦ best_from-All (i + 1) top ms p h.1
      ]

  pub best-All : (ms : List Marked) → AllMarked ms → Holds (best ms)
  unfolding best
  best-All [] h = tt
  best-All (m ∷ ms) h = best_from-All 1 (0, m) ms h.0 h.1

either_mutable :
    (v : Verifier) (s : Signer) (m : Message)
    → Carries v s m
    → is_mutable m ≡ true
    → Carries v s (if merged m then m else increment_impl m)
      × (is_mutable (if merged m then m else increment_impl m) ≡ true)
unfolding increment_impl
either_mutable v s m h e =
    elim (merged m)
      as (λ b.
        Carries v s (if b then m else increment_impl m)
        × (is_mutable (if b then m else increment_impl m) ≡ true)) [
          | true ↦ (h, e)
          | false ↦ (h, refl)
        ]

module _ (x : Codec) (v : Verifier) (s : Signer) (lag : ℤ) (handler : Handler) where
  abbrev pub AllLoaded : (Message → Type 0) → List Message × List ℕ → Type 0
  AllLoaded P l = All P l.0

  load_step :
      (P : Message → Type 0) (i : ℕ) (conf : Bytes) (confs : List Bytes) (r : Result Message)
      → parse_message x conf v s lag false ≡ r
      → Ensures P r
      → Ensures (AllLoaded P) (load_all x v s lag handler (i + 1) confs)
      → Ensures (AllLoaded P) (load_all x v s lag handler i (conf ∷ confs))
  unfolding load_all
  load_step P i conf confs (ok m) e h ih =
      rw (e, load_all)
        (Ensures-bind _ _ (load_all x v s lag handler (i + 1) confs) _ ih
          (λ l hl. Ensures-ok _ _ (Ensures-eq_ok P (ok m) m h refl, hl)))
  load_step P i conf confs (err b) e h ih =
      rw (e, load_all)
        (Ensures-if _ (is_config_error b) _ _
          (λ p. Ensures->>= _ (handler i b) _ (λ u.
            Ensures-bind _ _ (load_all x v s lag handler (i + 1) confs) _ ih
              (λ l hl. Ensures-ok _ _ hl)))
          (λ p. Ensures-err _ b))

  -- What reading ensures holds of every message that was read.
  pub load_all-All :
      (P : Message → Type 0)
      → ((conf : Bytes) → Ensures P (parse_message x conf v s lag false))
      → (i : ℕ) (confs : List Bytes) → Ensures (AllLoaded P) (load_all x v s lag handler i confs)
  unfolding load_all
  load_all-All P h i [] = Ensures-ok _ _ tt
  load_all-All P h i (conf ∷ confs) =
      load_step P i conf confs (parse_message x conf v s lag false) refl (h conf)
        (load_all-All P h (i + 1) confs)

  live_by_order :
      (top : ℤ) (ms l : List Message)
      → sort_descending ms ≡ l
      → Ensures (Carries v s) (merge_live x v s lag handler top ms)
  unfolding merge_live
  live_by_order top ms [] e = rw (e, merge_live) (Ensures-err _ config_error)
  live_by_order top ms (front ∷ rest) e =
      rw (e, merge_live)
        (Ensures->>= _ (apply_replay (replay_of (front ∷ rest)) front.data_) _ (λ r.
          Ensures->>= _
            (serialize_impl x (merged_of x v s lag handler top r.0 r.1)
              (merged_of x v s lag handler top r.0 r.1).diff_ true)
            _ (λ out. Ensures-ok _ _ (refl, refl))))

  merge_live-Carries :
      (top : ℤ) (ms : List Message) → Ensures (Carries v s) (merge_live x v s lag handler top ms)
  merge_live-Carries top ms = live_by_order top ms (sort_descending ms) refl

  marked-All :
      (ms : List Message)
      → All (Carries v s) ms
      → AllMarked (Carries v s) (marked x v s lag handler ms)
  unfolding marked
  marked-All ms h =
      mark_old-All (Carries v s) lag (max_seqno ms) (mark_redundant [] ms)
        (mark_redundant-All (Carries v s) [] ms h)

  chosen-Carries :
      (o : Option (ℕ × Message))
      → Holds (Carries v s) o
      → Ensures
          (Carries v s)
          (elim o [ some (i, m) ↦ ok (record m { unmerged_ = some i }) | none ↦ err config_error ])
  chosen-Carries none h = Ensures-err _ _
  chosen-Carries (some (i, m)) h = Ensures-ok _ _ h

  select_by_sole :
      (ms : List Message) (o : Option (ℕ × Message))
      → All (Carries v s) ms
      → sole_live 0 (marked x v s lag handler ms) ≡ o
      → Holds (Carries v s) o
      → Ensures (Carries v s) (select x v s lag handler ms)
  unfolding select
  select_by_sole ms (some (i, m)) h e hm = rw (e, select) (Ensures-ok _ _ hm)
  select_by_sole ms none h e hm =
      rw (e, select)
        (Ensures-if _ (is_set v && not (is_set s)) _ _
          (λ p.
            chosen-Carries (best (marked x v s lag handler ms))
              (best-All (Carries v s) _ (marked-All ms h)))
          (λ p. merge_live-Carries (max_seqno ms) (live (marked x v s lag handler ms))))

  select-Carries :
      (ms : List Message)
      → All (Carries v s) ms
      → Ensures (Carries v s) (select x v s lag handler ms)
  select-Carries ms h =
      select_by_sole ms (sole_live 0 (marked x v s lag handler ms)) h refl
        (sole_live-All (Carries v s) 0 (marked x v s lag handler ms) (marked-All ms h))

  pub merge_messages-Carries :
      (confs : List Bytes)
      → Ensures (λ (r : Message × List ℕ). Carries v s r.0) (merge_messages x v s lag handler confs)
  unfolding merge_messages
  merge_messages-Carries confs =
      Ensures-bind _ _ (load_all x v s lag handler 0 confs) _
        (load_all-All (Carries v s) (λ conf. parse_message-Carries x v s lag conf false) 0 confs)
        (λ l hl. Ensures->>= _ (guard (not (length l.0 == 0)) config_error) _ (λ u.
          Ensures-bind _ _ (select x v s lag handler l.0) _ (select-Carries l.0 hl)
            (λ m hm. Ensures-ok _ _ hm)))

  pub merge_mutable-lem :
      (confs : List Bytes)
      → Ensures
          (λ (r : Message × List ℕ). Carries v s r.0 × (is_mutable r.0 ≡ true))
          (merge_mutable x v s lag handler confs)
  unfolding merge_mutable increment_impl
  merge_mutable-lem confs =
      Ensures-bind _ _ (merge_messages x v s lag handler confs) _ (merge_messages-Carries confs)
        (λ r hr.
          Ensures-ok _ _ (either_mutable v s (record r.0 { orig_data_ = some r.0.data_ }) hr refl))
