-- ===== src/Config/Message/Merge/Keeps.antt =====
-- The merged message includes every message that takes part in the merge.
use libsession_util.Prelude.{
  subst, ◌≡◌, refl, sym, ◌∙◌, true, false, some, List, [], ◌∷◌, All, All-map, arith, if◌then◌else◌,
}
use libsession_util.Prelude.Result.{
  ok, config_error, Ensures, Ensures-ok, Ensures-err, Ensures->>=, Ensures-bind, Ensures-eq_ok,
}
use libsession_util.Prelude.Int.{ℤ, pos, ◌+ℤ◌}
use libsession_util.Order.{less, same, same_refl}
use libsession_util.Keys.{bytes_ord, int_ord, pair_ord}
use libsession_util.Containers.SortedMap
use libsession_util.Config.Data.{Dict, IsPruned}
use libsession_util.Config.Prune.Laws.{prune-IsPruned}
use libsession_util.Config.Apply.{apply_diff}
use libsession_util.Config.Message.{Codec, Message, SeqnoHash, LaggedDiffs, Verifier, Signer, seqno}
use libsession_util.Config.Message.Read.{is_set}
use libsession_util.Config.Message.Write.{serialize_impl}
use libsession_util.Config.Message.Merge.{Handler, merged_of, merge_live}
use libsession_util.Config.Message.Merge.Select.{includes}
use libsession_util.Config.Message.Merge.Replay.{
  ReplayMap, insert_descending, sort_descending, emplace_lagged, emplace_message, replay_from,
  replay_of, apply_replay,
}

module _ {V : Type 0} where
  abbrev Has : SeqnoHash → List (SeqnoHash × V) → Type 0
  Has k m = is_set (SortedMap.find k m) ≡ true

  Has-emplace :
      (k j : SeqnoHash) (v : V) (m : List (SeqnoHash × V))
      → Has k m
      → Has k (SortedMap.emplace j v m)
  unfolding SortedMap.find SortedMap.emplace
  Has-emplace k j v [] h = cc
  Has-emplace k j v ((i, w) ∷ m) h = ground (arith, Has-emplace k j v m)

  pub Has-emplace_same :
      (k : SeqnoHash) (v : V) (m : List (SeqnoHash × V)) → Has k (SortedMap.emplace k v m)
  unfolding SortedMap.find SortedMap.emplace
  Has-emplace_same k v [] = rw (same_refl k) refl
  Has-emplace_same k v ((i, w) ∷ m) =
      ground (arith, Has-emplace_same k v m, same_refl k, pair_ord.total k i)

Has-emplace_lagged :
    (k : SeqnoHash) (source : Dict) (lags : LaggedDiffs) (replay : ReplayMap)
    → Has k replay
    → Has k (emplace_lagged source lags replay)
unfolding emplace_lagged
Has-emplace_lagged k source [] replay h = h
Has-emplace_lagged k source ((j, diff) ∷ lags) replay h =
    Has-emplace_lagged k source lags (SortedMap.emplace j (source, diff) replay)
      (Has-emplace k j (source, diff) replay h)

Has-replay_from :
    (k : SeqnoHash) (ms : List Message) (replay : ReplayMap)
    → Has k replay
    → Has k (replay_from ms replay)
unfolding replay_from emplace_message
Has-replay_from k [] replay h = h
Has-replay_from k (m ∷ ms) replay h = Has-replay_from k ms (emplace_message m replay) (
    Has-emplace_lagged k m.data_ m.lagged_diffs_ _
      (Has-emplace k m.seqno_hash_ (m.data_, m.diff_) replay h))

-- Every message of the list has its diff in the replay.
replay_from-All :
    (ms : List Message) (replay : ReplayMap)
    → All (λ (m : Message). Has m.seqno_hash_ (replay_from ms replay)) ms
unfolding replay_from emplace_message
replay_from-All [] replay = tt
replay_from-All (m ∷ ms) replay = (
  Has-replay_from m.seqno_hash_ ms (emplace_message m replay) (
      Has-emplace_lagged m.seqno_hash_ m.data_ m.lagged_diffs_ _
        (Has-emplace_same m.seqno_hash_ (m.data_, m.diff_) replay)),
  replay_from-All ms (emplace_message m replay),
)

-- The lagged diffs of the merged message are those of the replay.
KeepsKeys : ReplayMap → Dict × LaggedDiffs → Type 0
KeepsKeys replay r =
    (k : SeqnoHash) → is_set (SortedMap.find k r.1) ≡ is_set (SortedMap.find k replay)

apply_replay-KeepsKeys :
    (replay : ReplayMap) (target : Dict) → Ensures (KeepsKeys replay) (apply_replay replay target)
unfolding apply_replay SortedMap.find KeepsKeys
apply_replay-KeepsKeys [] target = Ensures-ok _ _ (λ k. refl)
apply_replay-KeepsKeys ((key, (source, diff)) ∷ replay) target =
    Ensures->>= _ (apply_diff target diff source) _ (λ target'.
      Ensures-bind _ _ (apply_replay replay target') _ (apply_replay-KeepsKeys replay target')
        (λ r hr. Ensures-ok _ _ (λ k.
          elim (same k key)
            as (λ b.
              is_set (if b then some diff else SortedMap.find k r.1)
              ≡ is_set (if b then some (source, diff) else SortedMap.find k replay)) [
                | true ↦ refl
                | false ↦ hr k
              ])))

module _ (P : Message → Type 0) where
  of_insert_descending :
      (m : Message) (ms : List Message) → All P (insert_descending m ms) → P m × All P ms
  unfolding insert_descending
  of_insert_descending m [] h = h
  of_insert_descending m (c ∷ cs) h =
      elim (less m.seqno_hash_ c.seqno_hash_)
          as (λ b.
            All P (if b then c ∷ insert_descending m cs else m ∷ c ∷ cs) → P m × All P (c ∷ cs)) [
              | true ↦ λ t. let r = of_insert_descending m cs t.1 in (r.0, (t.0, r.1))
              | false ↦ λ t. t
            ]
        h

  of_sort_descending : (ms : List Message) → All P (sort_descending ms) → All P ms
  unfolding sort_descending
  of_sort_descending [] h = tt
  of_sort_descending (m ∷ ms) h =
      let r = of_insert_descending m (sort_descending ms) h in (r.0, of_sort_descending ms r.1)

abbrev KeepsAll : ℤ → List Message → Message → Type 0
KeepsAll top ms m = All (λ c. includes c m ≡ true) ms × (seqno m ≡ top +ℤ pos 1) × IsPruned m.data_

module _ (x : Codec) (v : Verifier) (s : Signer) (lag : ℤ) (handler : Handler) where
  keeps_by_order :
      (top : ℤ) (ms l : List Message)
      → sort_descending ms ≡ l
      → Ensures (KeepsAll top ms) (merge_live x v s lag handler top ms)
  unfolding merge_live includes replay_of KeepsKeys
  keeps_by_order top ms [] e = rw (e, merge_live) (Ensures-err _ config_error)
  keeps_by_order top ms (front ∷ rest) e =
      let l = front ∷ rest in
      let all : All (λ (m : Message). is_set (SortedMap.find m.seqno_hash_ (replay_of l)) ≡ true)
          ms =
        of_sort_descending _ ms (
          subst
            (λ t.
              All (λ (m : Message). is_set (SortedMap.find m.seqno_hash_ (replay_of l)) ≡ true) t)
            (sym e) (replay_from-All l [])) in
      rw (e, merge_live)
        (Ensures-bind (KeepsKeys (replay_of l)) _ (apply_replay (replay_of l) front.data_) _
          (apply_replay-KeepsKeys (replay_of l) front.data_)
          (λ r hr.
            let m = merged_of x v s lag handler top r.0 r.1 in
            Ensures->>= _ (serialize_impl x m m.diff_ true) _ (λ out.
              Ensures-ok _ _
                (All-map (λ c hc. hr c.seqno_hash_ ∙ hc) ms all, refl, prune-IsPruned r.0))))

  -- A merge of messages includes every one of them.
  pub merge_live-includes :
      (top : ℤ) (ms : List Message) (m : Message)
      → merge_live x v s lag handler top ms ≡ ok m
      → All (λ c. includes c m ≡ true) ms × (seqno m ≡ top +ℤ pos 1) × IsPruned m.data_
  merge_live-includes top ms m e =
      Ensures-eq_ok (KeepsAll top ms) _ m (keeps_by_order top ms (sort_descending ms) refl) e
