-- ===== src/Config/Message/Merge/Whole.antt =====
-- What the merging constructor gives where it merges (src/config.cpp).
use libsession_util.Prelude.{
  ◌≡◌, refl, sym, ap, ◌∙◌, ◌⊎◌, inl, inr, Bool, true, false, not, ◌&&◌, ◌||◌, ◌==◌, Option, none,
  if◌then◌else◌, some, List, [], ◌∷◌, ◌++◌, ℕ, length, All,
}
use libsession_util.Prelude.Int.{ℤ, pos, leb_ℤ, ◌+ℤ◌}
use libsession_util.Prelude.Result.{
  Result, ok, err, config_error, >>=-eq-ok, guard-eq-ok, ok_injective,
}
use libsession_util.Keys.{Bytes, bytes_ord, int_ord}
use libsession_util.Config.Data.{IsPruned}
use libsession_util.Config.Message.{Codec, Message, Verifier, Signer, seqno, merged}
use libsession_util.Config.Message.Read.{is_set}
use libsession_util.Config.Message.Merge.{
  Handler, load_all, marked, merge_live, select, merge_messages,
}
use libsession_util.Config.Message.Merge.Keeps.{merge_live-includes}
use libsession_util.Config.Message.Merge.Progress.{
  AtMost, Attains, max_from_above, AtMost-max_from, max_from_attained,
}
use libsession_util.Config.Message.Merge.Select.{
  Marked, includes, duplicates, any_of, is_redundant, mark_redundant, add_int64, mark_old,
  max_seqno, live, sole_live, best,
}

-- Why a message need not be merged: an earlier one includes it or is the same, a later one includes
-- it, or its sequence number is behind the highest one by the number of lags or more.
abbrev pub IsCovered : ℤ → ℤ → List Message → Message → List Message → Type 0
IsCovered lag top earlier c later =
    (any_of (λ d. includes c d || duplicates c d) earlier ≡ true)
    ⊎ ((any_of (includes c) later ≡ true) ⊎ (leb_ℤ (add_int64 (seqno c) lag) top ≡ true))

-- Every message is included in `m` or covered.
abbrev pub AllKept : ℤ → ℤ → Message → List Message → List Message → Type 0
AllKept lag top m earlier [] = Unit
AllKept lag top m earlier (c ∷ later) =
    ((includes c m ≡ true) ⊎ IsCovered lag top earlier c later)
    × AllKept lag top m (earlier ++ (c ∷ [])) later

one_of_three : (a b c : Bool) → ((a || b) || c) ≡ true → (a ≡ true) ⊎ ((b ≡ true) ⊎ (c ≡ true))
one_of_three true b c h = inl refl
one_of_three false true c h = inr (inl refl)
one_of_three false false c h = inr (inr h)

head_of :
    (m c : Message) (b : Bool) (rest : List Marked)
    → All (λ d. includes d m ≡ true) (live ((c, b) ∷ rest))
    → ((includes c m ≡ true) ⊎ (b ≡ true)) × All (λ d. includes d m ≡ true) (live rest)
unfolding live
head_of m c true rest h = (inr refl, h)
head_of m c false rest h = (inl (h.0), h.1)

all_kept :
    (lag top : ℤ) (m : Message) (earlier ms : List Message)
    → All (λ c. includes c m ≡ true) (live (mark_old lag top (mark_redundant earlier ms)))
    → AllKept lag top m earlier ms
unfolding mark_old mark_redundant is_redundant
all_kept lag top m earlier [] h = tt
all_kept lag top m earlier (c ∷ later) h =
    let (first, rest) = head_of m c _ _ h in
    (
      elim first [ inl p ↦ inl p | inr q ↦ inr (one_of_three _ _ _ q) ],
      all_kept lag top m (earlier ++ (c ∷ [])) later rest,
    )

-- A message that is adopted is not merged.
adopted {ℓ} :
    {A : Type ℓ} (c m : Message) (i : ℕ)
    → ok (record c { unmerged_ = some i }) ≡ ok m
    → merged m ≡ true
    → A
adopted c m i e t =
    let n : merged m ≡ false =
      ap merged (sym (ok_injective (record c { unmerged_ = some i }) m e)) in
    absurd cc

-- The three ways to select a message: only the last one merges.
picked :
    (sole : Option (ℕ × Message)) (readonly : Bool) (top : Option (ℕ × Message))
    (merging : Result Message) (m : Message)
    → (elim sole as (λ z. Result Message) [
      | some (i, c) ↦ ok (record c { unmerged_ = some i })
      | none ↦
          if readonly
          then elim top as (λ z. Result Message) [
            | some (i, c) ↦ ok (record c { unmerged_ = some i })
            | none ↦ err config_error
          ]
          else merging
    ])
      ≡ ok m
    → merged m ≡ true
    → merging ≡ ok m
picked (some (i, c)) b w r m e t = adopted c m i e t
picked none false w r m e t = e
picked none true (some (i, c)) r m e t = adopted c m i e t
picked none true none r m e t = absurd cc

highest :
    (ms : List Message)
    → not (length ms == 0) ≡ true
    → AtMost (max_seqno ms) ms × Attains (max_seqno ms) ms
unfolding max_seqno
highest [] h = absurd cc
highest (c ∷ cs) h =
    ((max_from_above (seqno c) cs, AtMost-max_from (seqno c) cs), max_from_attained (seqno c) cs)

module _ (x : Codec) (v : Verifier) (s : Signer) (lag : ℤ) (handler : Handler) where
  -- A selection that merges has merged the messages that are not redundant.
  select-merged :
      (ms : List Message) (m : Message)
      → select x v s lag handler ms ≡ ok m
      → merged m ≡ true
      → merge_live x v s lag handler (max_seqno ms) (live (marked x v s lag handler ms)) ≡ ok m
  unfolding select
  select-merged ms m e t =
      let flags = marked x v s lag handler ms in
      picked (sole_live 0 flags) (is_set v && not (is_set s)) (best flags)
        (merge_live x v s lag handler (max_seqno ms) (live flags)) m e t

  -- A merge that returns a message which is merged, from texts, has read messages `ms` from them,
  -- and the highest sequence number of these is `top`. The merged message has the number after
  -- `top`; each message that was read is included in it, or is covered by another one or too far
  -- behind; and the merged message holds no empty set or dict below its top level.
  pub merge_messages-includes :
      (confs : List Bytes) (m : Message) (bad : List ℕ)
      → merge_messages x v s lag handler confs ≡ ok (m, bad)
      → merged m ≡ true
      → (ms : List Message) × (top : ℤ) × (load_all x v s lag handler 0 confs ≡ ok (ms, bad))
        × AtMost top ms
        × Attains top ms
        × (seqno m ≡ top +ℤ pos 1)
        × AllKept lag top m [] ms
        × IsPruned m.data_
  unfolding merge_messages marked
  merge_messages-includes confs m bad e t =
      let (r, p, e1) = >>=-eq-ok (load_all x v s lag handler 0 confs) _ e in
      let (g, e2) = guard-eq-ok (not (length r.0 == 0)) config_error _ e1 in
      let (m', q, e3) = >>=-eq-ok (select x v s lag handler r.0) _ e2 in
      let same_pair = ok_injective (m', r.1) (m, bad) e3 in
      let q' : select x v s lag handler r.0 ≡ ok m = q ∙ ap (λ z. ok (z.0)) same_pair in
      let kept =
        merge_live-includes x v s lag handler (max_seqno r.0) (live (marked x v s lag handler r.0))
          m (select-merged r.0 m q' t) in
      let top = highest r.0 g in
      (
        r.0,
        max_seqno r.0,
        p ∙ ap (λ z. ok (r.0, z.1)) same_pair,
        top.0,
        top.1,
        kept.1,
        all_kept lag (max_seqno r.0) m [] r.0 (kept.0),
        kept.2,
      )
