-- ===== src/Config/Lifecycle/Steps/Merge.antt =====
-- `merge` keeps the object sound.
use libsession_util.Prelude.{
  ◌≡◌, refl, ap, ◌∙◌, Bool, true, false, not, ◌&&◌, ◌||◌, ◌++◌, Option, none, some, List, [], ℕ,
  map, length, if◌then◌else◌,
}
use libsession_util.Prelude.Result.{
  guard-Ensures, ok, logic_error, Ensures, Ensures-ok, Ensures->>=, Ensures-map, Ensures-bind,
  Ensures-if,
}
use libsession_util.Prelude.Int.{ℤ, pos, ◌+ℤ◌}
use libsession_util.Order.{same}
use libsession_util.Keys.{Bytes, int_ord}
use libsession_util.Config.Data.{Dict, is_nil}
use libsession_util.Config.Message.{Message, seqno, merged, is_mutable}
use libsession_util.Config.Message.Parties.{Carries, has_origin, serialize-Follows}
use libsession_util.Config.Message.Write.{serialize}
use libsession_util.Config.Message.Mutable.{retain}
use libsession_util.Config.Message.Merge.{merge_messages, merge_mutable}
use libsession_util.Config.Message.Merge.Parties.{merge_messages-Carries, merge_mutable-lem}
use libsession_util.Config.Base.{ConfigBase, clean, dirty, Kind, Env, is_dirty, insert_hashes}
use libsession_util.Config.Base.State.{set_state}
use libsession_util.Config.Base.Incoming.{
  Incoming, Candidate, Received, unwrap_all, decrypt_all, receive_all,
}
use libsession_util.Config.Base.Incoming.Adopt.{
  own_config, adopt, own_candidate, nothing_received, after_receipt, merge_received,
  merge_candidates, merge_configs, merge, record_bad, hashes_at, is_index, obsolete, own_index,
}
use libsession_util.Config.Lifecycle.{
  IsSound, set_state-lem, IsSound-clean, IsSound-dirty, IsSound-Follows, readonly_of, no_clash,
}
use libsession_util.Config.Lifecycle.Steps.Send.{IsSound-others}

own_config-IsSound :
    (env : Env) (c : ConfigBase)
    → IsSound c
    → Ensures (λ (r : ConfigBase × Option Bytes). IsSound r.0) (own_config env c)
unfolding own_config
own_config-IsSound env c h =
    Ensures-if _ (not (same (seqno c.config) (pos 0)) || is_dirty c) _ _
      (λ p.
        Ensures-bind _ _ (serialize env.codec c.config true) _
          (serialize-Follows env.codec c.config true)
          (λ r f. Ensures-ok _ _ (IsSound-Follows c r.0 f h)))
      (λ p. Ensures-ok _ _ h)

-- What the merge gives: the parties of the own message, and a mutable message if the object is dirty.
abbrev Merged : ConfigBase → Message → Type 0
Merged c m = Carries c.config.verifier c.config.signer m × (is_dirty c ≡ true → is_mutable m ≡ true)

retained_by_orig : (m : Message) (o : Option Dict) → m.orig_data_ ≡ o → is_mutable (retain m) ≡ true
retained_by_orig m none e = rw (e, retain) refl
retained_by_orig m (some d) e = rw (e, retain) (ap has_origin e)

retained_mutable :
    (b : Bool) (m : Message)
    → (b ≡ true → is_mutable m ≡ true)
    → is_mutable (if not b then retain m else m) ≡ true
retained_mutable true m h = h refl
retained_mutable false m h = retained_by_orig m m.orig_data_ refl

merge_result-IsSound :
    (m : Message) (c : ConfigBase)
    → is_mutable m ≡ true
    → IsSound c
    → Ensures IsSound (set_state dirty (record c { config = m }))
merge_result-IsSound m c hm h =
    Ensures-map _
      (λ c' e.
        IsSound-dirty c' (ap is_mutable e.1 ∙ hm)
          (readonly_of (record c { config = m }) c' (ap (λ (x : Message). x.verifier) e.1)
              (ap (λ (x : Message). x.signer) e.1)
            ∙ e.3 refl)
          e.2)
      (set_state-lem dirty (record c { config = m }) h.only_clean_has_hashes)

adopt-IsSound :
    (m : Message) (old : ℤ) (mine : Bool) (super : List Bytes) (c : ConfigBase)
    → Merged c m
    → IsSound c
    → Ensures IsSound (adopt m old mine super c)
unfolding adopt
adopt-IsSound m old mine super c hm h =
    Ensures-if IsSound (same (seqno m) old) _ _ (λ p. Ensures-ok _ _ h)
      (λ p.
        Ensures-if IsSound (merged m) _ _
          (λ q. merge_result-IsSound _ c (retained_mutable (is_dirty c) m hm.1) h)
          (λ q.
            Ensures-if IsSound (is_dirty c && mine && same (seqno m) (old +ℤ pos 1)) _ _
              (λ r. Ensures-ok _ _ h)
              (λ r.
                Ensures-bind _ _ (set_state clean (record c { config = m }))
                  (λ x. ok (record x { curr_hashes = insert_hashes super [] }))
                  (set_state-lem clean (record c { config = m }) h.only_clean_has_hashes)
                  (λ c' e.
                    Ensures-ok _ _
                      (IsSound-clean (record c' { curr_hashes = insert_hashes super [] }) e.0)))))

merge_candidates-IsSound :
    (env : Env) (kind : Kind) (now : ℕ) (old : ℤ) (mine : Option Bytes) (last : Bool)
    (all : List Candidate) (good : List Bytes) (c : ConfigBase)
    → IsSound c
    → Ensures
        (λ (r : ConfigBase × List Bytes). IsSound r.0)
        (merge_candidates env kind now old mine last all good c)
unfolding merge_candidates
merge_candidates-IsSound env kind now old mine last all good c h =
    let confs = map (λ (candidate : Candidate). candidate.1) all in
    let v = c.config.verifier in
    let s = c.config.signer in
    Ensures-bind (λ (r : Message × List ℕ). Merged c r.0) _
      (if is_dirty c
        then merge_mutable env.codec v s kind.config_lags record_bad confs
        else merge_messages env.codec v s kind.config_lags record_bad confs)
      _
      (Ensures-if _ (is_dirty c) _ _
        (λ p.
          Ensures-map _ (λ r hr. (hr.0, λ q. hr.1))
            (merge_mutable-lem env.codec v s kind.config_lags record_bad confs))
        (λ p.
          Ensures-map _ (λ r hr. (hr, λ q. no_clash (is_dirty c) p q))
            (merge_messages-Carries env.codec v s kind.config_lags record_bad confs)))
      (λ r hr.
        let m = r.0 in
        let c1 = record c {
          old_hashes = obsolete m.unmerged_ (hashes_at m.unmerged_ all) r.1 0 all c.old_hashes;
        } in
        Ensures-bind IsSound _
          (adopt m old (is_index m.unmerged_ (own_index last (length all)))
            (hashes_at m.unmerged_ all) c1)
          _
          (adopt-IsSound m old _ (hashes_at m.unmerged_ all) c1 hr
            (IsSound-others c c1.old_hashes c.multiparts c.needs_dump h))
          (λ c2 h2. Ensures-ok _ _ h2))

merge_received-IsSound :
    (env : Env) (kind : Kind) (now : ℕ) (old : ℤ) (mine : Option Bytes) (r : Received)
    (c : ConfigBase)
    → IsSound c
    → Ensures
        (λ (r : ConfigBase × List Bytes). IsSound r.0)
        (merge_received env kind now old mine r c)
unfolding merge_received
merge_received-IsSound env kind now old mine r c h =
    let c' = after_receipt env kind now r c in
    let h' : IsSound c' = IsSound-others c c.old_hashes c'.multiparts c'.needs_dump h in
    let unhashed = is_nil c.curr_hashes in
    let all = r.candidates ++ own_candidate env kind now mine unhashed c.curr_hashes in
    let mine_last : Bool = elim mine [ none ↦ false | some out ↦ unhashed ] in
    Ensures-if _ (is_nil all) (ok (c', r.good_hashes))
      (merge_candidates env kind now old mine mine_last all r.good_hashes c')
      (λ p. Ensures-ok _ (c', r.good_hashes) h')
      (λ p. merge_candidates-IsSound env kind now old mine mine_last all r.good_hashes c' h')

merge_configs-IsSound :
    (env : Env) (kind : Kind) (now : ℕ) (configs : List Incoming) (c : ConfigBase)
    → IsSound c
    → Ensures (λ (r : ConfigBase × List Bytes). IsSound r.0) (merge_configs env kind now configs c)
unfolding merge_configs
merge_configs-IsSound env kind now configs c h =
    guard-Ensures _ (not (is_nil c.keys)) logic_error _ (λ g.
      Ensures-bind _ _ (own_config env c) _ (own_config-IsSound env c h) (λ r hr.
        Ensures->>= _ (decrypt_all env kind r.0.keys configs) _ (λ plaintexts.
          merge_received-IsSound env kind now (seqno c.config) r.1
            (receive_all env kind now plaintexts (nothing_received env kind now r.1 r.0)) r.0 hr)))

pub merge-IsSound :
    (env : Env) (kind : Kind) (now : ℕ) (configs : List Incoming) (c : ConfigBase)
    → IsSound c
    → Ensures (λ (r : ConfigBase × List Bytes). IsSound r.0) (merge env kind now configs c)
unfolding merge
merge-IsSound env kind now configs c h =
    merge_configs-IsSound env kind now (unwrap_all env kind c.keys configs) c h
