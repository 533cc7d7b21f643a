-- ===== src/User/Convos/Laws.antt =====
-- What storing a conversation leaves.
use libsession_util.Prelude.{
  ◌≡◌, refl, ap, ◌∙◌, Bool, true, false, ◌||◌, Option, none, some, if◌then◌else◌,
}
use libsession_util.Prelude.Result.{
  ok, Ensures, Ensures-ok, Ensures-bind, Ensures-map, Ensures-returned,
}
use libsession_util.Prelude.Int.{ℤ, pos, ltb_ℤ, ◌-ℤ◌}
use libsession_util.Keys.{Bytes, bytes, list_lt}
use libsession_util.Config.Data.{Value, Dict, int, scalar}
use libsession_util.Config.Message.Read.{is_set}
use libsession_util.Config.Base.{ConfigBase, Env}
use libsession_util.Config.Base.Field.{
  FieldPath, subfield, as_int, get_integer, assign_scalar, set_flag,
}
use libsession_util.Config.Base.Field.Total.{CanDirty, Returns, assign_scalar-Returns}
use libsession_util.Config.Base.Field.Refine.{view, path, HasOrder, assign_scalar-Shows}
use libsession_util.Config.Base.Field.Rows.{
  Row, row, put_row, row-write, as_value, flag, Changes, set_flag-Writes,
}
use libsession_util.Config.Base.Field.Read.{ints, dict_row, dict_of_row, maybe_int-row, as_int-row}
use libsession_util.User.Types.{or_else}
use libsession_util.User.Types.Read.{flag-read}
use libsession_util.User.Ids.{Oxenc, is_session_id}
use libsession_util.User.Ids.Laws.{check_session_id_of_valid, session_id_to_bytes_of_valid}
use libsession_util.User.Convos.{
  Base, load_from, load, prune_low, Kind, convo_field, Convo, is_older, set_base, new_convo,
  load_found, get, set,
}

-- Whether the last-read time is stored, given the one on record.
pub is_stored : ℤ → Base → Option ℤ → Bool
unfolding ◌-ℤ◌
is_stored now b old = is_older b.last_read old || ltb_ℤ (now -ℤ prune_low) b.last_read

-- The last-read time on record afterwards.
abbrev pub kept_read : ℤ → Base → Option ℤ → Option ℤ
unfolding is_stored
kept_read now b old = if is_stored now b old then some b.last_read else old

-- The fields of the conversation's dict afterwards.
abbrev read_row : Bool → Base → Row → Row
read_row t b r = if t then put_row (bytes "r") (some (int b.last_read)) r else r

abbrev row_after : ℤ → Base → Row → Row
unfolding is_stored
row_after now b r =
    put_row (bytes "u") (flag b.unread) (read_row (is_stored now b (as_int (r (bytes "r")))) b r)

stored_read :
    (env : Env) (info : FieldPath) (b : Base) (c : ConfigBase)
    → HasOrder c
    → Ensures
        (λ c1.
          HasOrder c1 × (row (path info) (view c1) ≡ read_row true b (row (path info) (view c))))
        (assign_scalar env (int b.last_read) (subfield info (bytes "r")) c)
stored_read env info b c h =
    let p = subfield info (bytes "r") in
    Ensures-map (assign_scalar env (int b.last_read) p c)
      (λ c1 s. (
        s.0,
        ap (row (path info)) s.1
            ∙ row-write (path info) (bytes "r") (some (int b.last_read)) (view c),
      ))
      (assign_scalar-Shows env (int b.last_read) p c h)

-- The first part of `set_base`, under its two tests.
store_read :
    (env : Env) (info : FieldPath) (b : Base) (c : ConfigBase) (older recent : Bool)
    → HasOrder c
    → Ensures
        (λ c1.
          HasOrder c1
          × (row (path info) (view c1) ≡ read_row (older || recent) b (row (path info) (view c))))
        (if older
          then assign_scalar env (int b.last_read) (subfield info (bytes "r")) c
          else if recent
          then assign_scalar env (int b.last_read) (subfield info (bytes "r")) c
          else ok c)
store_read env info b c true recent h = stored_read env info b c h
store_read env info b c false true h = stored_read env info b c h
store_read env info b c false false h = Ensures-ok _ c (h, refl)

set_base-row :
    (env : Env) (now : ℤ) (info : FieldPath) (b : Base) (c : ConfigBase)
    → HasOrder c
    → Ensures
        (λ c'.
          HasOrder c' × (row (path info) (view c') ≡ row_after now b (row (path info) (view c))))
        (set_base env now info b c)
unfolding set_base Changes row_after is_stored
set_base-row env now info b c h =
    let dir = path info in
    let p = subfield info (bytes "r") in
    let recent = ltb_ℤ (now -ℤ prune_low) b.last_read in
    Ensures-bind _ _ _ _ (store_read env info b c (is_older b.last_read (get_integer c p)) recent h)
      (λ c1 s.
        Ensures-map (set_flag env (subfield info (bytes "u")) b.unread c1)
          (λ c' s'. (
            s'.0,
            ap (row dir) s'.1
                ∙ row-write dir (bytes "u") (flag b.unread) (view c1)
                ∙ ap (put_row (bytes "u") (flag b.unread)) s.1
                ∙ ap
                    (λ o.
                      put_row (bytes "u") (flag b.unread)
                        (read_row (is_older b.last_read o || recent) b (row dir (view c))))
                    (as_int-row c p),
          ))
          ((set_flag-Writes env (subfield info (bytes "u")) b.unread c1).0 s.0))

as_int-is_set : (o : Option Value) → is_set (as_int o) ≡ true → (v : Value) × (o ≡ some v)
as_int-is_set none h = absurd cc
as_int-is_set (some v) h = (v, refl)

store_read-Returns :
    (env : Env) (p : FieldPath) (b : Base) (c : ConfigBase) (older recent : Bool)
    → Returns env
        (λ x.
          if older
          then assign_scalar env (int b.last_read) p x
          else if recent
          then assign_scalar env (int b.last_read) p x
          else ok x)
        c
store_read-Returns env p b c true recent can = assign_scalar-Returns env (int b.last_read) p c can
store_read-Returns env p b c false true can = assign_scalar-Returns env (int b.last_read) p c can
store_read-Returns env p b c false false can = (c, refl, can)

set_base-Returns :
    (env : Env) (now : ℤ) (info : FieldPath) (b : Base) (c : ConfigBase)
    → Returns env (set_base env now info b) c
unfolding set_base Changes ◌-ℤ◌
set_base-Returns env now info b c can =
    let p = subfield info (bytes "r") in
    let (c1, e1, can1) =
      store_read-Returns env p b c (is_older b.last_read (get_integer c p))
        (ltb_ℤ (now -ℤ prune_low) b.last_read) can in
    let (c2, e2, can2) = (set_flag-Writes env (subfield info (bytes "u")) b.unread c1).1 can1 in
    (c2, rw (e1, e2) refl, can2)

read_after :
    (t : Bool) (b : Base) (r : Row)
    → as_int (read_row t b r (bytes "r")) ≡ (if t then some b.last_read else as_int (r (bytes "r")))
unfolding list_lt
read_after true b r = refl
read_after false b r = refl

-- What is read back of the fields.
base_after :
    (now : ℤ) (b : Base) (r : Row)
    → load_from (ints (row_after now b r)) ≡ record {
      last_read = or_else (kept_read now b (as_int (r (bytes "r")))) (pos 0);
      unread = b.unread;
    }
unfolding load_from row_after is_stored kept_read list_lt
base_after now b r = λ i. record {
  last_read = or_else (read_after (is_stored now b (as_int (r (bytes "r")))) b r i) (pos 0);
  unread = flag-read b.unread i;
}

seen_after :
    (now : ℤ) (b : Base) (r : Row) (unread : Bool)
    → b.unread ≡ unread
    → (unread || is_set (kept_read now b (as_int (r (bytes "r"))))) ≡ true
    → (k : Bytes) × (v : Value) × (row_after now b r k ≡ some v)
unfolding row_after kept_read is_stored list_lt
seen_after now b r true e h = (bytes "u", scalar (int (pos 1)), ap (λ x. as_value (flag x)) e)
seen_after now b r false e h =
    let (v, p) =
      as_int-is_set (row_after now b r (bytes "r"))
        (ap is_set (read_after (is_stored now b (as_int (r (bytes "r")))) b r) ∙ h) in
    (bytes "r", v, p)

module _ (ox : Oxenc) (kind : Kind) where
  load-row : (d : Dict) → load d ≡ load_from (ints (dict_row d))
  unfolding load
  load-row d = ap load_from (maybe_int-row d)

  load_found-load :
      (id : Bytes) (d : Dict) (r : Row)
      → is_session_id ox id kind.prefix ≡ true
      → dict_row d ≡ r
      → load_found ox kind id (some d) ≡ ok (some (record { id = id; base = load_from (ints r) }))
  unfolding load_found new_convo
  load_found-load id d r valid fields = rw (check_session_id_of_valid ox id kind.prefix valid) (
      ap (λ y. ok (some (record { id = id; base = y })))
        (load-row d ∙ ap (λ (x : Row). load_from (ints x)) fields))

  pub get_of_row :
      (c : ConfigBase) (id : Bytes) (r : Row) (k : Bytes) (v : Value)
      → is_session_id ox id kind.prefix ≡ true
      → row (path (convo_field kind (ox.from_hex id))) (view c) ≡ r
      → r k ≡ some v
      → get ox kind c id ≡ ok (some (record { id = id; base = load_from (ints r) }))
  unfolding get
  get_of_row c id r k v valid e n =
      let p = convo_field kind (ox.from_hex id) in
      let (d, found, fields) = dict_of_row c p k v (ap (λ (x : Row). x k) e ∙ n) in
      rw (session_id_to_bytes_of_valid ox id kind.prefix valid, found)
        (load_found-load id d r valid (fields ∙ e))

  -- The last-read time of a conversation on record, if there is one.
  abbrev pub read_on_record : ConfigBase → Bytes → Option ℤ
  read_on_record c id = as_int (row (path (convo_field kind (ox.from_hex id))) (view c) (bytes "r"))

  -- Storing a conversation whose id is well formed, in a config whose data is in order and that can
  -- become dirty, returns a config whose data is in order. If the conversation is unread, or has a
  -- last-read time on record then, it is found there: unread as it was given, and with the time
  -- that was given if this lies before the one on record or within the last 30 days, or else with
  -- the time that was on record, 0 if there was none.
  pub get-set_convo :
      (env : Env) (now : ℤ) (x : Convo) (c : ConfigBase)
      → is_session_id ox x.id kind.prefix ≡ true
      → HasOrder c
      → CanDirty env c
      → (c' : ConfigBase) × (set ox kind env now x c ≡ ok c')
        × HasOrder c'
        × ((x.base.unread || is_set (kept_read now x.base (read_on_record c x.id))) ≡ true
            → get ox kind c' x.id
              ≡ ok (
                  some (record x {
                    base = record {
                      last_read = or_else (kept_read now x.base (read_on_record c x.id)) (pos 0);
                      unread = x.base.unread;
                    };
                  })))
  unfolding set
  get-set_convo env now x c valid h can =
      let info = convo_field kind (ox.from_hex x.id) in
      let r = row (path info) (view c) in
      let (c', e, can') = set_base-Returns env now info x.base c can in
      let (b, e', p) =
        Ensures-returned _ (set_base env now info x.base c) c'
          (set_base-row env now info x.base c h) e in
      (
        b,
        rw (session_id_to_bytes_of_valid ox x.id kind.prefix valid) e',
        p.0,
        λ seen.
            let (k, v, q) = seen_after now x.base r x.base.unread refl seen in
            get_of_row b x.id (row_after now x.base r) k v valid p.1 q
            ∙ ap (λ y. ok (some (record x { base = y }))) (base_after now x.base r),
      )
