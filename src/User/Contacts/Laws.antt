-- ===== src/User/Contacts/Laws.antt =====
-- A stored contact is read back, the other contacts stay as they were, and an erased one is gone.
use libsession_util.Prelude.{
  ◌≡◌, refl, ap, ap₂, sym, subst, fun_ext, ◌∙◌, true, false, none, some, [], ◌∷◌, ◌++◌,
}
use libsession_util.Prelude.Result.{
  ok, Ensures, Ensures-ok, Ensures-map, Ensures-both, Ensures-returned, Ensures-bind,
}
use libsession_util.Order.{same}
use libsession_util.Keys.{Bytes, bytes, bytes_ord, list_lt}
use libsession_util.Config.Data.{Value, Dict}
use libsession_util.Config.Message.Read.{is_set}
use libsession_util.Config.Base.{ConfigBase, Env}
use libsession_util.Config.Base.Field.{get_clean, erase_field}
use libsession_util.Config.Base.Field.Total.{CanDirty, Returns}
use libsession_util.Config.Base.Field.Refine.{view, path, HasOrder, Shows, erase_field-Shows}
use libsession_util.Config.Base.Field.Rows.{
  Row, row, put_all, write_all, row-write_all, write_all-apart, apart,
}
use libsession_util.Config.Base.Field.Read.{
  strings, ints, dict_row, dict_of_row, maybe_string-row, maybe_int-row, get_clean-erase_field,
}
use libsession_util.User.Ids.{Oxenc, is_session_id, session_id_to_bytes, prefix_05}
use libsession_util.User.Ids.Laws.{
  check_session_id_of_valid, session_id_to_bytes_of_valid, session_id_to_bytes-Ensures,
}
use libsession_util.User.Contacts.{
  ContactInfo, initial, load, load_from, contact_field, new_contact, load_found, get, set,
  set_fields, erase,
}
use libsession_util.User.Contacts.Stored.{
  contact_fields, set_fields-lem, named, stored, load_from-stored,
}

load-row :
    (x : ContactInfo) (d : Dict) → load x d ≡ load_from x (strings (dict_row d)) (ints (dict_row d))
unfolding load
load-row x d = ap₂ (load_from x) (maybe_string-row d) (maybe_int-row d)

contacts_apart :
    (a b k : Bytes)
    → same b a ≡ false
    → apart (path (contact_field a)) (path (contact_field b) ++ (k ∷ [])) ≡ true
unfolding apart list_lt
contacts_apart a b k h = rw h refl

module _ (ox : Oxenc) where
  load_found-load :
      (sid : Bytes) (d : Dict) (r : Row)
      → is_session_id ox sid prefix_05 ≡ true
      → dict_row d ≡ r
      → load_found ox sid (some d) ≡ ok (some (load_from (initial sid) (strings r) (ints r)))
  unfolding load_found new_contact load
  load_found-load sid d r valid fields = rw (check_session_id_of_valid ox sid prefix_05 valid) (
      ap (λ y. ok (some y))
        (load-row (initial sid) d
          ∙ ap (λ (x : Row). load_from (initial sid) (strings x) (ints x)) fields))

  -- What `get` returns for an id that is well formed, where the contact has a name.
  get_of_row :
      (c : ConfigBase) (sid : Bytes) (r : Row) (v : Value)
      → is_session_id ox sid prefix_05 ≡ true
      → row (path (contact_field (ox.from_hex sid))) (view c) ≡ r
      → r (bytes "n") ≡ some v
      → get ox c sid ≡ ok (some (load_from (initial sid) (strings r) (ints r)))
  unfolding get
  get_of_row c sid r v valid e n =
      let p = contact_field (ox.from_hex sid) in
      let (d, found, fields) =
        dict_of_row c p (bytes "n") v (ap (λ (x : Row). x (bytes "n")) e ∙ n) in
      rw (session_id_to_bytes_of_valid ox sid prefix_05 valid, found)
        (load_found-load sid d r valid (fields ∙ e))

  module _ (env : Env) where
    set-Shows :
        (x : ContactInfo) (c : ConfigBase)
        → HasOrder c
        → Ensures
            (λ c'.
              (is_session_id ox x.session_id prefix_05 ≡ true)
              × Shows
                  (write_all
                    (path (contact_field (ox.from_hex x.session_id)))
                    (contact_fields x)
                    (view c))
                  c')
            (set ox env x c)
    unfolding set
    set-Shows x c h =
        Ensures-bind _ _ (session_id_to_bytes ox x.session_id prefix_05) _
          (session_id_to_bytes-Ensures ox x.session_id prefix_05)
          (λ pk valid.
            Ensures-map (set_fields env (contact_field pk) x c)
              (λ c' s. (
                valid.0,
                subst
                    (λ k. Shows (write_all (path (contact_field k)) (contact_fields x) (view c)) c')
                    valid.1 s,
              ))
              ((set_fields-lem env (contact_field pk) x c).0 h))

    set-Returns :
        (x : ContactInfo) (c : ConfigBase)
        → is_session_id ox x.session_id prefix_05 ≡ true
        → Returns env (set ox env x) c
    unfolding set
    set-Returns x c valid can =
        let (c', e, can') =
          (set_fields-lem env (contact_field (ox.from_hex x.session_id)) x c).1 can in
        (c', rw (session_id_to_bytes_of_valid ox x.session_id prefix_05 valid) e, can')

    found_again :
        (x : ContactInfo) (c : ConfigBase)
        → HasOrder c
        → Ensures
            (λ c'. HasOrder c' × (get ox c' x.session_id ≡ ok (some (stored x))))
            (set ox env x c)
    found_again x c h =
        Ensures-map (set ox env x c)
          (λ c' s.
            let p = path (contact_field (ox.from_hex x.session_id)) in
            let r = row p (view c) in
            (
              s.1.0,
              get_of_row c' x.session_id (put_all (contact_fields x) r) _ s.0
                    (ap (row p) s.1.1 ∙ row-write_all p (contact_fields x) (view c)) (named x r)
                  ∙ ap (λ y. ok (some y)) (load_from-stored x r),
            ))
          (set-Shows x c h)

    -- Storing a contact whose id is well formed, in a config whose data is in order and that can
    -- become dirty, returns a config whose data is in order and in which `get` of the id finds the
    -- contact as storing normalises it.
    pub get-set :
        (x : ContactInfo) (c : ConfigBase)
        → is_session_id ox x.session_id prefix_05 ≡ true
        → HasOrder c
        → CanDirty env c
        → (c' : ConfigBase) × (set ox env x c ≡ ok c')
          × HasOrder c'
          × (get ox c' x.session_id ≡ ok (some (stored x)))
    get-set x c valid h can =
        let (c', e, can') = set-Returns x c valid can in
        let (b, e', p) = Ensures-returned _ (set ox env x c) c' (found_again x c h) e in
        (b, e', p.0, p.1)

    -- A contact that has a name on record stays as it was when another one is stored.
    pub get_other-set :
        (x : ContactInfo) (c : ConfigBase) (sid : Bytes) (v : Value)
        → HasOrder c
        → is_session_id ox sid prefix_05 ≡ true
        → same (ox.from_hex sid) (ox.from_hex x.session_id) ≡ false
        → row (path (contact_field (ox.from_hex sid))) (view c) (bytes "n") ≡ some v
        → Ensures (λ c'. get ox c' sid ≡ get ox c sid) (set ox env x c)
    get_other-set x c sid v h valid differ n =
        Ensures-map (set ox env x c)
          (λ c' s.
            let q = path (contact_field (ox.from_hex sid)) in
            let kept : row q (view c') ≡ row q (view c) =
              ap (row q) s.1.1
              ∙ fun_ext (λ k.
                write_all-apart (path (contact_field (ox.from_hex x.session_id))) (contact_fields x)
                  (view c) (q ++ (k ∷ [])) (contacts_apart _ _ k differ)) in
            get_of_row c' sid (row q (view c)) v valid kept n
            ∙ sym (get_of_row c sid (row q (view c)) v valid refl n))
          (set-Shows x c h)

    -- After `erase` the contact is gone, and the routine tells whether it was there.
    pub get-erase :
        (sid : Bytes) (c : ConfigBase)
        → HasOrder c
        → Ensures
            (λ r.
              HasOrder r.1
              × (get ox r.1 sid ≡ ok none)
              × (r.0 ≡ is_set (get_clean c (contact_field (ox.from_hex sid)))))
            (erase ox env sid c)
    unfolding erase get
    get-erase sid c h =
        Ensures-bind _ _ (session_id_to_bytes ox sid prefix_05) _
          (session_id_to_bytes-Ensures ox sid prefix_05)
          (λ pk valid.
            let p = contact_field pk in
            Ensures-bind _ _ (erase_field env p c) _
              (Ensures-both _ _ (erase_field env p c) (erase_field-Shows env p c h)
                (get_clean-erase_field env p c h))
              (λ c' e. Ensures-ok _ _ (
                e.0.0,
                rw (session_id_to_bytes_of_valid ox sid prefix_05 valid.0, sym valid.1, e.1) refl,
                ap (λ k. is_set (get_clean c (contact_field k))) valid.1,
              )))
