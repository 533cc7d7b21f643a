-- ===== src/User/Contacts/Iterator.antt =====
-- The iterator over the contacts (`Contacts::iterator` of src/config/contacts.cpp), as the list of
-- what it passes from the first contact to the end.
use libsession_util.Prelude.{◌==◌, none, some, List, [], ◌∷◌, length, if◌then◌else◌}
use libsession_util.Prelude.Result.{Result, ok, ◌>>=◌}
use libsession_util.Config.Data.{Dict, dict, empty, entry}
use libsession_util.Config.Base.{ConfigBase}
use libsession_util.Config.Base.Field.{as_dict, get_clean}
use libsession_util.User.Ids.{Oxenc}
use libsession_util.User.Contacts.{ContactInfo, new_contact, load, contacts_field}

module _ (ox : Oxenc) where
  -- The steps of `_load_info` and `++`: an entry of another key size than 33, or that is no dict, is
  -- skipped; a key of 33 bytes that is no session id makes the constructor of the contact throw.
  unfoldable pub contacts_from : Dict → Result (List ContactInfo)
  unfolding new_contact load
  contacts_from empty = ok []
  contacts_from (entry k (dict info_dict) contacts) =
      let others = contacts_from contacts in
      let passed = (do x ← new_contact ox (ox.to_hex k); xs ← others; ok (load x info_dict ∷ xs)) in
      if length k == 33 then passed else others
  contacts_from (entry k v contacts) = contacts_from contacts

  unfoldable pub all_contacts : ConfigBase → Result (List ContactInfo)
  unfolding contacts_from get_clean
  all_contacts c = elim (as_dict (get_clean c contacts_field)) [
    | none ↦ ok []
    | some contacts ↦ contacts_from contacts
  ]
