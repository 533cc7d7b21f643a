-- ===== src/User/Convos/Servers.antt =====
-- The communities among the conversations: one dict per server, with its rooms, and the iteration
-- over them (`comm_iterator_helper` of include/session/config/community.hpp).
use libsession_util.Prelude.{
  ℕ, ◌+◌, Bool, false, not, ◌&&◌, ◌==◌, Option, none, some, List, [], ◌∷◌, ◌++◌, length,
  if◌then◌else◌,
}
use libsession_util.Prelude.Result.{Result, ok, err, ◌>>=◌}
use libsession_util.Prelude.Int.{ℤ}
use libsession_util.Keys.{Bytes, bytes, list_lt}
use libsession_util.Config.Data.{string, Dict, empty, entry, find, is_empty}
use libsession_util.Config.Message.Read.{is_set}
use libsession_util.Config.Base.{ConfigBase, Env}
use libsession_util.Config.Base.Field.{
  FieldPath, subfield, as_dict, get_clean, get_string, maybe_string, assign_scalar, erase_field,
}
use libsession_util.User.Types.{or_else, top, entries}
use libsession_util.User.Ids.{Oxenc}
use libsession_util.User.Community.{
  Community, blank_community, canonical_room, set_base_url, set_room, set_pubkey, new_community,
  parse_partial_url, parse_full_url,
}
use libsession_util.User.Convos.{Base, unread_nothing, load, set_base, erase_impl}

-- `convo::community`
pub record CommunityConvo : Type 0 where
  pub place : Community
  pub base : Base

-- `data["o"][base_url]`, its `R` and a room of it.
abbrev pub server_field : Bytes → FieldPath
server_field base_url = subfield (top (bytes "o")) base_url

abbrev pub rooms_field : Bytes → FieldPath
rooms_field base_url = subfield (server_field base_url) (bytes "R")

-- `community_field`
abbrev pub community_field : Community → FieldPath
community_field p = subfield (rooms_field p.base_url) p.room_norm

-- The key that `community_field` reads: one of 32 bytes, or none.
abbrev pub pubkey_at : ConfigBase → Community → Option Bytes
unfolding get_clean
pubkey_at c p =
    let pk = or_else (get_string c (subfield (server_field p.base_url) (bytes "#"))) [] in
    if length pk == 32 then some pk else none

-- `if (!pubkey.empty()) og.set_pubkey(pubkey)`
abbrev pub with_pubkey : Option Bytes → Community → Result Community
unfolding set_pubkey
with_pubkey none p = ok p
with_pubkey (some pk) p = set_pubkey pk p

abbrev pub load_found : ConfigBase → Community → Option Dict → Result (Option CommunityConvo)
unfolding pubkey_at with_pubkey load
load_found c p none = ok none
load_found c p (some info_dict) = do
  p' ← with_pubkey (pubkey_at c p) p
  ok (some (record { place = p'; base = load info_dict }))

unfoldable pub get_community : ConfigBase → Bytes → Bytes → Result (Option CommunityConvo)
unfolding canonical_room new_community get_clean load_found
get_community c base_url room_given = do
  r ← canonical_room room_given
  og ← new_community base_url r
  load_found c og (as_dict (get_clean c (community_field og)))

unfoldable pub get_community_by_url : Oxenc → ConfigBase → Bytes → Result (Option CommunityConvo)
unfolding parse_partial_url get_community
get_community_by_url ox c partial_url = do
  (base, room_given, pubkey) ← parse_partial_url ox partial_url
  get_community c base room_given

abbrev pub base_or_new : Option Dict → Base
unfolding load
base_or_new none = unread_nothing
base_or_new (some info_dict) = load info_dict

unfoldable pub get_or_construct_community :
    ConfigBase → Bytes → Bytes → Bytes → Result CommunityConvo
unfolding canonical_room new_community set_pubkey get_clean base_or_new
get_or_construct_community c base_url room_given pubkey = do
  r ← canonical_room room_given
  p ← new_community base_url r
  p' ← set_pubkey pubkey p
  ok (record { place = p'; base = base_or_new (as_dict (get_clean c (community_field p'))) })

unfoldable pub get_or_construct_community_by_url :
    Oxenc → ConfigBase → Bytes → Result CommunityConvo
unfolding parse_full_url get_or_construct_community
get_or_construct_community_by_url ox c full_url = do
  (base, room_given, pubkey) ← parse_full_url ox full_url
  get_or_construct_community c base room_given pubkey

unfoldable pub set_community : Env → ℤ → CommunityConvo → ConfigBase → Result ConfigBase
unfolding assign_scalar set_base
set_community env now x c = do
  c' ←
      assign_scalar env (string x.place.pubkey)
        (subfield (server_field x.place.base_url) (bytes "#")) c
  set_base env now (community_field x.place) x.base c'

-- After the last room of a server, the server goes too.
abbrev pub has_rooms : Option Dict → Bool
has_rooms none = false
has_rooms (some d) = not (is_empty d)

unfoldable pub erase_at : Env → Community → ConfigBase → Result (Bool × ConfigBase)
unfolding erase_impl get_clean erase_field
erase_at env p c = do
  (gone, c1) ← erase_impl env (community_field p) c
  let swept = (do
    c2 ← erase_field env (rooms_field p.base_url) c1
    erase_field env (server_field p.base_url) c2)
  c' ←
      (if gone && not (has_rooms (as_dict (get_clean c1 (rooms_field p.base_url))))
        then swept
        else ok c1)
  ok (gone, c')

unfoldable pub erase_community : Env → Bytes → Bytes → ConfigBase → Result (Bool × ConfigBase)
unfolding new_community erase_at
erase_community env base_url room_given c = do
  p ← new_community base_url room_given
  erase_at env p c

-- One room as the iterator loads it; a room that throws is skipped.
abbrev pub place_of : Bytes → Bytes → Bytes → Result Community
unfolding set_base_url set_room set_pubkey
place_of base_url room_key pubkey = do
  p ← set_base_url base_url blank_community
  p' ← set_room room_key p
  set_pubkey pubkey p'

abbrev pub and_base : Result Community → Option Dict → List CommunityConvo → List CommunityConvo
unfolding load
and_base (ok p) (some d) rest = record { place = p; base = load d } ∷ rest
and_base (ok p) none rest = rest
and_base (err e) o rest = rest

unfoldable pub rooms_in : Bytes → Bytes → Dict → List CommunityConvo
unfolding place_of and_base
rooms_in base_url pubkey empty = []
rooms_in base_url pubkey (entry k v d) =
    and_base (place_of base_url k pubkey) (as_dict (some v)) (rooms_in base_url pubkey d)

-- A server is passed over if it is no dict, has no key or has no rooms.
abbrev pub rooms_of : Bytes → Option Bytes → Option Dict → List CommunityConvo
unfolding rooms_in
rooms_of base_url none rooms = []
rooms_of base_url (some pubkey) none = []
rooms_of base_url (some pubkey) (some rooms) = rooms_in base_url pubkey rooms

abbrev pub server_rooms : Bytes → Option Dict → List CommunityConvo
unfolding rooms_of maybe_string find list_lt
server_rooms base_url none = []
server_rooms base_url (some info) =
    rooms_of base_url (maybe_string info (bytes "#")) (as_dict (find (bytes "R") info))

unfoldable pub servers_in : Dict → List CommunityConvo
unfolding server_rooms
servers_in empty = []
servers_in (entry k v d) = server_rooms k (as_dict (some v)) ++ servers_in d

abbrev pub servers_of : Option Dict → List CommunityConvo
unfolding servers_in
servers_of none = []
servers_of (some d) = servers_in d

-- `begin_communities()` up to the end.
unfoldable pub communities : ConfigBase → List CommunityConvo
unfolding get_clean servers_of
communities c = servers_of (as_dict (get_clean c (top (bytes "o"))))

-- `size_communities`
abbrev pub rooms_count : Option Dict → ℕ
unfolding maybe_string find list_lt
rooms_count none = 0
rooms_count (some info) =
    if is_set (maybe_string info (bytes "#")) then entries (as_dict (find (bytes "R") info)) else 0

unfoldable pub rooms_total : Dict → ℕ
unfolding rooms_count
rooms_total empty = 0
rooms_total (entry k v d) = rooms_count (as_dict (some v)) + rooms_total d

abbrev pub rooms_total_of : Option Dict → ℕ
unfolding rooms_total
rooms_total_of none = 0
rooms_total_of (some d) = rooms_total d

unfoldable pub size_communities : ConfigBase → ℕ
unfolding get_clean rooms_total_of
size_communities c = rooms_total_of (as_dict (get_clean c (top (bytes "o"))))
