-- ===== src/User/Convos/Pruning.antt =====
-- `prune_stale`, `push` and the totals (src/config/convo_info_volatile.cpp).
use libsession_util.Prelude.{ℕ, ◌+◌, Bool, not, ◌&&◌, List, [], ◌∷◌, if◌then◌else◌}
use libsession_util.Prelude.Result.{Result, ok, ◌>>=◌}
use libsession_util.Prelude.Int.{ℤ, ltb_ℤ, ◌-ℤ◌}
use libsession_util.Keys.{Bytes}
use libsession_util.Config.Base.{ConfigBase, Env}
use libsession_util.User.Ids.{Oxenc}
use libsession_util.User.Community.{room}
use libsession_util.User.Convos.{
  Base, Kind, Convo, one_to_one, group, legacy_group, erase, convos, size_of,
}
use libsession_util.User.Convos.Servers.{
  CommunityConvo, communities, erase_community, size_communities,
}

abbrev pub is_stale : ℤ → Base → Bool
is_stale cutoff b = not b.unread && ltb_ℤ b.last_read cutoff

unfoldable pub stale_ids : ℤ → List Convo → List Bytes
stale_ids cutoff [] = []
stale_ids cutoff (x ∷ xs) =
    let rest = stale_ids cutoff xs in if is_stale cutoff x.base then x.id ∷ rest else rest

unfoldable pub stale_rooms : ℤ → List CommunityConvo → List (Bytes × Bytes)
stale_rooms cutoff [] = []
stale_rooms cutoff (x ∷ xs) =
    let rest = stale_rooms cutoff xs in
    if is_stale cutoff x.base then (x.place.base_url, room x.place) ∷ rest else rest

module _ (ox : Oxenc) (to_hex : Bytes → Bytes) (env : Env) where
  unfoldable pub erase_all : Kind → List Bytes → ConfigBase → Result ConfigBase
  unfolding erase
  erase_all kind [] c = ok c
  erase_all kind (id ∷ ids) c = do (gone, c') ← erase ox kind env id c; erase_all kind ids c'

  unfoldable pub erase_rooms : List (Bytes × Bytes) → ConfigBase → Result ConfigBase
  unfolding erase_community
  erase_rooms [] c = ok c
  erase_rooms ((base, r) ∷ rooms) c = do
    (gone, c') ← erase_community env base r c
    erase_rooms rooms c'

  unfoldable pub prune_stale : ℤ → ℤ → ConfigBase → Result ConfigBase
  unfolding stale_ids stale_rooms erase_all erase_rooms convos communities ◌-ℤ◌
  prune_stale now prune c = do
    let cutoff = now -ℤ prune
    c1 ← erase_all one_to_one (stale_ids cutoff (convos to_hex one_to_one c)) c
    c2 ← erase_all legacy_group (stale_ids cutoff (convos to_hex legacy_group c1)) c1
    erase_rooms (stale_rooms cutoff (communities c2)) c2

-- `size`
unfoldable pub size : ConfigBase → ℕ
unfolding size_of size_communities
size c = size_of one_to_one c + size_communities c + size_of legacy_group c + size_of group c
