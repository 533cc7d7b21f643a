-- ===== src/Tests/PartTests.antt =====
-- The collection of parts at a concrete input: the second part of two comes in after the first.
use libsession_util.Prelude.{arith, refl, some, [], ◌∷◌, replicate, false}
use libsession_util.Keys.{Bytes}
use libsession_util.Config.Bt.{text, nil, cons}
use libsession_util.Config.Base.{Env, Multiparts}
use libsession_util.Config.Base.Multipart.{handle_multipart}
use libsession_util.Config.Base.Multipart.Invariant
use libsession_util.Config.Base.Multipart.Invariant.{AllWell}
use libsession_util.Tests.BaseTests.{toy_env}

abbrev some_hash : Bytes
some_hash = replicate 32 5

-- An encoding in which every text is the part with index 1 of 3.
abbrev part_env : Env
part_env = record toy_env {
  decode_list = λ bytes. some (
      cons (text some_hash)
        (cons (text (1 ∷ [])) (cons (text (3 ∷ [])) (cons (text (8 ∷ [])) nil))));
}

abbrev stored : Multiparts
stored =
    (
      some_hash,
      record {
        done = false;
        size = 3;
        parts = record { index = 0; message_id = 1 ∷ []; chunk = 7 ∷ [] } ∷ [];
        expiry = 100;
      },
    )
    ∷ []

stored-AllWell : AllWell stored
stored-AllWell = (((omega arith, tt), (refl, tt)), tt)

handle_multipart-AllWell_example :
    AllWell (handle_multipart part_env 0 (2 ∷ []) (b'm' ∷ []) stored).multiparts
handle_multipart-AllWell_example =
    Invariant.handle_multipart-AllWell part_env 0 (2 ∷ []) (b'm' ∷ []) stored stored-AllWell
