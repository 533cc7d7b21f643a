-- ===== src/Tests/FieldTests.antt =====
-- Fields and the configs that are made of them, at concrete inputs.
use libsession_util.Prelude.{some}
use libsession_util.Prelude.Result.{Ensures}
use libsession_util.Prelude.Int.{pos}
use libsession_util.Keys.{bytes_ord}
use libsession_util.Config.Data.{int, scalar}
use libsession_util.Config.Base.Field.{assign_scalar, erase_field}
use libsession_util.Config.Base.Field.View.{put, cut}
use libsession_util.Config.Base.Field.Refine.{view, path, Shows}
use libsession_util.Config.Base.Field.Refine
use libsession_util.Tests.BaseTests.{toy_env, fresh, name_path}

assign_scalar-Shows_example :
    Ensures
      (Shows (put (path name_path) (some (scalar (int (pos 4)))) (view fresh)))
      (assign_scalar toy_env (int (pos 4)) name_path fresh)
assign_scalar-Shows_example = Refine.assign_scalar-Shows toy_env (int (pos 4)) name_path fresh tt

name_erased :
    Ensures (Shows (cut (path name_path) (view fresh))) (erase_field toy_env name_path fresh)
name_erased = Refine.erase_field-Shows toy_env name_path fresh tt
