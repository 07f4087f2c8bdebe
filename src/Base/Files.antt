-- ===== src/Base/Files.antt =====
-- `os.DirEntry`, as far as the loaders of files read it.
use Prim.Native.String.{String}
use mathlib.Core.Bool.{Bool}

pub record DirEntry : Type 0 where
  pub name : String
  pub is_dir : Bool
