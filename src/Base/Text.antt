-- ===== src/Base/Text.antt =====
-- Texts that are built and taken apart: templates, glob characters, prefixes.
use Prim.Native.Char.{code}
use Prim.Native.String.{String}
use mathlib.Core.Bool.{Bool, true, not, ◌&&◌, ◌||◌}
use nestjs_scaffold.Base.Tests.{eqb}

-- A literal part of a glob pattern: none of `*`, `?`, `[` and `\`.
abbrev pub plain : String → Bool
plain String.[] = true
plain (String.◌∷◌ c s) =
    not (eqb (code c) b'*' || eqb (code c) b'?' || eqb (code c) 91 || eqb (code c) 92) && plain s
