-- ===== src/Strings/Literals.antt =====
-- The string literals of the code.
use Prim.Native.Char.{code}
use Prim.Native.String.{String}
use wp_lambdamoo.Prelude.{ℕ, List, [], ◌∷◌}

-- The bytes of a literal of ASCII characters.
abbrev pub ascii : String → List ℕ
ascii String.[] = []
ascii (String.◌∷◌ c rest) = code c ∷ ascii rest
