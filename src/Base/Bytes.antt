-- ===== src/Base/Bytes.antt =====
-- Go strings as lists of bytes. Names, addresses and ids are compared byte by byte.
use Prim.Native.Nat.{ℕ}
use Prim.Native.Char.{code}
use Prim.Native.String.{String}
use mathlib.Core.Path.{◌≡◌, refl}
use mathlib.Core.Logic.{◌↔◌}
use mathlib.Core.Bool.{Bool, true, false, ◌&&◌}
use mathlib.Core.List.{List, [], ◌∷◌}
use native.Mathlib.Omega.{arith}
use rediscluster_operator.Base.Tests.{◌==◌}

abbrev pub Text : Type 0
Text = List ℕ

-- The bytes of an ASCII literal.
abbrev pub txt : String → Text
txt String.[] = []
txt (String.◌∷◌ c s) = code c ∷ txt s

-- `a == b` on strings.
unfoldable pub same : Text → Text → Bool
same [] [] = true
same (a ∷ as') (b ∷ bs) = (a == b) && same as' bs
same _ _ = false

pub same_iff : (a b : Text) → (same a b ≡ true) ↔ (a ≡ b)
unfolding same
same_iff [] [] = ground arith
same_iff [] (b ∷ bs) = ground arith
same_iff (a ∷ as') [] = ground arith
same_iff (a ∷ as') (b ∷ bs) = ground (arith, same_iff as' bs)

pub same_refl : (a : Text) → same a a ≡ true
same_refl a = (same_iff a a).1 refl
