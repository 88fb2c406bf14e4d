-- ===== src/Base/Strings.antt =====
-- Byte strings: `std::string` and `std::vector<uint8_t>` as lists of numbers.
use Prim.Native.Nat.{ℕ, suc, ◌-◌}
use Prim.Native.Char.{code}
use Prim.Native.String.{String}
use mathlib.Core.Path.{◌≡◌, refl}
use mathlib.Core.Logic.{◌↔◌}
use mathlib.Core.Bool.{Bool, true, false, ◌&&◌}
use mathlib.Core.List.{List, [], ◌∷◌, ◌++◌}
use mathlib.Core.Option.{Option, none, some}
use native.Mathlib.Omega.{arith}
use dist_build_sys.Base.Tests.{◌==◌, leb, if◌then◌else◌, ◌>>=◌}
use dist_build_sys.Base.Lists.{length, drop}

abbrev pub Bytes : Type 0
Bytes = List ℕ

-- The code points of a literal, which are its bytes where the text is ASCII.
abbrev pub codes : String → Bytes
codes String.[] = []
codes (String.◌∷◌ c s) = code c ∷ codes s

-- `a == b` on strings.
unfoldable pub bytes_eq : Bytes → Bytes → Bool
bytes_eq [] [] = true
bytes_eq (x ∷ xs) (y ∷ ys) = (x == y) && bytes_eq xs ys
bytes_eq _ _ = false

-- `s.starts_with(p)`
unfoldable pub starts_with : Bytes → Bytes → Bool
starts_with s [] = true
starts_with [] (y ∷ p) = false
starts_with (x ∷ s) (y ∷ p) = (x == y) && starts_with s p

-- `s.ends_with(p)`
unfoldable pub ends_with : Bytes → Bytes → Bool
ends_with s p = leb (length p) (length s) && bytes_eq (drop (length s - length p) s) p

-- `s.find(p)`: the first position at which `p` begins.
unfoldable pub find : Bytes → Bytes → Option ℕ
find p [] = if starts_with [] p then some 0 else none
find p (x ∷ s) = if starts_with (x ∷ s) p then some 0 else find p s >>= λ i. some (suc i)

pub bytes_eq_refl : (s : Bytes) → bytes_eq s s ≡ true
unfolding bytes_eq
bytes_eq_refl [] = refl
bytes_eq_refl (x ∷ s) = ground (arith, bytes_eq_refl s)

eq_of_bytes_eq : (s t : Bytes) → bytes_eq s t ≡ true → s ≡ t
unfolding bytes_eq
eq_of_bytes_eq [] [] h = refl
eq_of_bytes_eq (x ∷ s) (y ∷ t) h = ground (arith, eq_of_bytes_eq s t)
eq_of_bytes_eq [] (y ∷ t) h = cc
eq_of_bytes_eq (x ∷ s) [] h = cc

pub bytes_eq_iff : (s t : Bytes) → (bytes_eq s t ≡ true) ↔ (s ≡ t)
bytes_eq_iff s t = (eq_of_bytes_eq s t, λ e. rw e (bytes_eq_refl t))

pub starts_with-append : (p s : Bytes) → starts_with (p ++ s) p ≡ true
unfolding starts_with
starts_with-append [] [] = refl
starts_with-append [] (x ∷ s) = refl
starts_with-append (x ∷ p) s = ground (arith, starts_with-append p s)

pub starts_with-drop : (s p : Bytes) → starts_with s p ≡ true → p ++ drop (length p) s ≡ s
unfolding starts_with
starts_with-drop s [] h = refl
starts_with-drop [] (y ∷ p) h = cc
starts_with-drop (x ∷ s) (y ∷ p) h = ground (arith, starts_with-drop s p)
