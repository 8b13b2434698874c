-- ===== src/Base/Text.antt =====
-- Text as its code points, and the two formats of numbers that the labels use.
use Prim.Native.Char.{code}
use Prim.Native.String.{String}
use quent.Base.{
  ℕ, zero, suc, ◌+◌, ◌-◌, ◌/◌, ◌%◌, ◌≡◌, refl, Bool, true, false, ◌&&◌, ◌||◌, List, [], ◌∷◌, ltb,
  eqb, if◌then◌else◌, nat_eq, pair_eq, option_eq, list_eq,
}

abbrev pub Text : Type 0
Text = List ℕ

-- The code points of a literal.
abbrev pub text : String → Text
text String.[] = []
text (String.◌∷◌ c s) = code c ∷ text s

-- Upper-case digits, as `{:X}` has them.
abbrev pub digit : ℕ → ℕ
digit d = if ltb d 10 then b'0' + d else b'A' + (d - 10)

-- The digits of a number in front of a text.
unfoldable pub digits : ℕ → ℕ → ℕ → Text → Text
digits base zero n rest = rest
digits base (suc places) n rest =
    let more = digits base places (n / base) (digit (n % base) ∷ rest) in
    if ltb n base then digit n ∷ rest else more

-- 20 decimal and 16 hexadecimal digits are enough for a `u64`.
unfoldable pub decimal : ℕ → Text
unfolding digits
decimal n = digits 10 20 n []

unfoldable pub hex : ℕ → Text
unfolding digits
hex n = digits 16 16 n []

decimal-4096 : decimal 4096 ≡ text "4096"
unfolding decimal
decimal-4096 = refl

hex-48879 : hex 48879 ≡ text "BEEF"
unfolding hex
hex-48879 = refl

-- The order of texts, by their characters.
abbrev pub text_before : Text → Text → Bool
text_before [] [] = false
text_before [] (d ∷ t) = true
text_before (c ∷ s) [] = false
text_before (c ∷ s) (d ∷ t) = let rest = text_before s t in ltb c d || (eqb c d && rest)
