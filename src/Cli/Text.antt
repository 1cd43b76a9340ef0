-- ===== src/Cli/Text.antt =====
-- Texts of bytes as the adapters of Claude Code and opencode cut them: strings.Split at line ends and
-- strings.TrimSpace.
use ai_solo_startup_framewor.Common.{
  ℕ, zero, suc, Bool, ◌&&◌, ◌||◌, List, [], ◌∷◌, drop, length, leb, eqb, if◌then◌else◌,
}
use mathlib.Core.List.{reverse}
use ai_solo_startup_framewor.Pi.Stream.{Bytes}

unfoldable pub cons_first : ℕ → List Bytes → List Bytes
cons_first b [] = (b ∷ []) ∷ []
cons_first b (l ∷ ls) = (b ∷ l) ∷ ls

-- strings.Split(s, "\n")
unfoldable pub split_lines : Bytes → List Bytes
unfolding cons_first
split_lines [] = [] ∷ []
split_lines (b ∷ bs) =
    let rest = split_lines bs in if eqb b 10 then [] ∷ rest else cons_first b rest

-- The white space characters beyond ASCII, in UTF-8: U+0085 and U+00A0 of two bytes, the others of
-- three.
unfoldable pub is_space_pair : ℕ → ℕ → Bool
is_space_pair a b = eqb a 194 && (eqb b 133 || eqb b 160)

unfoldable pub is_space_triple : ℕ → ℕ → ℕ → Bool
is_space_triple a b c =
    (eqb a 225 && (eqb b 154 && eqb c 128))
    || ((eqb a 226
          && ((eqb b 128 && ((leb 128 c && leb c 138) || (eqb c 168 || (eqb c 169 || eqb c 175))))
              || (eqb b 129 && eqb c 159)))
        || (eqb a 227 && (eqb b 128 && eqb c 128)))

unfoldable pub is_space_byte : ℕ → Bool
is_space_byte b = (leb 9 b && leb b 13) || eqb b 32

-- The bytes of the white space character that a text begins with; 0 where it begins with another.
unfoldable pub width_first : Bytes → ℕ
unfolding is_space_byte is_space_pair is_space_triple
width_first [] = 0
width_first (a ∷ []) = if is_space_byte a then 1 else 0
width_first (a ∷ b ∷ []) = if is_space_byte a then 1 else if is_space_pair a b then 2 else 0
width_first (a ∷ b ∷ c ∷ bs) =
    if is_space_byte a
    then 1
    else if is_space_pair a b
    then 2
    else if is_space_triple a b c
    then 3
    else 0

-- The same at the end of a text that is given backwards.
unfoldable pub width_last : Bytes → ℕ
unfolding is_space_byte is_space_pair is_space_triple
width_last [] = 0
width_last (c ∷ []) = if is_space_byte c then 1 else 0
width_last (c ∷ b ∷ []) = if is_space_byte c then 1 else if is_space_pair b c then 2 else 0
width_last (c ∷ b ∷ a ∷ bs) =
    if is_space_byte c
    then 1
    else if is_space_pair b c
    then 2
    else if is_space_triple a b c
    then 3
    else 0

-- Characters are dropped while there are some of positive width; each has a byte, so that the length
-- of the text is fuel enough.
unfoldable pub drop_spaces : (Bytes → ℕ) → ℕ → Bytes → Bytes
drop_spaces width zero t = t
drop_spaces width (suc n) t =
    let rest = drop_spaces width n (drop (width t) t) in if eqb (width t) 0 then t else rest

unfoldable pub trim_left : Bytes → Bytes
unfolding drop_spaces width_first
trim_left t = drop_spaces width_first (length t) t

-- strings.TrimSpace
unfoldable pub trim_space : Bytes → Bytes
unfolding trim_left drop_spaces width_last
trim_space t =
    let back = reverse (trim_left t) in reverse (drop_spaces width_last (length back) back)
