-- ===== src/Cli/Lines.antt =====
-- Streams of lines against their texts: what the adapters of Claude Code and opencode read from a
-- stream that holds one JSON object in each line.
use ai_solo_startup_framewor.Common.{
  ℕ, zero, suc, Bool, true, false, not, ◌&&◌, List, [], ◌∷◌, ◌++◌, append_assoc, ◌≡◌, refl, sym, ap,
  ◌∙◌, arith, All, Bool-cases, inl, inr, length, eqb,
}
use mathlib.Core.List.{reverse, reverse-append, reverse-reverse}
use ai_solo_startup_framewor.Pi.Stream.{Bytes}
use ai_solo_startup_framewor.Pi.Turn.{trim_newlines}
use ai_solo_startup_framewor.Cli.Text.{
  cons_first, split_lines, is_space_byte, is_space_pair, is_space_triple, width_first, width_last,
  drop_spaces, trim_left, trim_space,
}

-- A text without a line end.
abbrev pub is_single_line : Bytes → Bool
is_single_line [] = true
is_single_line (b ∷ bs) = not (eqb b 10) && is_single_line bs

-- A JSON object: it begins with { and ends with }.
abbrev pub IsFramed : Bytes → Type 0
IsFramed t = (m : Bytes) × (t ≡ 123 ∷ (m ++ 125 ∷ []))

-- The lines, each with its end.
abbrev pub joined_lines : List Bytes → Bytes
joined_lines [] = []
joined_lines (l ∷ ls) = l ++ 10 ∷ joined_lines ls

pub split_lines-line :
    (l rest : Bytes) → is_single_line l ≡ true → split_lines (l ++ 10 ∷ rest) ≡ l ∷ split_lines rest
unfolding split_lines cons_first
split_lines-line [] rest h = refl
split_lines-line (b ∷ l) rest h =
    let e : eqb b 10 ≡ false = ground (arith, h) in
    let i = split_lines-line l rest (ground (arith, h)) in rw (e, i) refl

pub split_lines-joined :
    (ls : List Bytes)
    → All (λ l. is_single_line l ≡ true) ls
    → split_lines (joined_lines ls) ≡ ls ++ [] ∷ []
unfolding split_lines
split_lines-joined [] h = refl
split_lines-joined (l ∷ ls) h =
    split_lines-line l (joined_lines ls) h.0 ∙ ap (λ x. l ∷ x) (split_lines-joined ls h.1)

-- The texts of lines, put together.
module _ (f : Bytes → Bytes) where
  abbrev pub all_texts : List Bytes → Bytes
  all_texts [] = []
  all_texts (l ∷ ls) = f l ++ all_texts ls

  pub all_texts-append : (ls ms : List Bytes) → all_texts (ls ++ ms) ≡ all_texts ls ++ all_texts ms
  all_texts-append [] ms = refl
  all_texts-append (l ∷ ls) ms =
      ap (λ x. f l ++ x) (all_texts-append ls ms)
      ∙ sym (append_assoc (f l) (all_texts ls) (all_texts ms))

abbrev pub first_line : List Bytes → Bytes
first_line [] = []
first_line (l ∷ ls) = l

abbrev other_lines : List Bytes → List Bytes
other_lines [] = []
other_lines (l ∷ ls) = ls

-- The line ends that are trimmed from a stream end empty lines.
record SameTexts (f : Bytes → Bytes) (ls ms : List Bytes) : Type 0 where
  first : first_line ls ≡ first_line ms
  others : all_texts f (other_lines ls) ≡ all_texts f (other_lines ms)

cons_first-SameTexts :
    (f : Bytes → Bytes) (b : ℕ) (ls ms : List Bytes)
    → SameTexts f ls ms
    → SameTexts f (cons_first b ls) (cons_first b ms)
unfolding cons_first
cons_first-SameTexts f b [] [] s = record { first = refl; others = refl }
cons_first-SameTexts f b [] (m ∷ ms) s = record {
  first = ap (λ x. b ∷ x) s.first;
  others = s.others;
}
cons_first-SameTexts f b (l ∷ ls) [] s = record {
  first = ap (λ x. b ∷ x) s.first;
  others = s.others;
}
cons_first-SameTexts f b (l ∷ ls) (m ∷ ms) s = record {
  first = ap (λ x. b ∷ x) s.first;
  others = s.others;
}

SameTexts-all :
    (f : Bytes → Bytes) (ls ms : List Bytes)
    → f [] ≡ []
    → SameTexts f ls ms
    → all_texts f ls ≡ all_texts f ms
SameTexts-all f [] [] n s = refl
SameTexts-all f [] (m ∷ ms) n s = rw (← s.first, n) s.others
SameTexts-all f (l ∷ ls) [] n s = rw (s.first, n) s.others
SameTexts-all f (l ∷ ls) (m ∷ ms) n s = cc (s.first, s.others)

length-zero : (t : Bytes) → eqb (length t) 0 ≡ true → t ≡ []
length-zero [] h = refl
length-zero (b ∷ t) h = ground (arith, h)

module _ (f : Bytes → Bytes) (n : f [] ≡ []) where
  trim_newlines-SameTexts :
      (t : Bytes) → SameTexts f (split_lines (trim_newlines t)) (split_lines t)
  unfolding split_lines trim_newlines
  trim_newlines-SameTexts [] = record { first = refl; others = refl }
  trim_newlines-SameTexts (b ∷ t) =
      let i = trim_newlines-SameTexts t in
      elim (Bool-cases (eqb b 10)) [
        | inr e ↦ rw (e, split_lines, e) (cons_first-SameTexts f b _ _ i)
        | inl e ↦ elim (Bool-cases (eqb (length (trim_newlines t)) 0)) [
          | inr z ↦
              rw (e, z, split_lines, e) (record { first = refl; others = SameTexts-all f _ _ n i })
          | inl z ↦
              let w : trim_newlines t ≡ [] = length-zero (trim_newlines t) z in
              let j = SameTexts-all f _ _ n i in
              rw (e, z) (record { first = refl; others = rw (w, n) at j })
        ]
      ]

  pub all_texts-trim :
      (t : Bytes) → all_texts f (split_lines (trim_newlines t)) ≡ all_texts f (split_lines t)
  all_texts-trim t = SameTexts-all f _ _ n (trim_newlines-SameTexts t)

-- The line ends that are trimmed do not change the first line.
pub trim_newlines-first_line :
    (t : Bytes) → first_line (split_lines (trim_newlines t)) ≡ first_line (split_lines t)
trim_newlines-first_line t = (trim_newlines-SameTexts (λ l. []) refl t).first

-- A JSON object has no white space around it.
drop_spaces-still :
    (width : Bytes → ℕ) (k : ℕ) (t : Bytes) → width t ≡ 0 → drop_spaces width k t ≡ t
unfolding drop_spaces
drop_spaces-still width zero t h = refl
drop_spaces-still width (suc k) t h = rw h refl

width_first-brace : (m : Bytes) → width_first (123 ∷ m) ≡ 0
unfolding width_first is_space_byte is_space_pair is_space_triple
width_first-brace [] = refl
width_first-brace (b ∷ []) = refl
width_first-brace (b ∷ c ∷ m) = refl

width_last-brace : (m : Bytes) → width_last (125 ∷ m) ≡ 0
unfolding width_last is_space_byte is_space_pair is_space_triple
width_last-brace [] = refl
width_last-brace (b ∷ []) = ground arith
width_last-brace (b ∷ c ∷ m) = ground arith

reverse-framed : (m : Bytes) → reverse (123 ∷ (m ++ 125 ∷ [])) ≡ 125 ∷ reverse (123 ∷ m)
reverse-framed m = reverse-append (123 ∷ m) (125 ∷ [])

pub trim_space-framed : (t : Bytes) → IsFramed t → trim_space t ≡ t
unfolding trim_space trim_left
trim_space-framed t (m, e) =
    rw
      (
        e,
        drop_spaces-still width_first (length (123 ∷ (m ++ 125 ∷ []))) (123 ∷ (m ++ 125 ∷ []))
            (width_first-brace (m ++ 125 ∷ [])),
        reverse-framed m,
        drop_spaces-still width_last (length (125 ∷ reverse (123 ∷ m))) (125 ∷ reverse (123 ∷ m))
            (width_last-brace (reverse (123 ∷ m))),
        sym (reverse-framed m),
      )
      (reverse-reverse (123 ∷ (m ++ 125 ∷ [])))
