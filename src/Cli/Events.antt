-- ===== src/Cli/Events.antt =====
-- What the adapter of opencode (adapters/opencode/adapter.go) reports of a process that writes a
-- stream of events.
use ai_solo_startup_framewor.Common.{
  ℕ, suc, String, true, false, Option, none, some, List, [], ◌∷◌, ◌++◌, append-nil, append_assoc,
  map, ◌==◌, ◌≡◌, refl, sym, ap, ◌∙◌, arith, eq_iff, All, Bool-cases, inl, inr, length, leb, eqb,
  if◌then◌else◌,
}
use ai_solo_startup_framewor.Pi.Stream.{Bytes}
use ai_solo_startup_framewor.Pi.Turn.{whole, trim_newlines, ok}
use ai_solo_startup_framewor.Cli.Text.{split_lines, trim_space}
use ai_solo_startup_framewor.Cli.Lines.{
  joined_lines, split_lines-line, first_line, trim_newlines-first_line, all_texts,
  trim_space-framed,
}
use ai_solo_startup_framewor.Cli.Turn.{CliAdapter, CliProcess, run_command}
use ai_solo_startup_framewor.Cli.Opencode.{
  OpencodeEvent, Collected, collect_part, collect_event, collect_line, collect_lines, opencode_text,
  opencode_output,
}
use ai_solo_startup_framewor.Cli.Streams.{
  IsWritten, EndsWell, run_command-read, joined_texts, line_text, all_texts-stream,
}

-- The text of an event of opencode.
abbrev pub part_text : OpencodeEvent → Bytes
part_text e = if e.kind == "text" then elim e.part [ none ↦ [] | some t ↦ t ] else []

collect_part-text :
    (p : Option Bytes) (sb : Bytes) → collect_part p sb ≡ sb ++ elim p [ none ↦ [] | some t ↦ t ]
unfolding collect_part
collect_part-text none sb = sym (append-nil sb)
collect_part-text (some t) sb = refl

collect_event-text :
    (e : OpencodeEvent) (c : Collected) → (collect_event (some e) c).text ≡ c.text ++ part_text e
unfolding collect_event
collect_event-text e c = elim (Bool-cases (e.kind == "text")) [
  | inl h ↦
      let p : (e.kind == "") ≡ false = ap (λ k. k == "") ((eq_iff e.kind "text").0 h) in
      rw (h, p) (collect_part-text e.part c.text)
  | inr h ↦ elim (Bool-cases (e.kind == "")) [
    | inl p ↦ rw (h, p) (sym (append-nil c.text))
    | inr p ↦ rw (h, p) (sym (append-nil c.text))
  ]
]

collect_event-recognised :
    (e : OpencodeEvent) (c : Collected)
    → (e.kind == "") ≡ false
    → (collect_event (some e) c).recognised ≡ true
unfolding collect_event
collect_event-recognised e c h = ground (arith, h)

collect_event-keeps :
    (o : Option OpencodeEvent) (c : Collected)
    → c.recognised ≡ true
    → (collect_event o c).recognised ≡ true
unfolding collect_event
collect_event-keeps none c h = h
collect_event-keeps (some e) c h = ground (arith, h)

module _ (decode : Bytes → Option OpencodeEvent) where
  collect_line-text :
      (l : Bytes) (c : Collected)
      → (collect_line decode l c).text ≡ c.text ++ line_text part_text decode l
  unfolding collect_line
  collect_line-text l c = elim (Bool-cases (eqb (length (trim_space l)) 0)) [
    | inl h ↦ rw h (sym (append-nil c.text))
    | inr h ↦ rw h (go (decode (trim_space l)))
  ]
    where
      go :
          (o : Option OpencodeEvent)
          → (collect_event o c).text ≡ c.text ++ elim o [ none ↦ [] | some e ↦ part_text e ]
      go none = sym (append-nil c.text)
      go (some e) = collect_event-text e c

  collect_lines-text :
      (ls : List Bytes) (c : Collected)
      → (collect_lines decode ls c).text ≡ c.text ++ all_texts (line_text part_text decode) ls
  unfolding collect_lines
  collect_lines-text [] c = sym (append-nil c.text)
  collect_lines-text (l ∷ ls) c =
      collect_lines-text ls (collect_line decode l c)
      ∙ ap (λ x. x ++ all_texts (line_text part_text decode) ls) (collect_line-text l c)
      ∙ append_assoc c.text (line_text part_text decode l)
          (all_texts (line_text part_text decode) ls)

  collect_lines-keeps :
      (ls : List Bytes) (c : Collected)
      → c.recognised ≡ true
      → (collect_lines decode ls c).recognised ≡ true
  unfolding collect_lines collect_line
  collect_lines-keeps [] c h = h
  collect_lines-keeps (l ∷ ls) c h =
      collect_lines-keeps ls _ (ground (arith, h, collect_event-keeps (decode (trim_space l)) c h))

  module _ (encode : OpencodeEvent → Bytes) where
    collect_line-encode :
        (e : OpencodeEvent) (k : Collected)
        → IsWritten encode decode e
        → (e.kind == "") ≡ false
        → (collect_line decode (encode e) k).recognised ≡ true
    unfolding collect_line
    collect_line-encode e k c h =
        let (m, f) = c.framed in
        let t = trim_space-framed (encode e) c.framed in
        let z : eqb (length (encode e)) 0 ≡ false = rw f (ground arith) in
        rw (t, z, c.decoded) (collect_event-recognised e k h)

    collect_lines-first :
        (e : OpencodeEvent) (ls : List Bytes) (k : Collected)
        → IsWritten encode decode e
        → first_line ls ≡ encode e
        → (e.kind == "") ≡ false
        → (collect_lines decode ls k).recognised ≡ true
    unfolding collect_lines
    collect_lines-first e [] k c f h =
        let (m, g) = c.framed in
        let z : length {A = ℕ} [] ≡ suc (length (m ++ 125 ∷ [])) = ap length (f ∙ g) in
        ground (arith, z)
    collect_lines-first e (l ∷ ls) k c f h =
        collect_lines-keeps ls _ (rw f (collect_line-encode e k c h))

    opencode_text-recognised :
        (e : OpencodeEvent) (es : List OpencodeEvent)
        → IsWritten encode decode e
        → (e.kind == "") ≡ false
        → (opencode_text decode (joined_lines (map encode (e ∷ es)))).recognised ≡ true
    unfolding opencode_text
    opencode_text-recognised e es c h =
        collect_lines-first e (split_lines (trim_newlines (joined_lines (map encode (e ∷ es))))) _ c
          (trim_newlines-first_line (joined_lines (map encode (e ∷ es)))
            ∙ ap first_line (split_lines-line (encode e) (joined_lines (map encode es)) c.single))
          h

  -- The output that the adapter of opencode reports of a process that ends well and has written a
  -- stream of events under the limit, the first of them of some type, is the text of its text events,
  -- in order, even where that is empty.
  pub run_opencode-stream :
      (a : CliAdapter) (task_id : String) (encode : OpencodeEvent → Bytes) (e : OpencodeEvent)
      (es : List OpencodeEvent) (p : CliProcess)
      → All (IsWritten encode decode) (e ∷ es)
      → (e.kind == "") ≡ false
      → EndsWell a.limit (joined_lines (map encode (e ∷ es))) p
      → run_command (opencode_output decode) a task_id p
        ≡ ok (whole (joined_texts part_text (e ∷ es)))
  unfolding opencode_output opencode_text
  run_opencode-stream a task_id encode e es p c h w =
      let stream = joined_lines (map encode (e ∷ es)) in
      let s = w.short in
      let z : leb a.limit (length (joined_lines (map encode (e ∷ es)))) ≡ false =
        ground (arith, s) in
      run_command-read (opencode_output decode) a task_id stream p w
      ∙ rw (z, opencode_text-recognised encode e es c.0 h)
          (ap (λ t. ok (whole t))
            (collect_lines-text (split_lines (trim_newlines stream)) _
              ∙ all_texts-stream part_text encode decode (e ∷ es) c))
