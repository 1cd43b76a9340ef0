-- ===== src/Cli/Streams.antt =====
-- What the adapters of Claude Code and opencode report of a process that writes a stream of events,
-- each as a JSON object in a line of its own.
use ai_solo_startup_framewor.Common.{
  ℕ, ◌<◌, String, true, false, Option, none, some, List, [], ◌∷◌, ◌++◌, append-nil, append_assoc,
  map, ◌==◌, ◌≡◌, refl, sym, ap, ◌∙◌, arith, All, Bool-cases, inl, inr, length, take_all, leb, eqb,
  if◌then◌else◌,
}
use ai_solo_startup_framewor.Pi.Stream.{Bytes, ContentBlock}
use ai_solo_startup_framewor.Pi.Capped.{text_of_blocks}
use ai_solo_startup_framewor.Pi.Turn.{Output, whole, trim_newlines, ok}
use ai_solo_startup_framewor.Cli.Text.{split_lines, trim_space}
use ai_solo_startup_framewor.Cli.Lines.{
  is_single_line, IsFramed, joined_lines, split_lines-joined, all_texts, all_texts-append,
  all_texts-trim, trim_space-framed,
}
use ai_solo_startup_framewor.Cli.Turn.{CliAdapter, CliProcess, run_command}
use ai_solo_startup_framewor.Cli.Claude.{
  ClaudeEvent, write_blocks, write_message, write_event, write_line, write_lines, claude_text,
  claude_output,
}

-- An event that is written as a JSON object in one line and read back.
pub record IsWritten {E : Type 0} (encode : E → Bytes) (decode : Bytes → Option E) (e : E)
    : Type 0 where
  pub framed : IsFramed (encode e)
  pub single : is_single_line (encode e) ≡ true
  pub decoded : decode (encode e) ≡ some e

-- The process starts, ends well before its deadline and could be read, and its output is under the
-- limit.
pub record EndsWell (limit : ℕ) (stream : Bytes) (p : CliProcess) : Type 0 where
  pub started : p.started ≡ true
  pub in_time : p.timed_out ≡ false
  pub exited : p.exited_well ≡ true
  pub read : p.read_well ≡ true
  pub wrote : p.output ≡ stream
  pub short : length stream < limit

pub run_command-read :
    (read_output : ℕ → Bytes → Output) (a : CliAdapter) (task_id : String) (output : Bytes)
    (p : CliProcess)
    → EndsWell a.limit output p
    → run_command read_output a task_id p ≡ ok (read_output a.limit output)
unfolding run_command
run_command-read read_output a task_id output p w =
    rw
      (
        w.started,
        w.in_time,
        w.exited,
        w.read,
        w.wrote,
        take_all a.limit output (let h = w.short in omega (arith, h)),
      )
      refl

stream_lines :
    {E : Type 0} (encode : E → Bytes) (decode : Bytes → Option E) (es : List E)
    → All (IsWritten encode decode) es
    → All (λ l. is_single_line l ≡ true) (map encode es)
stream_lines encode decode [] c = tt
stream_lines encode decode (e ∷ es) c = (c.0.single, stream_lines encode decode es c.1)

-- The texts of events, put together.
abbrev pub joined_texts : {E : Type 0} → (E → Bytes) → List E → Bytes
joined_texts text [] = []
joined_texts text (e ∷ es) = text e ++ joined_texts text es

-- The text of a line: that of its event, where it is not blank and decodes.
abbrev pub line_text : {E : Type 0} → (E → Bytes) → (Bytes → Option E) → Bytes → Bytes
line_text text decode l =
    if eqb (length (trim_space l)) 0
    then []
    else elim (decode (trim_space l)) [ none ↦ [] | some e ↦ text e ]

module _ {E : Type 0} (text : E → Bytes) (encode : E → Bytes) (decode : Bytes → Option E) where
  line_text-encode : (e : E) → IsWritten encode decode e → line_text text decode (encode e) ≡ text e
  line_text-encode e c =
      let (m, f) = c.framed in
      let t = trim_space-framed (encode e) c.framed in
      let z : eqb (length (encode e)) 0 ≡ false = rw f (ground arith) in rw (t, z, c.decoded) refl

  all_texts-encode :
      (es : List E)
      → All (IsWritten encode decode) es
      → all_texts (line_text text decode) (map encode es) ≡ joined_texts text es
  all_texts-encode [] c = refl
  all_texts-encode (e ∷ es) c = cc (line_text-encode e c.0, all_texts-encode es c.1)

  -- The texts of the lines of a stream are those of its events.
  pub all_texts-stream :
      (es : List E)
      → All (IsWritten encode decode) es
      → all_texts
          (line_text text decode)
          (split_lines (trim_newlines (joined_lines (map encode es))))
        ≡ joined_texts text es
  unfolding trim_space
  all_texts-stream es c =
      all_texts-trim (line_text text decode) refl (joined_lines (map encode es))
      ∙ ap (all_texts (line_text text decode))
          (split_lines-joined (map encode es) (stream_lines encode decode es c))
      ∙ all_texts-append (line_text text decode) (map encode es) ([] ∷ [])
      ∙ append-nil _
      ∙ all_texts-encode es c

-- The text of an event of claude: its own, or that of the blocks of an assistant's message.
abbrev pub content_text : Option (List ContentBlock) → Bytes
content_text none = []
content_text (some bs) = text_of_blocks bs

abbrev pub event_text : ClaudeEvent → Bytes
event_text e =
    if e.kind == "text"
    then e.text
    else if e.kind == "assistant"
    then content_text e.message
    else []

write_blocks-text :
    (bs : List ContentBlock) (sb : Bytes) → write_blocks bs sb ≡ sb ++ text_of_blocks bs
unfolding write_blocks
write_blocks-text [] sb = sym (append-nil sb)
write_blocks-text (b ∷ bs) sb = elim (Bool-cases (b.kind == "text")) [
  | inl e ↦ rw e (write_blocks-text bs (sb ++ b.text) ∙ append_assoc sb b.text (text_of_blocks bs))
  | inr e ↦ rw e (write_blocks-text bs sb)
]

write_message-text :
    (m : Option (List ContentBlock)) (sb : Bytes) → write_message m sb ≡ sb ++ content_text m
unfolding write_message
write_message-text none sb = sym (append-nil sb)
write_message-text (some bs) sb = write_blocks-text bs sb

write_event-text : (e : ClaudeEvent) (sb : Bytes) → write_event (some e) sb ≡ sb ++ event_text e
unfolding write_event
write_event-text e sb = elim (Bool-cases (e.kind == "text")) [
  | inl h ↦ rw h refl
  | inr h ↦ elim (Bool-cases (e.kind == "assistant")) [
    | inl k ↦ rw (h, k) (write_message-text e.message sb)
    | inr k ↦ rw (h, k) (sym (append-nil sb))
  ]
]

module _ (decode : Bytes → Option ClaudeEvent) where
  write_line-text : (l sb : Bytes) → write_line decode l sb ≡ sb ++ line_text event_text decode l
  unfolding write_line
  write_line-text l sb = elim (Bool-cases (eqb (length (trim_space l)) 0)) [
    | inl h ↦ rw h (sym (append-nil sb))
    | inr h ↦ rw h (go (decode (trim_space l)))
  ]
    where
      go :
          (o : Option ClaudeEvent)
          → write_event o sb ≡ sb ++ elim o [ none ↦ [] | some e ↦ event_text e ]
      go none = sym (append-nil sb)
      go (some e) = write_event-text e sb

  write_lines-text :
      (ls : List Bytes) (sb : Bytes)
      → write_lines decode ls sb ≡ sb ++ all_texts (line_text event_text decode) ls
  unfolding write_lines
  write_lines-text [] sb = sym (append-nil sb)
  write_lines-text (l ∷ ls) sb =
      write_lines-text ls (write_line decode l sb)
      ∙ ap (λ x. x ++ all_texts (line_text event_text decode) ls) (write_line-text l sb)
      ∙ append_assoc sb (line_text event_text decode l) (all_texts (line_text event_text decode) ls)

  claude_text-stream :
      (encode : ClaudeEvent → Bytes) (es : List ClaudeEvent)
      → All (IsWritten encode decode) es
      → claude_text decode (joined_lines (map encode es)) ≡ joined_texts event_text es
  unfolding claude_text
  claude_text-stream encode es c =
      write_lines-text (split_lines (trim_newlines (joined_lines (map encode es)))) []
      ∙ all_texts-stream event_text encode decode es c

  -- The output that the adapter of Claude Code reports of a process that ends well and has written a
  -- stream of events under the limit is the text of its text events and of the text blocks of its
  -- assistant messages, in order; only if that is empty it is the stream itself, without the line
  -- ends at its end.
  pub run_claude-stream :
      (a : CliAdapter) (task_id : String) (encode : ClaudeEvent → Bytes) (es : List ClaudeEvent)
      (p : CliProcess)
      → All (IsWritten encode decode) es
      → EndsWell a.limit (joined_lines (map encode es)) p
      → run_command (claude_output decode) a task_id p
        ≡ ok (
            whole (
              if eqb (length (joined_texts event_text es)) 0
              then trim_newlines (joined_lines (map encode es))
              else joined_texts event_text es))
  unfolding claude_output
  run_claude-stream a task_id encode es p c w =
      let t = claude_text-stream encode es c in
      let s = w.short in
      let z : leb a.limit (length (joined_lines (map encode es))) ≡ false = ground (arith, s) in
      run_command-read (claude_output decode) a task_id (joined_lines (map encode es)) p w
      ∙ rw (z, t)
          (elim (Bool-cases (eqb (length (joined_texts event_text es)) 0)) [
            | inl e ↦ rw e refl
            | inr e ↦ rw e refl
          ])
