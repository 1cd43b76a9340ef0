-- ===== src/Pi/Lines.antt =====
-- parseStream of adapters/pi/adapter.go against an independent reading of the output: the lines
-- are put together, those that are too long are left out, and the rest are decoded.
use ai_solo_startup_framewor.Common.{
  ℕ, ◌≡◌, refl, sym, false, ◌||◌, inl, inr, Option, none, List, [], ◌∷◌, ◌++◌, append-nil,
  append_assoc, arith, length, length-append, take_all, ltb, eqb, if◌then◌else◌, Bool-cases,
}
use ai_solo_startup_framewor.Pi.Stream.{
  Bytes, max_line_size, StreamMessage, StreamEvent, StreamFailure, no_failure, StreamResult,
  no_result, Chunk, Pending, fresh, extend, handle_line, end_line, parse_from, parse_stream,
}
use ai_solo_startup_framewor.Pi.Capped.{
  Tracks, message_of, text_of_message, failure_after, add_raw-Tracks, handle_event-Tracks,
}

-- All output, without the ends of its lines.
abbrev pub all_output : List Chunk → Bytes
all_output [] = []
all_output (c ∷ cs) = c.bytes ++ all_output cs

-- The lines that ReadLine returned to their end, the first of which begins with `held`.
abbrev pub complete_lines : Bytes → List Chunk → List Bytes
complete_lines held [] = []
complete_lines held (c ∷ cs) =
    let more = complete_lines (held ++ c.bytes) cs in
    let next = complete_lines [] cs in if c.goes_on then more else (held ++ c.bytes) ∷ next

-- The assembled line, where it is not too long.
record Stands (held : Bytes) (p : Pending) : Type 0 where
  over : p.overlong ≡ ltb max_line_size (length held)
  same : p.overlong ≡ false → p.line ≡ held

extend-Stands :
    (held chunk : Bytes) (p : Pending) → Stands held p → Stands (held ++ chunk) (extend chunk p)
unfolding extend
extend-Stands held chunk p s = record {
  over = ground (arith, s.over, s.same, length-append held chunk);
  same = ground (arith, s.over, s.same);
}

module _ (decode : Bytes → Option StreamEvent) where
  -- The assistant's message that a line reports.
  abbrev pub line_message : Bytes → Option StreamMessage
  line_message l =
      if eqb (length l) 0 || ltb max_line_size (length l) then none else message_of (decode l)

  abbrev pub all_text : List Bytes → Bytes
  all_text [] = []
  all_text (l ∷ ls) = text_of_message (line_message l) ++ all_text ls

  abbrev pub last_failure : StreamFailure → List Bytes → StreamFailure
  last_failure f [] = f
  last_failure f (l ∷ ls) = last_failure (failure_after f (line_message l)) ls

  module _ (limit : ℕ) where
    end_line-Tracks :
        (raw text held : Bytes) (f : StreamFailure) (p : Pending) (res : StreamResult)
        → Stands held p
        → Tracks limit raw text f res
        → Tracks limit raw
            (text ++ text_of_message (line_message held))
            (failure_after f (line_message held))
            (end_line decode limit p res)
    unfolding end_line handle_line
    end_line-Tracks raw text held f p res s t = elim (Bool-cases p.overlong) [
      | inl e ↦
          let m : line_message held ≡ none = ground (arith, s.over, e) in
          rw (m, e, append-nil text) t
      | inr e ↦ elim (Bool-cases (eqb (length held) 0)) [
        | inl z ↦
            let m : line_message held ≡ none = ground (arith, s.over, e, z) in
            rw (m, e, append-nil text, s.same e, z) t
        | inr z ↦
            let m : line_message held ≡ message_of (decode held) = ground (arith, s.over, e, z) in
            rw (m, e, s.same e, z) (handle_event-Tracks limit raw text (decode held) f res t)
      ]
    ]

    parse_from-Tracks :
        (cs : List Chunk) (raw text held : Bytes) (f : StreamFailure) (p : Pending)
        (res : StreamResult)
        → Stands held p
        → Tracks limit raw text f res
        → Tracks limit
            (raw ++ all_output cs)
            (text ++ all_text (complete_lines held cs))
            (last_failure f (complete_lines held cs))
            (parse_from decode limit p res cs)
    unfolding parse_from
    parse_from-Tracks [] raw text held f p res s t = rw (append-nil raw, append-nil text) t
    parse_from-Tracks (c ∷ cs) raw text held f p res s t =
        let q = extend-Stands held c.bytes p s in
        let u = add_raw-Tracks limit raw text c.bytes f res t in
        elim (Bool-cases c.goes_on) [
          | inl e ↦
              rw (e, sym (append_assoc raw c.bytes (all_output cs)))
                (parse_from-Tracks cs _ text (held ++ c.bytes) f _ _ q u)
          | inr e ↦
              rw
                (
                  e,
                  sym (append_assoc raw c.bytes (all_output cs)),
                  sym (
                      append_assoc text (text_of_message (line_message (held ++ c.bytes)))
                        (all_text (complete_lines [] cs))),
                )
                (parse_from-Tracks cs _ _ [] _ fresh _
                  (record { over = ground arith; same = λ h. refl })
                  (end_line-Tracks (raw ++ c.bytes) text (held ++ c.bytes) f _ _ q u))
        ]

-- From any output of a pi process, parseStream returns the first `limit` bytes of the text blocks of
-- the assistant's messages, in order, the first `limit` bytes of the output, and flags that say
-- whether the whole texts are longer. The run counts as failed just when the last of the assistant's
-- messages did. Only lines that ReadLine returned to their end count, the last one without a line end
-- included, and of them only those of at most 8388608 bytes; the line ends are not part of the output
-- that is kept.
pub parse_stream-Tracks :
    (decode : Bytes → Option StreamEvent) (limit : ℕ) (cs : List Chunk)
    → Tracks limit
        (all_output cs)
        (all_text decode (complete_lines [] cs))
        (last_failure decode no_failure (complete_lines [] cs))
        (parse_stream decode limit cs)
unfolding parse_stream
parse_stream-Tracks decode limit cs =
    parse_from-Tracks decode limit cs [] [] [] no_failure fresh no_result
      (record { over = ground arith; same = λ h. refl })
      (record {
        raws = record { first = sym (take_all limit [] (omega arith)); flag = ground arith };
        texts = record { first = sym (take_all limit [] (omega arith)); flag = ground arith };
        failed = refl;
      })
