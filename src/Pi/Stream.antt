-- ===== src/Pi/Stream.antt =====
-- The output of a pi process (adapters/pi/adapter.go, parseStream). Texts are lists of bytes; what
-- bufio's ReadLine returns is a list of chunks, each with the flag that its line goes on. A `limit`
-- is not negative (New replaces it otherwise). Decoding a line as JSON is a parameter.
use ai_solo_startup_framewor.Common.{
  ℕ, ◌-◌, String, Bool, true, false, not, ◌||◌, Option, none, some, List, [], ◌∷◌, ◌++◌, ◌==◌,
  length, take, ltb, leb, eqb, if◌then◌else◌,
}

abbrev pub Bytes : Type 0
Bytes = List ℕ

-- maxLineSize: 8 << 20
unfoldable pub max_line_size : ℕ
max_line_size = 8388608

-- contentBlock
pub record ContentBlock : Type 0 where
  pub kind : String
  pub text : Bytes

-- streamMessage
pub record StreamMessage : Type 0 where
  pub role : String
  pub content : List ContentBlock
  pub stop_reason : String
  pub error_message : String

-- streamEvent
pub record StreamEvent : Type 0 where
  pub kind : String
  pub message : Option StreamMessage

-- A failure: the message of the model, or the reason for which it stopped.
pub data StreamFailure : Type 0 where
  no_failure : StreamFailure
  said stopped : String → StreamFailure

-- streamResult, with the builder of its text.
pub record StreamResult : Type 0 where
  pub text : Bytes
  pub text_truncated : Bool
  pub failure : StreamFailure
  pub recognised : Bool
  pub raw : Bytes
  pub raw_truncated : Bool

abbrev pub no_result : StreamResult
no_result = record {
  text = [];
  text_truncated = false;
  failure = no_failure;
  recognised = false;
  raw = [];
  raw_truncated = false;
}

-- What is kept of a chunk, and whether some of it is lost, where `held` bytes are held.
unfoldable pub keep : ℕ → Bytes → Bytes → Bytes × Bool
keep limit held chunk =
    if leb limit (length held)
    then (held, not (eqb (length chunk) 0))
    else if ltb (limit - length held) (length chunk)
    then (held ++ take (limit - length held) chunk, true)
    else (held ++ chunk, false)

-- addRaw
unfoldable pub add_raw : ℕ → Bytes → StreamResult → StreamResult
unfolding keep
add_raw limit chunk res =
    let k = keep limit res.raw chunk in
    record res { raw = k.0; raw_truncated = res.raw_truncated || k.1 }

-- The loop of handleLine over the blocks.
unfoldable pub add_blocks : ℕ → List ContentBlock → StreamResult → StreamResult
unfolding keep
add_blocks limit [] res = res
add_blocks limit (b ∷ bs) res = add_blocks limit bs (
    if b.kind == "text"
    then (let k = keep limit res.text b.text in
        record res { text = k.0; text_truncated = res.text_truncated || k.1 })
    else res)

unfoldable pub failure_of : StreamMessage → StreamFailure
failure_of m =
    if m.stop_reason == "error" || m.stop_reason == "aborted"
    then (if m.error_message == "" then stopped m.stop_reason else said m.error_message)
    else no_failure

unfoldable pub handle_message : ℕ → StreamMessage → StreamResult → StreamResult
unfolding add_blocks failure_of
handle_message limit m res =
    if m.role == "assistant"
    then record (add_blocks limit m.content res) { failure = failure_of m }
    else res

unfoldable pub handle_end : ℕ → Option StreamMessage → StreamResult → StreamResult
unfolding handle_message
handle_end limit none res = res
handle_end limit (some m) res = handle_message limit m res

unfoldable pub handle_event : ℕ → Option StreamEvent → StreamResult → StreamResult
unfolding handle_end
handle_event limit none res = res
handle_event limit (some ev) res =
    if ev.kind == ""
    then res
    else if ev.kind == "message_end"
    then handle_end limit ev.message (record res { recognised = true })
    else record res { recognised = true }

-- One result of ReadLine; `goes_on` is isPrefix, which is also false at the last line where the
-- output ends without a line end.
pub record Chunk : Type 0 where
  pub bytes : Bytes
  pub goes_on : Bool

-- The line that is being assembled.
pub record Pending : Type 0 where
  pub line : Bytes
  pub overlong : Bool

abbrev pub fresh : Pending
fresh = record { line = []; overlong = false }

unfoldable pub extend : Bytes → Pending → Pending
extend chunk p =
    if p.overlong
    then p
    else if ltb max_line_size (length (p.line ++ chunk))
    then record { line = []; overlong = true }
    else record { line = p.line ++ chunk; overlong = false }

module _ (decode : Bytes → Option StreamEvent) (limit : ℕ) where
  -- handleLine; an empty line does not decode.
  unfoldable pub handle_line : Bytes → StreamResult → StreamResult
  unfolding handle_event
  handle_line line res = if eqb (length line) 0 then res else handle_event limit (decode line) res

  -- The end of a line that is not too long.
  unfoldable pub end_line : Pending → StreamResult → StreamResult
  unfolding handle_line
  end_line p res = if p.overlong then res else handle_line p.line res

  -- The loop of parseStream up to the end of the stream; a line that is cut off there is not handled.
  unfoldable pub parse_from : Pending → StreamResult → List Chunk → StreamResult
  unfolding extend add_raw end_line
  parse_from p res [] = res
  parse_from p res (c ∷ cs) =
      let q = extend c.bytes p in
      let kept = add_raw limit c.bytes res in
      let more = parse_from q kept cs in
      let next = parse_from fresh (end_line q kept) cs in if c.goes_on then more else next

  -- parseStream, apart from the error of the reader.
  unfoldable pub parse_stream : List Chunk → StreamResult
  unfolding parse_from
  parse_stream cs = parse_from fresh no_result cs
