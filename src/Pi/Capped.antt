-- ===== src/Pi/Capped.antt =====
-- The texts that parseStream of adapters/pi/adapter.go keeps, against the whole texts.
use ai_solo_startup_framewor.Common.{
  ℕ, ◌-◌, ◌≡◌, refl, sym, ap, ◌∙◌, Bool, true, false, ◌||◌, inl, inr, Option, none, some, List, [],
  ◌∷◌, ◌++◌, append-nil, append_assoc, ◌==◌, eq_iff, arith, length, length-append, take, take_all,
  take-append, take_first, length-take, ltb, if◌then◌else◌, Bool-cases,
}
use ai_solo_startup_framewor.Pi.Stream.{
  Bytes, ContentBlock, StreamMessage, StreamEvent, StreamFailure, StreamResult, keep, add_raw,
  add_blocks, failure_of, handle_message, handle_end, handle_event,
}

-- The first `limit` bytes of a text are held, and the flag says whether that is less than all.
pub record Holds (limit : ℕ) (full held : Bytes) (lost : Bool) : Type 0 where
  pub first : held ≡ take limit full
  pub flag : lost ≡ ltb limit (length full)

keep-Holds :
    (limit : ℕ) (full held chunk : Bytes) (lost : Bool)
    → Holds limit full held lost
    → Holds limit (full ++ chunk) (keep limit held chunk).0 (lost || (keep limit held chunk).1)
unfolding keep
keep-Holds limit full held chunk lost h = elim (Bool-cases (ltb limit (length full))) [
  | inl e ↦ record {
    first = ground (arith, h.first, e, length-take limit full, take_first limit full chunk);
    flag = ground (arith, h.flag, e, length-append full chunk);
  }
  | inr e ↦
      let p = h.first ∙ take_all limit full (ground (arith, e)) in
      record {
        first = ground (
          arith,
          e,
          p,
          take_all (limit - length full) chunk,
          take_first limit full chunk,
          take_all limit full,
          take-append limit (limit - length full) full chunk,
        );
        flag = ground (arith, h.flag, e, p, length-append full chunk);
      }
]

-- The text blocks of a message.
abbrev pub text_of_blocks : List ContentBlock → Bytes
text_of_blocks [] = []
text_of_blocks (b ∷ bs) = (if b.kind == "text" then b.text else []) ++ text_of_blocks bs

-- The message of an assistant that a line reports, if it does.
abbrev pub assistant_message : Option StreamMessage → Option StreamMessage
assistant_message none = none
assistant_message (some m) = if m.role == "assistant" then some m else none

abbrev pub message_of : Option StreamEvent → Option StreamMessage
message_of none = none
message_of (some ev) = if ev.kind == "message_end" then assistant_message ev.message else none

abbrev pub text_of_message : Option StreamMessage → Bytes
text_of_message none = []
text_of_message (some m) = text_of_blocks m.content

-- The last message decides whether the run failed.
abbrev pub failure_after : StreamFailure → Option StreamMessage → StreamFailure
failure_after f none = f
failure_after f (some m) = failure_of m

-- A result stands for all output and all text so far, and for the failure of the last message.
pub record Tracks (limit : ℕ) (raw text : Bytes) (failure : StreamFailure) (res : StreamResult)
    : Type 0 where
  pub raws : Holds limit raw res.raw res.raw_truncated
  pub texts : Holds limit text res.text res.text_truncated
  pub failed : res.failure ≡ failure

pub add_raw-Tracks :
    (limit : ℕ) (raw text chunk : Bytes) (f : StreamFailure) (res : StreamResult)
    → Tracks limit raw text f res
    → Tracks limit (raw ++ chunk) text f (add_raw limit chunk res)
unfolding add_raw
add_raw-Tracks limit raw text chunk f res t = record {
  raws = keep-Holds limit raw res.raw chunk res.raw_truncated t.raws;
  texts = t.texts;
  failed = t.failed;
}

add_blocks-Tracks :
    (limit : ℕ) (raw text : Bytes) (bs : List ContentBlock) (f : StreamFailure) (res : StreamResult)
    → Tracks limit raw text f res
    → Tracks limit raw (text ++ text_of_blocks bs) f (add_blocks limit bs res)
unfolding add_blocks
add_blocks-Tracks limit raw text [] f res t = rw append-nil t
add_blocks-Tracks limit raw text (b ∷ bs) f res t = elim (Bool-cases (b.kind == "text")) [
  | inl e ↦
      rw (e, sym (append_assoc text b.text (text_of_blocks bs)))
        (add_blocks-Tracks limit raw (text ++ b.text) bs f _ (record {
          raws = t.raws;
          texts = keep-Holds limit text res.text b.text res.text_truncated t.texts;
          failed = t.failed;
        }))
  | inr e ↦ rw e (add_blocks-Tracks limit raw text bs f res t)
]

handle_message-Tracks :
    (limit : ℕ) (raw text : Bytes) (m : StreamMessage) (f : StreamFailure) (res : StreamResult)
    → Tracks limit raw text f res
    → Tracks limit raw
        (text ++ text_of_message (assistant_message (some m)))
        (failure_after f (assistant_message (some m)))
        (handle_message limit m res)
unfolding handle_message
handle_message-Tracks limit raw text m f res t = elim (Bool-cases (m.role == "assistant")) [
  | inr e ↦ rw (e, append-nil text) t
  | inl e ↦
      let u = add_blocks-Tracks limit raw text m.content f res t in
      rw e (record { raws = u.raws; texts = u.texts; failed = refl })
]

mark_recognised-Tracks :
    (limit : ℕ) (raw text : Bytes) (f : StreamFailure) (res : StreamResult)
    → Tracks limit raw text f res
    → Tracks limit raw text f (record res { recognised = true })
mark_recognised-Tracks limit raw text f res t = record {
  raws = t.raws;
  texts = t.texts;
  failed = t.failed;
}

handle_end-Tracks :
    (limit : ℕ) (raw text : Bytes) (m : Option StreamMessage) (f : StreamFailure)
    (res : StreamResult)
    → Tracks limit raw text f res
    → Tracks limit raw
        (text ++ text_of_message (assistant_message m))
        (failure_after f (assistant_message m))
        (handle_end limit m res)
unfolding handle_end
handle_end-Tracks limit raw text none f res t = rw append-nil t
handle_end-Tracks limit raw text (some m) f res t = handle_message-Tracks limit raw text m f res t

pub handle_event-Tracks :
    (limit : ℕ) (raw text : Bytes) (ev : Option StreamEvent) (f : StreamFailure)
    (res : StreamResult)
    → Tracks limit raw text f res
    → Tracks limit raw
        (text ++ text_of_message (message_of ev))
        (failure_after f (message_of ev))
        (handle_event limit ev res)
unfolding handle_event
handle_event-Tracks limit raw text none f res t = rw append-nil t
handle_event-Tracks limit raw text (some ev) f res t =
    elim (Bool-cases (ev.kind == "message_end")) [
      | inl e ↦
          let p : (ev.kind == "") ≡ false =
            ap (λ k. k == "") ((eq_iff ev.kind "message_end").0 e) in
          rw (e, p)
            (handle_end-Tracks limit raw text ev.message f _
              (mark_recognised-Tracks limit raw text f res t))
      | inr e ↦
          rw (e, append-nil text)
            (elim (Bool-cases (ev.kind == "")) [
              | inl p ↦ rw p t
              | inr p ↦ rw p (mark_recognised-Tracks limit raw text f res t)
            ])
    ]
