-- ===== src/Ui/Served.antt =====
-- What the clients of ui/handler.go get of the events that are sent.
use ai_solo_startup_framewor.Common.{
  ℕ, suc, ◌<◌, String, Bool, true, false, List, [], ◌∷◌, ◌++◌, append_assoc, map, keep_if, length,
  length-append, ltb, eqb, ◌≡◌, refl, sym, subst, ap, ◌∙◌, arith, All, Bool-cases, inl, inr,
  if◌then◌else◌,
}
use ai_solo_startup_framewor.Ui.Events.{
  client_capacity, SseClient, UiHandler, new_ui_handler, offer, broadcast, connect, write_first,
  write_if, receive, disconnect, close_ui, UiStep, sent, connected, closed_down, received,
  disconnected, ui_step, ui_steps, sent_since, IsPart, none_of, with_last, without_last, IsServed,
}

offer-IsServed :
    (m : String) (log : List String) (c : SseClient)
    → IsServed log c
    → IsServed (log ++ m ∷ []) (offer m c)
unfolding offer
offer-IsServed m log c s = elim (Bool-cases (ltb (length c.waiting) client_capacity)) [
  | inl e ↦ rw e (record {
    bounded = ground (arith, e, length-append c.waiting (m ∷ []));
    ordered =
        subst (λ l. IsPart l (log ++ m ∷ [])) (append_assoc c.written c.waiting (m ∷ []))
          (with_last m s.ordered);
    complete = λ h.
        sym (append_assoc c.written c.waiting (m ∷ []))
        ∙ ap (λ l. l ++ m ∷ [])
            (s.complete (let p = length-append log (m ∷ []) in omega (arith, h, p)));
  })
  | inr e ↦ rw e (record {
    bounded = s.bounded;
    ordered = without_last m s.ordered;
    complete = λ h.
        let p = length-append log (m ∷ []) in
        let q = s.complete (omega (arith, h, p)) in
        let t = length-append c.written c.waiting in ground (arith, e, h, p, t, ap length q);
  })
]

write_first-IsServed :
    (log ms : List String) (c : SseClient)
    → c.waiting ≡ ms
    → IsServed log c
    → IsServed log (write_first ms c)
unfolding write_first
write_first-IsServed log [] c e s = s
write_first-IsServed log (m ∷ ms) c e s =
    let p : (c.written ++ m ∷ []) ++ ms ≡ c.written ++ c.waiting =
      append_assoc c.written (m ∷ []) ms ∙ ap (λ l. c.written ++ l) (sym e) in
    record {
      bounded = let b = s.bounded in let q = ap length e in omega (arith, b, q);
      ordered = subst (λ l. IsPart l log) (sym p) s.ordered;
      complete = λ h. p ∙ s.complete h;
    }

write_if-IsServed :
    (i : ℕ) (log : List String) (c : SseClient) → IsServed log c → IsServed log (write_if i c)
unfolding write_if
write_if-IsServed i log c s = elim (Bool-cases (eqb c.number i)) [
  | inl e ↦ rw e (write_first-IsServed log c.waiting c refl s)
  | inr e ↦ rw e s
]

-- All clients are served by their logs, and have numbers that are given.
record AreServed (n : ℕ) (log : ℕ → List String) (c : SseClient) : Type 0 where
  served : IsServed (log c.number) c
  given : c.number < n

broadcast-AreServed :
    (m : String) (n : ℕ) (log : ℕ → List String) (cs : List SseClient)
    → All (AreServed n log) cs
    → All (AreServed n (λ j. log j ++ m ∷ [])) (map (offer m) cs)
unfolding offer
broadcast-AreServed m n log [] s = tt
broadcast-AreServed m n log (c ∷ cs) s =
    let e : (offer m c).number ≡ c.number = ground arith in
    (
      record {
        served = rw e (offer-IsServed m (log c.number) c s.0.served);
        given = rw e s.0.given;
      },
      broadcast-AreServed m n log cs s.1,
    )

write_if_number : (i : ℕ) (c : SseClient) → (write_if i c).number ≡ c.number
unfolding write_if write_first
write_if_number i c = elim (Bool-cases (eqb c.number i)) [
  | inl e ↦ rw e (go c.waiting)
  | inr e ↦ rw e refl
]
  where
    go : (ms : List String) → (write_first ms c).number ≡ c.number
    go [] = refl
    go (m ∷ ms) = refl

receive-AreServed :
    (i n : ℕ) (log : ℕ → List String) (cs : List SseClient)
    → All (AreServed n log) cs
    → All (AreServed n log) (map (write_if i) cs)
unfolding write_if
receive-AreServed i n log [] s = tt
receive-AreServed i n log (c ∷ cs) s =
    let e = write_if_number i c in
    (
      record {
        served = rw e (write_if-IsServed i (log c.number) c s.0.served);
        given = rw e s.0.given;
      },
      receive-AreServed i n log cs s.1,
    )

disconnect-AreServed :
    (p : SseClient → Bool) (n : ℕ) (log : ℕ → List String) (cs : List SseClient)
    → All (AreServed n log) cs
    → All (AreServed n log) (keep_if p cs)
disconnect-AreServed p n log [] s = tt
disconnect-AreServed p n log (c ∷ cs) s = elim (Bool-cases (p c)) [
  | inl e ↦ rw e (s.0, disconnect-AreServed p n log cs s.1)
  | inr e ↦ rw e (disconnect-AreServed p n log cs s.1)
]

-- The log of a new client is empty; those of the others stay.
abbrev with_new : ℕ → (ℕ → List String) → ℕ → List String
with_new n log j = if eqb j n then [] else log j

connect-AreServed :
    (n : ℕ) (log : ℕ → List String) (cs : List SseClient)
    → All (AreServed n log) cs
    → All
        (AreServed (suc n) (with_new n log))
        (cs ++ record { number = n; waiting = []; written = [] } ∷ [])
connect-AreServed n log [] s =
    let e : eqb n n ≡ true = ground arith in
    (
      record {
        served = rw e (record { bounded = omega arith; ordered = none_of; complete = λ h. refl });
        given = omega arith;
      },
      tt,
    )
connect-AreServed n log (c ∷ cs) s =
    let g = s.0.given in
    let e : eqb c.number n ≡ false = ground (arith, g) in
    (record { served = rw e s.0.served; given = omega (arith, g) }, connect-AreServed n log cs s.1)

ui_steps-AreServed :
    (ss : List UiStep) (log : ℕ → List String) (h : UiHandler)
    → All (AreServed h.next log) h.clients
    → All (λ c. IsServed (sent_since h.next log ss c.number) c) (ui_steps ss h).clients
unfolding ui_steps ui_step broadcast connect receive disconnect close_ui
ui_steps-AreServed [] log h s = go h.clients s
  where
    go :
        (cs : List SseClient)
        → All (AreServed h.next log) cs
        → All (λ c. IsServed (log c.number) c) cs
    go [] s = tt
    go (c ∷ cs) s = (s.0.served, go cs s.1)
ui_steps-AreServed (sent m ∷ ss) log h s =
    ui_steps-AreServed ss _ (broadcast m h) (broadcast-AreServed m h.next log h.clients s)
ui_steps-AreServed (connected ∷ ss) log h s =
    ui_steps-AreServed ss _ (connect h) (connect-AreServed h.next log h.clients s)
ui_steps-AreServed (closed_down ∷ ss) log h s = ui_steps-AreServed ss log (close_ui h) s
ui_steps-AreServed (received i ∷ ss) log h s =
    ui_steps-AreServed ss log (receive i h) (receive-AreServed i h.next log h.clients s)
ui_steps-AreServed (disconnected i ∷ ss) log h s =
    ui_steps-AreServed ss log (disconnect i h) (disconnect-AreServed _ h.next log h.clients s)

-- Whatever a new handler and its clients do, each client that is connected then has at most eight
-- messages waiting; what was written to it and what waits for it is, in order, a part of what was sent
-- since it connected, and is all of that if no more than eight messages were sent.
pub ui_steps-IsServed :
    (ss : List UiStep)
    → All
        (λ c. IsServed (sent_since 0 (λ j. []) ss c.number) c)
        (ui_steps ss new_ui_handler).clients
unfolding new_ui_handler
ui_steps-IsServed ss = ui_steps-AreServed ss (λ j. []) new_ui_handler tt
