-- ===== src/Ui/Events.antt =====
-- The stream of events of ui/handler.go: Broadcast, handleEvents and Shutdown. A client's channel holds
-- eight messages; what its handler has written is kept, apart from pings. Each step is one action of
-- one goroutine.
use ai_solo_startup_framewor.Common.{
  ℕ, suc, ◌≤◌, String, Bool, true, false, not, List, [], ◌∷◌, ◌++◌, map, keep_if, length, ltb, eqb,
  ◌≡◌, if◌then◌else◌,
}

abbrev pub client_capacity : ℕ
client_capacity = 8

-- sseClient, by its number; `waiting` is its channel, `written` the messages in its response.
pub record SseClient : Type 0 where
  pub number : ℕ
  pub waiting : List String
  pub written : List String

-- UIHandler, without the supervisor.
pub record UiHandler : Type 0 where
  pub clients : List SseClient
  pub next : ℕ
  pub closed : Bool

unfoldable pub new_ui_handler : UiHandler
new_ui_handler = record { clients = []; next = 0; closed = false }

-- The select of Broadcast: a client with a full channel is passed over.
unfoldable pub offer : String → SseClient → SseClient
offer msg c =
    if ltb (length c.waiting) client_capacity
    then record c { waiting = c.waiting ++ msg ∷ [] }
    else c

-- Broadcast
unfoldable pub broadcast : String → UiHandler → UiHandler
unfolding offer
broadcast msg h = record h { clients = map (offer msg) h.clients }

-- The first part of handleEvents.
unfoldable pub connect : UiHandler → UiHandler
connect h = record h {
  clients = h.clients ++ record { number = h.next; waiting = []; written = [] } ∷ [];
  next = suc h.next;
}

unfoldable pub write_first : List String → SseClient → SseClient
write_first [] c = c
write_first (m ∷ ms) c = record c { waiting = ms; written = c.written ++ m ∷ [] }

unfoldable pub write_if : ℕ → SseClient → SseClient
unfolding write_first
write_if i c = if eqb c.number i then write_first c.waiting c else c

-- A round of the loop of handleEvents that receives from the channel.
unfoldable pub receive : ℕ → UiHandler → UiHandler
unfolding write_if
receive i h = record h { clients = map (write_if i) h.clients }

-- The deferred end of handleEvents.
unfoldable pub disconnect : ℕ → UiHandler → UiHandler
disconnect i h = record h { clients = keep_if (λ c. not (eqb c.number i)) h.clients }

-- Shutdown
unfoldable pub close_ui : UiHandler → UiHandler
close_ui h = record h { closed = true }

pub data UiStep : Type 0 where
  sent : String → UiStep
  connected closed_down : UiStep
  received disconnected : ℕ → UiStep

unfoldable pub ui_step : UiStep → UiHandler → UiHandler
unfolding broadcast connect receive disconnect close_ui
ui_step (sent m) h = broadcast m h
ui_step connected h = connect h
ui_step closed_down h = close_ui h
ui_step (received i) h = receive i h
ui_step (disconnected i) h = disconnect i h

unfoldable pub ui_steps : List UiStep → UiHandler → UiHandler
unfolding ui_step
ui_steps [] h = h
ui_steps (s ∷ ss) h = ui_steps ss (ui_step s h)

-- What is sent after each client has connected, by their numbers.
abbrev pub sent_since : ℕ → (ℕ → List String) → List UiStep → ℕ → List String
sent_since n log [] = log
sent_since n log (sent m ∷ ss) = sent_since n (λ j. log j ++ m ∷ []) ss
sent_since n log (connected ∷ ss) = sent_since (suc n) (λ j. if eqb j n then [] else log j) ss
sent_since n log (closed_down ∷ ss) = sent_since n log ss
sent_since n log (received i ∷ ss) = sent_since n log ss
sent_since n log (disconnected i ∷ ss) = sent_since n log ss

-- A part of a list, in order.
pub data IsPart : List String → List String → Type 0 where
  none_of : IsPart [] []
  with_last :
      {xs ys : List String} (x : String) → IsPart xs ys → IsPart (xs ++ x ∷ []) (ys ++ x ∷ [])
  without_last : {xs ys : List String} (y : String) → IsPart xs ys → IsPart xs (ys ++ y ∷ [])

-- What a client gets of what is sent.
pub record IsServed (sent_to : List String) (c : SseClient) : Type 0 where
  pub bounded : length c.waiting ≤ client_capacity
  pub ordered : IsPart (c.written ++ c.waiting) sent_to
  pub complete : length sent_to ≤ client_capacity → c.written ++ c.waiting ≡ sent_to
