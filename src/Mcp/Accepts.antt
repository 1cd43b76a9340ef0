-- ===== src/Mcp/Accepts.antt =====
-- What an invocation records, as a function of its calls alone (transport/mcp/tools.go): the sink, the
-- map of receipts and the flag of a delegation together stand for the list of the accepted calls.
use ai_solo_startup_framewor.Common.{
  ℕ, ◌≤◌, ◌≡◌, refl, ap, String, Bool, true, false, not, ◌&&◌, ◌||◌, Option, none, some, List, [],
  ◌∷◌, ◌++◌, map, ◌==◌, arith, length, length-append, ltb, if◌then◌else◌, Bool-cases, inl, inr,
}
use ai_solo_startup_framewor.Common.Dict.{lookup, lookup-put}
use ai_solo_startup_framewor.Port.{ActionIntent, kind_finish_task, kind_delegate_task}
use ai_solo_startup_framewor.Mcp.Registry.{Invocation}
use ai_solo_startup_framewor.Mcp.Tools.{ToolCall, dedupe_key, intent_of, locked_call}

-- A delegation is among the accepted calls.
abbrev pub any_delegation : List ToolCall → Bool
any_delegation [] = false
any_delegation (c ∷ cs) = c.kind == kind_delegate_task || any_delegation cs

-- A call with this key is among the accepted calls.
abbrev pub any_key : String → String → List ToolCall → Bool
any_key token k [] = false
any_key token k (c ∷ cs) = dedupe_key token c == k || any_key token k cs

-- A call is taken unless it repeats an accepted one, finishes after a delegation, or finds no room.
abbrev pub takes : String → ℕ → List ToolCall → ToolCall → Bool
takes token room done c =
    not (any_key token (dedupe_key token c) done)
    && not ((c.kind == kind_finish_task) && any_delegation done)
    && ltb (length done) room

abbrev pub take_call : String → ℕ → List ToolCall → ToolCall → List ToolCall
take_call token room done c = if takes token room done c then done ++ c ∷ [] else done

abbrev pub is_known : Option String → Bool
is_known none = false
is_known (some s) = true

-- The invocation's state stands for the accepted calls.
pub record Represents (token : String) (room : ℕ) (done : List ToolCall) (inv : Invocation)
    : Type 0 where
  pub intents : inv.sink.intents ≡ map intent_of done
  pub capacity : inv.sink.capacity ≡ room
  pub flag : inv.delegated ≡ any_delegation done
  pub keys : (k : String) → is_known (lookup k inv.dedupe) ≡ any_key token k done

pub length-map : (done : List ToolCall) → length (map intent_of done) ≡ length done
length-map [] = refl
length-map (c ∷ cs) = omega (arith, length-map cs)

map-snoc :
    (done : List ToolCall) (c : ToolCall)
    → map intent_of (done ++ c ∷ []) ≡ map intent_of done ++ intent_of c ∷ []
map-snoc [] c = refl
map-snoc (d ∷ done) c = ap (λ l. intent_of d ∷ l) (map-snoc done c)

any_delegation-snoc :
    (done : List ToolCall) (c : ToolCall)
    → any_delegation (done ++ c ∷ []) ≡ (any_delegation done || c.kind == kind_delegate_task)
any_delegation-snoc [] c = ground arith
any_delegation-snoc (d ∷ done) c = ground (arith, any_delegation-snoc done c)

any_key-snoc :
    (token k : String) (done : List ToolCall) (c : ToolCall)
    → any_key token k (done ++ c ∷ []) ≡ (any_key token k done || dedupe_key token c == k)
any_key-snoc token k [] c = ground arith
any_key-snoc token k (d ∷ done) c = ground (arith, any_key-snoc token k done c)

module _ (token receipt : String) (room : ℕ) (done : List ToolCall) (c : ToolCall)
    (inv : Invocation) (r : Represents token room done inv) where
  locked_call-intents :
      (locked_call token receipt c inv).1.sink.intents ≡ map intent_of (take_call token room done c)
  unfolding locked_call
  locked_call-intents = ground (
    arith,
    r.intents,
    r.capacity,
    r.flag,
    r.keys (dedupe_key token c),
    length-map done,
    map-snoc done c,
  )

  locked_call-capacity : (locked_call token receipt c inv).1.sink.capacity ≡ room
  unfolding locked_call
  locked_call-capacity = ground (arith, r.capacity)

  locked_call-flag :
      (locked_call token receipt c inv).1.delegated ≡ any_delegation (take_call token room done c)
  unfolding locked_call
  locked_call-flag = ground (
    arith,
    r.intents,
    r.capacity,
    r.flag,
    r.keys (dedupe_key token c),
    length-map done,
    any_delegation-snoc done c,
  )

  locked_call-keys :
      (k : String)
      → is_known (lookup k (locked_call token receipt c inv).1.dedupe)
        ≡ any_key token k (take_call token room done c)
  unfolding locked_call
  locked_call-keys k = ground (
    arith,
    r.intents,
    r.capacity,
    r.flag,
    r.keys k,
    r.keys (dedupe_key token c),
    length-map done,
    any_key-snoc token k done c,
    lookup-put (dedupe_key token c) k receipt inv.dedupe,
  )

  -- One call of a tool is one step on the accepted calls.
  pub locked_call-Represents :
      Represents token room (take_call token room done c) (locked_call token receipt c inv).1
  locked_call-Represents = record {
    intents = locked_call-intents;
    capacity = locked_call-capacity;
    flag = locked_call-flag;
    keys = locked_call-keys;
  }

-- The accepted calls of a sequence, after those already accepted.
abbrev pub accepted : String → ℕ → List ToolCall → List ToolCall → List ToolCall
accepted token room done [] = done
accepted token room done (c ∷ cs) = accepted token room (take_call token room done c) cs

-- No finish_task comes after a delegation.
abbrev pub FinishesFirst : Bool → List ActionIntent → Type 0
FinishesFirst delegated [] = Unit
FinishesFirst delegated (i ∷ is) =
    (((i.kind == kind_finish_task) && delegated) ≡ false)
    × FinishesFirst (delegated || i.kind == kind_delegate_task) is

-- What holds of every accepted sequence.
pub record IsOrderly (token : String) (room : ℕ) (done : List ToolCall) : Type 0 where
  pub bounded : length done ≤ room
  pub finishes : FinishesFirst false (map intent_of done)

FinishesFirst-snoc :
    (delegated : Bool) (done : List ToolCall) (c : ToolCall)
    → FinishesFirst delegated (map intent_of done)
    → ((c.kind == kind_finish_task) && (delegated || any_delegation done)) ≡ false
    → FinishesFirst delegated (map intent_of (done ++ c ∷ []))
unfolding intent_of
FinishesFirst-snoc delegated [] c h e = (ground arith, tt)
FinishesFirst-snoc delegated (d ∷ done) c h e =
    (h.0, FinishesFirst-snoc (delegated || d.kind == kind_delegate_task) done c h.1 (ground arith))

take_call-IsOrderly :
    (token : String) (room : ℕ) (done : List ToolCall) (c : ToolCall)
    → IsOrderly token room done
    → IsOrderly token room (take_call token room done c)
take_call-IsOrderly token room done c v = elim (Bool-cases (takes token room done c)) [
  | inr e ↦ rw e v
  | inl e ↦ rw e (record {
    bounded = ground (arith, v.bounded, length-append done (c ∷ []));
    finishes = FinishesFirst-snoc false done c v.finishes (ground arith);
  })
]

pub accepted-IsOrderly :
    (token : String) (room : ℕ) (done cs : List ToolCall)
    → IsOrderly token room done
    → IsOrderly token room (accepted token room done cs)
accepted-IsOrderly token room done [] v = v
accepted-IsOrderly token room done (c ∷ cs) v =
    accepted-IsOrderly token room (take_call token room done c) cs
      (take_call-IsOrderly token room done c v)
