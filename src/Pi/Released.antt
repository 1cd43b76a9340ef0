-- ===== src/Pi/Released.antt =====
-- The end of a turn with a registry (RunTask of the adapters): the token leads nowhere, the intents are
-- those of the sink.
use ai_solo_startup_framewor.Common.{◌≡◌, Bool, true, false, none, List, arith, eq_self}
use ai_solo_startup_framewor.Common.Dict.{lookup, lookup-remove}
use ai_solo_startup_framewor.Port.{ActionIntent}
use ai_solo_startup_framewor.Mcp.Registry.{Registry, Handle, drain}
use ai_solo_startup_framewor.Pi.Turn.{
  Output, ProviderResult, Ran, ok, err, check_contact, wired_result,
}

-- A drained handle has no entry.
pub released :
    (h : Handle) (r : Registry) → h.drained ≡ false → lookup h.token (drain h r).2.entries ≡ none
unfolding drain
released h r e = ground (arith, e, lookup-remove h.token h.token r.entries, eq_self h.token)

drain_again : (h : Handle) (r : Registry) → (drain h r).1.drained ≡ true
unfolding drain
drain_again h r = ground arith

drain_noop : (h : Handle) (r : Registry) → h.drained ≡ true → (drain h r).2 ≡ r
unfolding drain
drain_noop h r e = ground (arith, e)

pub wired_result-released :
    (h : Handle) (o : Ran Output) (r : Registry)
    → h.drained ≡ false
    → lookup h.token (wired_result h o r).1.entries ≡ none
unfolding wired_result
wired_result-released h (err e) r d = released h r d
wired_result-released h (ok o) r d =
    rw (drain_noop (drain h r).1 (drain h r).2 (drain_again h r)) (released h r d)

check_contact-intents :
    (c : Bool) (o : Output) (is : List ActionIntent) (res : ProviderResult)
    → check_contact c o is ≡ ok res
    → res.action_intents ≡ is
unfolding check_contact
check_contact-intents c o is res h = ground (arith, h)

pub wired_result-intents :
    (d : Handle) (o : Ran Output) (r : Registry) (res : ProviderResult)
    → (wired_result d o r).0 ≡ ok res
    → res.action_intents ≡ (drain d r).0
unfolding wired_result
wired_result-intents d (err e) r res h = cc
wired_result-intents d (ok o) r res h = check_contact-intents _ o (drain d r).0 res h
