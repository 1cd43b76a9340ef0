-- ===== src/Supervisor/Watchers/Wake.antt =====
-- When a watcher wakes its task (watchPeer of core/supervisor/watcher.go).
use ai_solo_startup_framewor.Common.{
  String, ◌≡◌, ◌≢◌, refl, ap, sym, ◌∙◌, suc, ◌⊎◌, inl, inr, Bool, true, false, ◌&&◌, Option, some,
  none, List, ◌∷◌, arith, Bool-cases, Option-cases,
}
use ai_solo_startup_framewor.Store
use ai_solo_startup_framewor.Task.{TaskRecord}
use ai_solo_startup_framewor.Supervisor.World.{
  Config, Env, DelegationResult, Effect, polled, resumed, World, ask, perform, load, get_resumer,
  ◌>>=◌,
}
use ai_solo_startup_framewor.Supervisor.Watchers.{
  peer_update, peer_timeout, is_input_required, is_parked_on, parked_of, same_bool, Verdict, wait,
  wake, verdict, parked_record, deliver, judge, polled_state, poll_peer, watch_tick,
}

-- Why a task is woken: its peer ended, or is escalated where the record says it is not or the other
-- way round, or neither holds and the deadline passed while the peer runs.
abbrev pub Due : Bool → Bool → Bool → Bool → String → Type 0
Due terminal escalated approval in_time input =
    ((input ≡ peer_update) × ((terminal ≡ true) ⊎ (escalated ≢ approval)))
    ⊎ ((input ≡ peer_timeout)
        × (terminal ≡ false)
        × (escalated ≡ approval)
        × (escalated ≡ false)
        × (in_time ≡ false))

verdict-Due :
    (terminal escalated approval in_time : Bool) (input : String)
    → verdict terminal escalated approval in_time ≡ wake input
    → Due terminal escalated approval in_time input
unfolding verdict same_bool
verdict-Due terminal escalated approval in_time input h = grind arith

abbrev or_else : TaskRecord → Option TaskRecord → TaskRecord
or_else r none = r
or_else r (some rec) = rec

parked_of-some :
    (peer_id : String) (r : Store.Result TaskRecord) (rec : TaskRecord)
    → parked_of peer_id r ≡ some rec
    → (r ≡ Store.ok rec) × (is_parked_on peer_id rec ≡ true)
unfolding parked_of
parked_of-some peer_id (Store.err e) rec h = ground arith
parked_of-some peer_id (Store.ok r) rec h = elim (Bool-cases (is_parked_on peer_id r)) [
  | inl e ↦
      let same : r ≡ rec = ap (or_else r) (rw e at h) in
      (ap Store.ok same, ap (is_parked_on peer_id) (sym same) ∙ e)
  | inr e ↦ ground arith
]

verdict-cases : (v : Verdict) → (v ≡ wait) ⊎ (input : String) × (v ≡ wake input)
verdict-cases wait = inl refl
verdict-cases (wake input) = inr (input, refl)

module _ (env : Env) (cfg : Config) (id peer_id : String) (res : DelegationResult) where
  abbrev Judged : World → TaskRecord → String → Type 0
  Judged w rec input =
      (is_parked_on peer_id rec ≡ true)
      × Due (env.protocol.terminal res.state) (is_input_required res.state)
          rec.awaiting_peer_approval (env.before_deadline w.questions) input

  judge-Due :
      (rec : TaskRecord) (w : World)
      → is_parked_on peer_id rec ≡ true
      → let new = (judge env cfg id res (some rec) w).1.effects in
        (new ≡ w.effects)
        ⊎ ((input : String) × (new ≡ resumed id input ∷ w.effects) × Judged w rec input)
  unfolding judge deliver perform ask ◌>>=◌
  judge-Due rec w parked =
      elim (verdict-cases (
        verdict (env.protocol.terminal res.state) (is_input_required res.state)
          rec.awaiting_peer_approval (env.before_deadline w.questions))) [
            | inl e ↦ inl (simp e)
            | inr (input, e) ↦ inr (input, simp e, (parked, verdict-Due _ _ _ _ input e))
          ]

  polled_state-Due :
      (w : World)
      → let new = (polled_state env cfg id peer_id (some res) w).1.effects in
        (new ≡ w.effects)
        ⊎ ((input : String) × (rec : TaskRecord) × (new ≡ resumed id input ∷ w.effects)
            × ((Store.load env.faults cfg.addr id w.disk).0 ≡ Store.ok rec)
            × Judged w rec input)
  unfolding polled_state parked_record load judge ◌>>=◌
  polled_state-Due w =
      elim (Option-cases (parked_of peer_id (Store.load env.faults cfg.addr id w.disk).0)) [
        | inl e ↦ inl (simp e)
        | inr (rec, e) ↦
            let (found, parked) = parked_of-some peer_id _ rec e in
            elim (judge-Due rec (record w { disk = (Store.load env.faults cfg.addr id w.disk).1 })
              parked) [
                | inl same ↦ inl (simp e same)
                | inr (input, woken, due) ↦ inr (input, rec, simp e woken, found, due)
              ]
      ]

module _ (env : Env) (cfg : Config) (id role peer_id : String) where
  -- The task is woken, for a peer's answer and a record that call for it.
  abbrev pub Woken : World → List Effect → Type 0
  Woken w new =
      (input : String) × (res : DelegationResult) × (rec : TaskRecord) × (new
        ≡ resumed id input ∷ polled role peer_id ∷ w.effects)
      × (env.peer_task_state w.questions role peer_id ≡ some res)
      × ((Store.load env.faults cfg.addr id w.disk).0 ≡ Store.ok rec)
      × (is_parked_on peer_id rec ≡ true)
      × Due (env.protocol.terminal res.state) (is_input_required res.state)
          rec.awaiting_peer_approval (env.before_deadline (suc w.questions)) input

  abbrev polled_at : World → World
  polled_at w = record w { effects = polled role peer_id ∷ w.effects; questions = suc w.questions }

  -- A tick of a watcher leaves the task asleep, with or without a read of the peer, or wakes it once:
  -- then the stored record is parked on this very peer and on no human verdict, and the peer ended,
  -- changed its escalation, or still runs past the deadline.
  pub watch_tick-Woken :
      (w : World)
      → let new = (watch_tick env cfg id role peer_id w).1.effects in
        (new ≡ w.effects) ⊎ ((new ≡ polled role peer_id ∷ w.effects) ⊎ Woken w new)
  unfolding watch_tick get_resumer poll_peer perform ask ◌>>=◌
  watch_tick-Woken w = elim (Bool-cases (cfg.has_delegator && w.resumer)) [
    | inr off ↦ inl (simp off)
    | inl on ↦ elim (Option-cases (env.peer_task_state w.questions role peer_id)) [
      | inl e ↦ inr (inl (simp (on, e)))
      | inr (res, e) ↦ elim (polled_state-Due env cfg id peer_id res (polled_at w)) [
        | inl same ↦ inr (inl (simp (on, e) same))
        | inr (input, rec, woken, found, due) ↦
            inr (inr (input, res, rec, simp (on, e) woken, e, found, due.0, due.1))
      ]
    ]
  ]
