-- ===== src/Replication/Armed.antt =====
-- That the caches are on only while the subscriber listens.
use synapse_gopro_worker.Prelude.{
  ◌≡◌, refl, true, false, List, [], ◌∷◌, Option, Bytes, bytes, Bool-cases, arith, ◌≢◌, inl, inr,
  sym, ◌∙◌,
}
use synapse_gopro_worker.Replication.Subscriber.{
  Phase, listening, waiting, stopped, Signal, subscription, message, pong, closed, cancelled, woke,
  request, Worker, apply_calls, arm, disarm, listen, wait, idle, step_in, step, start, after,
  apply_call, unstarted,
}
use synapse_gopro_worker.Replication.Commands.{Part, is_text, handle}
use synapse_gopro_worker.Replication.Switches.{
  AreSwitched, use_caches-AreSwitched, set_caches_armed-AreSwitched, new_caches-AreSwitched,
  apply_calls-AreSwitched,
}
use synapse_gopro_worker.Store.Caches.{Settings, set_caches_armed}
use synapse_gopro_worker.Replication.Mild.{handle-IsMild}

module _ (decode_row : Bytes → Option (List Part)) where
  -- The five switches stand as the gauge says, and the gauge is up only while a session listens.
  pub record IsGuarded (w : Worker) : Type 0 where
    pub switches : AreSwitched w.connected w.caches
    pub session : w.connected ≡ true → w.phase ≡ listening

  disarmed : (w : Worker) → AreSwitched w.connected w.caches → AreSwitched false (disarm w).caches
  unfolding disarm apply_calls apply_call
  disarmed w a = set_caches_armed-AreSwitched false w.connected w.caches a

  armed : (w : Worker) → AreSwitched w.connected w.caches → AreSwitched true (arm w).caches
  unfolding arm apply_calls apply_call
  armed w a =
      set_caches_armed-AreSwitched true false (set_caches_armed false w.caches)
        (set_caches_armed-AreSwitched false w.connected w.caches a)

  listen-IsGuarded :
      (s : Signal) (w : Worker)
      → w.phase ≡ listening
      → AreSwitched w.connected w.caches
      → IsGuarded (listen decode_row s w)
  unfolding listen
  listen-IsGuarded (subscription kind) w on a =
      elim (Bool-cases (is_text kind (bytes "subscribe"))) [
        | inl e ↦
            rw e (record { switches = unfold arm in armed w a; session = λ c. unfold arm in on })
        | inr e ↦ rw e (record { switches = a; session = λ c. on })
      ]
  listen-IsGuarded (message payload) w on a = record {
    switches =
        apply_calls-AreSwitched (handle decode_row payload) w.connected w.caches
          (handle-IsMild decode_row payload) a;
    session = λ c. on;
  }
  listen-IsGuarded closed w on a = record {
    switches = disarmed w a;
    session = λ c. absurd (unfold disarm in ground arith);
  }
  listen-IsGuarded cancelled w on a = record {
    switches = disarmed w a;
    session = λ c. absurd (unfold disarm in ground arith);
  }
  listen-IsGuarded (request u) w on a = record {
    switches = use_caches-AreSwitched a u;
    session = λ c. on;
  }
  listen-IsGuarded pong w on a = record { switches = a; session = λ c. on }
  listen-IsGuarded woke w on a = record { switches = a; session = λ c. on }

  wait-IsGuarded :
      (s : Signal) (w : Worker)
      → w.connected ≡ false
      → AreSwitched w.connected w.caches
      → IsGuarded (wait decode_row s w)
  unfolding wait
  wait-IsGuarded cancelled w off a = record {
    switches = disarmed w a;
    session = λ c. absurd (unfold disarm in ground arith);
  }
  wait-IsGuarded (request u) w off a = record {
    switches = use_caches-AreSwitched a u;
    session = λ c. absurd (ground arith);
  }
  wait-IsGuarded woke w off a = record { switches = a; session = λ c. refl }
  wait-IsGuarded s w off a = record { switches = a; session = λ c. absurd (ground arith) }

  idle-IsGuarded :
      (s : Signal) (w : Worker)
      → w.connected ≡ false
      → AreSwitched w.connected w.caches
      → IsGuarded (idle decode_row s w)
  unfolding idle
  idle-IsGuarded (request u) w off a = record {
    switches = use_caches-AreSwitched a u;
    session = λ c. absurd (ground arith);
  }
  idle-IsGuarded s w off a = record { switches = a; session = λ c. absurd (ground arith) }

  off_unless :
      (p : Phase) (w : Worker) → w.phase ≡ p → IsGuarded w → p ≢ listening → w.connected ≡ false
  off_unless p w e g other = elim (Bool-cases w.connected) [
    | inl on ↦ absurd (other (sym e ∙ g.session on))
    | inr off ↦ off
  ]

  step_in-IsGuarded :
      (p : Phase) (s : Signal) (w : Worker)
      → w.phase ≡ p
      → IsGuarded w
      → IsGuarded (step_in decode_row p s w)
  unfolding step_in
  step_in-IsGuarded listening s w e g = listen-IsGuarded s w e g.switches
  step_in-IsGuarded waiting s w e g =
      wait-IsGuarded s w (off_unless waiting w e g (ground arith)) g.switches
  step_in-IsGuarded stopped s w e g =
      idle-IsGuarded s w (off_unless stopped w e g (ground arith)) g.switches

  start-IsGuarded : (settings : Settings) → IsGuarded (start settings)
  unfolding start
  start-IsGuarded settings = record {
    switches = disarmed (unstarted settings) (new_caches-AreSwitched settings);
    session = λ c. absurd (unfold disarm in ground arith);
  }

  -- Whatever Redis and the requests do, from the start on, the five caches are valid, and all of them
  -- are on while the subscriber counts as connected and off otherwise; and it counts as connected only
  -- while a session listens.
  pub after-IsGuarded :
      (settings : Settings) (history : List Signal) → IsGuarded (after decode_row settings history)
  unfolding after step
  after-IsGuarded settings [] = start-IsGuarded settings
  after-IsGuarded settings (s ∷ history) =
      let w = after decode_row settings history in
      step_in-IsGuarded w.phase s w refl (after-IsGuarded settings history)
