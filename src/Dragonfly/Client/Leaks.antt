-- ===== src/Dragonfly/Client/Leaks.antt =====
-- The go-redis clients that a client opens and closes (pkg/dragonfly/client.go).
use gochoreo.Common.{
  ℕ, suc, ◌<◌, ◌↔◌, if◌then◌else◌, Mem, is_some, Bool-cases, if-eq-left, if-eq-right, ◌++◌, sym,
  ◌∙◌, ◌≡◌, refl, Bool, true, false, Option, none, some, List, [], ◌∷◌, ◌⊎◌, inl, inr, arith,
  Option-cases, ap, subst,
}
use gochoreo.Text.{Text, codes}
use gochoreo.Dragonfly.Errors.{Err, wrapping, caused_by}
use gochoreo.Dragonfly.Config.Presets.{default_config}
use gochoreo.Dragonfly.Config.{Config, validate}
use gochoreo.Dragonfly.Health.{Answers, Clock}
use gochoreo.Dragonfly.Client.{
  Client, new_client, build_client, start, stop, reload, switch_client, create_redis_client, round,
}
use gochoreo.Dragonfly.Client.Life.{Event, starts, stops, reloads, checks, apply_event, run_events}
use gochoreo.Dragonfly.Client.Ledger.{
  Ledger, first_ledger, note_reload, note_stop, Holds, Agrees, Agrees-open, answered-Agrees,
  lost-Agrees, stopped-Agrees, first-Agrees,
}

module _ {T : Type 0} (skip_verify : Bool → T) where
  -- A connection that was opened and not closed.
  abbrev pub IsOpen : ℕ → Client skip_verify → Type 0
  IsOpen i c = (i < c.opened) × (¬ Mem i c.closed)

  -- What a call does to the connections.
  unfoldable pub note : Event skip_verify → Ledger → Ledger
  note (starts ping send now) l = l
  note (checks a t) l = l
  note (stops close) l = note_stop l
  note (reloads none ping) l = l
  note (reloads (some config) ping) l = if is_some (validate config) then l else note_reload ping l

  unfoldable pub ledger_of : List (Event skip_verify) → Ledger → Ledger
  ledger_of [] l = l
  ledger_of (e ∷ es) l = ledger_of es (note e l)

  -- The client and the ledger say the same.
  record Matches (l : Ledger) (c : Client skip_verify) : Type 0 where
    opened_eq : c.opened ≡ l.next
    used_eq : c.client.id ≡ l.used
    stopped_eq : c.stop_once ≡ l.stopped
    agrees : Agrees l c.closed

  unchanged-Matches :
      (l : Ledger) (c c' : Client skip_verify)
      → c'.opened ≡ c.opened
      → c'.client.id ≡ c.client.id
      → c'.stop_once ≡ c.stop_once
      → c'.closed ≡ c.closed
      → Matches l c
      → Matches l c'
  unchanged-Matches l c c' opened used stopped closed h = record {
    opened_eq = opened ∙ h.opened_eq;
    used_eq = used ∙ h.used_eq;
    stopped_eq = stopped ∙ h.stopped_eq;
    agrees = subst (Agrees l) (sym closed) h.agrees;
  }

  start-Matches :
      (l : Ledger) (ping : Option Err) (send : Text → Option Err) (now : ℕ) (c : Client skip_verify)
      → Matches l c
      → Matches l (start skip_verify ping send now c).2
  unfolding start
  start-Matches l none send now c h =
      unchanged-Matches l c (start skip_verify none send now c).2 (ground arith) (ground arith)
        (ground arith) (ground arith) h
  start-Matches l (some err) send now c h =
      unchanged-Matches l c (start skip_verify (some err) send now c).2 (ground arith)
        (ground arith) (ground arith) (ground arith) h

  round-Matches :
      (l : Ledger) (a : Answers) (t : Clock) (c : Client skip_verify)
      → Matches l c
      → Matches l (round skip_verify a t c)
  unfolding round
  round-Matches l a t c h = elim (Option-cases c.health_checker) [
    | inl no_checker ↦ rw (round, no_checker) h
    | inr (hc, there) ↦ rw (round, there) (unchanged-Matches l c _ refl refl refl refl h)
  ]

  abbrev stopped_client : Client skip_verify → Client skip_verify
  stopped_client c = record c {
    stop_once = true;
    cancelled = true;
    routines = [];
    closed = c.closed ++ c.client.id ∷ [];
    connected = false;
  }

  stop-Matches :
      (l : Ledger) (close : Option Err) (c : Client skip_verify)
      → Matches l c
      → Matches (note_stop l) (stop skip_verify close c).1
  unfolding stop
  stop-Matches l close c h = elim (Bool-cases c.stop_once) [
    | inl again ↦
        subst (λ (r : Option Err × Client skip_verify). Matches (note_stop l) r.1)
          (sym (if-eq-left c.stop_once _ _ again))
          (subst (λ k. Matches k c) (sym (if-eq-left l.stopped _ _ (sym h.stopped_eq ∙ again))) h)
    | inr first ↦
        subst (λ (r : Option Err × Client skip_verify). Matches (note_stop l) r.1)
          (sym (if-eq-right c.stop_once _ _ first))
          (subst (λ k. Matches k (stopped_client c))
            (sym (if-eq-right l.stopped _ _ (sym h.stopped_eq ∙ first)))
            (record {
              opened_eq = h.opened_eq;
              used_eq = h.used_eq;
              stopped_eq = refl;
              agrees =
                  subst
                    (λ u.
                      Agrees (record l { stopped = true; used_open = false }) (c.closed ++ u ∷ []))
                    (sym h.used_eq) (stopped-Agrees l c.closed h.agrees);
            }))
  ]

  switch-Matches :
      (l : Ledger) (config : Config T) (ping : Option Err) (c : Client skip_verify)
      → Matches l c
      → Matches (note_reload ping l) (switch_client skip_verify config ping c).1
  unfolding switch_client create_redis_client
  switch-Matches l config none c h = record {
    opened_eq = ap suc h.opened_eq;
    used_eq = h.opened_eq;
    stopped_eq = h.stopped_eq;
    agrees =
        subst (λ u. Agrees (note_reload none l) (c.closed ++ u ∷ [])) (sym h.used_eq)
          (answered-Agrees l c.closed h.agrees);
  }
  switch-Matches l config (some err) c h = record {
    opened_eq = ap suc h.opened_eq;
    used_eq = h.used_eq;
    stopped_eq = h.stopped_eq;
    agrees = lost-Agrees l c.closed err h.agrees;
  }

  reload-Matches :
      (l : Ledger) (config : Config T) (ping : Option Err) (c : Client skip_verify)
      → Matches l c
      → Matches
          (if is_some (validate config) then l else note_reload ping l)
          (reload skip_verify (some config) ping c).1
  unfolding reload
  reload-Matches l config ping c h = elim (Option-cases (validate config)) [
    | inr (err, bad) ↦ rw (reload, bad) h
    | inl good ↦ rw (reload, good) (switch-Matches l config ping c h)
  ]

  apply_event-Matches :
      (e : Event skip_verify) (l : Ledger) (c : Client skip_verify)
      → Matches l c
      → Matches (note e l) (apply_event skip_verify e c)
  unfolding note apply_event
  apply_event-Matches (starts ping send now) l c h = start-Matches l ping send now c h
  apply_event-Matches (stops close) l c h = stop-Matches l close c h
  apply_event-Matches (checks a t) l c h = round-Matches l a t c h
  apply_event-Matches (reloads none ping) l c h = unfold reload in h
  apply_event-Matches (reloads (some config) ping) l c h = reload-Matches l config ping c h

  run_events-Matches :
      (es : List (Event skip_verify)) (l : Ledger) (c : Client skip_verify)
      → Matches l c
      → Matches (ledger_of es l) (run_events skip_verify es c)
  unfolding run_events ledger_of
  run_events-Matches [] l c h = h
  run_events-Matches (e ∷ es) l c h =
      run_events-Matches es (note e l) (apply_event skip_verify e c) (apply_event-Matches e l c h)

  built-Matches :
      (given : Config T) (now : ℕ) → Matches first_ledger (build_client skip_verify given now)
  built-Matches given now = record {
    opened_eq = refl;
    used_eq = refl;
    stopped_eq = refl;
    agrees = first-Agrees;
  }

  new_client-Matches :
      (config : Option (Config T)) (logger : Option Err) (now : ℕ) (c : Client skip_verify)
      → new_client skip_verify config logger now ≡ inr c
      → Matches first_ledger c
  unfolding new_client
  new_client-Matches config logger now c e =
      built (elim config [ none ↦ default_config | some given ↦ given ]) _ logger e
    where
      inr_injective :
          {a b : Client skip_verify} → ◌≡◌ {A = Err ⊎ Client skip_verify} (inr a) (inr b) → a ≡ b
      inr_injective q = cc

      built :
          (given : Config T) (v logger : Option Err)
          → elim v [
            | some err ↦ inl (wrapping (codes "invalid configuration: ") (caused_by err))
            | none ↦ elim logger [
              | some err ↦ inl (wrapping (codes "failed to create logger: ") (caused_by err))
              | none ↦ inr (build_client skip_verify given now)
            ]
          ]
            ≡ inr c
          → Matches first_ledger c
      built given (some err) logger q = cc
      built given none (some err) q = cc
      built given none none q =
          subst (Matches first_ledger) (inr_injective q) (built-Matches given now)

  -- From a client that NewClient returned, after any sequence of calls, the connections that were
  -- opened and not closed are exactly these: the one of every Reload with a valid configuration
  -- whose ping failed, and the one that the client uses, unless the first Stop closed it and no
  -- Reload succeeded after that.
  pub run_events-leaks :
      (config : Option (Config T)) (logger : Option Err) (now : ℕ) (c : Client skip_verify)
      (es : List (Event skip_verify)) (i : ℕ)
      → new_client skip_verify config logger now ≡ inr c
      → (let l = ledger_of es first_ledger in
          let c' = run_events skip_verify es c in
          (c'.client.id ≡ l.used)
          × (IsOpen i c' ↔ (Mem i l.lost ⊎ ((l.used_open ≡ true) × (i ≡ l.used)))))
  run_events-leaks config logger now c es i e =
      let l = ledger_of es first_ledger in
      let c' = run_events skip_verify es c in
      let m = run_events-Matches es first_ledger c (new_client-Matches config logger now c e) in
      (
        m.used_eq,
        subst (λ n. ((i < n) × (¬ Mem i c'.closed)) ↔ Holds l i) (sym m.opened_eq)
            (Agrees-open l c'.closed m.agrees i),
      )
