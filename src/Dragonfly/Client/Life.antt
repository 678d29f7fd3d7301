-- ===== src/Dragonfly/Client/Life.antt =====
-- What a client keeps through its life: the configuration and the connection on errors, the flag
-- that says it is connected, and the go-redis clients that it opened.
use gochoreo.Common.{
  ℕ, ◌≡◌, refl, Bool, true, false, Option, none, some, List, [], ◌∷◌, ◌++◌, ◌⊎◌, inl, inr, is_some,
  arith, Option-cases, Bool-cases, if-eq-left, All,
}
use gochoreo.Text.{Text}
use gochoreo.Dragonfly.Errors.{Err}
use gochoreo.Dragonfly.Config.{Config, validate}
use gochoreo.Dragonfly.Health.{
  HealthChecker, HealthStatus, Answers, Clock, check, finish_check, perform_health_check,
}
use gochoreo.Dragonfly.Client.{
  Client, start, stop, reload, switch_client, create_redis_client, round,
}

module _ {T : Type 0} (skip_verify : Bool → T) where
  abbrev pub Reloaded : Config T → Client skip_verify → Client skip_verify → Type 0
  Reloaded config c c' =
      (c'.config ≡ config) × (c'.client.id ≡ c.opened) × (c'.closed ≡ c.closed ++ c.client.id ∷ [])

  abbrev pub Kept : Client skip_verify → Client skip_verify → Type 0
  Kept c c' = (c'.config ≡ c.config) × (c'.client ≡ c.client) × (c'.closed ≡ c.closed)

  -- If Reload returns an error, the client keeps its configuration, its connection, and closes
  -- nothing. If it does not, the configuration that it was given was valid and is now the client's,
  -- the client uses a newly opened connection and the old one is closed.
  pub reload_lem :
      (config : Option (Config T)) (ping : Option Err) (c : Client skip_verify)
      → (let r = reload skip_verify config ping c in
          ((is_some r.0 ≡ true) × Kept c r.1)
          ⊎ ((given : Config T) × (config ≡ some given)
              × (validate given ≡ none)
              × (ping ≡ none)
              × (r.0 ≡ none)
              × Reloaded given c r.1))
  unfolding reload switch_client create_redis_client
  reload_lem none ping c = inl (refl, (refl, refl, refl))
  reload_lem (some given) none c = elim (Option-cases (validate given)) [
    | inr (err, bad) ↦ rw (reload, bad) (inl (refl, (refl, refl, refl)))
    | inl good ↦ rw (reload, good) (inr (given, refl, good, refl, refl, (refl, refl, refl)))
  ]
  reload_lem (some given) (some e) c = elim (Option-cases (validate given)) [
    | inr (err, bad) ↦ rw (reload, bad) (inl (refl, (refl, refl, refl)))
    | inl good ↦ rw (reload, good) (inl (refl, (refl, refl, refl)))
  ]

  -- A call of a method that changes the client.
  pub data Event : Type 0 where
    starts : Option Err → (Text → Option Err) → ℕ → Event
    stops : Option Err → Event
    reloads : Option (Config T) → Option Err → Event
    checks : Answers → Clock → Event

  unfoldable pub apply_event : Event → Client skip_verify → Client skip_verify
  apply_event (starts ping send now) c = (start skip_verify ping send now c).2
  apply_event (stops close) c = (stop skip_verify close c).1
  apply_event (reloads config ping) c = (reload skip_verify config ping c).1
  apply_event (checks a t) c = round skip_verify a t c

  unfoldable pub run_events : List Event → Client skip_verify → Client skip_verify
  run_events [] c = c
  run_events (e ∷ es) c = run_events es (apply_event e c)

  abbrev pub IsNotStop : Event → Type 0
  IsNotStop (stops close) = ⊥
  IsNotStop _ = Unit

  -- The commands of a check write the client's flag only to set it.
  check-connected :
      (a : Answers) (t : Clock) (hc : HealthChecker)
      → hc.client_connected ≡ true
      → (check a t hc).client_connected ≡ true
  unfolding check finish_check
  check-connected a t hc h = finish (perform_health_check a _).0 _
    where
      finish :
          (err : Option Err) (s : HealthStatus) → (finish_check err t s hc).client_connected ≡ true
      finish none s = refl
      finish (some e) s = h

  apply_event-connected :
      (e : Event) (c : Client skip_verify)
      → IsNotStop e
      → c.connected ≡ true
      → (apply_event e c).connected ≡ true
  unfolding apply_event start reload switch_client create_redis_client round finish_check
  apply_event-connected (stops close) c n h = absurd n
  apply_event-connected (starts ping send now) c n h = ground arith
  apply_event-connected (reloads none ping) c n h = h
  apply_event-connected (reloads (some config) ping) c n h = ground arith
  apply_event-connected (checks a t) c n h = elim (Option-cases c.health_checker) [
    | inl no_checker ↦ rw (round, no_checker) h
    | inr (hc, there) ↦ rw (round, there) (check-connected a t _ h)
  ]

  -- Once a client is connected, no sequence of checks, starts and reloads makes IsConnected answer
  -- false, whatever the server answers; only Stop does.
  pub run_events-connected :
      (es : List Event) (c : Client skip_verify)
      → All IsNotStop es
      → c.connected ≡ true
      → (run_events es c).connected ≡ true
  unfolding run_events
  run_events-connected [] c n h = h
  run_events-connected (e ∷ es) c n h =
      run_events-connected es (apply_event e c) n.1 (apply_event-connected e c n.0 h)

  -- A second Start answers nil, sends nothing and leaves the client as it is, also after a first one
  -- that failed, which leaves the client not connected if it was not.
  pub start-start :
      (ping ping' : Option Err) (send send' : Text → Option Err) (now now' : ℕ)
      (c : Client skip_verify)
      → (let c' = (start skip_verify ping send now c).2 in
          (start skip_verify ping' send' now' c' ≡ (none, [], c'))
          × ((is_some (start skip_verify ping send now c).0 ≡ false)
              ⊎ (c'.connected ≡ c.connected)))
  unfolding start
  start-start ping ping' send send' now now' c = (
    again (start skip_verify ping send now c).2 (once ping (Bool-cases c.start_once)),
    stays ping,
  )
    where
      again :
          (c' : Client skip_verify)
          → c'.start_once ≡ true
          → start skip_verify ping' send' now' c' ≡ (none, [], c')
      again c' h = if-eq-left c'.start_once _ _ h

      once :
          (ping : Option Err)
          → (c.start_once ≡ true) ⊎ (c.start_once ≡ false)
          → (start skip_verify ping send now c).2.start_once ≡ true
      once ping (inl before) = ground (arith, before)
      once none (inr first) = rw (start, first) refl
      once (some err) (inr first) = rw (start, first) refl

      stays :
          (ping : Option Err)
          → (is_some (start skip_verify ping send now c).0 ≡ false)
            ⊎ ((start skip_verify ping send now c).2.connected ≡ c.connected)
      stays none = inl (ground arith)
      stays (some err) = inr (ground arith)
