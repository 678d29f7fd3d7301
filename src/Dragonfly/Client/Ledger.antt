-- ===== src/Dragonfly/Client/Ledger.antt =====
-- Which connections a client leaves open (pkg/dragonfly/client.go), kept in a ledger of its calls.
use gochoreo.Common.{
  ℕ, suc, ◌<◌, ◌≢◌, ◌↔◌, if◌then◌else◌, Mem, Bool-cases, ◌++◌, sym, ◌≡◌, refl, Bool, true, false,
  Option, none, some, List, [], ◌∷◌, ◌⊎◌, inl, inr, arith, subst,
}
use gochoreo.Dragonfly.Errors.{Err}

-- The connections as the calls leave them: `next` is the number of the connection that the next
-- Reload with a valid configuration opens, and the client uses connection `used`.
pub record Ledger : Type 0 where
  pub next : ℕ
  pub used : ℕ
  pub stopped : Bool
  pub used_open : Bool
  pub lost : List ℕ

-- NewClient opens connection 0.
abbrev pub first_ledger : Ledger
first_ledger = record { next = 1; used = 0; stopped = false; used_open = true; lost = [] }

-- A Reload with a valid configuration: its connection answers and is used, or is lost.
abbrev pub note_reload : Option Err → Ledger → Ledger
note_reload none l = record l { next = suc l.next; used = l.next; used_open = true }
note_reload (some err) l = record l { next = suc l.next; lost = l.next ∷ l.lost }

-- Only the first Stop closes anything.
abbrev pub note_stop : Ledger → Ledger
note_stop l = if l.stopped then l else record l { stopped = true; used_open = false }

-- The connections that the ledger takes for open.
abbrev pub Holds : Ledger → ℕ → Type 0
Holds l i = Mem i l.lost ⊎ ((l.used_open ≡ true) × (i ≡ l.used))

-- What the ledger says of the list of the closed connections.
pub record Agrees (l : Ledger) (closed : List ℕ) : Type 0 where
  pub used_low : l.used < l.next
  lost_low : (i : ℕ) → Mem i l.lost → (i < l.next) × (i ≢ l.used)
  closed_low : (i : ℕ) → Mem i closed → i < l.next
  lost_open : (i : ℕ) → Mem i l.lost → ¬ Mem i closed
  used_when_open : l.used_open ≡ true → ¬ Mem l.used closed
  used_when_closed : l.used_open ≡ false → Mem l.used closed
  rest_closed : (i : ℕ) → i < l.next → (i ≡ l.used) ⊎ Mem i l.lost ⊎ Mem i closed

Mem-append_one : (i j : ℕ) (xs : List ℕ) → Mem i (xs ++ j ∷ []) ↔ (Mem i xs ⊎ (i ≡ j))
Mem-append_one i j [] = ground arith
Mem-append_one i j (x ∷ xs) = ground (arith, Mem-append_one i j xs)

pub Agrees-open :
    (l : Ledger) (closed : List ℕ)
    → Agrees l closed
    → (i : ℕ) → ((i < l.next) × (¬ Mem i closed)) ↔ Holds l i
Agrees-open l closed h i = (
  (λ (lt, not_closed). elim (h.rest_closed i lt) [
    | inr (inl m) ↦ inl m
    | inr (inr m) ↦ absurd (not_closed m)
    | inl e ↦ elim (Bool-cases l.used_open) [
      | inl open_now ↦ inr (open_now, e)
      | inr closed_now ↦
          absurd (not_closed (subst (λ j. Mem j closed) (sym e) (h.used_when_closed closed_now)))
    ]
  ]),
  held,
)
  where
    held : Holds l i → (i < l.next) × (¬ Mem i closed)
    held (inl m) = ((h.lost_low i m).0, h.lost_open i m)
    held (inr (open_now, e)) = (
      omega (arith, e, h.used_low),
      λ m. h.used_when_open open_now (subst (λ j. Mem j closed) e m),
    )

pub answered-Agrees :
    (l : Ledger) (closed : List ℕ)
    → Agrees l closed
    → Agrees (note_reload none l) (closed ++ l.used ∷ [])
answered-Agrees l closed h = record {
  used_low = omega arith;
  lost_low = λ i m. ground (arith, h.lost_low i m);
  closed_low =
      λ i m. ground (arith, h.closed_low i, (Mem-append_one i l.used closed).0 m, h.used_low);
  lost_open = λ i m m'.
      ground (arith, h.lost_open i m, h.lost_low i m, (Mem-append_one i l.used closed).0 m');
  used_when_open = λ e m.
      ground (arith, h.closed_low l.next, h.used_low, (Mem-append_one l.next l.used closed).0 m);
  used_when_closed = λ e. cc;
  rest_closed = λ i lt. ground (arith, h.rest_closed i, (Mem-append_one i l.used closed).1);
}

pub lost-Agrees :
    (l : Ledger) (closed : List ℕ) (err : Err)
    → Agrees l closed
    → Agrees (note_reload (some err) l) closed
lost-Agrees l closed err h = record {
  used_low = omega (arith, h.used_low);
  lost_low = λ i m. ground (arith, h.lost_low i, h.used_low, m);
  closed_low = λ i m. ground (arith, h.closed_low i m);
  lost_open = λ i m m'. ground (arith, h.lost_open i, h.closed_low i m', m);
  used_when_open = h.used_when_open;
  used_when_closed = h.used_when_closed;
  rest_closed = λ i lt. ground (arith, h.rest_closed i);
}

pub stopped-Agrees :
    (l : Ledger) (closed : List ℕ)
    → Agrees l closed
    → Agrees (record l { stopped = true; used_open = false }) (closed ++ l.used ∷ [])
stopped-Agrees l closed h = record {
  used_low = h.used_low;
  lost_low = h.lost_low;
  closed_low =
      λ i m. ground (arith, h.closed_low i, (Mem-append_one i l.used closed).0 m, h.used_low);
  lost_open = λ i m m'.
      ground (arith, h.lost_open i m, h.lost_low i m, (Mem-append_one i l.used closed).0 m');
  used_when_open = λ e. cc;
  used_when_closed = λ e. (Mem-append_one l.used l.used closed).1 (inr refl);
  rest_closed = λ i lt. ground (arith, h.rest_closed i lt, (Mem-append_one i l.used closed).1);
}

pub first-Agrees : Agrees first_ledger []
first-Agrees = record {
  used_low = omega arith;
  lost_low = λ i m. absurd m;
  closed_low = λ i m. absurd m;
  lost_open = λ i m. absurd m;
  used_when_open = λ e m. m;
  used_when_closed = λ e. cc;
  rest_closed = λ i lt. inl (omega (arith, lt));
}
