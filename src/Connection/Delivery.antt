-- ===== src/Connection/Delivery.antt =====
-- What the listeners of the machine are called with (`Subscribe`, `Transition`, `Reset`).
use connective.Prelude.{
  ℕ, suc, ◌+◌, ◌==◌, if◌then◌else◌, List, [], ◌∷◌, ◌++◌, append-nil, append_assoc, ◌≡◌, ◌≢◌, refl,
  sym, inl, inr, arith, Bool-cases, All, Text,
}
use connective.Connection.{
  State, disconnected, Event, allowed, offers, Machine, notify, move_to, transition, reset,
  subscribe, set_server, Op, do_transition, do_reset, do_subscribe, do_set_server, apply, run,
  state_eq,
}

-- The events that one listener was called with, in order.
abbrev pub received : ℕ → List (ℕ × Event) → List Event
received fn [] = []
received fn ((g, ev) ∷ calls) = let rest = received fn calls in if g == fn then ev ∷ rest else rest

abbrev pub registrations : ℕ → List ℕ → ℕ
registrations fn [] = 0
registrations fn (g ∷ fns) = let rest = registrations fn fns in if g == fn then suc rest else rest

-- The call registers no second listener under the name `fn`.
abbrev pub LeavesAlone : ℕ → Op → Type 0
LeavesAlone fn (do_subscribe g) = g ≢ fn
LeavesAlone fn _ = Unit

received-append :
    (fn : ℕ) (xs ys : List (ℕ × Event)) → received fn (xs ++ ys) ≡ received fn xs ++ received fn ys
received-append fn [] ys = refl
received-append fn ((g, ev) ∷ xs) ys = ground (arith, received-append fn xs ys)

registrations-append :
    (fn : ℕ) (xs ys : List ℕ)
    → registrations fn (xs ++ ys) ≡ registrations fn xs + registrations fn ys
registrations-append fn [] ys = omega arith
registrations-append fn (g ∷ xs) ys = ground (arith, registrations-append fn xs ys)

received-notify_none :
    (fn : ℕ) (fns : List ℕ) (ev : Event)
    → registrations fn fns ≡ 0
    → received fn (notify fns ev) ≡ []
unfolding notify
received-notify_none fn [] ev h = refl
received-notify_none fn (g ∷ fns) ev h = ground (arith, received-notify_none fn fns ev)

received-notify :
    (fn : ℕ) (fns : List ℕ) (ev : Event)
    → registrations fn fns ≡ 1
    → received fn (notify fns ev) ≡ ev ∷ []
unfolding notify
received-notify fn [] ev h = absurd (omega arith)
received-notify fn (g ∷ fns) ev h =
    ground (arith, received-notify fn fns ev, received-notify_none fn fns ev)

-- The events of `m'` since `m` reached the listener `fn`, each once and in order.
record Follows (fn : ℕ) (m m' : Machine) : Type 0 where
  registered : registrations fn m'.listeners ≡ 1
  news : List Event
  logged : m'.history ≡ m.history ++ news
  seen : received fn m'.delivered ≡ received fn m.delivered ++ news

Follows-refl : (fn : ℕ) (m : Machine) → registrations fn m.listeners ≡ 1 → Follows fn m m
Follows-refl fn m h = record {
  registered = h;
  news = [];
  logged = sym (append-nil m.history);
  seen = sym (append-nil (received fn m.delivered));
}

Follows-trans : (fn : ℕ) (m n p : Machine) → Follows fn m n → Follows fn n p → Follows fn m p
Follows-trans fn m n p a b = record {
  registered = b.registered;
  news = a.news ++ b.news;
  logged = cc (a.logged, b.logged, append_assoc m.history a.news b.news);
  seen = cc (a.seen, b.seen, append_assoc (received fn m.delivered) a.news b.news);
}

Follows-move_to :
    (fn : ℕ) (m : Machine) (to : State) (now : ℕ) (reason : Text)
    → registrations fn m.listeners ≡ 1
    → Follows fn m (move_to m to now reason)
unfolding move_to
Follows-move_to fn m to now reason h =
    let ev : Event = record {
      source = m.state;
      target = to;
      time = now;
      reason = reason;
      server = m.server_id;
    } in
    record {
      registered = h;
      news = ev ∷ [];
      logged = refl;
      seen = cc (
        received-append fn m.delivered (notify m.listeners ev),
        received-notify fn m.listeners ev h,
      );
    }

Follows-transition :
    (fn : ℕ) (m : Machine) (to : State) (now : ℕ) (reason : Text)
    → registrations fn m.listeners ≡ 1
    → Follows fn m (transition m to now reason).0
unfolding transition
Follows-transition fn m to now reason h = elim (Bool-cases (offers (allowed m.state) to)) [
  | inl e ↦ rw e (Follows-move_to fn m to now reason h)
  | inr e ↦ rw e (Follows-refl fn m h)
]

Follows-reset :
    (fn : ℕ) (m : Machine) (now : ℕ) (reason : Text)
    → registrations fn m.listeners ≡ 1
    → Follows fn m (reset m now reason)
unfolding reset
Follows-reset fn m now reason h = elim (Bool-cases (state_eq m.state disconnected)) [
  | inl e ↦ rw e (Follows-refl fn m h)
  | inr e ↦ rw e (Follows-move_to fn m disconnected now reason h)
]

Follows-subscribe :
    (fn : ℕ) (m : Machine) (g : ℕ)
    → g ≢ fn
    → registrations fn m.listeners ≡ 1
    → Follows fn m (subscribe m g)
unfolding subscribe
Follows-subscribe fn m g d h = record {
  registered = ground (arith, registrations-append fn m.listeners (g ∷ []));
  news = [];
  logged = sym (append-nil m.history);
  seen = sym (append-nil (received fn m.delivered));
}

Follows-apply :
    (fn : ℕ) (m : Machine) (o : Op)
    → LeavesAlone fn o
    → registrations fn m.listeners ≡ 1
    → Follows fn m (apply m o)
unfolding apply
Follows-apply fn m (do_transition to now reason) a h = Follows-transition fn m to now reason h
Follows-apply fn m (do_reset now reason) a h = Follows-reset fn m now reason h
Follows-apply fn m (do_subscribe g) a h = Follows-subscribe fn m g a h
Follows-apply fn m (do_set_server id) a h =
    unfold set_server in
    (record {
      registered = h;
      news = [];
      logged = sym (append-nil m.history);
      seen = sym (append-nil (received fn m.delivered));
    })

Follows-run :
    (fn : ℕ) (m : Machine) (os : List Op)
    → All (LeavesAlone fn) os
    → registrations fn m.listeners ≡ 1
    → Follows fn m (run m os)
unfolding run
Follows-run fn m [] a h = Follows-refl fn m h
Follows-run fn m (o ∷ os) a h =
    let first = Follows-apply fn m o a.0 h in
    Follows-trans fn m (apply m o) (run (apply m o) os) first
      (Follows-run fn (apply m o) os a.1 first.registered)

-- A listener that is subscribed once is called with exactly the events that are logged from then on,
-- each once and in the order of the log, whatever calls follow (other subscriptions included).
pub listener_follows_log :
    (fn : ℕ) (m : Machine) (os : List Op)
    → registrations fn m.listeners ≡ 0
    → All (LeavesAlone fn) os
    → let m' = run (subscribe m fn) os in
      (news : List Event) × (m'.history ≡ m.history ++ news)
      × (received fn m'.delivered ≡ received fn m.delivered ++ news)
unfolding subscribe
listener_follows_log fn m os h a =
    let f =
      Follows-run fn (subscribe m fn) os a
        (ground (arith, registrations-append fn m.listeners (fn ∷ []))) in
    (f.news, f.logged, f.seen)
