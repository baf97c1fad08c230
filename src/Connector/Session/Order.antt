-- ===== src/Connector/Session/Order.antt =====
-- The events that a session delivers: their sequence numbers and names.
use mathlib.Core.Path.{subst}
use rw_manager_backend.Base.{
  ℕ, String, Bool, true, false, List, [], ◌∷◌, Option, none, some, ◌<◌, ◌-◌, ◌&&◌, includes, ltb,
  leb, if◌then◌else◌, arith, ◌≡◌, refl, sym, ap, ◌∙◌, Bool-cases, inl, inr,
}
use rw_manager_backend.Data.Value.{Value}
use rw_manager_backend.Connector.Message.{Event, features_events, event_message}
use rw_manager_backend.Connector.Session.{
  ConnectorSession, Outcome, accepted, delivered, closed, handle_in_session, handle_event,
  handle_allowed,
}

abbrev add_event : Outcome → List Event → List Event
add_event (accepted names) es = es
add_event (delivered id e) es = e ∷ es
add_event (closed c) es = es

-- The events that the session delivers when these messages arrive at these times.
unfoldable pub deliveries : List (ℕ × Value) → ConnectorSession → List Event
deliveries [] s = []
deliveries ((now, v) ∷ messages) s =
    let (o, s') = handle_in_session now v s in add_event o (deliveries messages s')

-- The sequence numbers increase, from above n on.
abbrev pub Ascending : ℕ → List Event → Type 0
Ascending n [] = Unit
Ascending n (e ∷ es) = (n < e.sequence) × Ascending e.sequence es

-- What a message does in a session.
pub data Handled (v : Value) (s : ConnectorSession) : Outcome × ConnectorSession → Type 0 where
  quiet :
      {p : Outcome × ConnectorSession}
      → ((es : List Event) → add_event p.0 es ≡ es)
      → p.1.last_event_sequence ≡ s.last_event_sequence
      → Handled v s p
  event :
      {p : Outcome × ConnectorSession} (e : Event)
      → event_message v ≡ some e
      → s.last_event_sequence < e.sequence
      → includes e.name s.events ≡ true
      → p.0 ≡ delivered s.server_id e
      → p.1.last_event_sequence ≡ e.sequence
      → Handled v s p

-- The session after the allowance was consumed, as far as events go.
data Counted (s s' : ConnectorSession) : Type 0 where
  counted :
      s'.last_event_sequence ≡ s.last_event_sequence
      → s'.events ≡ s.events
      → s'.server_id ≡ s.server_id
      → Counted s s'

Handled-event :
    (v : Value) (s s' : ConnectorSession) (e : Event)
    → event_message v ≡ some e
    → Counted s s'
    → Handled v s (handle_event (some e) s')
Handled-event v s s' e message (counted last events server) =
    elim (Bool-cases (ltb s'.last_event_sequence e.sequence && includes e.name s'.events)) [
      | inl follows ↦ rw follows (
          event e message (ground (arith, follows, last))
            (subst (λ names. includes e.name names ≡ true) events (ground (arith, follows)))
            (ap (λ id. delivered id e) server) refl)
      | inr fails ↦ rw fails (quiet (λ es. refl) last)
    ]

handled :
    (v : Value) (s s' : ConnectorSession) (b : Bool) (f : Option (List String)) (e : Option Event)
    → event_message v ≡ e
    → Counted s s'
    → Handled v s (if b then handle_allowed f v s' else (closed "rate_limited", s'))
handled v s s' false f e message (counted last events server) = quiet (λ es. refl) last
handled v s s' true (some names) e message (counted last events server) = quiet (λ es. refl) last
handled v s s' true none none message (counted last events server) =
    rw message (quiet (λ es. refl) last)
handled v s s' true none (some e) message c = rw message (Handled-event v s s' e message c)

-- Every message does one of these.
pub handle_in_session-Handled :
    (now : ℕ) (v : Value) (s : ConnectorSession) → Handled v s (handle_in_session now v s)
unfolding handle_in_session
handle_in_session-Handled now v s = elim (Bool-cases (leb 60000 (now - s.rate_window_started_at))) [
  | inl over ↦
      rw over
        (handled v s _ true (features_events v) (event_message v) refl (counted refl refl refl))
  | inr within ↦
      rw within
        (handled v s _ _ (features_events v) (event_message v) refl (counted refl refl refl))
]

-- Whatever messages arrive in a session, the sequence numbers of the events that it delivers
-- increase strictly and stay above the last one before: no event is delivered twice or out of order.
pub deliveries-Ascending :
    (messages : List (ℕ × Value)) (s : ConnectorSession)
    → Ascending s.last_event_sequence (deliveries messages s)
unfolding deliveries
deliveries-Ascending [] s = tt
deliveries-Ascending ((now, v) ∷ messages) s =
    go (handle_in_session-Handled now v s)
      (deliveries-Ascending messages (handle_in_session now v s).1)
  where
    go :
        {p : Outcome × ConnectorSession}
        → Handled v s p
        → Ascending p.1.last_event_sequence (deliveries messages p.1)
        → Ascending s.last_event_sequence (add_event p.0 (deliveries messages p.1))
    go {p = p} (quiet same last) rest =
        subst (Ascending s.last_event_sequence) (sym (same (deliveries messages p.1)))
          (subst (λ n. Ascending n (deliveries messages p.1)) last rest)
    go {p = p} (event e message follows declared out last) rest =
        rw out (follows, subst (λ n. Ascending n (deliveries messages p.1)) last rest)

same_event : {i j : String} {d e : Event} → delivered i d ≡ delivered j e → d ≡ e
same_event h = cc

-- An event that a session delivers came in that message, is one of those the session declared, and
-- follows the last one. Nothing else is delivered.
pub delivered_event :
    (now : ℕ) (v : Value) (s : ConnectorSession) (id : String) (e : Event)
    → (handle_in_session now v s).0 ≡ delivered id e
    → (id ≡ s.server_id)
      × (event_message v ≡ some e)
      × (s.last_event_sequence < e.sequence)
      × (includes e.name s.events ≡ true)
delivered_event now v s id e h = go (handle_in_session-Handled now v s) h
  where
    go :
        {p : Outcome × ConnectorSession}
        → Handled v s p
        → p.0 ≡ delivered id e
        → (id ≡ s.server_id)
          × (event_message v ≡ some e)
          × (s.last_event_sequence < e.sequence)
          × (includes e.name s.events ≡ true)
    go (quiet same last) out =
        let none_delivered = sym (ap (λ o. add_event o []) out) ∙ same [] in cc
    go (event d message follows declared out' last) out =
        let both = sym out' ∙ out in
        let one = same_event both in
        (
          cc,
          message ∙ ap some one,
          subst (λ x. s.last_event_sequence < x.sequence) one follows,
          subst (λ x. includes x.name s.events ≡ true) one declared,
        )
