-- ===== src/Live/Updates/Sequence.antt =====
-- The sequence numbers of the messages to a subscriber.
use rw_manager_backend.Base.{
  ℕ, ◌+◌, Option, none, some, List, [], ◌∷◌, ◌++◌, includes, length, length-append, map_get,
  map_set, arith, ◌≡◌, refl, Bool-cases, inl, inr,
}
use mathlib.Core.Path.{subst}
use rw_manager_backend.Live.Response.{LiveResponse}
use rw_manager_backend.Live.Changes.{Json, has_changes, server_live_status_changes}
use rw_manager_backend.Live.Updates.{
  Update, Subscriber, ChangedMessage, send_since, on_update, on_updates,
}

-- The messages have the numbers after `n`, one after the other.
abbrev pub IsNumbered : ℕ → List ChangedMessage → Type 0
IsNumbered n [] = Unit
IsNumbered n (m ∷ ms) = (m.sequence ≡ n + 1) × IsNumbered (n + 1) ms

IsNumbered-append :
    (n : ℕ) (ms ns : List ChangedMessage)
    → IsNumbered n ms
    → IsNumbered (n + length ms) ns
    → IsNumbered n (ms ++ ns)
IsNumbered-append n [] ns h hs = subst (λ k. IsNumbered k ns) (omega arith) hs
IsNumbered-append n (m ∷ ms) ns h hs =
    (h.0, IsNumbered-append (n + 1) ms ns h.1 (subst (λ k. IsNumbered k ns) (omega arith) hs))

-- The messages follow `s`, and the new state counts them.
abbrev Follows : Subscriber → List ChangedMessage × Subscriber → Type 0
Follows s sent = IsNumbered s.sequence sent.0 × (sent.1.sequence ≡ s.sequence + length sent.0)

module _ (json : Json) where
  on_update-Follows : (u : Update) (s : Subscriber) → Follows s (on_update json u s)
  unfolding on_update
  on_update-Follows u s = elim (Bool-cases (includes u.server_id s.server_ids)) [
    | inl e ↦ rw e (since (map_get u.server_id s.snapshots))
    | inr e ↦ rw e (tt, omega arith)
  ]
    where
      after_set : Subscriber
      after_set = record s { snapshots = map_set u.server_id u.value s.snapshots }

      since :
          (old : Option LiveResponse)
          → Follows s (send_since json u.server_id u.value old after_set)
      since none = (tt, omega arith)
      since (some previous) =
          elim (Bool-cases (has_changes (server_live_status_changes json previous u.value))) [
            | inl e ↦ rw e ((refl, tt), omega arith)
            | inr e ↦ rw e (tt, omega arith)
          ]

  -- The messages that a subscriber is sent for a run of updates are numbered one after the other,
  -- from the number after the one it had, and the number that it has then is that of the last.
  pub on_updates-IsNumbered :
      (us : List Update) (s : Subscriber)
      → IsNumbered s.sequence (on_updates json us s).0
        × ((on_updates json us s).1.sequence ≡ s.sequence + length (on_updates json us s).0)
  unfolding on_updates
  on_updates-IsNumbered [] s = (tt, omega arith)
  on_updates-IsNumbered (u ∷ us) s =
      let first = on_update-Follows u s in
      let later = on_updates-IsNumbered us (on_update json u s).1 in
      (
        IsNumbered-append s.sequence (on_update json u s).0 _ first.0 (
            subst (λ n. IsNumbered n (on_updates json us (on_update json u s).1).0) first.1
              later.0),
        omega (
          arith,
          first.1,
          later.1,
          length-append (on_update json u s).0 (on_updates json us (on_update json u s).1).0,
        ),
      )
