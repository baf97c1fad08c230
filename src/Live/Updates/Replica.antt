-- ===== src/Live/Updates/Replica.antt =====
-- A client that keeps a copy of the snapshots and applies the messages reads what the server has.
use rw_manager_backend.Base.{
  String, true, ◌+◌, Option, none, some, List, [], ◌∷◌, ◌++◌, includes, map_get, map_set, Entries,
  get-set_same, get-set_other, str_eq, eq_iff, if◌then◌else◌, arith, ◌≡◌, refl, ap, ◌∙◌, ◌≢◌,
  Bool-cases, Option-cases, inl, inr,
}
use mathlib.Core.Path.{subst, sym}
use rw_manager_backend.Live.Response.{LiveResponse}
use rw_manager_backend.Live.Changes.{Changes, Json, has_changes, server_live_status_changes}
use rw_manager_backend.Live.Changes.Laws.{apply_changes, SameView, apply-changes, apply_none}
use rw_manager_backend.Live.Updates.{
  Update, Subscriber, ChangedMessage, send_changes, send_since, on_update, on_updates,
}

-- The client's side: the changes of a message are applied to the copy of its server.
abbrev pub receive_for :
    ChangedMessage → Option LiveResponse → Entries LiveResponse → Entries LiveResponse
receive_for m none copies = copies
receive_for m (some copy) copies = map_set m.server_id (apply_changes m.changes copy) copies

unfoldable pub receive_all : List ChangedMessage → Entries LiveResponse → Entries LiveResponse
receive_all [] copies = copies
receive_all (m ∷ ms) copies = receive_all ms (receive_for m (map_get m.server_id copies) copies)

-- The last response for a server in a run of updates.
unfoldable pub latest : String → List Update → LiveResponse → LiveResponse
latest id [] r = r
latest id (u ∷ us) r = latest id us (if str_eq u.server_id id then u.value else r)

receive_all-append :
    (ms ns : List ChangedMessage) (copies : Entries LiveResponse)
    → receive_all (ms ++ ns) copies ≡ receive_all ns (receive_all ms copies)
unfolding receive_all
receive_all-append [] ns copies = refl
receive_all-append (m ∷ ms) ns copies =
    receive_all-append ms ns (receive_for m (map_get m.server_id copies) copies)

-- A message for another server leaves the copy of this one.
receive_other :
    (id : String) (m : ChangedMessage) (copies : Entries LiveResponse)
    → id ≢ m.server_id
    → map_get id (receive_all (m ∷ []) copies) ≡ map_get id copies
unfolding receive_all
receive_other id m copies ne = elim (Option-cases (map_get m.server_id copies)) [
  | inl e ↦ rw e refl
  | inr (copy, e) ↦ rw e (get-set_other m.server_id id (apply_changes m.changes copy) copies ne)
]

module _ (json : Json) (id : String) where
  -- The server's snapshot is `value`, and the client has a copy that reads the same.
  record Tracks (s : Subscriber) (copies : Entries LiveResponse) (value : LiveResponse)
      : Type 0 where
    subscribed : includes id s.server_ids ≡ true
    snapshot : map_get id s.snapshots ≡ some value
    copy : LiveResponse
    stored : map_get id copies ≡ some copy
    same : SameView json copy value

  -- Sending changes leaves the ids and the snapshots.
  sent_ids :
      (j : String) (c : Changes) (s : Subscriber)
      → ((send_changes json j c s).1.server_ids ≡ s.server_ids)
        × ((send_changes json j c s).1.snapshots ≡ s.snapshots)
  sent_ids j c s = elim (Bool-cases (has_changes c)) [
    | inl e ↦ rw e (refl, refl)
    | inr e ↦ rw e (refl, refl)
  ]

  sent_other :
      (j : String) (c : Changes) (s : Subscriber) (copies : Entries LiveResponse)
      → id ≢ j
      → map_get id (receive_all (send_changes json j c s).0 copies) ≡ map_get id copies
  unfolding receive_all
  sent_other j c s copies ne = elim (Bool-cases (has_changes c)) [
    | inl e ↦ rw e (
        receive_other id (record { server_id = j; sequence = s.sequence + 1; changes = c }) copies
          ne)
    | inr e ↦ rw e refl
  ]

  sent_same :
      (c : Changes) (s : Subscriber) (copies : Entries LiveResponse) (copy : LiveResponse)
      → map_get id copies ≡ some copy
      → map_get id (receive_all (send_changes json id c s).0 copies) ≡ some (apply_changes c copy)
  unfolding receive_all
  sent_same c s copies copy stored = elim (Bool-cases (has_changes c)) [
    | inl e ↦ rw (e, stored) (get-set_same id (apply_changes c copy) copies)
    | inr e ↦ rw e (stored ∙ ap some (sym (apply_none c copy e)))
  ]

  update_same :
      (next : LiveResponse) (s : Subscriber) (copies : Entries LiveResponse) (value : LiveResponse)
      → Tracks s copies value
      → (let sent = on_update json (record { server_id = id; value = next }) s in
          Tracks sent.1 (receive_all sent.0 copies) next)
  unfolding on_update
  update_same next s copies value t =
      rw (t.subscribed, t.snapshot)
        (record {
          subscribed = ap (includes id) (sent_ids id changes after_set).0 ∙ t.subscribed;
          snapshot =
              ap (map_get id) (sent_ids id changes after_set).1 ∙ get-set_same id next s.snapshots;
          copy = apply_changes changes t.copy;
          stored = sent_same changes after_set copies t.copy t.stored;
          same = apply-changes json t.copy value next t.same;
        })
    where
      changes : Changes
      changes = server_live_status_changes json value next

      after_set : Subscriber
      after_set = record s { snapshots = map_set id next s.snapshots }

  update_other :
      (u : Update) (s : Subscriber) (copies : Entries LiveResponse) (value : LiveResponse)
      → id ≢ u.server_id
      → Tracks s copies value
      → Tracks (on_update json u s).1 (receive_all (on_update json u s).0 copies) value
  unfolding on_update receive_all
  update_other u s copies value ne t = elim (Bool-cases (includes u.server_id s.server_ids)) [
    | inl listed ↦ rw listed (since (map_get u.server_id s.snapshots))
    | inr absent ↦ rw absent t
  ]
    where
      after_set : Subscriber
      after_set = record s { snapshots = map_set u.server_id u.value s.snapshots }

      since :
          (old : Option LiveResponse)
          → Tracks
              (send_since json u.server_id u.value old after_set).1
              (receive_all (send_since json u.server_id u.value old after_set).0 copies)
              value
      since none = record {
        subscribed = t.subscribed;
        snapshot = get-set_other u.server_id id u.value s.snapshots ne ∙ t.snapshot;
        copy = t.copy;
        stored = t.stored;
        same = t.same;
      }
      since (some previous) =
          let c = server_live_status_changes json previous u.value in
          record {
            subscribed = ap (includes id) (sent_ids u.server_id c after_set).0 ∙ t.subscribed;
            snapshot =
                ap (map_get id) (sent_ids u.server_id c after_set).1
                ∙ get-set_other u.server_id id u.value s.snapshots ne
                ∙ t.snapshot;
            copy = t.copy;
            stored = sent_other u.server_id c after_set copies ne ∙ t.stored;
            same = t.same;
          }

  on_update-Tracks :
      (u : Update) (s : Subscriber) (copies : Entries LiveResponse) (value : LiveResponse)
      → Tracks s copies value
      → Tracks
          (on_update json u s).1
          (receive_all (on_update json u s).0 copies)
          (if str_eq u.server_id id then u.value else value)
  on_update-Tracks u s copies value t = elim (Bool-cases (str_eq u.server_id id)) [
    | inl e ↦ rw e (of_id u ((eq_iff u.server_id id).0 e))
    | inr e ↦
        rw e
          (update_other u s copies value (λ same. ground (arith, e, eq_iff u.server_id id, same)) t)
  ]
    where
      of_id :
          (u : Update)
          → u.server_id ≡ id
          → Tracks (on_update json u s).1 (receive_all (on_update json u s).0 copies) u.value
      of_id u e =
          subst
            (λ j.
              Tracks (on_update json (record { server_id = j; value = u.value }) s).1
                (receive_all (on_update json (record { server_id = j; value = u.value }) s).0
                  copies)
                u.value)
            (sym e) (update_same u.value s copies value t)

  on_updates-Tracks :
      (us : List Update) (s : Subscriber) (copies : Entries LiveResponse) (value : LiveResponse)
      → Tracks s copies value
      → Tracks
          (on_updates json us s).1
          (receive_all (on_updates json us s).0 copies)
          (latest id us value)
  unfolding on_updates latest receive_all
  on_updates-Tracks [] s copies value t = t
  on_updates-Tracks (u ∷ us) s copies value t =
      let (sent, next) = on_update json u s in
      let later =
        on_updates-Tracks us next (receive_all sent copies) _
          (on_update-Tracks u s copies value t) in
      rw (receive_all-append sent (on_updates json us next).0 copies) later

  -- A client whose copy of a subscribed server's snapshot reads the same has, after any updates and
  -- the messages that these send, a copy that reads as the last update of that server, but for the
  -- time of the check.
  pub replica :
      (us : List Update) (s : Subscriber) (copies : Entries LiveResponse)
      (start copy : LiveResponse)
      → includes id s.server_ids ≡ true
      → map_get id s.snapshots ≡ some start
      → map_get id copies ≡ some copy
      → SameView json copy start
      → (last : LiveResponse) × (map_get id (receive_all (on_updates json us s).0 copies)
          ≡ some last)
        × SameView json last (latest id us start)
  replica us s copies start copy subscribed snapshot stored same =
      let t = on_updates-Tracks us s copies start (record {
        subscribed = subscribed;
        snapshot = snapshot;
        copy = copy;
        stored = stored;
        same = same;
      }) in
      (t.copy, t.stored, t.same)
