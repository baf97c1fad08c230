-- ===== src/Live/Subscribe/Started.antt =====
-- A connection whose message is answered starts with what the store has.
use rw_manager_backend.Base.{
  ℕ, String, Bool, true, false, Option, some, List, [], ◌∷◌, str_eq, not, Option-cases, includes,
  map_get, Entries, eq_iff, arith, ◌≡◌, refl, sym, ap, ◌∙◌, Bool-cases, inl, inr, Result, ok, err,
  ok_inj, after-ok, Code, guard, unauthorized,
}
use mathlib.Core.Path.{subst}
use rw_manager_backend.Data.Value.{Value}
use rw_manager_backend.Config.{AppConfig}
use rw_manager_backend.Auth.Token.{Encoding}
use rw_manager_backend.Store.State.{MongoCollections, Store}
use rw_manager_backend.Store.Servers.{find_server_by_id}
use rw_manager_backend.Live.Response.{LiveResponse, get_stored_server_live_status}
use rw_manager_backend.Live.Changes.{Json}
use rw_manager_backend.Live.Changes.Laws.{SameView, SameView-refl}
use rw_manager_backend.Live.Updates.{Update, Subscriber, on_updates}
use rw_manager_backend.Live.Updates.Replica.{receive_all, latest, replica}
use rw_manager_backend.Live.Subscribe.{
  SubscribeMessage, snapshot_items_for, Connection, refused, authorize, subscriber_of,
  protocol_error_code, authorize_first, request, status_subscribed, status_snapshot, answer,
  requested, on_message,
}

module _ (m : MongoCollections) (now : ℕ) (st : Store m) where
  -- The items are the stored responses of the ids, in their order.
  abbrev pub AreStored : List String → Entries LiveResponse → Type 0
  AreStored [] items = items ≡ []
  AreStored (id ∷ ids) items =
      (value : LiveResponse) × (rest : Entries LiveResponse) × (items ≡ (id, value) ∷ rest)
      × (get_stored_server_live_status m now id st ≡ (ok value, st))
      × AreStored ids rest

  stored_keeps : (id : String) → (get_stored_server_live_status m now id st).1 ≡ st
  unfolding get_stored_server_live_status
  stored_keeps id = elim (Option-cases (find_server_by_id m id st)) [
    | inl e ↦ rw e refl
    | inr (server, e) ↦ rw e (elim (Bool-cases (not (str_eq server.query_url ""))) [
      | inl named ↦ rw named refl
      | inr blank ↦ rw blank refl
    ])
  ]

  snapshot_items-AreStored :
      (ids : List String) (items : Entries LiveResponse)
      → (snapshot_items_for m now ids st).0 ≡ ok items
      → AreStored ids items
  unfolding snapshot_items_for
  snapshot_items-AreStored [] items h = ground (arith, ok_inj h)
  snapshot_items-AreStored (id ∷ ids) items h =
      let (value, e, h') = after-ok (get_stored_server_live_status m now id st) _ items h in
      let (rest, e', made) =
        after-ok (snapshot_items_for m now ids (get_stored_server_live_status m now id st).1) _
          items h' in
      (
        value,
        rest,
        sym (ok_inj made),
        pair_eq e (stored_keeps id),
        snapshot_items-AreStored ids rest
            (ap (λ s. (snapshot_items_for m now ids s).0) (sym (stored_keeps id)) ∙ e'),
      )
    where
      pair_eq : {A B : Type 0} {p : A × B} {a : A} {b : B} → p.0 ≡ a → p.1 ≡ b → p ≡ (a, b)
      pair_eq h k = cc (h, k)

  AreStored-get :
      (ids : List String) (items : Entries LiveResponse) (id : String)
      → AreStored ids items
      → includes id ids ≡ true
      → (value : LiveResponse) × (map_get id items ≡ some value)
        × (get_stored_server_live_status m now id st ≡ (ok value, st))
  unfolding includes map_get
  AreStored-get [] items id h found = absurd (cc found)
  AreStored-get (j ∷ ids) items id (value, rest, split, stored, more) found =
      elim (Bool-cases (str_eq j id)) [
        | inl e ↦
            let same : j ≡ id = (eq_iff j id).0 e in
            (
              value,
              ap (map_get id) split ∙ rw e refl,
              subst (λ k. get_stored_server_live_status m now k st ≡ (ok value, st)) same stored,
            )
        | inr e ↦
            let (value', got, stored') =
              AreStored-get ids rest id more (ground (arith, found, e)) in
            (value', ap (map_get id) split ∙ rw e got, stored')
      ]

-- A subscription that is answered names the ids and the items of the messages that are sent, and
-- these are what the connection has.
answered :
    (config : AppConfig) (c : Connection) (r : Result (SubscribeMessage × Entries LiveResponse))
    (ids : List String) (most : ℕ) (items : Entries LiveResponse)
    → (answer config c r).0 ≡ status_subscribed ids most ∷ status_snapshot items ∷ []
    → (message : SubscribeMessage) × (r ≡ ok (message, items)) × (message.server_ids ≡ ids)
answered config c (ok (message, items')) ids most items h =
    let same : items' ≡ items = cc h in (message, ap (λ i. ok (message, i)) same, cc h)
answered config c (err e) ids most items h = absurd (not_refused c.subscribed h)
  where
    not_refused :
        (b : Bool)
        → refused b (protocol_error_code e)
          ≡ status_subscribed ids most ∷ status_snapshot items ∷ []
        → ⊥
    not_refused true h = cc h
    not_refused false h = cc h

module _ (m : MongoCollections) (config : AppConfig) (encoding : Encoding) where
  authorized_keeps :
      (now : ℕ) (subscribed : Bool) (message : SubscribeMessage) (st : Store m)
      → (authorize_first m config encoding now subscribed message st).1 ≡ st
  unfolding authorize
  authorized_keeps now true message st = refl
  authorized_keeps now false message st = guard_keeps _ unauthorized st
    where
      guard_keeps : (b : Bool) (e : Code) (st : Store m) → (guard b e st).1 ≡ st
      guard_keeps true e st = refl
      guard_keeps false e st = refl

  request-AreStored :
      (now : ℕ) (subscribed : Bool) (st : Store m) (r : Result SubscribeMessage)
      (message : SubscribeMessage) (items : Entries LiveResponse)
      → (request m config encoding now subscribed r st).0 ≡ ok (message, items)
      → AreStored m now st message.server_ids items
  request-AreStored now subscribed st (err e) message items h = absurd (cc h)
  request-AreStored now subscribed st (ok asked) message items h =
      let (allowed, e, h') =
        after-ok (authorize_first m config encoding now subscribed asked st) _ (message, items) h in
      let (items', e', made) =
        after-ok
          (snapshot_items_for m now asked.server_ids
            (authorize_first m config encoding now subscribed asked st).1)
          _ (message, items) h' in
      let same : (asked, items') ≡ (message, items) = ok_inj made in
      subst (λ (p : SubscribeMessage × Entries LiveResponse). AreStored m now st p.0.server_ids p.1)
        same
        (snapshot_items-AreStored m now st asked.server_ids items' (
          ap (λ s. (snapshot_items_for m now asked.server_ids s).0)
            (sym (authorized_keeps now subscribed asked st))
          ∙ e'))

  -- Where a message of a client is answered with a subscription, the client that keeps the items and
  -- applies the messages for any later updates has, for each id of the subscription, a copy that
  -- reads as the last update of that server, or else as the stored response at the subscription,
  -- but for the time of the check.
  pub subscribed_replica :
      (parse_json : String → Option Value) (json : Json) (now : ℕ) (frame : String) (c : Connection)
      (st : Store m) (ids : List String) (most : ℕ) (items : Entries LiveResponse)
      (us : List Update) (id : String)
      → (on_message m config encoding parse_json now frame c st).0
        ≡ status_subscribed ids most ∷ status_snapshot items ∷ []
      → includes id ids ≡ true
      → (s : Subscriber) × (start last : LiveResponse) × ((on_message m config encoding parse_json
            now frame c st).1.state
          ≡ some s)
        × ((get_stored_server_live_status m now id st).0 ≡ ok start)
        × (map_get id (receive_all (on_updates json us s).0 items) ≡ some last)
        × SameView json last (latest id us start)
  unfolding on_message requested
  subscribed_replica parse_json json now frame c st ids most items us id h found =
      let r = (requested m config encoding parse_json now c.subscribed frame st).0 in
      let (message, asked, named) = answered config c r ids most items h in
      let stored = request-AreStored now c.subscribed st _ message items asked in
      let (start, kept, read) =
        AreStored-get m now st message.server_ids items id stored
          (ap (includes id) named ∙ found) in
      let s = record (subscriber_of c.state) {
        server_ids = message.server_ids;
        snapshots = items;
      } in
      let (last, copy, same) =
        replica json id us s items start start (ap (includes id) named ∙ found) kept kept
          (SameView-refl json start) in
      (
        s,
        start,
        last,
        ap (λ r. (answer config c r).1.state) asked,
        ap (λ (p : Result LiveResponse × Store m). p.0) read,
        copy,
        same,
      )
