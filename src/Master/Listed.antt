-- ===== src/Master/Listed.antt =====
-- What a refresh of the master list does to the server that is stored at an endpoint.
pub mod Saved
use rw_manager_backend.Base.{
  ℕ, String, Bool, true, false, not, ◌&&◌, ◌||◌, Option, none, some, List, [], ◌∷◌, find?, str_eq,
  eq_iff, trim, nat_eq, get_or, or_else, if◌then◌else◌, arith, ◌≡◌, refl, sym, ap, ◌∙◌, Bool-cases,
  Option-cases, ◌⊎◌, inl, inr,
}
use mathlib.Core.Path.{subst}
use mathlib.Core.Option
use mathlib.Core.Option.{some_inj}
use rw_manager_backend.Data.Value.{filled, Value, get, text?}
use rw_manager_backend.Data.Server.{ServerConfig, Stamp, at}
use rw_manager_backend.Driver.{Collection}
use rw_manager_backend.Store.State.{MongoCollections, Store, servers_of}
use rw_manager_backend.Store.Servers.{
  at_endpoint, find_server_by_master_endpoint, save_master_server,
}
use rw_manager_backend.Statistics.{BucketDoc, ServerStatisticsSample}
use rw_manager_backend.Master.Entry.{
  string_or_undefined, number_or_undefined, query_url_for, server_id_for, apply_master_entry,
  first_listed, listed_url,
}
use rw_manager_backend.Master.Query.{
  Answers, Fetch, fetched, failed, answered, refresh_query_data, should_refresh_query_data,
  sample_of,
}
use rw_manager_backend.Master.Refresh.{
  World, Surroundings, SyncResult, refreshed?, save_listed, listed_server, process_at,
  process_entry, process_entries,
}
use rw_manager_backend.Master.Listed.Saved.{
  replace_pinned-servers, find-endpoint, save_master-found, save_master-other, with_credential,
}

-- What a refresh of the query data leaves.
record Same (a b : ServerConfig) : Type 0 where
  ip : b.ip ≡ a.ip
  port : b.port ≡ a.port
  last_seen : b.last_seen ≡ a.last_seen
  query_url : b.query_url ≡ a.query_url
  query_url_explicit : b.query_url_explicit ≡ a.query_url_explicit

abbrev saved_as : ServerConfig → Option (ServerConfig × ServerStatisticsSample) → ServerConfig
saved_as server none = server
saved_as server (some (next, sample)) = next

Same-refl : (s : ServerConfig) → Same s s
Same-refl s = record {
  ip = refl;
  port = refl;
  last_seen = refl;
  query_url = refl;
  query_url_explicit = refl;
}

answered-Same :
    (http_href : String → Option String) (s : ServerConfig) (query : Fetch) (a : Answers) (now : ℕ)
    → a.query ≡ query
    → Same s (answered http_href s a now)
answered-Same http_href s (fetched v) a now e = rw e (record {
  ip = refl;
  port = refl;
  last_seen = refl;
  query_url = refl;
  query_url_explicit = refl;
})
answered-Same http_href s (failed v) a now e = rw e (record {
  ip = refl;
  port = refl;
  last_seen = refl;
  query_url = refl;
  query_url_explicit = refl;
})

module _ (m : MongoCollections) (buckets : Collection BucketDoc) (around : Surroundings)
    (now : ℕ) where
  refreshed-Same :
      (refresh : Bool) (s : ServerConfig)
      → Same s (saved_as s (refreshed? m buckets around now refresh s))
  unfolding refresh_query_data
  refreshed-Same false s = Same-refl s
  refreshed-Same true s =
      elim (Bool-cases
        (str_eq s.query_url "" || not (should_refresh_query_data around.config s now))) [
          | inl e ↦ rw e (Same-refl s)
          | inr e ↦ rw e (
              answered-Same around.http_href s (around.answers s).query (around.answers s) now refl)
        ]

-- The server was seen now, and a URL that was configured for the one before is its URL.
pub record IsSeen (now : ℕ) (old : Option ServerConfig) (new : ServerConfig) : Type 0 where
  pub last_seen : new.last_seen ≡ some (at now)
  pub keeps_url :
      (s : ServerConfig)
      → old ≡ some s
      → s.query_url_explicit ≡ some true
      → (new.query_url ≡ s.query_url) × (new.query_url_explicit ≡ some true)

-- What is stored at an endpoint stays, or was seen.
unfoldable pub Onward : ℕ → Option ServerConfig → Option ServerConfig → Type 0
Onward now old new = (new ≡ old) ⊎ ((s : ServerConfig) × (new ≡ some s) × IsSeen now old s)

pub IsSeen-again :
    (now : ℕ) (old : Option ServerConfig) (s t : ServerConfig)
    → IsSeen now old s
    → IsSeen now (some s) t
    → IsSeen now old t
IsSeen-again now old s t first second = record {
  last_seen = second.last_seen;
  keeps_url = λ u was explicit.
      let (same, still) = first.keeps_url u was explicit in
      let (same', still') = second.keeps_url s refl still in (same' ∙ same, still');
}

pub Onward-trans :
    (now : ℕ) (a b c : Option ServerConfig) → Onward now a b → Onward now b c → Onward now a c
unfolding Onward
Onward-trans now a b c (inl e) (inl e') = inl (e' ∙ e)
Onward-trans now a b c (inl e) (inr (s, is, seen)) = inr (s, is, subst (λ o. IsSeen now o s) e seen)
Onward-trans now a b c (inr (s, is, seen)) (inl e) = inr (s, e ∙ is, seen)
Onward-trans now a b c (inr (s, is, seen)) (inr (t, is', seen')) =
    inr (t, is', IsSeen-again now a s t seen (subst (λ o. IsSeen now o t) is seen'))

-- A string of an entry is not empty.
filled_string : (v : Value) (s : String) → string_or_undefined v ≡ some s → str_eq s "" ≡ false
filled_string v s h = of_text (text? v) h
  where
    of_text : (o : Option String) → filled o ≡ some s → str_eq s "" ≡ false
    of_text none e = absurd (cc e)
    of_text (some t) e = elim (Bool-cases (str_eq (trim t) "")) [
      | inl blank ↦
          let this : none ≡ some s = sym (ap (λ b. if b then none else some (trim t)) blank) ∙ e in
          absurd (cc this)
      | inr named ↦
          let this : some (trim t) ≡ some s =
            sym (ap (λ b. if b then none else some (trim t)) named) ∙ e in
          subst (λ u. str_eq u "" ≡ false) (some_inj.0 this) named
    ]

module _ (m : MongoCollections) (buckets : Collection BucketDoc) (around : Surroundings)
    (now : ℕ) where
  -- What is stored at an endpoint.
  abbrev pub stored_at : String → ℕ → World m buckets → Option ServerConfig
  stored_at ip port w = find? (at_endpoint ip port) (servers_of m w.store)

  save_listed-store :
      (s : ServerConfig) (o : Option (ServerConfig × ServerStatisticsSample)) (r : SyncResult)
      (w : World m buckets)
      → (save_listed m buckets around now s o (r, w)).1.store
        ≡ (save_master_server m (saved_as s o) w.store).1
  save_listed-store s none r w = refl
  save_listed-store s (some (next, sample)) r w = refl

  -- The server to which an entry is applied.
  abbrev listed : String → String → Option ServerConfig → ServerConfig
  listed id url none = first_listed id url now
  listed id url (some old) = record old { id = id }

  listed_server-servers :
      (id url : String) (o : Option ServerConfig) (r : SyncResult) (w : World m buckets)
      → ((listed_server m buckets around now id url o (r, w)).0 ≡ listed id url o)
        × (servers_of m (listed_server m buckets around now id url o (r, w)).1.1.store
            ≡ servers_of m w.store)
  listed_server-servers id url none r w = (refl, refl)
  listed_server-servers id url (some old) r w = (refl, replace_pinned-servers m old.id id w.store)

  -- An entry applied to the server of its endpoint, or to a new one.
  applied-IsSeen :
      (id url ip : String) (port : ℕ) (o : Option ServerConfig) (entry : Value)
      → string_or_undefined (get "ip" entry) ≡ some ip
      → number_or_undefined (get "port" entry) ≡ some port
      → let s = apply_master_entry around.host (listed id url o) entry now in
        (s.ip ≡ some ip) × (s.port ≡ some port) × IsSeen now o s
  unfolding apply_master_entry
  applied-IsSeen id url ip port o entry e_ip e_port = (
    rw e_ip refl,
    rw e_port refl,
    record { last_seen = refl; keeps_url = λ s was explicit. rw (was, explicit) (refl, refl) },
  )

  -- What is saved is found at its endpoint and was seen; the other endpoints keep what they have.
  unfoldable pub IsSavedAt :
      String → ℕ → Option ServerConfig → World m buckets → World m buckets → Type 0
  IsSavedAt ip port old w w' =
      ((s : ServerConfig) × (stored_at ip port w' ≡ some s) × IsSeen now old s)
      × ((ip' : String) (port' : ℕ)
          → str_eq ip ip' && nat_eq port port' ≡ false
          → stored_at ip' port' w' ≡ stored_at ip' port' w)

  save_listed-IsSavedAt :
      (s : ServerConfig) (o : Option (ServerConfig × ServerStatisticsSample)) (ip : String)
      (port : ℕ) (old : Option ServerConfig) (r : SyncResult) (w w1 : World m buckets)
      → s.ip ≡ some ip
      → s.port ≡ some port
      → str_eq ip "" ≡ false
      → IsSeen now old s
      → Same s (saved_as s o)
      → servers_of m w1.store ≡ servers_of m w.store
      → IsSavedAt ip port old w (save_listed m buckets around now s o (r, w1)).1
  unfolding IsSavedAt
  save_listed-IsSavedAt s o ip port old r w w1 e_ip e_port named seen same kept =
      let next = saved_as s o in
      let stores = save_listed-store s o r w1 in
      let (c, found) =
        save_master-found m next ip port w1.store (same.ip ∙ e_ip) (same.port ∙ e_port) named in
      (
        (
          with_credential next c,
          ap (λ st. find? (at_endpoint ip port) (servers_of m st)) stores ∙ found,
          record {
            last_seen = same.last_seen ∙ seen.last_seen;
            keeps_url = λ u was explicit.
                let (url, still) = seen.keeps_url u was explicit in
                (same.query_url ∙ url, same.query_url_explicit ∙ still);
          },
        ),
        (λ ip' port' other.
            ap (λ st. find? (at_endpoint ip' port') (servers_of m st)) stores
            ∙ save_master-other m next ip ip' port port' w1.store (same.ip ∙ e_ip)
                (same.port ∙ e_port) named other
            ∙ ap (find? (at_endpoint ip' port')) kept),
      )

  pub process_at-IsSavedAt :
      (refresh : Bool) (entry : Value) (id url ip : String) (port : ℕ) (r : SyncResult)
      (w : World m buckets)
      → string_or_undefined (get "ip" entry) ≡ some ip
      → number_or_undefined (get "port" entry) ≡ some port
      → IsSavedAt ip port
          (stored_at ip port w)
          w
          (process_at m buckets around now refresh entry
            (some id)
            (some url)
            (some ip)
            (some port)
            (r, w)).1
  process_at-IsSavedAt refresh entry id url ip port r w e_ip e_port =
      let before = find_server_by_master_endpoint m ip port w.store in
      let named = filled_string (get "ip" entry) ip e_ip in
      let (server, kept) = listed_server-servers id url before r w in
      let (ip_is, port_is, seen) = applied-IsSeen id url ip port before entry e_ip e_port in
      let s =
        apply_master_entry around.host (listed_server m buckets around now id url before (r, w)).0
          entry now in
      save_listed-IsSavedAt s (refreshed? m buckets around now refresh s) ip port
        (stored_at ip port w) (listed_server m buckets around now id url before (r, w)).1.0 w
        (listed_server m buckets around now id url before (r, w)).1.1
        (ap (λ u. (apply_master_entry around.host u entry now).ip) server ∙ ip_is)
        (ap (λ u. (apply_master_entry around.host u entry now).port) server ∙ port_is) named
        (subst (λ o. IsSeen now o s) (find-endpoint m ip port w.store)
          (subst (λ u. IsSeen now before (apply_master_entry around.host u entry now)) (sym server)
            seen))
        (refreshed-Same m buckets around now refresh s) kept
