-- ===== src/Master/Seen.antt =====
-- After a refresh of the master list, every listed endpoint has a server that was seen.
use rw_manager_backend.Base.{
  ℕ, String, Bool, true, false, ◌&&◌, ◌≤◌, Option, none, some, List, [], ◌∷◌, any, opt_eq,
  opt_eq_iff, str_eq, eq_iff, nat_eq, leb, arith, ◌≡◌, refl, sym, ap, ◌∙◌, Bool-cases, inl, inr,
}
use mathlib.Core.Path.{subst}
use rw_manager_backend.Data.Value.{Value, get}
use rw_manager_backend.Data.Server.{ServerConfig}
use rw_manager_backend.Driver.{Collection}
use rw_manager_backend.Store.State.{MongoCollections}
use rw_manager_backend.Store.Servers.{find_server_by_master_endpoint, is_port}
use rw_manager_backend.Statistics.{BucketDoc}
use rw_manager_backend.Master.Entry.{
  string_or_undefined, number_or_undefined, query_url_for, server_id_for,
}
use rw_manager_backend.Master.Refresh.{
  World, Surroundings, SyncResult, process_at, process_entry, process_entries,
}
use rw_manager_backend.Master.Listed.{
  IsSeen-again, IsSeen, Onward, Onward-trans, stored_at, IsSavedAt, process_at-IsSavedAt,
}
use rw_manager_backend.Master.Listed.Saved.{find-endpoint}

-- The entry is of the endpoint.
abbrev pub is_at : String → ℕ → Value → Bool
is_at ip port entry =
    opt_eq (string_or_undefined (get "ip" entry)) (some ip)
    && is_port (number_or_undefined (get "port" entry)) port

module _ (m : MongoCollections) (buckets : Collection BucketDoc) (around : Surroundings)
    (now : ℕ) where
  -- An entry at one endpoint.
  saved-Onward :
      (ip : String) (port : ℕ) (ip' : String) (port' : ℕ) (w w' : World m buckets)
      → IsSavedAt m buckets around now ip port (stored_at m buckets around now ip port w) w w'
      → Onward now
          (stored_at m buckets around now ip' port' w)
          (stored_at m buckets around now ip' port' w')
  unfolding IsSavedAt Onward
  saved-Onward ip port ip' port' w w' (here, others) =
      elim (Bool-cases (str_eq ip ip' && nat_eq port port')) [
        | inl same ↦
            let SeenAt = λ (i : String) (n : ℕ).
              (s : ServerConfig) × (stored_at m buckets around now i n w' ≡ some s)
              × IsSeen now (stored_at m buckets around now i n w) s in
            let same_ip : ip ≡ ip' = (eq_iff ip ip').0 (ground (arith, same)) in
            let same_port : port ≡ port' = ground (arith, same) in
            inr (subst (λ n. SeenAt ip' n) same_port (subst (λ i. SeenAt i port) same_ip here))
        | inr other ↦ inl (others ip' port' other)
      ]

  -- An entry without a usable endpoint changes nothing.
  process_at-Onward :
      (refresh : Bool) (entry : Value) (id url ip : Option String) (port : Option ℕ)
      (r : SyncResult) (w : World m buckets) (ip' : String) (port' : ℕ)
      → string_or_undefined (get "ip" entry) ≡ ip
      → number_or_undefined (get "port" entry) ≡ port
      → Onward now (stored_at m buckets around now ip' port' w) (
          stored_at m buckets around now ip' port'
            (process_at m buckets around now refresh entry id url ip port (r, w)).1)
  unfolding Onward
  process_at-Onward refresh entry none url ip port r w ip' port' e_ip e_port = inl refl
  process_at-Onward refresh entry (some id) none ip port r w ip' port' e_ip e_port = inl refl
  process_at-Onward refresh entry (some id) (some url) none port r w ip' port' e_ip e_port =
      inl refl
  process_at-Onward refresh entry (some id) (some url) (some ip) none r w ip' port' e_ip e_port =
      inl refl
  process_at-Onward refresh entry (some id) (some url) (some ip) (some port) r w ip' port' e_ip
        e_port =
      saved-Onward ip port ip' port' w _
        (process_at-IsSavedAt m buckets around now refresh entry id url ip port r w e_ip e_port)

  entry-Onward :
      (refresh : Bool) (entry : Value) (r : SyncResult) (w : World m buckets) (ip : String)
      (port : ℕ)
      → Onward now (stored_at m buckets around now ip port w) (
          stored_at m buckets around now ip port
            (process_entry m buckets around now refresh entry (r, w)).1)
  unfolding process_entry
  entry-Onward refresh entry r w ip port =
      process_at-Onward refresh entry (server_id_for around.host entry)
        (query_url_for around.host entry) _ _ r w ip port refl refl

  entries-Onward :
      (refresh : Bool) (entries : List Value) (r : SyncResult) (w : World m buckets) (ip : String)
      (port : ℕ)
      → Onward now (stored_at m buckets around now ip port w) (
          stored_at m buckets around now ip port
            (process_entries m buckets around now refresh entries (r, w)).1)
  unfolding process_entries Onward
  entries-Onward refresh [] r w ip port = inl refl
  entries-Onward refresh (entry ∷ entries) r w ip port =
      let (r', w') = process_entry m buckets around now refresh entry (r, w) in
      Onward-trans now (stored_at m buckets around now ip port w)
        (stored_at m buckets around now ip port w') _ (entry-Onward refresh entry r w ip port)
        (entries-Onward refresh entries r' w' ip port)

  -- There is a server at the endpoint that was seen.
  abbrev SeenAt : String → ℕ → Option ServerConfig → World m buckets → Type 0
  SeenAt ip port old w =
      (s : ServerConfig) × (stored_at m buckets around now ip port w ≡ some s) × IsSeen now old s

  seen_first :
      (ip : String) (port : ℕ) (old : Option ServerConfig) (w w' : World m buckets)
      → SeenAt ip port old w
      → Onward now
          (stored_at m buckets around now ip port w)
          (stored_at m buckets around now ip port w')
      → SeenAt ip port old w'
  unfolding Onward
  seen_first ip port old w w' (s, is, seen) (inl e) = (s, e ∙ is, seen)
  seen_first ip port old w w' (s, is, seen) (inr (t, is', seen')) =
      (t, is', IsSeen-again now old s t seen (subst (λ o. IsSeen now o t) is seen'))

  seen_later :
      (ip : String) (port : ℕ) (w w' w2 : World m buckets)
      → Onward now
          (stored_at m buckets around now ip port w)
          (stored_at m buckets around now ip port w')
      → SeenAt ip port (stored_at m buckets around now ip port w') w2
      → SeenAt ip port (stored_at m buckets around now ip port w) w2
  unfolding Onward
  seen_later ip port w w' w2 (inl e) (s, is, seen) = (s, is, subst (λ o. IsSeen now o s) e seen)
  seen_later ip port w w' w2 (inr (t, is', seen')) (s, is, seen) =
      (s, is, IsSeen-again now _ t s seen' (subst (λ o. IsSeen now o s) is' seen))

  -- An entry of the endpoint.
  entry-SeenAt :
      (refresh : Bool) (entry : Value) (r : SyncResult) (w : World m buckets) (ip : String)
      (port : ℕ)
      → is_at ip port entry ≡ true
      → 2 ≤ port
      → SeenAt ip port
          (stored_at m buckets around now ip port w)
          (process_entry m buckets around now refresh entry (r, w)).1
  unfolding process_entry query_url_for server_id_for IsSavedAt
  entry-SeenAt refresh entry r w ip port names above =
      let e_ip : string_or_undefined (get "ip" entry) ≡ some ip =
        (opt_eq_iff _ (some ip)).0 (ground (arith, names)) in
      let e_port = port_is (number_or_undefined (get "port" entry)) (ground (arith, names)) in
      let not_zero : leb port 0 ≡ false = ground (arith, above) in
      let not_one : leb port 1 ≡ false = ground (arith, above) in
      rw (e_ip, e_port, not_zero, not_one)
        (process_at-IsSavedAt m buckets around now refresh entry _ _ ip port r w e_ip e_port).0
    where
      port_is : (o : Option ℕ) → is_port o port ≡ true → o ≡ some port
      port_is none h = absurd (cc h)
      port_is (some n) h = ap some (ground (arith, h))

  entries-SeenAt :
      (refresh : Bool) (entries : List Value) (r : SyncResult) (w : World m buckets) (ip : String)
      (port : ℕ)
      → any (is_at ip port) entries ≡ true
      → 2 ≤ port
      → SeenAt ip port
          (stored_at m buckets around now ip port w)
          (process_entries m buckets around now refresh entries (r, w)).1
  unfolding any process_entries
  entries-SeenAt refresh [] r w ip port listed above = absurd (cc listed)
  entries-SeenAt refresh (entry ∷ entries) r w ip port listed above =
      let (r', w') = process_entry m buckets around now refresh entry (r, w) in
      let last = (process_entries m buckets around now refresh entries (r', w')).1 in
      elim (Bool-cases (is_at ip port entry)) [
        | inl here ↦
            seen_first ip port _ w' last (entry-SeenAt refresh entry r w ip port here above)
              (entries-Onward refresh entries r' w' ip port)
        | inr elsewhere ↦
            seen_later ip port w w' last (entry-Onward refresh entry r w ip port) (
              entries-SeenAt refresh entries r' w' ip port (ground (arith, listed, elsewhere))
                above)
      ]

  -- After the entries of the master list are processed, there is a server at each endpoint that one
  -- of them names with a port above 1: it was seen now, and where the server that was there before had
  -- a URL that was configured explicitly, it has that URL.
  pub listed-IsSeen :
      (refresh : Bool) (entries : List Value) (r : SyncResult) (w : World m buckets) (ip : String)
      (port : ℕ)
      → any (is_at ip port) entries ≡ true
      → 2 ≤ port
      → (s : ServerConfig) × (find_server_by_master_endpoint m ip port
            (process_entries m buckets around now refresh entries (r, w)).1.store
          ≡ some s)
        × IsSeen now (find_server_by_master_endpoint m ip port w.store) s
  listed-IsSeen refresh entries r w ip port listed above =
      let (s, is, seen) = entries-SeenAt refresh entries r w ip port listed above in
      (
        s,
        find-endpoint m ip port _ ∙ is,
        subst (λ o. IsSeen now o s) (sym (find-endpoint m ip port w.store)) seen,
      )
