-- ===== src/Master/Listed/Saved.antt =====
-- What is stored at the endpoints after `saveMasterServer` and after the pins are renamed.
use rw_manager_backend.Base.{
  ℕ, String, true, false, ◌&&◌, Option, none, some, List, [], ◌∷◌, find?, find?-upsert_same,
  find?-upsert_other, upsert, str_eq, eq_iff, eq_refl, opt_eq, nat_eq, arith, ◌≡◌, refl, ap, ◌∙◌,
  Bool-cases, inl, inr, get_or,
}
use mathlib.Core.Option
use rw_manager_backend.Data.User.{DbUser}
use rw_manager_backend.Data.Server.{ServerConfig}
use rw_manager_backend.Store.State.{MongoCollections, Store, memory, mongo, servers_of}
use rw_manager_backend.Store.Servers.{
  at_endpoint, is_port, merge_fields, save_master_server, find_server_by_master_endpoint,
}
use rw_manager_backend.Store.Users.{
  rename_user_pins, rename_pins, replace_pinned_server_id, list_users,
}
use rw_manager_backend.Store.Users.Views.{servers-update_user}

abbrev pub with_credential : ServerConfig → Option String → ServerConfig
with_credential server c = record server { connector_credential = c }

-- A server is at one endpoint.
one_endpoint :
    (ip ip' : String) (port port' : ℕ) (s : ServerConfig)
    → at_endpoint ip port s ≡ true
    → str_eq ip ip' && nat_eq port port' ≡ false
    → at_endpoint ip' port' s ≡ false
one_endpoint ip ip' port port' s here other = apart s.ip s.port here
  where
    apart :
        (o : Option String) (n : Option ℕ)
        → opt_eq o (some ip) && is_port n port ≡ true
        → opt_eq o (some ip') && is_port n port' ≡ false
    apart none n h = refl
    apart (some i) none h = ground arith
    apart (some i) (some k) h = ground (arith, h, other, eq_iff i ip, eq_iff i ip', eq_iff ip ip')

module _ (m : MongoCollections) where
  -- Renaming pins leaves the servers.
  rename_pins-servers :
      (previous next : String) (users : List DbUser) (st : Store m)
      → servers_of m (rename_pins m previous next users st) ≡ servers_of m st
  unfolding rename_pins rename_user_pins
  rename_pins-servers previous next [] st = refl
  rename_pins-servers previous next (user ∷ users) st =
      rename_pins-servers previous next users (rename_user_pins m previous next user st)
      ∙ renamed user.pinned_servers refl
    where
      renamed :
          (o : Option (List String))
          → user.pinned_servers ≡ o
          → servers_of m (rename_user_pins m previous next user st) ≡ servers_of m st
      renamed none e = rw e refl
      renamed (some pins) e = rw e (servers-update_user m _ _ st)

  pub replace_pinned-servers :
      (previous next : String) (st : Store m)
      → servers_of m (replace_pinned_server_id m previous next st) ≡ servers_of m st
  unfolding replace_pinned_server_id
  replace_pinned-servers previous next st = elim (Bool-cases (str_eq previous next)) [
    | inl e ↦ rw e refl
    | inr e ↦ rw e (rename_pins-servers previous next (list_users m st) st)
  ]

  pub find-endpoint :
      (ip : String) (port : ℕ) (st : Store m)
      → find_server_by_master_endpoint m ip port st ≡ find? (at_endpoint ip port) (servers_of m st)
  unfolding find_server_by_master_endpoint
  find-endpoint ip port (memory ss us) = refl
  find-endpoint ip port (mongo s u) = m.servers.find_one_lem (at_endpoint ip port) s

  -- Saving is an upsert at the endpoint.
  save_master-servers :
      (server : ServerConfig) (ip : String) (port : ℕ) (st : Store m)
      → server.ip ≡ some ip
      → server.port ≡ some port
      → str_eq ip "" ≡ false
      → (c : Option String) × (servers_of m (save_master_server m server st).1
          ≡ upsert
              (at_endpoint ip port)
              (merge_fields server)
              (with_credential server c)
              (servers_of m st))
  unfolding save_master_server
  save_master-servers server ip port (memory ss us) e_ip e_port named =
      (server.connector_credential, rw (e_ip, e_port, named) refl)
  save_master-servers server ip port (mongo s u) e_ip e_port named =
      (none, rw (e_ip, e_port, named) (m.servers.upsert_one-docs _ _ _ s))

  saved_at :
      (server : ServerConfig) (ip : String) (port : ℕ) (c : Option String)
      → server.ip ≡ some ip
      → server.port ≡ some port
      → at_endpoint ip port (with_credential server c) ≡ true
  saved_at server ip port c e_ip e_port = rw (e_ip, e_port) (ground (arith, eq_refl ip))

  -- A saved server is found at its endpoint, but for the credential, which is not its own.
  pub save_master-found :
      (server : ServerConfig) (ip : String) (port : ℕ) (st : Store m)
      → server.ip ≡ some ip
      → server.port ≡ some port
      → str_eq ip "" ≡ false
      → (c : Option String) × (find?
            (at_endpoint ip port)
            (servers_of m (save_master_server m server st).1)
          ≡ some (with_credential server c))
  save_master-found server ip port st e_ip e_port named =
      let (c, saved) = save_master-servers server ip port st e_ip e_port named in
      written c (find? (at_endpoint ip port) (servers_of m st)) (
        ap (find? (at_endpoint ip port)) saved
        ∙ find?-upsert_same (at_endpoint ip port) (merge_fields server) (with_credential server c)
            (servers_of m st) (saved_at server ip port c e_ip e_port)
            (λ x here. saved_at server ip port x.connector_credential e_ip e_port))
    where
      written :
          {r : Option ServerConfig} (c : Option String) (o : Option ServerConfig)
          → r ≡ some (get_or (Option.map (merge_fields server) o) (with_credential server c))
          → (c : Option String) × (r ≡ some (with_credential server c))
      written c none e = (c, e)
      written c (some old) e = (old.connector_credential, e)

  -- What is stored at another endpoint stays.
  pub save_master-other :
      (server : ServerConfig) (ip ip' : String) (port port' : ℕ) (st : Store m)
      → server.ip ≡ some ip
      → server.port ≡ some port
      → str_eq ip "" ≡ false
      → str_eq ip ip' && nat_eq port port' ≡ false
      → find? (at_endpoint ip' port') (servers_of m (save_master_server m server st).1)
        ≡ find? (at_endpoint ip' port') (servers_of m st)
  save_master-other server ip ip' port port' st e_ip e_port named other =
      let (c, saved) = save_master-servers server ip port st e_ip e_port named in
      let apart = λ (x : ServerConfig) (here : at_endpoint ip port x ≡ true).
        one_endpoint ip ip' port port' x here other in
      ap (find? (at_endpoint ip' port')) saved
      ∙ find?-upsert_other (at_endpoint ip port) (merge_fields server) (with_credential server c)
          (at_endpoint ip' port') (servers_of m st)
          (apart (with_credential server c) (saved_at server ip port c e_ip e_port))
          (λ x here. (
            apart x here,
            apart (with_credential server x.connector_credential)
                (saved_at server ip port x.connector_credential e_ip e_port),
          ))
