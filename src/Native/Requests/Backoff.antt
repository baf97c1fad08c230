-- ===== src/Native/Requests/Backoff.antt =====
-- The failures are bounded, and a route that was refused is asked again after a while only.
use rw_manager_backend.Base.{
  ℕ, String, Bool, true, false, Option, ◌&&◌, ◌+◌, ◌-◌, ◌*◌, ◌≤◌, min, ltb, leb, nat_eq, some, [],
  ◌∷◌, length, opt_eq, map_get, map_set, map_delete, map_has, get-set_same, length-set,
  length-delete-le, eq_refl, if◌then◌else◌, arith, ◌≡◌, refl, sym, ap, ◌∙◌, Bool-cases, ◌⊎◌, inl,
  inr,
}
use rw_manager_backend.Data.Server.{ServerConfig}
use rw_manager_backend.Store.State.{MongoCollections, Store}
use rw_manager_backend.Store.Servers.{find_server_by_id}
use rw_manager_backend.Native.Requests.Recovery.{remaining, recover-id, recover-remaining}
use rw_manager_backend.Native.Requests.{
  Failure, Failures, Fetched, status, json, thrown, native_access_backoff, minute_ms, attempts_of,
  retry_after_ms, most_failures, delete_first, make_room, add_failure, recover, fetch_route, pauses,
  fetch_native_plugin_json,
}

abbrev pub IsBounded : Failures → Type 0
IsBounded fs = length fs ≤ most_failures

delete_first-length : (fs : Failures) → length (delete_first fs) ≤ length fs - 1
unfolding map_delete
delete_first-length [] = ground arith
delete_first-length ((id, f) ∷ fs) = ground (arith, eq_refl id, length-delete-le id fs)

-- Setting an entry makes a map longer by one entry at most.
length-set_le :
    (id : String) (f : Failure) (fs : Failures) → length (map_set id f fs) ≤ length fs + 1
length-set_le id f fs = elim (Bool-cases (map_has id fs)) [
  | inl e ↦ omega (arith, length-set id f fs ∙ ap (λ b. if b then length fs else length fs + 1) e)
  | inr e ↦ omega (arith, length-set id f fs ∙ ap (λ b. if b then length fs else length fs + 1) e)
]

set-IsBounded :
    (id : String) (f : Failure) (fs : Failures)
    → IsBounded fs
    → IsBounded (map_set id f (make_room id fs))
set-IsBounded id f fs h = elim (Bool-cases (map_has id fs)) [
  | inl known ↦
      let here = length-set id f fs ∙ ap (λ b. if b then length fs else length fs + 1) known in
      elim (Bool-cases (leb most_failures (length fs))) [
        | inl full ↦ rw (full, known) (omega (arith, here, h))
        | inr room ↦ rw room (omega (arith, here, h))
      ]
  | inr new ↦ elim (Bool-cases (leb most_failures (length fs))) [
    | inl full ↦
        rw (full, new)
          (omega (arith, length-set_le id f (delete_first fs), delete_first-length fs, h))
    | inr room ↦ rw room (ground (arith, length-set_le id f fs, room))
  ]
]

add_failure-IsBounded :
    (later : ℕ) (server : ServerConfig) (fs : Failures)
    → IsBounded fs
    → IsBounded (add_failure later server fs)
unfolding add_failure
add_failure-IsBounded later server fs h = set-IsBounded server.id _ fs h

-- The exponent of the pause.
exponent-cases : (n : ℕ) → (min n 3 ≡ 0) ⊎ ((min n 3 ≡ 1) ⊎ ((min n 3 ≡ 2) ⊎ (min n 3 ≡ 3)))
exponent-cases n = ground arith

-- A pause is between 5 and 30 minutes.
retry_after-within :
    (attempts : ℕ)
    → (5 * minute_ms ≤ retry_after_ms attempts) × (retry_after_ms attempts ≤ 30 * minute_ms)
unfolding retry_after_ms
retry_after-within attempts = elim (exponent-cases (attempts - 1)) [
  | inl e ↦ rw e (omega arith, omega arith)
  | inr (inl e) ↦ rw e (omega arith, omega arith)
  | inr (inr (inl e)) ↦ rw e (omega arith, omega arith)
  | inr (inr (inr e)) ↦ rw e (omega arith, omega arith)
]

-- What is kept of a 401 with a credential, after what was kept before.
abbrev failure_with : ℕ → Option String → Option Failure → Failure
failure_with later credential previous =
    let attempts = attempts_of credential previous in
    record { credential = credential; until = later + retry_after_ms attempts; attempts = attempts }

get-add_failure :
    (later : ℕ) (left : ServerConfig) (fs : Failures) (id : String) (credential : Option String)
    → left.id ≡ id
    → left.connector_credential ≡ credential
    → map_get id (add_failure later left fs) ≡ some (failure_with later credential (map_get id fs))
unfolding add_failure
get-add_failure later left fs id credential same has =
    let kept =
      get-set_same left.id (failure_with later left.connector_credential (map_get left.id fs))
        (make_room left.id fs) in
    ap (λ i. map_get i (add_failure later left fs)) (sym same)
    ∙ kept
    ∙ ap (λ i. some (failure_with later left.connector_credential (map_get i fs))) same
    ∙ ap (λ c. some (failure_with later c (map_get id fs))) has

module _ (m : MongoCollections) where
  fetch_route-IsBounded :
      (later : ℕ) (authorized connected shared : Bool) (server : ServerConfig) (fetched : Fetched)
      (fs : Failures) (st : Store m)
      → IsBounded fs
      → IsBounded (fetch_route m later authorized connected shared server fetched (fs, st)).1.0
  unfolding fetch_route
  fetch_route-IsBounded later authorized connected shared server (status code) fs st h =
      elim (Bool-cases (nat_eq code 401)) [
        | inl e ↦
            rw e
              (add_failure-IsBounded later (recover m authorized connected shared server st).0 fs h)
        | inr e ↦ rw e h
      ]
  fetch_route-IsBounded later authorized connected shared server (json v) fs st h =
      omega (arith, length-delete-le server.id fs, h)
  fetch_route-IsBounded later authorized connected shared server (thrown e) fs st h = h

  -- At most 5000 failures are kept, whatever is requested and answered.
  pub fetch-IsBounded :
      (now later : ℕ) (authorized connected shared : Bool) (server : ServerConfig)
      (fetched : Fetched) (fs : Failures) (st : Store m)
      → IsBounded fs
      → IsBounded
          (fetch_native_plugin_json m now later authorized connected shared server fetched
            (fs, st)).1.0
  unfolding fetch_native_plugin_json
  fetch-IsBounded now later authorized connected shared server fetched fs st h =
      elim (Bool-cases (pauses now server (map_get server.id fs))) [
        | inl e ↦ rw e h
        | inr e ↦
            rw e (fetch_route-IsBounded later authorized connected shared server fetched fs st h)
      ]

  refused_failures :
      (now later : ℕ) (authorized connected shared : Bool) (server : ServerConfig) (fs : Failures)
      (st : Store m)
      → pauses now server (map_get server.id fs) ≡ false
      → (fetch_native_plugin_json m now later authorized connected shared server
          (status 401)
          (fs, st)).1.0
        ≡ add_failure later (recover m authorized connected shared server st).0 fs
  unfolding fetch_native_plugin_json fetch_route
  refused_failures now later authorized connected shared server fs st sent = rw sent refl

  asked_again :
      (next after_next : ℕ) (authorized connected shared : Bool) (again : ServerConfig)
      (fetched : Fetched) (r : Failures × Store m) (f : Failure)
      → map_get again.id r.0 ≡ some f
      → fetch_native_plugin_json m next after_next authorized connected shared again fetched r ≡ (
          if pauses next again (some f)
          then (native_access_backoff, r)
          else fetch_route m after_next authorized connected shared again fetched r)
  unfolding fetch_native_plugin_json
  asked_again next after_next authorized connected shared again fetched (fs, st) f e = rw e refl

  -- Where a route is answered with a 401, the failure counts one more than the failures before with
  -- the credential that the server object then has: its own, or none where the store is in memory,
  -- the object is the stored one, the request had a credential and the connector was told to
  -- reset it. A request for that server with a credential `c` at a time `next` is then refused
  -- without being sent exactly where the two credentials are the same and the time is before the end
  -- of the pause, which is between 5 and 30 minutes long. A shared object is the one that is stored.
  pub refused-pauses :
      (now later next after_next : ℕ)
      (authorized connected shared authorized' connected' shared' : Bool)
      (server again : ServerConfig) (fetched : Fetched) (fs : Failures) (st : Store m)
      → pauses now server (map_get server.id fs) ≡ false
      → again.id ≡ server.id
      → (shared ≡ true → find_server_by_id m server.id st ≡ some server)
      → let refused =
          (fetch_native_plugin_json m now later authorized connected shared server
            (status 401)
            (fs, st)).1 in
        let credential = remaining m authorized connected shared server st in
        let pause = retry_after_ms (attempts_of credential (map_get server.id fs)) in
        (5 * minute_ms ≤ pause)
        × (pause ≤ 30 * minute_ms)
        × (fetch_native_plugin_json m next after_next authorized' connected' shared' again fetched
              refused
            ≡ (if opt_eq credential again.connector_credential && ltb next (later + pause)
                then (native_access_backoff, refused)
                else fetch_route m after_next authorized' connected' shared' again fetched refused))
  refused-pauses now later next after_next authorized connected shared authorized' connected'
        shared' server again fetched fs st sent same held =
      let credential = remaining m authorized connected shared server st in
      let left = (recover m authorized connected shared server st).0 in
      let within = retry_after-within (attempts_of credential (map_get server.id fs)) in
      let kept =
        get-add_failure later left fs server.id credential
          (recover-id m authorized connected shared server st)
          (recover-remaining m authorized connected shared server st held) in
      (
        within.0,
        within.1,
        asked_again next after_next authorized' connected' shared' again fetched
            (fetch_native_plugin_json m now later authorized connected shared server (status 401)
              (fs, st)).1
            (failure_with later credential (map_get server.id fs))
            (ap (λ (fs' : Failures). map_get again.id fs')
                (refused_failures now later authorized connected shared server fs st sent)
              ∙ ap (λ id. map_get id (add_failure later left fs)) same
              ∙ kept),
      )
