-- ===== src/Auth/Account/Sessions.antt =====
-- What sign-up, sign-in and renaming do to the users' names.
use mathlib.Core.Path.{subst}
use rw_manager_backend.Base.{
  ℕ, String, true, not, Option, none, some, find?, is_some, str_eq, eq_iff, trim, arith,
  guard_state, ◌||◌, Result-cases, IsDistinct, Option-cases, Bool-cases, inl, inr, ◌≡◌, refl, sym,
  ◌∙◌,
}
use rw_manager_backend.Data.User.{DbUser, user, UserState}
use rw_manager_backend.Store.State.{MongoCollections, Store, users_of}
use rw_manager_backend.Store.Patch.{UserPatch, no_user_patch, assign_user}
use rw_manager_backend.Store.Users.{
  is_user, has_username, find_user_by_id, find_user_by_username, update_user, create_user, new_user,
  find_user_by_steam_id,
}
use rw_manager_backend.Store.Users.Views.{
  HasUniqueUsers, find_user_by_username-view, users-update_user, users-create_user,
}
use rw_manager_backend.Auth.Email.{is_email, normalize_steam_id}
use rw_manager_backend.Auth.Account.{
  AuthHost, Fresh, RegisterLocalUserRequest, mark_user_present, token_response, check_steam_id,
  register_local_user, rename_self, is_taken, resolved_username, normalized_email,
}
use rw_manager_backend.Auth.Account.Names.{
  HasDistinctNames, HasDistinctNames-append, HasDistinctNames-renamed, names-update, names-own,
  free_name,
}

none_of : (o : Option DbUser) → not (is_some o) ≡ true → o ≡ none
none_of none h = refl
none_of (some u) h = cc

abbrev presence : ℕ → UserPatch
presence now = record no_user_patch { last_seen_at = some now }

module _ (m : MongoCollections) (host : AuthHost) where
  abbrev pub Apart : Store m → Type 0
  Apart st = HasDistinctNames (users_of m st)

  update-Apart :
      (id : String) (now : ℕ) (st : Store m)
      → Apart st
      → Apart (update_user m id (presence now) st).1
  unfolding assign_user
  update-Apart id now st h = rw users-update_user (
      subst IsDistinct
        (sym (names-update (is_user id) (assign_user (presence now)) (users_of m st) (λ u. refl)))
        h)

  mark-state :
      (now : ℕ) (id : String) (st : Store m)
      → (mark_user_present m host now id st).1 ≡ (update_user m id (presence now) st).1
  unfolding mark_user_present
  mark-state now id st = elim (Option-cases (update_user m id (presence now) st).0) [
    | inl e ↦ rw e refl
    | inr (u, e) ↦ rw e refl
  ]

  token-state :
      (now : ℕ) (id : String) (st : Store m)
      → (token_response m host now id st).1 ≡ (update_user m id (presence now) st).1
  unfolding token_response mark_user_present
  token-state now id st = elim (Option-cases (update_user m id (presence now) st).0) [
    | inl e ↦ rw e refl
    | inr (u, e) ↦ rw e refl
  ]

  pub token-Apart :
      (now : ℕ) (id : String) (st : Store m) → Apart st → Apart (token_response m host now id st).1
  token-Apart now id st h = subst Apart (sym (token-state now id st)) (update-Apart id now st h)

  steam-state : (o : Option String) (st : Store m) → (check_steam_id m host o st).1 ≡ st
  unfolding check_steam_id
  steam-state none st = refl
  steam-state (some value) st = elim (Option-cases (normalize_steam_id value)) [
    | inl e ↦ rw e refl
    | inr (steam, e) ↦ rw e (
        guard_state (λ t. t ≡ st) (not (is_some (find_user_by_steam_id m steam st))) _ st _
          (λ _. refl) refl)
  ]

  pub created-Apart :
      (new : DbUser) (st : Store m)
      → find? (is_user new.id) (users_of m st) ≡ none
      → not (is_some (find_user_by_username m new.username st)) ≡ true
      → Apart st
      → Apart (create_user m new st).1
  created-Apart new st fresh free h =
      subst HasDistinctNames (sym (users-create_user m new st fresh)) (
        HasDistinctNames-append (users_of m st) new h
          (sym (find_user_by_username-view m new.username st) ∙ none_of _ free))

  -- Where no two users have one name and the new id is fresh, signing up leaves it so, whatever the
  -- answer.
  pub register-HasDistinctNames :
      (fresh : Fresh) (input : RegisterLocalUserRequest) (st : Store m)
      → find? (is_user fresh.id) (users_of m st) ≡ none
      → HasDistinctNames (users_of m st)
      → HasDistinctNames (users_of m (register_local_user m host fresh input st).1)
  unfolding register_local_user new_user
  register-HasDistinctNames fresh input st new h =
      elim (Bool-cases (not (str_eq email "" || str_eq input.password ""))) [
        | inr e ↦ rw e h
        | inl given ↦ elim (Bool-cases (is_email email)) [
          | inr e ↦ rw (given, e) h
          | inl valid ↦ elim (Bool-cases (not (is_some (find_user_by_username m name st)))) [
            | inr e ↦ rw (given, valid, e) h
            | inl free ↦ elim (Result-cases (check_steam_id m host input.steam_id st).0) [
              | inr (c, e) ↦ rw (given, valid, free, e, steam-state input.steam_id st) h
              | inl (steam, e) ↦
                  rw (given, valid, free, e, steam-state input.steam_id st)
                    (token-Apart _ _ _ (created-Apart (made steam) st new free h))
            ]
          ]
        ]
      ]
    where
      email : String
      email = normalized_email m host input.email

      name : String
      name = resolved_username input.username (normalized_email m host input.email)

      made : Option String → DbUser
      made steam =
          new_user host.hash_password fresh.id fresh.salt fresh.now
            (resolved_username input.username (normalized_email m host input.email))
            (normalized_email m host input.email) input.password steam user UserState.new

  -- A user may take a name that no other user has.
  pub named-Apart :
      (id name : String) (st : Store m)
      → HasUniqueUsers (users_of m st)
      → Apart st
      → not (is_taken m host id (find_user_by_username m name st)) ≡ true
      → Apart (update_user m id (record no_user_patch { username = some name }) st).1
  unfolding assign_user
  named-Apart id name st unique h free =
      elim (Option-cases (find? (has_username name) (users_of m st))) [
        | inl none_has ↦ rw users-update_user (
            HasDistinctNames-renamed name (is_user id) _ (λ u. refl) (users_of m st) h
              (free_name name (users_of m st) none_has))
        | inr (other, has) ↦ rw users-update_user (
            subst IsDistinct
              (sym (
                names-own name id _ (users_of m st) other (λ u. refl) unique has
                  (own other (find_user_by_username-view m name st ∙ has))))
              h)
      ]
    where
      own : (other : DbUser) → find_user_by_username m name st ≡ some other → other.id ≡ id
      own other found = ground (arith, found, free, eq_iff other.id id)

  -- Where no two users have one name and ids are unique, renaming oneself leaves it so, whatever the
  -- answer.
  pub rename-HasDistinctNames :
      (user_id name : String) (st : Store m)
      → HasUniqueUsers (users_of m st)
      → HasDistinctNames (users_of m st)
      → HasDistinctNames (users_of m (rename_self m host user_id name st).1)
  unfolding rename_self
  rename-HasDistinctNames user_id name st unique h =
      elim (Bool-cases (not (str_eq (trim name) ""))) [
        | inr e ↦ rw e h
        | inl given ↦ elim (Option-cases (find_user_by_id m user_id st)) [
          | inl e ↦ rw (given, e) h
          | inr (owner, e) ↦
              elim (Bool-cases
                (not (is_taken m host owner.id (find_user_by_username m (trim name) st)))) [
                  | inr f ↦ rw (given, e, f) h
                  | inl free ↦
                      rw (given, e, free) (named-Apart owner.id (trim name) st unique h free)
                ]
        ]
      ]
