-- ===== src/Base/Monad.antt =====
-- The error codes that the services throw, and computations that read and change a state and may
-- throw. A throw keeps the changes that were made before it, as in the program.
use mathlib.Core.Path.{◌≡◌, refl, sym, subst}
use mathlib.Core.Logic.{◌⊎◌, inl, inr}
use mathlib.Core.Bool.{Bool, true, false}
use mathlib.Core.Option.{Option, none, some}

pub data Code : Type 0 where
  server_not_found user_not_found unauthorized forbidden : Code
  label_query_url_required query_url_exists pinned_server_limit_reached : Code
  failed_verify_backend_admins not_backend_admin query_url_name_required : Code
  failed_verify_backend_config query_url_name_mismatch : Code
  state_invalid role_invalid cannot_delete_self : Code
  email_password_required email_invalid username_exists : Code
  steam_id_invalid steam_id_exists invalid_username_or_password name_required : Code
  steam_openid_rejected : Code
  connector_not_configured pairing_ambiguous provision_failed : Code
  untrusted_proxy peer_ip_unavailable invalid_message : Code
  query_url_missing server_limit_exceeded openid_invalid : Code
  from_invalid to_invalid date_range_invalid invalid_player_status : Code
  -- A search of the model ran out of fuel; the program has no such error.
  search_ended : Code

pub data Result {ℓ} (A : Type ℓ) : Type ℓ where
  ok : A → Result A
  err : Code → Result A

-- An async function over a state of type `S`, run to its end.
abbrev pub Run : Type 0 → Type 0 → Type 0
Run S A = S → Result A × S

abbrev pub after : {S A B : Type 0} → Result A × S → (A → Run S B) → Result B × S
after (ok a, s) f = f a s
after (err e, s) f = (err e, s)

infixl 5 ◌>>=◌ ◌>>◌
abbrev pub ◌>>=◌ : {S A B : Type 0} → Run S A → (A → Run S B) → Run S B
◌>>=◌ m f s = after (m s) f

abbrev pub ◌>>◌ : {S A B : Type 0} → Run S A → Run S B → Run S B
◌>>◌ m k s = after (m s) (λ _. k)

abbrev pub return : {S A : Type 0} → A → Run S A
return a s = (ok a, s)

abbrev pub throw : {S A : Type 0} → Code → Run S A
throw e s = (err e, s)

-- A function of the state that throws nothing.
abbrev pub read : {S A : Type 0} → (S → A) → Run S A
read f s = (ok (f s), s)

abbrev pub call : {S A : Type 0} → (S → A × S) → Run S A
call f s = (ok (f s).0, (f s).1)

-- if (!test) throw
abbrev pub guard : {S : Type 0} → Bool → Code → Run S (Unit {0})
guard true e s = (ok tt, s)
guard false e s = (err e, s)

-- if (value === undefined) throw
abbrev pub or_throw : {S A : Type 0} → Option A → Code → Run S A
or_throw none e s = (err e, s)
or_throw (some a) e s = (ok a, s)

-- Returning a function of the result leaves the state.
pub after-return :
    {S A B : Type 0} (p : Result A × S) (f : A → B) → (after p (λ a. return (f a))).1 ≡ p.1
after-return (ok a, s) f = refl
after-return (err e, s) f = refl

-- What holds of the state where the guard throws, and after what follows, holds after both.
pub guard_state {ℓ} :
    {S B : Type 0} (P : S → Type ℓ) (b : Bool) (e : Code) (s : S) (k : Run S B)
    → (b ≡ true → P (k s).1)
    → P s
    → P (after (guard b e s) (λ _. k)).1
guard_state P true e s k go stop = go refl
guard_state P false e s k go stop = stop

pub Result-cases {ℓ} :
    {A : Type ℓ} (r : Result A) → ((a : A) × (r ≡ ok a)) ⊎ ((e : Code) × (r ≡ err e))
Result-cases (ok a) = inl (a, refl)
Result-cases (err e) = inr (e, refl)

-- The same after a check that leaves the state.
pub after_state {ℓ} :
    {S A B : Type 0} (P : S → Type ℓ) (s : S) (r : Result A × S) (k : A → Run S B)
    → r.1 ≡ s
    → ((a : A) → P (k a s).1)
    → P s
    → P (after r k).1
after_state P s (ok a, s') k e go stop = subst (λ t. P (k a t).1) (sym e) (go a)
after_state P s (err c, s') k e go stop = subst P (sym e) stop

-- A computation that answers answered in its first part.
pub after-ok :
    {S A B : Type 0} (p : Result A × S) (f : A → Run S B) (b : B)
    → (after p f).0 ≡ ok b
    → (a : A) × (p.0 ≡ ok a) × ((f a p.1).0 ≡ ok b)
after-ok (ok a, s) f b h = (a, refl, h)
after-ok (err e, s) f b h = absurd (cc h)

pub ok_inj : {A : Type 0} {a b : A} → ok a ≡ ok b → a ≡ b
ok_inj h = cc h
