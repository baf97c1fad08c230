-- ===== src/OpenId/Lists.antt =====
-- Tasks and nonces without one nonce, and the nonces that have not expired.
use rw_manager_backend.Base.{
  ℕ, String, false, not, none, some, List, [], ◌∷◌, find?, filter, leb, str_eq, eq_iff, includes,
  map_get, Entries, if◌then◌else◌, arith, ◌≡◌, sym, ap, ◌∙◌, inl, inr, Bool-cases,
}
use rw_manager_backend.OpenId.Runs.{Task, is_task}
use rw_manager_backend.OpenId.{live}

-- What is left of a list without one nonce.
pub includes-without :
    (k j : String) (ps : List String)
    → includes j (filter (λ p. not (str_eq p k)) ps) ≡ (if str_eq k j then false else includes j ps)
unfolding includes filter
includes-without k j [] = ground arith
includes-without k j (p ∷ ps) =
    ground (arith, includes-without k j ps, eq_iff p k, eq_iff p j, eq_iff k j)

pub find-without :
    (k j : String) (ts : List Task)
    → find? (is_task j) (filter (λ u. not (is_task k u)) ts)
      ≡ (if str_eq k j then none else find? (is_task j) ts)
unfolding find? filter
find-without k j [] = ground arith
find-without k j (t ∷ ts) =
    ground (arith, find-without k j ts, eq_iff t.nonce k, eq_iff t.nonce j, eq_iff k j)

-- What is found without one nonce was there.
pub left :
    (k j : String) (ts : List Task) (task : Task)
    → find? (is_task j) (filter (λ u. not (is_task k u)) ts) ≡ some task
    → find? (is_task j) ts ≡ some task
left k j ts task at = elim (Bool-cases (str_eq k j)) [
  | inl same ↦
      let this : none ≡ some task =
        sym (find-without k j ts ∙ ap (λ b. if b then none else find? (is_task j) ts) same) ∙ at in
      absurd (cc this)
  | inr other ↦
      sym (find-without k j ts ∙ ap (λ b. if b then none else find? (is_task j) ts) other) ∙ at
]

-- An entry that has not expired stays.
pub get-live :
    (now : ℕ) (nonce : String) (es : Entries ℕ) (e : ℕ)
    → map_get nonce es ≡ some e
    → leb e now ≡ false
    → map_get nonce (live now es) ≡ some e
unfolding map_get
get-live now nonce [] e got fresh = got
get-live now nonce ((j, e') ∷ es) e got fresh = elim (Bool-cases (str_eq j nonce)) [
  | inl same ↦
      let this : some e' ≡ some e =
        sym (ap (λ b. if b then some e' else map_get nonce es) same) ∙ got in
      let fresh' : leb e' now ≡ false = ap (λ n. leb n now) (some_inj this) ∙ fresh in
      rw (fresh', same) this
  | inr other ↦
      let later =
        get-live now nonce es e
          (sym (ap (λ b. if b then some e' else map_get nonce es) other) ∙ got) fresh in
      elim (Bool-cases (leb e' now)) [
        | inl gone ↦ rw gone later
        | inr kept ↦ rw (kept, other) later
      ]
]
  where
    some_inj : {a b : ℕ} → some a ≡ some b → a ≡ b
    some_inj h = cc h
