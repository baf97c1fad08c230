-- ===== src/Heartbeat/Rounds.antt =====
-- Which sockets a round of the heartbeat terminates.
use mathlib.Core.Path.{subst}
use rw_manager_backend.Base.{
  ℕ, Bool, true, false, not, ◌&&◌, List, [], ◌∷◌, map, nat_eq, filter, All, if◌then◌else◌, arith,
  ◌≡◌, refl, ap, ◌∙◌, Bool-cases, inl, inr,
}
use rw_manager_backend.Heartbeat.{Socket, has, delete, run_heartbeat}

abbrev pub ids : List Socket → List ℕ
ids = map (λ (s : Socket). s.id)

-- The clients are a set.
abbrev pub HasDistinctIds : List Socket → Type 0
HasDistinctIds [] = Unit
HasDistinctIds (s ∷ ss) = (has s.id (ids ss) ≡ false) × HasDistinctIds ss

has-delete : (i k : ℕ) (xs : List ℕ) → has i (delete k xs) ≡ (has i xs && not (nat_eq i k))
unfolding has filter
has-delete i k [] = refl
has-delete i k (x ∷ xs) = ground (arith, has-delete i k xs)

abbrev pub silent : List ℕ → Socket → Bool
silent alive s = s.is_open && not (has s.id alive)

abbrev pub answering : List ℕ → Socket → Bool
answering alive s = s.is_open && has s.id alive

silent-delete :
    (k : ℕ) (alive : List ℕ) (ss : List Socket)
    → has k (ids ss) ≡ false
    → filter (silent (delete k alive)) ss ≡ filter (silent alive) ss
unfolding has filter
silent-delete k alive [] h = refl
silent-delete k alive (s ∷ ss) h =
    ground (arith, has-delete s.id k alive, silent-delete k alive ss, h)

-- A round terminates exactly the open sockets that have not answered since the last one. The
-- clients are distinct.
pub terminated-silent :
    (ss : List Socket) (alive : List ℕ)
    → HasDistinctIds ss
    → (run_heartbeat ss alive).terminated ≡ ids (filter (silent alive) ss)
unfolding run_heartbeat filter
terminated-silent [] alive h = refl
terminated-silent (s ∷ ss) alive (new, h) =
    let same = terminated-silent ss alive h in
    let answered =
      terminated-silent ss (delete s.id alive) h ∙ ap ids (silent-delete s.id alive ss new) in
    ground (arith, same, answered)

shrinks :
    (i : ℕ) (ss : List Socket) (alive : List ℕ)
    → has i alive ≡ false
    → has i (run_heartbeat ss alive).alive ≡ false
unfolding run_heartbeat
shrinks i [] alive h = h
shrinks i (s ∷ ss) alive h =
    let same = shrinks i ss alive h in
    let answered = shrinks i ss (delete s.id alive) (has-delete i s.id alive ∙ ground (arith, h)) in
    ground (arith, same, answered)

abbrev IsUnheard : List ℕ → Socket → Type 0
IsUnheard alive s = (if s.is_open then has s.id alive else false) ≡ false

alive_skipped :
    (s : Socket) (ss : List Socket) (alive : List ℕ)
    → s.is_open ≡ false
    → (run_heartbeat ss alive).alive ≡ (run_heartbeat (s ∷ ss) alive).alive
unfolding run_heartbeat
alive_skipped s ss alive shut = ground (arith, shut)

alive_dumb :
    (s : Socket) (ss : List Socket) (alive : List ℕ)
    → s.is_open ≡ true
    → has s.id alive ≡ false
    → (run_heartbeat ss alive).alive ≡ (run_heartbeat (s ∷ ss) alive).alive
unfolding run_heartbeat
alive_dumb s ss alive opened dumb = ground (arith, opened, dumb)

alive_heard :
    (s : Socket) (ss : List Socket) (alive : List ℕ)
    → s.is_open ≡ true
    → has s.id alive ≡ true
    → (run_heartbeat ss (delete s.id alive)).alive ≡ (run_heartbeat (s ∷ ss) alive).alive
unfolding run_heartbeat
alive_heard s ss alive opened heard = ground (arith, opened, heard)

round-IsUnheard :
    (ss : List Socket) (alive : List ℕ) → All (IsUnheard (run_heartbeat ss alive).alive) ss
round-IsUnheard [] alive = tt
round-IsUnheard (s ∷ ss) alive =
    let gone = shrinks s.id ss (delete s.id alive) (has-delete s.id s.id alive ∙ ground arith) in
    let quiet = shrinks s.id ss alive in
    let same = round-IsUnheard ss alive in
    let answered = round-IsUnheard ss (delete s.id alive) in
    elim (Bool-cases s.is_open) [
      | inr shut ↦
          subst (λ a. All (IsUnheard a) (s ∷ ss)) (alive_skipped s ss alive shut)
            (ground (arith, shut), same)
      | inl opened ↦ elim (Bool-cases (has s.id alive)) [
        | inr dumb ↦
            subst (λ a. All (IsUnheard a) (s ∷ ss)) (alive_dumb s ss alive opened dumb)
              (ground (arith, opened, quiet dumb), same)
        | inl heard ↦
            subst (λ a. All (IsUnheard a) (s ∷ ss)) (alive_heard s ss alive opened heard)
              (ground (arith, opened, gone), answered)
      ]
    ]

unheard-filter :
    (ss : List Socket) (alive : List ℕ)
    → All (IsUnheard alive) ss
    → filter (silent alive) ss ≡ filter (λ s. s.is_open) ss
unfolding filter
unheard-filter [] alive h = refl
unheard-filter (s ∷ ss) alive (h, hs) = ground (arith, h, unheard-filter ss alive hs)

-- Without an answer between two rounds over the same clients, the second one terminates every open
-- socket. The clients are distinct.
pub second_round :
    (ss : List Socket) (alive : List ℕ)
    → HasDistinctIds ss
    → (run_heartbeat ss (run_heartbeat ss alive).alive).terminated
      ≡ ids (filter (λ s. s.is_open) ss)
second_round ss alive h =
    terminated-silent ss (run_heartbeat ss alive).alive h
    ∙ ap ids (unheard-filter ss (run_heartbeat ss alive).alive (round-IsUnheard ss alive))
