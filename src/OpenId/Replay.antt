-- ===== src/OpenId/Replay.antt =====
-- A nonce is accepted once. Requests to Steam may be under way at the same time.
use rw_manager_backend.Base.{
  ℕ, String, Bool, true, false, ◌||◌, ◌+◌, ◌≤◌, ◌<◌, Option, none, some, List, [], ◌∷◌, find?,
  find?-passes, leb, str_eq, eq_iff, includes, IsDistinct, map_get, map_set, map_has, get-set_same,
  get-set_other, is_some, if◌then◌else◌, arith, Result, ok, err, ◌≡◌, refl, sym, ap, ◌∙◌, ◌⊎◌, inl,
  inr, Bool-cases, Option-cases,
}
use mathlib.Core.Path.{subst}
use rw_manager_backend.OpenId.Lists.{includes-without, find-without, left, get-live}
use rw_manager_backend.OpenId.Runs.{
  Task, World, Event, begins, ends, is_task, begun, ended, step, run, IsTimely,
}
use rw_manager_backend.OpenId.{
  SteamAuthRequest, OpenIdHost, Nonces, nonce_ttl_ms, nonce_time, in_window, live, check_nonce,
  check_claim, claim, begin_verification, end_verification,
}

module _ (host : OpenIdHost) where
  -- A nonce that was accepted is remembered until its window is over.
  abbrev Remembered : World → String → Type 0
  Remembered w nonce =
      (t : ℕ)
      → nonce_time host nonce ≡ some t
      → ((e : ℕ) × (map_get nonce w.nonces.used ≡ some e) × (t + nonce_ttl_ms < e))
        ⊎ (t + nonce_ttl_ms < w.clock)

  record Good (w : World) : Type 0 where
    pending :
        (nonce : String) → includes nonce w.nonces.pending ≡ is_some (find? (is_task nonce) w.tasks)
    timely :
        (task : Task) (nonce : String)
        → find? (is_task nonce) w.tasks ≡ some task
        → (task.started ≤ w.clock) × ((t : ℕ) → nonce_time host nonce ≡ some t → t < task.started)
    remembered : (nonce : String) → includes nonce w.accepted ≡ true → Remembered w nonce
    apart :
        (nonce : String)
        → includes nonce w.accepted ≡ true
        → includes nonce w.nonces.pending ≡ false
    distinct : IsDistinct w.accepted

module _ (host : OpenIdHost) where
  -- Time goes on.
  later-Good :
      (w : World) (now : ℕ) → w.clock ≤ now → Good host w → Good host (record w { clock = now })
  later-Good w now on g = record {
    pending = g.pending;
    timely = λ task nonce found.
        (omega (arith, (g.timely task nonce found).0, on), (g.timely task nonce found).1);
    remembered = λ nonce was t at. elim (g.remembered nonce was t at) [
      | inl kept ↦ inl kept
      | inr over ↦ inr (omega (arith, over, on))
    ];
    apart = g.apart;
    distinct = g.distinct;
  }

  -- The nonces that have expired are forgotten.
  live-Good :
      (w : World)
      → Good host w
      → Good host (record w { nonces = record w.nonces { used = live w.clock w.nonces.used } })
  live-Good w g = record {
    pending = g.pending;
    timely = g.timely;
    remembered = λ nonce was t at. elim (g.remembered nonce was t at) [
      | inl (e, got, after) ↦ elim (Bool-cases (leb e w.clock)) [
        | inl gone ↦ inr (ground (arith, gone, after))
        | inr kept ↦ inl (e, get-live w.clock nonce w.nonces.used e got kept, after)
      ]
      | inr over ↦ inr over
    ];
    apart = g.apart;
    distinct = g.distinct;
  }

  -- A new nonce is taken.
  task-Good :
      (w : World) (steam_id nonce : String)
      → map_has nonce w.nonces.used ≡ false
      → includes nonce w.nonces.pending ≡ false
      → in_window w.clock (nonce_time host nonce) ≡ true
      → ((t : ℕ) → nonce_time host nonce ≡ some t → t < w.clock)
      → Good host w
      → Good host (record w {
        nonces = record { used = w.nonces.used; pending = nonce ∷ w.nonces.pending };
        tasks = record { started = w.clock; steam_id = steam_id; nonce = nonce } ∷ w.tasks;
      })
  unfolding includes find?
  task-Good w steam_id nonce unused idle within past g = record {
    pending = λ j. ground (arith, g.pending j);
    timely = λ task j found. elim (Bool-cases (str_eq nonce j)) [
      | inl same ↦
          let new : Task = record { started = w.clock; steam_id = steam_id; nonce = nonce } in
          let this : some new ≡ some task =
            sym (ap (λ b. if b then some new else find? (is_task j) w.tasks) same) ∙ found in
          subst
            (λ (u : Task).
              (u.started ≤ w.clock) × ((t : ℕ) → nonce_time host j ≡ some t → t < u.started))
            (some_inj this)
            (omega arith, λ t at. past t (ap (nonce_time host) ((eq_iff nonce j).0 same) ∙ at))
      | inr other ↦
          let new : Task = record { started = w.clock; steam_id = steam_id; nonce = nonce } in
          g.timely task j
            (sym (ap (λ b. if b then some new else find? (is_task j) w.tasks) other) ∙ found)
    ];
    remembered = g.remembered;
    apart = λ j was. elim (Bool-cases (str_eq nonce j)) [
      | inl same ↦
          absurd
            (fresh (subst (λ k. includes k w.accepted ≡ true) (sym ((eq_iff nonce j).0 same)) was))
      | inr other ↦ ground (arith, other, g.apart j was)
    ];
    distinct = g.distinct;
  }
    where
      some_inj : {A : Type 0} {a b : A} → some a ≡ some b → a ≡ b
      some_inj h = cc h

      fresh : includes nonce w.accepted ≡ true → ⊥
      fresh was = elim (Option-cases (nonce_time host nonce)) [
        | inl no_time ↦ cc (within, ap (in_window w.clock) no_time)
        | inr (t, at) ↦ elim (g.remembered nonce was t at) [
          | inl (e, got, after) ↦ cc (unused, ap is_some got)
          | inr over ↦ ground (arith, over, within, ap (in_window w.clock) at)
        ]
      ]

  -- A request ends.
  end-Good :
      (w : World) (nonce : String) (is_valid : Bool) (o : Option Task)
      → find? (is_task nonce) w.tasks ≡ o
      → Good host w
      → Good host (ended host is_valid w o)
  unfolding end_verification includes
  end-Good w nonce is_valid none found g = g
  end-Good w nonce false (some t) found g = record {
    pending = λ j.
        includes-without t.nonce j w.nonces.pending
        ∙ ground (arith, g.pending j, find-without t.nonce j w.tasks);
    timely = λ task j at. g.timely task j (left t.nonce j w.tasks task at);
    remembered = g.remembered;
    apart = λ j was. includes-without t.nonce j w.nonces.pending ∙ ground (arith, g.apart j was);
    distinct = g.distinct;
  }
  end-Good w nonce true (some t) found g = record {
    pending = λ j.
        includes-without t.nonce j w.nonces.pending
        ∙ ground (arith, g.pending j, find-without t.nonce j w.tasks);
    timely = λ task j at. g.timely task j (left t.nonce j w.tasks task at);
    remembered = λ j was. elim (Bool-cases (str_eq t.nonce j)) [
      | inl same ↦ λ time at. inl (
        t.started + nonce_ttl_ms,
        ap (λ k. map_get k (map_set t.nonce (t.started + nonce_ttl_ms) w.nonces.used))
              (sym ((eq_iff t.nonce j).0 same))
            ∙ get-set_same t.nonce (t.started + nonce_ttl_ms) w.nonces.used,
        omega (
          arith,
          (g.timely t nonce found).1 time
              (ap (nonce_time host) (sym own ∙ (eq_iff t.nonce j).0 same) ∙ at),
        ),
      )
      | inr other ↦ λ time at. elim (g.remembered j (ground (arith, was, other)) time at) [
        | inl (e, got, after) ↦ inl (
          e,
          get-set_other t.nonce j (t.started + nonce_ttl_ms) w.nonces.used
                (λ same. ground (arith, other, eq_iff t.nonce j, same))
              ∙ got,
          after,
        )
        | inr over ↦ inr over
      ]
    ];
    apart = λ j was. includes-without t.nonce j w.nonces.pending ∙ ground (arith, g.apart j, was);
    distinct = (
      elim (Bool-cases (includes t.nonce w.accepted)) [
        | inl was ↦ absurd (cc (g.apart t.nonce was, g.pending t.nonce, task_pending))
        | inr new ↦ new
      ],
      g.distinct,
    );
  }
    where
      own : t.nonce ≡ nonce
      own = (eq_iff t.nonce nonce).0 (find?-passes (is_task nonce) w.tasks found)

      task_pending : is_some (find? (is_task t.nonce) w.tasks) ≡ true
      task_pending = ap (λ k. is_some (find? (is_task k) w.tasks)) own ∙ ap is_some found

  -- A request begins.
  begin-Good :
      (w : World) (now : ℕ) (input : SteamAuthRequest) (c : Option String)
      → w.clock ≤ now
      → ((nonce : String) (t : ℕ)
          → input.response_nonce ≡ some nonce
          → nonce_time host nonce ≡ some t
          → t < now)
      → Good host w
      → Good host (begun host now w (check_claim host now c input w.nonces))
  begin-Good w now input none on past g = later-Good w now on g
  begin-Good w now input (some steam_id) on past g = with_nonce input.response_nonce refl
    where
      with_nonce :
          (o : Option String)
          → input.response_nonce ≡ o
          → Good host (begun host now w (check_nonce host now steam_id o w.nonces))
      with_nonce none e = later-Good w now on g
      with_nonce (some nonce) e = elim (Bool-cases (in_window now (nonce_time host nonce))) [
        | inr out ↦ rw out (later-Good w now on g)
        | inl within ↦
            let timed = live-Good (record w { clock = now }) (later-Good w now on g) in
            elim (Bool-cases
              (map_has nonce (live now w.nonces.used) || includes nonce w.nonces.pending)) [
                | inl taken ↦ rw (within, taken) timed
                | inr free ↦
                    rw (within, free)
                      (task-Good
                        (record w {
                          clock = now;
                          nonces = record w.nonces { used = live now w.nonces.used };
                        })
                        steam_id nonce (ground (arith, free)) (ground (arith, free)) within
                        (λ t at. past nonce t e at) timed)
              ]
      ]

  clock-begun :
      (now : ℕ) (w : World) (r : Result (String × String) × Nonces)
      → (begun host now w r).clock ≡ now
  clock-begun now w (ok a, n) = refl
  clock-begun now w (err e, n) = refl

  clock-ended :
      (is_valid : Bool) (w : World) (o : Option Task) → (ended host is_valid w o).clock ≡ w.clock
  clock-ended is_valid w none = refl
  clock-ended is_valid w (some t) = refl

  run-Good :
      (es : List Event) (w : World)
      → IsTimely host w.clock es
      → Good host w
      → Good host (run host es w)
  unfolding run step begin_verification
  run-Good [] w timely g = g
  run-Good (begins now input ∷ es) w (on, past, timely) g =
      run-Good es _
        (subst (λ c. IsTimely host c es)
          (sym (clock-begun now w (check_claim host now (claim host input) input w.nonces))) timely)
        (begin-Good w now input (claim host input) on past g)
  run-Good (ends nonce is_valid ∷ es) w timely g =
      run-Good es _
        (subst (λ c. IsTimely host c es)
          (sym (clock-ended is_valid w (find? (is_task nonce) w.tasks))) timely)
        (end-Good w nonce is_valid (find? (is_task nonce) w.tasks) refl g)

abbrev pub at_start : ℕ → World
at_start clock = record {
  clock = clock;
  nonces = record { used = []; pending = [] };
  tasks = [];
  accepted = [];
}

-- Whatever sign-ins are under way at the same time, and in whatever order Steam answers, no nonce is
-- accepted twice, where the clock does not go back and the time in each nonce is before the time at
-- which it is taken.
pub accepted-IsDistinct :
    (host : OpenIdHost) (clock : ℕ) (es : List Event)
    → IsTimely host clock es
    → IsDistinct (run host es (at_start clock)).accepted
unfolding includes find?
accepted-IsDistinct host clock es timely =
    (run-Good host es (at_start clock) timely (record {
      pending = λ nonce. refl;
      timely = λ task nonce found. absurd (cc found);
      remembered = λ nonce was. absurd (cc was);
      apart = λ nonce was. absurd (cc was);
      distinct = tt;
    })).distinct
