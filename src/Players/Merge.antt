-- ===== src/Players/Merge.antt =====
-- The merge of observed players loses and doubles nobody.
use rw_manager_backend.Base.{
  String, ◌||◌, Option, none, some, List, [], ◌∷◌, map, upsert, includes, str_eq, eq_iff, get_or,
  if◌then◌else◌, arith, IsDistinct, Bool-cases, inl, inr, ◌≡◌, refl, sym, ap, ◌∙◌,
}
use mathlib.Core.Path.{subst}
use rw_manager_backend.Data.Player.{DbPlayer}
use rw_manager_backend.Players.{has_uid, known_from, observe_all, merge_known_players, merged}

abbrev pub uids : List DbPlayer → List String
uids = map (λ (p : DbPlayer). p.uid)

-- The uids that are not empty.
unfoldable pub named_uids : List DbPlayer → List String
named_uids [] = []
named_uids (p ∷ ps) = let rest = named_uids ps in if str_eq p.uid "" then rest else p.uid ∷ rest

module _ (f : DbPlayer → DbPlayer) (p : DbPlayer) (same : (q : DbPlayer) → (f q).uid ≡ p.uid) where
  includes-upsert :
      (x : String) (ps : List DbPlayer)
      → includes x (uids (upsert (has_uid p.uid) f p ps)) ≡ (includes x (uids ps) || str_eq p.uid x)
  unfolding includes upsert
  includes-upsert x [] = ground arith
  includes-upsert x (q ∷ ps) = ground (
    arith,
    ap (λ y. str_eq y x) (same q),
    eq_iff q.uid p.uid,
    ap (λ y. str_eq y x) (same q),
    includes-upsert x ps,
  )

  upsert-IsDistinct :
      (ps : List DbPlayer)
      → IsDistinct (uids ps)
      → IsDistinct (uids (upsert (has_uid p.uid) f p ps))
  unfolding includes upsert
  upsert-IsDistinct [] h = (refl, tt)
  upsert-IsDistinct (q ∷ ps) (h, hs) = elim (Bool-cases (has_uid p.uid q)) [
    | inl e ↦ rw (e, same q, ← (eq_iff q.uid p.uid).0 e) (h, hs)
    | inr e ↦ rw e (
      includes-upsert q.uid ps ∙ ground (arith, h, e, eq_iff p.uid q.uid, eq_iff q.uid p.uid),
      upsert-IsDistinct ps hs,
    )
  ]

known_from-IsDistinct :
    (seen ps : List DbPlayer) → IsDistinct (uids seen) → IsDistinct (uids (known_from seen ps))
unfolding known_from
known_from-IsDistinct seen [] h = h
known_from-IsDistinct seen (p ∷ ps) h = ground (
  arith,
  known_from-IsDistinct seen ps h,
  known_from-IsDistinct (upsert (has_uid p.uid) (λ old. p) p seen) ps
      (upsert-IsDistinct (λ old. p) p (λ q. refl) seen h),
)

includes-known_from :
    (x : String) (seen ps : List DbPlayer)
    → includes x (uids (known_from seen ps))
      ≡ (includes x (uids seen) || includes x (named_uids ps))
unfolding includes known_from named_uids
includes-known_from x seen [] = ground arith
includes-known_from x seen (p ∷ ps) = ground (
  arith,
  includes-known_from x seen ps,
  includes-known_from x (upsert (has_uid p.uid) (λ old. p) p seen) ps,
  includes-upsert (λ old. p) p (λ q. refl) x seen,
)

observe_all-IsDistinct :
    (seen ps : List DbPlayer) → IsDistinct (uids seen) → IsDistinct (uids (observe_all seen ps))
unfolding observe_all
observe_all-IsDistinct seen [] h = h
observe_all-IsDistinct seen (p ∷ ps) h =
    observe_all-IsDistinct (upsert (has_uid p.uid) (λ current. merged current p) p seen) ps
      (upsert-IsDistinct _ p (λ q. refl) seen h)

includes-observe_all :
    (x : String) (seen ps : List DbPlayer)
    → includes x (uids (observe_all seen ps)) ≡ (includes x (uids seen) || includes x (uids ps))
unfolding includes observe_all
includes-observe_all x seen [] = ground arith
includes-observe_all x seen (p ∷ ps) =
    includes-observe_all x (upsert (has_uid p.uid) (λ current. merged current p) p seen) ps
    ∙ ap (λ b. b || includes x (uids ps)) (includes-upsert _ p (λ q. refl) x seen)
    ∙ ground arith

-- The players known after a merge.
abbrev pub known : Option (List DbPlayer) → List DbPlayer → List DbPlayer
known existing ps = get_or (merge_known_players existing ps) []

merged-known :
    (existing : Option (List DbPlayer)) (ps : List DbPlayer)
    → known existing ps ≡ observe_all (known_from [] (get_or existing [])) ps
unfolding merge_known_players known_from observe_all
merged-known none [] = refl
merged-known none (p ∷ ps) = refl
merged-known (some []) [] = refl
merged-known (some (q ∷ qs)) [] = refl
merged-known (some []) (p ∷ ps) = refl
merged-known (some (q ∷ qs)) (p ∷ ps) = refl

-- After a merge no two known players have one uid, and the uids are those of the players known
-- before, where they are not empty, and of the players observed: the merge doubles nobody, loses
-- nobody and makes up nobody.
pub merge-uids :
    (existing : Option (List DbPlayer)) (ps : List DbPlayer)
    → IsDistinct (uids (known existing ps))
      × ((x : String)
          → includes x (uids (known existing ps))
            ≡ (includes x (named_uids (get_or existing [])) || includes x (uids ps)))
unfolding includes
merge-uids existing ps = (
  subst (λ qs. IsDistinct (uids qs)) (sym (merged-known existing ps))
      (observe_all-IsDistinct _ ps (known_from-IsDistinct [] (get_or existing []) tt)),
  (λ x.
      ap (λ qs. includes x (uids qs)) (merged-known existing ps)
      ∙ includes-observe_all x _ ps
      ∙ ap (λ b. b || includes x (uids ps)) (includes-known_from x [] (get_or existing []))),
)
