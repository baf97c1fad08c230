-- ===== src/Driver.antt =====
-- The `mongodb` driver, which the program calls and does not contain: a collection with the calls
-- that db/manager-store.ts makes, and what the driver's manual says of each, as laws over the
-- documents of the collection. A filter is a test on a document, `$set`, `$unset` and `$pull` a
-- function on it. A unique index and a duplicate key are not part of the interface.
use rw_manager_backend.Base.{
  Bool, Option, none, some, List, ◌≡◌, ◌≢◌, find?, filter, sort_by, not, update_first, upsert,
  remove_first, map, if◌then◌else◌, false, true,
}

pub record Collection (D : Type 0) : Type 1 where
  pub State : Type 0
  pub docs : State → List D
  -- find({}).toArray()
  pub find : State → List D
  -- find(filter).sort(...).toArray(), in an order where no two of the documents found are equal
  pub find_sorted : (D → Bool) → (D → D → Bool) → State → List D
  pub find_one : (D → Bool) → State → Option D
  -- updateOne(filter, update): whether a document matched, and whether one was modified
  pub update_one : (D → Bool) → (D → D) → State → (State × Bool × Bool)
  -- updateOne and replaceOne with { upsert: true }: the last argument is what is inserted
  pub upsert_one : (D → Bool) → (D → D) → D → State → State
  pub update_many : (D → Bool) → (D → D) → State → State
  pub delete_one : (D → Bool) → State → State
  pub delete_many : (D → Bool) → State → State
  pub find_lem : (s : State) → find s ≡ docs s
  pub find_sorted_lem :
      (p : D → Bool) (less : D → D → Bool) (s : State)
      → find_sorted p less s ≡ sort_by less (filter p (docs s))
  pub find_one_lem : (p : D → Bool) (s : State) → find_one p s ≡ find? p (docs s)
  pub update_one-docs :
      (p : D → Bool) (f : D → D) (s : State) → docs (update_one p f s).0 ≡ update_first p f (docs s)
  pub update_one-miss :
      (p : D → Bool) (f : D → D) (s : State)
      → find? p (docs s) ≡ none
      → ((update_one p f s).1 ≡ false) × ((update_one p f s).2 ≡ false)
  pub update_one-matched :
      (p : D → Bool) (f : D → D) (s : State) (d : D)
      → find? p (docs s) ≡ some d
      → (update_one p f s).1 ≡ true
  pub update_one-modified :
      (p : D → Bool) (f : D → D) (s : State) (d : D)
      → find? p (docs s) ≡ some d
      → f d ≢ d
      → (update_one p f s).2 ≡ true
  pub upsert_one-docs :
      (p : D → Bool) (f : D → D) (d : D) (s : State)
      → docs (upsert_one p f d s) ≡ upsert p f d (docs s)
  pub update_many-docs :
      (p : D → Bool) (f : D → D) (s : State)
      → docs (update_many p f s) ≡ map (λ d. if p d then f d else d) (docs s)
  pub delete_one-docs : (p : D → Bool) (s : State) → docs (delete_one p s) ≡ remove_first p (docs s)
  pub delete_many-docs :
      (p : D → Bool) (s : State) → docs (delete_many p s) ≡ filter (λ d. not (p d)) (docs s)
