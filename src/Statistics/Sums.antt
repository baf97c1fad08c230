-- ===== src/Statistics/Sums.antt =====
-- A bucket sums up the samples of its hour.
use rw_manager_backend.Base.{
  ℕ, String, Bool, ◌+◌, max, Option, none, some, List, [], ◌∷◌, find?, find?-passes, filter, upsert,
  str_eq, eq_iff, get_or, if◌then◌else◌, arith, ◌≡◌, refl, sym, ap, ◌∙◌, Bool-cases, inl, inr,
}
use mathlib.Core.Option
use rw_manager_backend.Statistics.Totals.{
  totals, totals_of, totals_eq, add, with_samples, no_more, add-with_samples,
}
use rw_manager_backend.Driver.{Collection}
use rw_manager_backend.Statistics.{
  ServerStatisticsSample, BucketDoc, ServerStatisticsBucket, Clock, Statistics, memory, mongo,
  unique_strings, finalize_bucket, bucket_has_id, has_id, id_of, player_count_from_sample,
  first_doc, next_doc, add_uids, next_json, record_found, record_server_statistics_sample,
}

module _ {A : Type 0} (key : A → String) where
  abbrev of : String → A → Bool
  of id x = str_eq (key x) id

  -- What is found after an upsert that keeps the key.
  find-upsert :
      (id j : String) (f : A → A) (a : A) (xs : List A)
      → key a ≡ id
      → ((x : A) → key x ≡ id → key (f x) ≡ id)
      → find? (of j) (upsert (of id) f a xs) ≡ (
          if str_eq id j
          then some (get_or (Option.map f (find? (of id) xs)) a)
          else find? (of j) xs)
  unfolding find? upsert
  find-upsert id j f a [] new keeps = rw new (ground arith)
  find-upsert id j f a (x ∷ xs) new keeps = elim (Bool-cases (of id x)) [
    | inl e ↦ let same = (eq_iff (key x) id).0 e in rw (e, keeps x same, same) (ground arith)
    | inr e ↦ rw e (
        ground (
          arith,
          find-upsert id j f a xs new keeps,
          e,
          eq_iff (key x) id,
          eq_iff (key x) j,
          eq_iff id j,
        ))
  ]

module _ (clock : Clock) where
  first-totals :
      (sample : ServerStatisticsSample)
      → totals_of 1
          (if sample.online then 1 else 0)
          (player_count_from_sample clock sample)
          (max 0 (player_count_from_sample clock sample))
        ≡ add clock sample (totals none)
  first-totals sample =
      totals_eq (omega arith) (zero_plus (if sample.online then 1 else 0))
        (zero_plus (player_count_from_sample clock sample)) refl
    where
      zero_plus : (n : ℕ) → n ≡ 0 + n
      zero_plus n = omega arith

  next-totals :
      (sample : ServerStatisticsSample) (o : Option ServerStatisticsBucket)
      → totals (some (next_json clock sample o).doc)
        ≡ add clock sample (totals (Option.map (λ (b : ServerStatisticsBucket). b.doc) o))
  unfolding finalize_bucket
  next-totals sample none = first-totals sample
  next-totals sample (some b) = refl

  const_or :
      (next : ServerStatisticsBucket) (o : Option ServerStatisticsBucket)
      → get_or (Option.map (λ _. next) o) next ≡ next
  const_or next none = refl
  const_or next (some b) = refl

  next_doc-totals :
      (sample : ServerStatisticsSample) (uids : List String) (o : Option BucketDoc)
      → totals (
          some (
            get_or
              (Option.map
                (λ (b : BucketDoc). next_doc clock sample (add_uids uids b.online_player_uids) b)
                o)
              (first_doc clock sample (add_uids uids none))))
        ≡ add clock sample (totals o)
  next_doc-totals sample uids none = first-totals sample
  next_doc-totals sample uids (some b) = refl

  next-id :
      (sample : ServerStatisticsSample) (bs : List ServerStatisticsBucket)
      → (next_json clock sample (find? (bucket_has_id clock (id_of clock sample)) bs)).doc.id
        ≡ id_of clock sample
  unfolding finalize_bucket
  next-id sample bs = of_found (find? (bucket_has_id clock (id_of clock sample)) bs) refl
    where
      of_found :
          (o : Option ServerStatisticsBucket)
          → find? (bucket_has_id clock (id_of clock sample)) bs ≡ o
          → (next_json clock sample o).doc.id ≡ id_of clock sample
      of_found none e = refl
      of_found (some b) e =
          (eq_iff b.doc.id (id_of clock sample)).0
            (find?-passes (bucket_has_id clock (id_of clock sample)) bs e)

module _ (clock : Clock) (buckets : Collection BucketDoc) where
  -- The document of a bucket, on either backend.
  abbrev pub doc_of : String → Statistics buckets → Option BucketDoc
  doc_of id (memory bs) =
      Option.map (λ (b : ServerStatisticsBucket). b.doc) (find? (bucket_has_id clock id) bs)
  doc_of id (mongo s bs) = find? (has_id id) (buckets.docs s)

  unfoldable pub record_all : List ServerStatisticsSample → Statistics buckets → Statistics buckets
  record_all [] st = st
  record_all (sample ∷ samples) st =
      record_all samples (record_server_statistics_sample clock buckets sample st).1

  found-mongo :
      (id : String) (sample : ServerStatisticsSample) (o : Option BucketDoc) (s : buckets.State)
      (bs : List ServerStatisticsBucket)
      → doc_of id (record_found clock buckets sample o s bs).1 ≡ find? (has_id id) (buckets.docs s)
  found-mongo id sample none s bs = refl
  found-mongo id sample (some b) s bs = refl

  record-totals :
      (id : String) (sample : ServerStatisticsSample) (st : Statistics buckets)
      → totals (doc_of id (record_server_statistics_sample clock buckets sample st).1) ≡ (
          if str_eq (id_of clock sample) id
          then add clock sample (totals (doc_of id st))
          else totals (doc_of id st))
  unfolding record_server_statistics_sample
  record-totals id sample (memory bs) =
      let j = id_of clock sample in
      let old = find? (bucket_has_id clock j) bs in
      let next = next_json clock sample old in
      let found =
        find-upsert (λ (b : ServerStatisticsBucket). b.doc.id) j id (λ _. next) next bs
          (next-id clock sample bs) (λ b e. next-id clock sample bs) in
      let here = ap (λ o. totals (Option.map (λ (b : ServerStatisticsBucket). b.doc) o)) found in
      elim (Bool-cases (str_eq j id)) [
        | inl e ↦
            let same : find? (bucket_has_id clock id) bs ≡ old =
              ap (λ k. find? (bucket_has_id clock k) bs) (sym ((eq_iff j id).0 e)) in
            here
            ∙ rw (e, same)
                (ap (λ (b : ServerStatisticsBucket). totals (some b.doc)) (const_or clock next old)
                  ∙ next-totals clock sample old)
        | inr e ↦ here ∙ rw e refl
      ]
  record-totals id sample (mongo s bs) =
      let j = id_of clock sample in
      let uids = unique_strings sample.online_player_uids in
      let new = first_doc clock sample (add_uids uids none) in
      let next = λ (b : BucketDoc). next_doc clock sample (add_uids uids b.online_player_uids) b in
      let found =
        found-mongo id sample
          (buckets.find_one (has_id j) (buckets.upsert_one (has_id j) next new s))
          (buckets.upsert_one (has_id j) next new s) bs
        ∙ ap (find? (has_id id)) (buckets.upsert_one-docs (has_id j) next new s)
        ∙ find-upsert (λ (b : BucketDoc). b.id) j id next new (buckets.docs s) refl (λ b e. e) in
      elim (Bool-cases (str_eq j id)) [
        | inl e ↦
            let same : find? (has_id id) (buckets.docs s) ≡ find? (has_id j) (buckets.docs s) =
              ap (λ k. find? (has_id k) (buckets.docs s)) (sym ((eq_iff j id).0 e)) in
            ap totals found
            ∙ rw (e, same) (next_doc-totals clock sample uids (find? (has_id j) (buckets.docs s)))
        | inr e ↦ ap totals found ∙ rw e refl
      ]

  -- After any samples, the numbers of a bucket are those it had before, with the samples of its
  -- server and hour added: how many there are, how many of them were online, the sum of their player
  -- counts, and the largest of them. Both backends.
  pub record_all-totals :
      (id : String) (samples : List ServerStatisticsSample) (st : Statistics buckets)
      → totals (doc_of id (record_all samples st))
        ≡ with_samples clock
            (filter (λ s. str_eq (id_of clock s) id) samples)
            (totals (doc_of id st))
  unfolding record_all filter
  record_all-totals id [] st = no_more clock (totals (doc_of id st))
  record_all-totals id (sample ∷ samples) st =
      let next = (record_server_statistics_sample clock buckets sample st).1 in
      let mine = filter (λ s. str_eq (id_of clock s) id) samples in
      let rest = record_all-totals id samples next in
      let first = record-totals id sample st in
      elim (Bool-cases (str_eq (id_of clock sample) id)) [
        | inl e ↦
            rest
            ∙ ap (with_samples clock mine) first
            ∙ rw e (add-with_samples clock sample mine (totals (doc_of id st)))
        | inr e ↦ rest ∙ ap (with_samples clock mine) first ∙ rw e refl
      ]
