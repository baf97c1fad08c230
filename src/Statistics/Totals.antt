-- ===== src/Statistics/Totals.antt =====
-- The sums of samples.
use rw_manager_backend.Base.{
  ℕ, suc, ◌+◌, max, Option, none, some, List, [], ◌∷◌, map, filter, length, if◌then◌else◌, arith,
  ◌≡◌, refl, Bool-cases, inl, inr,
}
use rw_manager_backend.Statistics.{
  ServerStatisticsSample, BucketDoc, Clock, player_count_from_sample,
}

-- The numbers of a bucket, all 0 where there is none.
pub record Totals : Type 0 where
  pub samples : ℕ
  pub online : ℕ
  pub players : ℕ
  pub most : ℕ

abbrev pub totals : Option BucketDoc → Totals
totals none = record { samples = 0; online = 0; players = 0; most = 0 }
totals (some b) = record {
  samples = b.sample_count;
  online = b.online_sample_count;
  players = b.player_sample_total;
  most = b.max_players;
}

abbrev pub sum : List ℕ → ℕ
sum [] = 0
sum (n ∷ ns) = n + sum ns

abbrev pub maximum : List ℕ → ℕ
maximum [] = 0
maximum (n ∷ ns) = max n (maximum ns)

abbrev pub totals_of : ℕ → ℕ → ℕ → ℕ → Totals
totals_of a b c d = record { samples = a; online = b; players = c; most = d }

pub totals_eq :
    {a b c d a' b' c' d' : ℕ}
    → a ≡ a'
    → b ≡ b'
    → c ≡ c'
    → d ≡ d'
    → totals_of a b c d ≡ totals_of a' b' c' d'
totals_eq h i j k = rw (h, i, j, k) refl

module _ (clock : Clock) where
  abbrev pub add : ServerStatisticsSample → Totals → Totals
  add sample t = record {
    samples = t.samples + 1;
    online = t.online + (if sample.online then 1 else 0);
    players = t.players + player_count_from_sample clock sample;
    most = max t.most (player_count_from_sample clock sample);
  }

  -- The totals with some samples more.
  abbrev pub with_samples : List ServerStatisticsSample → Totals → Totals
  with_samples mine t = record {
    samples = t.samples + length mine;
    online = t.online + length (filter (λ (s : ServerStatisticsSample). s.online) mine);
    players = t.players + sum (map (player_count_from_sample clock) mine);
    most = max t.most (maximum (map (player_count_from_sample clock) mine));
  }

  pub no_more : (t : Totals) → t ≡ with_samples [] t
  unfolding filter
  no_more t =
      totals_eq (plus_zero t.samples) (plus_zero t.online) (plus_zero t.players) (max_zero t.most)
    where
      plus_zero : (n : ℕ) → n ≡ n + 0
      plus_zero n = omega arith

      max_zero : (n : ℕ) → n ≡ max n 0
      max_zero n = omega arith

  pub add-with_samples :
      (sample : ServerStatisticsSample) (mine : List ServerStatisticsSample) (t : Totals)
      → with_samples mine (add sample t) ≡ with_samples (sample ∷ mine) t
  unfolding filter
  add-with_samples sample mine t =
      totals_eq (plus_suc t.samples (length mine))
        (elim (Bool-cases sample.online) [
          | inl e ↦
              rw e (
                plus_suc t.online (length (filter (λ (s : ServerStatisticsSample). s.online) mine)))
          | inr e ↦
              rw e (
                plus_zero t.online
                  (length (filter (λ (s : ServerStatisticsSample). s.online) mine)))
        ])
        (add_assoc t.players (player_count_from_sample clock sample)
          (sum (map (player_count_from_sample clock) mine)))
        (max_assoc t.most (player_count_from_sample clock sample)
          (maximum (map (player_count_from_sample clock) mine)))
    where
      add_assoc : (a b c : ℕ) → a + b + c ≡ a + (b + c)
      add_assoc a b c = omega arith

      plus_suc : (a n : ℕ) → a + 1 + n ≡ a + suc n
      plus_suc a n = omega arith

      plus_zero : (a n : ℕ) → a + 0 + n ≡ a + n
      plus_zero a n = omega arith

      max_assoc : (a b c : ℕ) → max (max a b) c ≡ max a (max b c)
      max_assoc a b c = omega arith
