-- ===== src/Plugin/Cache/Keyed.antt =====
-- The keys of the cache of plugin data.
use mathlib.Core.Option.{some_inj}
use mathlib.Core.Path.{subst}
use rw_manager_backend.Base.{
  String, false, some, map_get, map_set, map_delete, get-set_same, get-set_other, get-delete_same,
  get-delete_other, str_eq, eq_iff, ◌≡◌, ◌≢◌, sym, ◌∙◌, Bool-cases, inl, inr,
}
use rw_manager_backend.Plugin.Cache.{PluginDataCacheEntry, Cache}

-- Where an entry is cached, it is the one of its server.
abbrev pub IsKeyed : Cache → Type 0
IsKeyed cache =
    (id : String) (e : PluginDataCacheEntry) → map_get id cache ≡ some e → e.server_id ≡ id

differ : (id k : String) → str_eq id k ≡ false → id ≢ k
differ id k other h = absurd (cc ((eq_iff id k).1 h, other))

pub set-IsKeyed :
    (k : String) (e : PluginDataCacheEntry) (cache : Cache)
    → IsKeyed cache
    → e.server_id ≡ k
    → IsKeyed (map_set k e cache)
set-IsKeyed k e cache keyed own id f is = elim (Bool-cases (str_eq id k)) [
  | inl same ↦
      let at : id ≡ k = (eq_iff id k).0 same in
      let found : map_get k (map_set k e cache) ≡ some f =
        subst (λ j. map_get j (map_set k e cache) ≡ some f) at is in
      let entry : e ≡ f = (some_inj).0 (sym (get-set_same k e cache) ∙ found) in
      subst (λ g. g.server_id ≡ id) entry (own ∙ sym at)
  | inr other ↦ keyed id f (sym (get-set_other k id e cache (differ id k other)) ∙ is)
]

pub delete-IsKeyed : (k : String) (cache : Cache) → IsKeyed cache → IsKeyed (map_delete k cache)
delete-IsKeyed k cache keyed id f is = elim (Bool-cases (str_eq id k)) [
  | inl same ↦
      let at : id ≡ k = (eq_iff id k).0 same in
      let found : map_get k (map_delete k cache) ≡ some f =
        subst (λ j. map_get j (map_delete k cache) ≡ some f) at is in
      absurd (cc (sym (get-delete_same k cache) ∙ found))
  | inr other ↦ keyed id f (sym (get-delete_other k id cache (differ id k other)) ∙ is)
]
