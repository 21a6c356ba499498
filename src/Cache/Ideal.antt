-- ===== src/Cache/Ideal.antt =====
-- The cache (crates/runtime/src/cache.rs) against an ideal one, that has no capacity and never
-- prunes: a function from keys to entries.
use mathlib.Core.Logic.{ite}
use ruprizzle_orm.Base.{
  ◌≡◌, refl, List, [], ◌∷◌, Option, none, some, false, ◌&&◌, not, any, Text, ℕ, arith, inl, inr,
  Bool-cases, Option-cases, is_empty, length, leb, if◌then◌else◌, dec_text, contains, lookup,
  contains_key, lookup-insert,
}
use ruprizzle_orm.Cache.{
  CacheEntry, InMemoryCache, FirstKey, new, remove_entry, remove_entries, prune_expired,
  expired_keys, evict, store, set, entry_at, is_expired, get, invalidate_tags, clear, step, Call,
  call_set, call_prune, call_invalidate, call_clear, run,
}
use ruprizzle_orm.Cache.Index.{IsIndexed}
use ruprizzle_orm.Cache.Indexed.{
  new-IsIndexed, lookup-remove_entry, lookup-invalidate_tag, step-IsIndexed,
  invalidate_tag-IsIndexed,
}

abbrev pub Ideal : Type 0
Ideal = Text → Option CacheEntry

unfoldable pub ideal_step : Call → Ideal → Ideal
ideal_step (call_set now key value ttl tags) m q =
    ite (dec_text key q) (some (entry_at now value ttl tags)) (m q)
ideal_step (call_prune now) m q = m q
ideal_step (call_invalidate tags) m q = elim (m q) [
  | none ↦ none
  | some e ↦ if any (λ t. contains t e.tags) tags then none else some e
]
ideal_step call_clear m q = none

unfoldable pub ideal_run : List Call → Ideal → Ideal
ideal_run [] m = m
ideal_run (call ∷ calls) m = ideal_run calls (ideal_step call m)

unfoldable pub ideal_get : ℕ → Text → Ideal → Option (List ℕ)
unfolding is_expired
ideal_get now q m = elim (m q) [
  | none ↦ none
  | some e ↦ if is_expired now e then none else some e.payload
]

-- What the cache holds, the ideal cache holds.
abbrev Within : InMemoryCache → Ideal → Type 0
Within c m = (q : Text) (e : CacheEntry) → lookup q c.entries ≡ some e → m q ≡ some e

remove_entry-Within :
    (k : Text) (c : InMemoryCache) (m : Ideal) → Within c m → Within (remove_entry k c) m
remove_entry-Within k c m w q e h = w q e (ground (arith, lookup-remove_entry k q c))

remove_entries-Within :
    (keys : List Text) (c : InMemoryCache) (m : Ideal)
    → Within c m
    → Within (remove_entries keys c) m
unfolding remove_entries
remove_entries-Within [] c m w = w
remove_entries-Within (k ∷ keys) c m w =
    remove_entries-Within keys _ m (remove_entry-Within k c m w)

prune_expired-Within :
    (now : ℕ) (c : InMemoryCache) (m : Ideal) → Within c m → Within (prune_expired now c) m
unfolding prune_expired
prune_expired-Within now c m w = elim (Bool-cases (is_empty (expired_keys now c.entries))) [
  | inl e ↦ rw e w
  | inr e ↦ rw e (remove_entries-Within (expired_keys now c.entries) c m w)
]

evict-Within :
    (first_key : FirstKey) (k : Text) (c : InMemoryCache) (m : Ideal)
    → Within c m
    → Within (evict first_key k c) m
unfolding evict
evict-Within first_key k c m w =
    elim (Bool-cases (leb c.max_entries (length c.entries) && not (contains_key k c.entries))) [
      | inl full ↦ rw full (elim (Option-cases (first_key c.entries)) [
        | inl e ↦ rw e w
        | inr (first, e) ↦ rw e (remove_entry-Within first c m w)
      ])
      | inr room ↦ rw room w
    ]

store-Within :
    (k : Text) (e : CacheEntry) (c : InMemoryCache) (m : Ideal)
    → Within c m
    → Within (store k e c) (λ q. ite (dec_text k q) (some e) (m q))
unfolding store
store-Within k e c m w q e' h = ground (arith, lookup-insert k q e c.entries, w q e')

-- What an invalidation leaves was there before, and has none of the tags.
invalidate_tags_left :
    (tags : List Text) (c : InMemoryCache) (q : Text) (e : CacheEntry)
    → IsIndexed c
    → lookup q (invalidate_tags tags c).entries ≡ some e
    → (lookup q c.entries ≡ some e) × (any (λ t. contains t e.tags) tags ≡ false)
unfolding invalidate_tags
invalidate_tags_left [] c q e i h = (h, refl)
invalidate_tags_left (t ∷ tags) c q e i h =
    let later = invalidate_tags_left tags _ q e (invalidate_tag-IsIndexed t c i) h in
    let before = lookup-invalidate_tag t q c in
    (ground (arith, later.0, before), ground (arith, later, before, i q t e))

step-Within :
    (first_key : FirstKey) (call : Call) (c : InMemoryCache) (m : Ideal)
    → IsIndexed c
    → Within c m
    → Within (step first_key call c) (ideal_step call m)
unfolding step ideal_step set clear lookup
step-Within first_key (call_set now key value ttl tags) c m i w q e h =
    store-Within key _ _ m (evict-Within first_key key c m w) q e h
step-Within first_key (call_prune now) c m i w q e h = prune_expired-Within now c m w q e h
step-Within first_key (call_invalidate tags) c m i w q e h =
    let (before, clean) = invalidate_tags_left tags c q e i h in
    rw (w q e before, ideal_step) (rw clean)
step-Within first_key call_clear c m i w q e h = cc

run-Within :
    (first_key : FirstKey) (calls : List Call) (c : InMemoryCache) (m : Ideal)
    → IsIndexed c
    → Within c m
    → Within (run first_key calls c) (ideal_run calls m)
unfolding run ideal_run
run-Within first_key [] c m i w = w
run-Within first_key (call ∷ calls) c m i w =
    run-Within first_key calls _ _ (step-IsIndexed first_key call c i)
      (step-Within first_key call c m i w)

new_holds_none :
    (max_entries : ℕ) (q : Text) (e : CacheEntry) → lookup q (new max_entries).entries ≡ some e → ⊥
unfolding new lookup
new_holds_none max_entries q e h = cc

-- Whatever key the map lists first when the cache must evict, a value that a lookup finds after
-- any sequence of sets, prunings, tag invalidations and clears is the one that an ideal cache of
-- no capacity, which never prunes and forgets the entries of an invalidated tag at once, finds at
-- the same time.
pub get-run-Ideal :
    (first_key : FirstKey) (max_entries : ℕ) (calls : List Call) (now : ℕ) (key : Text) (v : List ℕ)
    → get now key (run first_key calls (new max_entries)) ≡ some v
    → ideal_get now key (ideal_run calls (λ q. none)) ≡ some v
unfolding get ideal_get
get-run-Ideal first_key max_entries calls now key v h =
    let start : Within (new max_entries) (λ q. none) =
      λ q e found. absurd (new_holds_none max_entries q e found) in
    let w =
      run-Within first_key calls (new max_entries) (λ q. none) (new-IsIndexed max_entries) start
        key in
    elim (Option-cases (lookup key (run first_key calls (new max_entries)).entries)) [
      | inl miss ↦ absurd (ground arith)
      | inr (e, hit) ↦ ground (arith, w e hit)
    ]
