-- ===== src/Cache/Capacity.antt =====
-- How many entries the cache keeps, and what a `set` changes (crates/runtime/src/cache.rs).
use Prim.Native.Nat.{max}
use native.Mathlib.Decide.{dec_lt}
use ruprizzle_orm.Base.{
  ◌≡◌, refl, ◌≢◌, ◌⊎◌, inl, inr, List, [], ◌∷◌, Option, none, some, Text, ℕ, ◌≤◌, ◌<◌, arith,
  Option-cases, length, lookup, contains_key, remove, insert, length-remove-le, length-remove-lt,
}
use ruprizzle_orm.Cache.{
  CacheEntry, InMemoryCache, FirstKey, Entries, new, len, remove_entry, remove_entries,
  prune_expired, expired_keys, evict, store, set, keys_of, remove_tagged, invalidate_tag,
  invalidate_tags, clear, step, Call, call_set, call_prune, call_invalidate, call_clear, run,
}

-- A map that is not empty has a first key, which is one of its keys.
abbrev pub IsFirstKey : FirstKey → Type 0
IsFirstKey first_key =
    (k : Text) (e : CacheEntry) (m : Entries)
    → (first : Text) × (first_key ((k, e) ∷ m) ≡ some first) × (lookup first ((k, e) ∷ m) ≢ none)

-- The capacity is `cap`, and there are no more than `n` entries.
abbrev Holds : ℕ → ℕ → InMemoryCache → Type 0
Holds cap n c = (c.max_entries ≡ cap) × (length c.entries ≤ n)

remove_entry-Holds :
    (cap n : ℕ) (k : Text) (c : InMemoryCache) → Holds cap n c → Holds cap n (remove_entry k c)
unfolding remove_entry
remove_entry-Holds cap n k c h = ground (arith, length-remove-le k c.entries)

remove_entries-Holds :
    (cap n : ℕ) (keys : List Text) (c : InMemoryCache)
    → Holds cap n c
    → Holds cap n (remove_entries keys c)
unfolding remove_entries
remove_entries-Holds cap n [] c h = h
remove_entries-Holds cap n (k ∷ keys) c h =
    remove_entries-Holds cap n keys (remove_entry k c) (remove_entry-Holds cap n k c h)

prune_expired-Holds :
    (cap n now : ℕ) (c : InMemoryCache) → Holds cap n c → Holds cap n (prune_expired now c)
unfolding prune_expired
prune_expired-Holds cap n now c h =
    ground (arith, remove_entries-Holds cap n (expired_keys now c.entries) c h)

length-remove_tagged :
    (tag : Text) (keys : List Text) (entries : Entries)
    → length (remove_tagged tag keys entries).0 ≤ length entries
unfolding remove_tagged
length-remove_tagged tag [] entries = omega arith
length-remove_tagged tag (k ∷ keys) entries =
    omega (arith, length-remove_tagged tag keys (remove k entries), length-remove-le k entries)

invalidate_tag-Holds :
    (cap n : ℕ) (tag : Text) (c : InMemoryCache)
    → Holds cap n c
    → Holds cap n (invalidate_tag tag c)
unfolding invalidate_tag
invalidate_tag-Holds cap n tag c h =
    ground (arith, length-remove_tagged tag (keys_of tag c.tag_index) c.entries)

invalidate_tags-Holds :
    (cap n : ℕ) (tags : List Text) (c : InMemoryCache)
    → Holds cap n c
    → Holds cap n (invalidate_tags tags c)
unfolding invalidate_tags
invalidate_tags-Holds cap n [] c h = h
invalidate_tags-Holds cap n (t ∷ tags) c h =
    invalidate_tags-Holds cap n tags (invalidate_tag t c) (invalidate_tag-Holds cap n t c h)

first_key-removes :
    (first_key : FirstKey) (f : IsFirstKey first_key) (m : Entries)
    → (length m ≡ 0) ⊎ ((first : Text) × (first_key m ≡ some first) × (lookup first m ≢ none))
first_key-removes first_key f [] = inl refl
first_key-removes first_key f ((k, e) ∷ m) = inr (f k e m)

evict-Holds_le :
    (first_key : FirstKey) (cap n : ℕ) (k : Text) (c : InMemoryCache)
    → Holds cap n c
    → Holds cap n (evict first_key k c)
unfolding evict
evict-Holds_le first_key cap n k c h = elim (Option-cases (first_key c.entries)) [
  | inl e ↦ ground arith
  | inr (first, e) ↦ ground (arith, remove_entry-Holds cap n first c h)
]

length-remove_entry :
    (k : Text) (c : InMemoryCache)
    → lookup k c.entries ≢ none
    → (length (remove_entry k c).entries < length c.entries)
      × ((remove_entry k c).max_entries ≡ c.max_entries)
unfolding remove_entry
length-remove_entry k c h = ground (arith, length-remove-lt k c.entries)

-- A full cache that is asked to make room for a new key has less than it had.
evict_full :
    (first_key : FirstKey) (k : Text) (c : InMemoryCache)
    → IsFirstKey first_key
    → c.max_entries ≤ length c.entries
    → lookup k c.entries ≡ none
    → 0 < length c.entries
    → length (evict first_key k c).entries < length c.entries
unfolding evict contains_key
evict_full first_key k c f full missing some_stored =
    elim (first_key-removes first_key f c.entries) [
      | inl nothing ↦ absurd (omega arith)
      | inr (first, found, stored) ↦ ground (arith, length-remove_entry first c stored)
    ]

-- With room, or with the key stored, nothing is evicted.
evict_keeps :
    (first_key : FirstKey) (k : Text) (c : InMemoryCache)
    → (length c.entries < c.max_entries) ⊎ (lookup k c.entries ≢ none)
    → evict first_key k c ≡ c
unfolding evict contains_key
evict_keeps first_key k c (inl room) = ground arith
evict_keeps first_key k c (inr stored) = ground arith

-- After the eviction there is room for the key.
evict_room :
    (first_key : FirstKey) (cap : ℕ) (k : Text) (c : InMemoryCache)
    → IsFirstKey first_key
    → Holds cap (max 1 cap) c
    → length (remove k (evict first_key k c).entries) < max 1 cap
evict_room first_key cap k c f h = elim (Option-cases (lookup k c.entries)) [
  | inr (e, stored) ↦
      rw (evict_keeps first_key k c (inr (λ missing. ground arith)))
        (omega (arith, length-remove-lt k c.entries (λ missing. ground arith), h))
  | inl missing ↦ elim (dec_lt (length c.entries) (max 1 cap)) [
    | yes room ↦ omega (
      arith,
      length-remove-le k (evict first_key k c).entries,
      (evict-Holds_le first_key cap (length c.entries) k c (h.0, omega arith)).1,
    )
    | no full ↦ omega (
      arith,
      evict_full first_key k c f (omega arith) missing (omega arith),
      length-remove-le k (evict first_key k c).entries,
      h,
    )
  ]
]

set-Holds :
    (first_key : FirstKey) (cap now : ℕ) (key : Text) (value : List ℕ) (ttl : Option ℕ)
    (tags : List Text) (c : InMemoryCache)
    → IsFirstKey first_key
    → Holds cap (max 1 cap) c
    → Holds cap (max 1 cap) (set first_key now key value ttl tags c)
unfolding set store insert
set-Holds first_key cap now key value ttl tags c f h =
    ((evict-Holds_le first_key cap (max 1 cap) key c h).0, evict_room first_key cap key c f h)

step-Holds :
    (first_key : FirstKey) (cap : ℕ) (call : Call) (c : InMemoryCache)
    → IsFirstKey first_key
    → Holds cap (max 1 cap) c
    → Holds cap (max 1 cap) (step first_key call c)
unfolding step clear
step-Holds first_key cap (call_set now key value ttl tags) c f h =
    set-Holds first_key cap now key value ttl tags c f h
step-Holds first_key cap (call_prune now) c f h = prune_expired-Holds cap _ now c h
step-Holds first_key cap (call_invalidate tags) c f h = invalidate_tags-Holds cap _ tags c h
step-Holds first_key cap call_clear c f h = (h.0, omega arith)

run-Holds :
    (first_key : FirstKey) (cap : ℕ) (calls : List Call) (c : InMemoryCache)
    → IsFirstKey first_key
    → Holds cap (max 1 cap) c
    → Holds cap (max 1 cap) (run first_key calls c)
unfolding run
run-Holds first_key cap [] c f h = h
run-Holds first_key cap (call ∷ calls) c f h =
    run-Holds first_key cap calls _ f (step-Holds first_key cap call c f h)

-- After any sequence of operations on a new cache, the number of its entries is at most the
-- greater of 1 and `max_entries`, where the first key of a map that is not empty is one of its
-- keys.
pub len-run-le :
    (first_key : FirstKey) (max_entries : ℕ) (calls : List Call)
    → IsFirstKey first_key
    → len (run first_key calls (new max_entries)) ≤ max 1 max_entries
unfolding len new
len-run-le first_key max_entries calls f =
    (run-Holds first_key max_entries calls _ f (refl, omega arith)).1
