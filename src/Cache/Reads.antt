-- ===== src/Cache/Reads.antt =====
-- What can be read after a `set` of the cache (crates/runtime/src/cache.rs).
use mathlib.Core.Logic.{ite}
use ruprizzle_orm.Base.{
  ◌≡◌, ◌≢◌, ◌⊎◌, inl, inr, List, Option, none, some, ◌&&◌, not, Text, ℕ, ◌≤◌, arith, Bool-cases,
  Option-cases, length, leb, if◌then◌else◌, dec_text, lookup, contains_key, lookup-insert,
}
use ruprizzle_orm.Cache.{
  CacheEntry, InMemoryCache, FirstKey, evict, store, set, entry_at, deadline, is_expired, get,
}
use ruprizzle_orm.Cache.Indexed.{lookup-remove_entry}

get-store :
    (later : ℕ) (k q : Text) (e : CacheEntry) (c : InMemoryCache)
    → get later q (store k e c)
      ≡ ite (dec_text k q) (if is_expired later e then none else some e.payload) (get later q c)
unfolding get store
get-store later k q e c = ground (arith, lookup-insert k q e c.entries)

-- The key `q` is the one that a `set` of `key` evicts.
abbrev pub Evicts : FirstKey → Text → Text → InMemoryCache → Type 0
Evicts first_key key q c =
    (c.max_entries ≤ length c.entries)
    × (lookup key c.entries ≡ none)
    × (first_key c.entries ≡ some q)

get-evict :
    (first_key : FirstKey) (key q : Text) (c : InMemoryCache) (later : ℕ)
    → (get later q (evict first_key key c) ≡ get later q c)
      ⊎ ((get later q (evict first_key key c) ≡ none) × Evicts first_key key q c)
unfolding evict get contains_key
get-evict first_key key q c later =
    elim (Bool-cases (leb c.max_entries (length c.entries) && not (contains_key key c.entries))) [
      | inr room ↦ inl (rw room)
      | inl full ↦ elim (Option-cases (first_key c.entries)) [
        | inl e ↦ inl (ground arith)
        | inr (first, e) ↦ elim (dec_text first q) [
          | yes same ↦ inr (ground (arith, lookup-remove_entry first q c))
          | no other ↦ inl (ground (arith, lookup-remove_entry first q c))
        ]
      ]
    ]

-- After a `set`, its key reads as the value until the entry's time to live has passed, and as
-- nothing from then on; another key reads as before, or as nothing if the cache was full, the set
-- key was new and that other key was the first that the map lists.
pub get-set :
    (first_key : FirstKey) (now later : ℕ) (key : Text) (value : List ℕ) (ttl : Option ℕ)
    (tags : List Text) (c : InMemoryCache) (q : Text)
    → q ≢ key
    → (get later key (set first_key now key value ttl tags c) ≡ elim (deadline now ttl) [
      | none ↦ some value
      | some exp ↦ if leb exp later then none else some value
    ])
      × ((get later q (set first_key now key value ttl tags c) ≡ get later q c)
          ⊎ ((get later q (set first_key now key value ttl tags c) ≡ none)
              × Evicts first_key key q c))
unfolding set is_expired
get-set first_key now later key value ttl tags c q ne =
    let e = entry_at now value ttl tags in
    let others : get later q (store key e (evict first_key key c))
        ≡ get later q (evict first_key key c) =
      ground (arith, get-store later key q e (evict first_key key c)) in
    (
      ground (arith, get-store later key key e (evict first_key key c)),
      rw others (get-evict first_key key q c later),
    )
