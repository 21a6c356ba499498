-- ===== src/Examples/Caching.antt =====
-- The theorems about the cache, on runs of a few calls (crates/runtime/src/cache.rs).
use ruprizzle_orm.Base.{
  ◌≡◌, refl, ◌≢◌, ◌⊎◌, List, [], ◌∷◌, none, some, ◌≤◌, arith, str, dec_text, contains, set_remove,
  set_insert, lookup, contains_key, remove, insert,
}
use ruprizzle_orm.Cache.{
  InMemoryCache, FirstKey, Call, call_set, call_prune, call_invalidate, new, drop_key, remove_entry,
  remove_entries, is_expired, expired_keys, prune_expired, get, add_key, evict, store, set,
  other_tags, remove_tagged, prune_tags, keys_of, invalidate_tag, invalidate_tags, clear, len, step,
  run,
}
use ruprizzle_orm.Cache.Capacity.{IsFirstKey, len-run-le}
use ruprizzle_orm.Cache.Ideal.{ideal_get, ideal_run, get-run-Ideal}
use ruprizzle_orm.Cache.Reads.{Evicts, get-set}

-- The order in which a map of this model lists its keys.
abbrev head_key : FirstKey
head_key [] = none
head_key ((k, e) ∷ m) = some k

head_key-IsFirstKey : IsFirstKey head_key
unfolding lookup
head_key-IsFirstKey k e m = (k, refl, ground arith)

abbrev calls : List Call
calls =
    call_set 0 (str "user_1") (1 ∷ []) none (str "users" ∷ [])
    ∷ call_set 1 (str "user_2") (2 ∷ []) (some 10) (str "users" ∷ str "admins" ∷ [])
    ∷ call_set 2 (str "post_1") (3 ∷ []) (some 10) (str "posts" ∷ [])
    ∷ call_invalidate (str "users" ∷ [])
    ∷ call_prune 3
    ∷ []

program : Unit {0}
unfolding dec_text new drop_key remove_entry remove_entries is_expired expired_keys prune_expired
    get add_key contains_key evict store set other_tags remove_tagged prune_tags keys_of
    invalidate_tag invalidate_tags clear len step run contains set_remove set_insert lookup remove
    insert
program = tt

-- The tests `cache_tag_invalidation` and `cache_ttl_expiration`.
runs :
    (get 5 (str "post_1") (run head_key calls (new 2)) ≡ some (3 ∷ []))
    × (get 12 (str "post_1") (run head_key calls (new 2)) ≡ none)
    × (get 5 (str "user_2") (run head_key calls (new 2)) ≡ none)
    × (len (run head_key calls (new 2)) ≡ 1)
unfolding program
runs = (refl, refl, refl, refl)

len-run-le_example : len (run head_key calls (new 2)) ≤ 2
len-run-le_example = len-run-le head_key 2 calls head_key-IsFirstKey

get-run-Ideal_example : ideal_get 5 (str "post_1") (ideal_run calls (λ q. none)) ≡ some (3 ∷ [])
get-run-Ideal_example = get-run-Ideal head_key 2 calls 5 (str "post_1") (3 ∷ []) runs.0

abbrev filled : InMemoryCache
filled = record {
  entries =
      (str "a", record { payload = 1 ∷ []; expires_at = none; tags = [] })
      ∷ (str "b", record { payload = 2 ∷ []; expires_at = none; tags = [] })
      ∷ [];
  tag_index = [];
  max_entries = 2;
}

a-ne-c : str "a" ≢ str "c"
a-ne-c e = ground arith

-- The key `a` is the first one, and goes.
get-set_example :
    (get 9 (str "c") (set head_key 4 (str "c") (3 ∷ []) (some 5) [] filled) ≡ none)
    × ((get 9 (str "a") (set head_key 4 (str "c") (3 ∷ []) (some 5) [] filled)
          ≡ get 9 (str "a") filled)
        ⊎ ((get 9 (str "a") (set head_key 4 (str "c") (3 ∷ []) (some 5) [] filled) ≡ none)
            × Evicts head_key (str "c") (str "a") filled))
get-set_example = get-set head_key 4 9 (str "c") (3 ∷ []) (some 5) [] filled (str "a") a-ne-c
