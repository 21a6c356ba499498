-- ===== src/Cache.antt =====
-- crates/runtime/src/cache.rs: `InMemoryCache`, each operation run alone. `now` is what
-- `Instant::now()` answers, and `first_key` what `entries.keys().next()` does: the order of a
-- `HashMap` is not the program's.
pub mod Index
pub mod Indexed
pub mod Capacity
pub mod Ideal
pub mod Reads
use ruprizzle_orm.Base.{
  ℕ, ◌+◌, List, [], ◌∷◌, ◌++◌, Option, none, some, Bool, true, false, ◌&&◌, not, leb, ltb,
  if◌then◌else◌, is_empty, length, Text, dec_text, contains, set_remove, set_insert, contains_key,
  lookup, remove, insert,
}
use mathlib.Core.Logic.{ite}

-- The field `data` of the source is `payload`.
pub record CacheEntry : Type 0 where
  pub payload : List ℕ
  pub expires_at : Option ℕ
  pub tags : List Text

abbrev pub Entries : Type 0
Entries = List (Text × CacheEntry)

abbrev pub TagIndex : Type 0
TagIndex = List (Text × List Text)

pub record InMemoryCache : Type 0 where
  pub entries : Entries
  pub tag_index : TagIndex
  pub max_entries : ℕ

unfoldable pub new : ℕ → InMemoryCache
new max_entries = record { entries = []; tag_index = []; max_entries = max_entries }

-- `for tag in entry.tags { if let Some(keys) = tag_index.get_mut(&tag) { keys.remove(&key); } }`
unfoldable pub drop_key : Text → List Text → TagIndex → TagIndex
drop_key key [] index = index
drop_key key (tag ∷ tags) index =
    drop_key key tags (elim (lookup tag index) [
      | none ↦ index
      | some keys ↦ insert tag (set_remove key keys) index
    ])

-- `if let Some(old) = entries.remove(&key)`, with the tags of the removed entry.
unfoldable pub remove_entry : Text → InMemoryCache → InMemoryCache
remove_entry key c = elim (lookup key c.entries) [
  | none ↦ c
  | some old ↦ record c {
    entries = remove key c.entries;
    tag_index = drop_key key old.tags c.tag_index;
  }
]

-- The two tests of the clock: `exp <= now` and `now >= expires_at`.
unfoldable pub is_expired : ℕ → CacheEntry → Bool
is_expired now entry = elim entry.expires_at [ none ↦ false | some exp ↦ leb exp now ]

unfoldable pub expired_keys : ℕ → Entries → List Text
expired_keys now [] = []
expired_keys now ((key, entry) ∷ rest) =
    let keys = expired_keys now rest in if is_expired now entry then key ∷ keys else keys

unfoldable pub remove_entries : List Text → InMemoryCache → InMemoryCache
remove_entries [] c = c
remove_entries (key ∷ keys) c = remove_entries keys (remove_entry key c)

unfoldable pub prune_expired : ℕ → InMemoryCache → InMemoryCache
prune_expired now c =
    let keys = expired_keys now c.entries in if is_empty keys then c else remove_entries keys c

unfoldable pub get : ℕ → Text → InMemoryCache → Option (List ℕ)
unfolding is_expired
get now key c = elim (lookup key c.entries) [
  | none ↦ none
  | some entry ↦ if is_expired now entry then none else some entry.payload
]

-- `for tag in tag_strings { tag_index.entry(tag).or_default().insert(key) }`
unfoldable pub add_key : Text → List Text → TagIndex → TagIndex
add_key key [] index = index
add_key key (tag ∷ tags) index = add_key key tags (elim (lookup tag index) [
  | none ↦ insert tag (set_insert key []) index
  | some keys ↦ insert tag (set_insert key keys) index
])

abbrev pub FirstKey : Type 0
FirstKey = Entries → Option Text

-- Evict if at capacity.
unfoldable pub evict : FirstKey → Text → InMemoryCache → InMemoryCache
evict first_key key c =
    if leb c.max_entries (length c.entries) && not (contains_key key c.entries)
    then elim (first_key c.entries) [ none ↦ c | some first ↦ remove_entry first c ]
    else c

abbrev pub deadline : ℕ → Option ℕ → Option ℕ
deadline now none = none
deadline now (some d) = some (now + d)

abbrev pub entry_at : ℕ → List ℕ → Option ℕ → List Text → CacheEntry
entry_at now value ttl tags = record { payload = value; expires_at = deadline now ttl; tags = tags }

unfoldable pub store : Text → CacheEntry → InMemoryCache → InMemoryCache
store key entry c = record c {
  entries = insert key entry c.entries;
  tag_index = add_key key entry.tags c.tag_index;
}

unfoldable pub set :
    FirstKey → ℕ → Text → List ℕ → Option ℕ → List Text → InMemoryCache → InMemoryCache
set first_key now key value ttl tags c =
    store key (entry_at now value ttl tags) (evict first_key key c)

-- The pairs that one removed entry leaves to prune: its tags but the one that is invalidated.
unfoldable pub other_tags : Text → Text → List Text → List (Text × Text)
other_tags tag key [] = []
other_tags tag key (t ∷ tags) =
    let rest = other_tags tag key tags in ite (dec_text t tag) rest ((t, key) ∷ rest)

-- `for key in &keys_to_remove`: what stays, and `other_tags_to_prune`.
unfoldable pub remove_tagged : Text → List Text → Entries → Entries × List (Text × Text)
remove_tagged tag [] entries = (entries, [])
remove_tagged tag (key ∷ keys) entries =
    let rest = remove_tagged tag keys (remove key entries) in
    (
      rest.0,
      elim (lookup key entries) [
        | none ↦ rest.1
        | some entry ↦ other_tags tag key entry.tags ++ rest.1
      ],
    )

-- `for (t, k) in other_tags_to_prune`
unfoldable pub prune_tags : List (Text × Text) → TagIndex → TagIndex
prune_tags [] index = index
prune_tags ((t, k) ∷ others) index = prune_tags others (elim (lookup t index) [
  | none ↦ index
  | some keys ↦
      let left = set_remove k keys in if is_empty left then remove t index else insert t left index
])

unfoldable pub keys_of : Text → TagIndex → List Text
keys_of tag index = elim (lookup tag index) [ none ↦ [] | some keys ↦ keys ]

unfoldable pub invalidate_tag : Text → InMemoryCache → InMemoryCache
invalidate_tag tag c =
    let keys = keys_of tag c.tag_index in
    let index = remove tag c.tag_index in
    let removed = remove_tagged tag keys c.entries in
    if is_empty keys
    then record c { tag_index = index }
    else record c { entries = removed.0; tag_index = prune_tags removed.1 index }

unfoldable pub invalidate_tags : List Text → InMemoryCache → InMemoryCache
invalidate_tags [] c = c
invalidate_tags (tag ∷ tags) c = invalidate_tags tags (invalidate_tag tag c)

unfoldable pub clear : InMemoryCache → InMemoryCache
clear c = record c { entries = []; tag_index = [] }

unfoldable pub len : InMemoryCache → ℕ
len c = length c.entries

-- A call of the cache, with the clock that it reads.
pub data Call : Type 0 where
  call_set : ℕ → Text → List ℕ → Option ℕ → List Text → Call
  call_prune : ℕ → Call
  call_invalidate : List Text → Call
  call_clear : Call

unfoldable pub step : FirstKey → Call → InMemoryCache → InMemoryCache
step first_key (call_set now key value ttl tags) = set first_key now key value ttl tags
step first_key (call_prune now) = prune_expired now
step first_key (call_invalidate tags) = invalidate_tags tags
step first_key call_clear = clear

unfoldable pub run : FirstKey → List Call → InMemoryCache → InMemoryCache
run first_key [] c = c
run first_key (call ∷ calls) c = run first_key calls (step first_key call c)
