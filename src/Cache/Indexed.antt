-- ===== src/Cache/Indexed.antt =====
-- Every operation of the cache keeps its index complete (crates/runtime/src/cache.rs).
use mathlib.Core.Logic.{ite}
use ruprizzle_orm.Base.{
  ◌≡◌, refl, ◌≢◌, List, [], ◌∷◌, none, some, true, false, ◌&&◌, not, Text, ℕ, arith, inl, inr,
  Bool-cases, Option-cases, is_empty, length, leb, dec_text, contains, lookup, contains_key, remove,
  lookup-remove, lookup-insert,
}
use ruprizzle_orm.Cache.{
  CacheEntry, InMemoryCache, FirstKey, new, remove_entry, remove_entries, prune_expired,
  expired_keys, evict, store, set, keys_of, invalidate_tag, invalidate_tags, clear, step, Call,
  call_set, call_prune, call_invalidate, call_clear,
}
use ruprizzle_orm.Cache.Index.{
  Lists, IsIndexed, keys_of-remove, drop_key-Lists, add_key-Lists, add_key-Lists_self,
  remove_tagged-Among, lookup-remove_tagged, prune_tags-Lists,
}

pub new-IsIndexed : (max_entries : ℕ) → IsIndexed (new max_entries)
unfolding new lookup
new-IsIndexed max_entries key tag e h m = cc

pub lookup-remove_entry :
    (k q : Text) (c : InMemoryCache)
    → lookup q (remove_entry k c).entries ≡ ite (dec_text k q) none (lookup q c.entries)
unfolding remove_entry
lookup-remove_entry k q c = ground (arith, lookup-remove k q c.entries)

remove_entry-Lists :
    (k : Text) (c : InMemoryCache) (tag key : Text)
    → key ≢ k
    → Lists c.tag_index tag key
    → Lists (remove_entry k c).tag_index tag key
unfolding remove_entry
remove_entry-Lists k c tag key ne h = elim (Option-cases (lookup k c.entries)) [
  | inl miss ↦ rw (miss, remove_entry) h
  | inr (old, hit) ↦ rw (hit, remove_entry) (drop_key-Lists k old.tags c.tag_index tag key ne h)
]

remove_entry-IsIndexed : (k : Text) (c : InMemoryCache) → IsIndexed c → IsIndexed (remove_entry k c)
remove_entry-IsIndexed k c i key tag e h m =
    remove_entry-Lists k c tag key (λ same. ground (arith, lookup-remove_entry k key c))
      (i key tag e (ground (arith, lookup-remove_entry k key c)) m)

remove_entries-IsIndexed :
    (keys : List Text) (c : InMemoryCache) → IsIndexed c → IsIndexed (remove_entries keys c)
unfolding remove_entries
remove_entries-IsIndexed [] c i = i
remove_entries-IsIndexed (k ∷ keys) c i =
    remove_entries-IsIndexed keys _ (remove_entry-IsIndexed k c i)

prune_expired-IsIndexed :
    (now : ℕ) (c : InMemoryCache) → IsIndexed c → IsIndexed (prune_expired now c)
unfolding prune_expired
prune_expired-IsIndexed now c i = elim (Bool-cases (is_empty (expired_keys now c.entries))) [
  | inl e ↦ rw e i
  | inr e ↦ rw e (remove_entries-IsIndexed (expired_keys now c.entries) c i)
]

store-IsIndexed :
    (k : Text) (e : CacheEntry) (c : InMemoryCache) → IsIndexed c → IsIndexed (store k e c)
unfolding store
store-IsIndexed k e c i key tag e' h m = elim (dec_text k key) [
  | yes p ↦
      let same : e ≡ e' = ground (arith, lookup-insert k key e c.entries) in
      rw (← p) (add_key-Lists_self k e.tags c.tag_index tag (rw same m))
  | no p ↦
      add_key-Lists k e.tags c.tag_index tag key
        (i key tag e' (ground (arith, lookup-insert k key e c.entries)) m)
]

evict-IsIndexed :
    (first_key : FirstKey) (k : Text) (c : InMemoryCache)
    → IsIndexed c
    → IsIndexed (evict first_key k c)
unfolding evict
evict-IsIndexed first_key k c i =
    elim (Bool-cases (leb c.max_entries (length c.entries) && not (contains_key k c.entries))) [
      | inl full ↦ rw full (elim (Option-cases (first_key c.entries)) [
        | inl e ↦ rw e i
        | inr (first, e) ↦ rw e (remove_entry-IsIndexed first c i)
      ])
      | inr room ↦ rw room i
    ]

contains-is_empty : (q : Text) (s : List Text) → is_empty s ≡ true → contains q s ≡ false
unfolding contains
contains-is_empty q [] e = refl
contains-is_empty q (k ∷ s) e = cc

-- What an invalidation leaves: an entry that is not listed under the tag.
pub lookup-invalidate_tag :
    (tag q : Text) (c : InMemoryCache)
    → lookup q (invalidate_tag tag c).entries
      ≡ elim (contains q (keys_of tag c.tag_index)) [ true ↦ none | false ↦ lookup q c.entries ]
unfolding invalidate_tag
lookup-invalidate_tag tag q c = ground (
  arith,
  contains-is_empty q (keys_of tag c.tag_index),
  lookup-remove_tagged tag (keys_of tag c.tag_index) c.entries q,
)

pub invalidate_tag-IsIndexed :
    (t : Text) (c : InMemoryCache) → IsIndexed c → IsIndexed (invalidate_tag t c)
unfolding invalidate_tag
invalidate_tag-IsIndexed t c i key tag e h m =
    let keys = keys_of t c.tag_index in
    let left : contains key keys ≡ false = ground (arith, lookup-invalidate_tag t key c) in
    let kept : lookup key c.entries ≡ some e = ground (arith, lookup-invalidate_tag t key c) in
    let listed = i key tag e kept m in
    let apart : t ≢ tag = λ same. absurd (ground arith) in
    let still : Lists (remove t c.tag_index) tag key =
      ground (arith, keys_of-remove t tag c.tag_index) in
    elim (Bool-cases (is_empty keys)) [
      | inl none_left ↦ rw none_left still
      | inr some_left ↦
          rw some_left
            (prune_tags-Lists keys _ _ tag key (remove_tagged-Among t keys c.entries) left still)
    ]

invalidate_tags-IsIndexed :
    (tags : List Text) (c : InMemoryCache) → IsIndexed c → IsIndexed (invalidate_tags tags c)
unfolding invalidate_tags
invalidate_tags-IsIndexed [] c i = i
invalidate_tags-IsIndexed (t ∷ tags) c i =
    invalidate_tags-IsIndexed tags _ (invalidate_tag-IsIndexed t c i)

clear-IsIndexed : (c : InMemoryCache) → IsIndexed (clear c)
unfolding clear lookup
clear-IsIndexed c key tag e h m = cc

pub step-IsIndexed :
    (first_key : FirstKey) (call : Call) (c : InMemoryCache)
    → IsIndexed c
    → IsIndexed (step first_key call c)
unfolding step set
step-IsIndexed first_key (call_set now key value ttl tags) c i =
    store-IsIndexed key _ _ (evict-IsIndexed first_key key c i)
step-IsIndexed first_key (call_prune now) c i = prune_expired-IsIndexed now c i
step-IsIndexed first_key (call_invalidate tags) c i = invalidate_tags-IsIndexed tags c i
step-IsIndexed first_key call_clear c i = clear-IsIndexed c
