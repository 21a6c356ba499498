-- ===== src/Cache/Index.antt =====
-- The tag index of the cache (crates/runtime/src/cache.rs): every stored entry is listed under
-- each of its tags.
use mathlib.Core.Logic.{ite, if_pos, if_neg}
use ruprizzle_orm.Base.{
  ◌≡◌, refl, ◌≢◌, List, [], ◌∷◌, ◌++◌, none, some, true, false, Text, arith, inl, inr, Option-cases,
  is_empty, if◌then◌else◌, dec_text, contains, set_remove, set_insert, lookup, remove, insert,
  contains-set_remove, contains-set_insert, lookup-remove, lookup-insert,
}
use ruprizzle_orm.Cache.{
  CacheEntry, InMemoryCache, TagIndex, drop_key, add_key, other_tags, remove_tagged, prune_tags,
  keys_of, Entries,
}

abbrev pub Lists : TagIndex → Text → Text → Type 0
Lists index tag key = contains key (keys_of tag index) ≡ true

-- Every stored entry is listed under each of its tags.
abbrev pub IsIndexed : InMemoryCache → Type 0
IsIndexed c =
    (key tag : Text) (e : CacheEntry)
    → lookup key c.entries ≡ some e
    → contains tag e.tags ≡ true
    → Lists c.tag_index tag key

pub keys_of-insert :
    (t q : Text) (s : List Text) (index : TagIndex)
    → keys_of q (insert t s index) ≡ ite (dec_text t q) s (keys_of q index)
unfolding keys_of
keys_of-insert t q s index = ground (arith, lookup-insert t q s index)

pub keys_of-remove :
    (t q : Text) (index : TagIndex)
    → keys_of q (remove t index) ≡ ite (dec_text t q) [] (keys_of q index)
unfolding keys_of
keys_of-remove t q index = ground (arith, lookup-remove t q index)

drop_one :
    (k t : Text) (index : TagIndex) (tag key : Text)
    → key ≢ k
    → Lists index tag key
    → Lists
        (elim (lookup t index) [ none ↦ index | some keys ↦ insert t (set_remove k keys) index ])
        tag
        key
unfolding keys_of
drop_one k t index tag key ne h = elim (Option-cases (lookup t index)) [
  | inl e ↦ rw e h
  | inr (keys, e) ↦ rw e (
      ground (arith, lookup-insert t tag (set_remove k keys) index, contains-set_remove k key keys))
]

pub drop_key-Lists :
    (k : Text) (tags : List Text) (index : TagIndex) (tag key : Text)
    → key ≢ k
    → Lists index tag key
    → Lists (drop_key k tags index) tag key
unfolding drop_key
drop_key-Lists k [] index tag key ne h = h
drop_key-Lists k (t ∷ tags) index tag key ne h =
    drop_key-Lists k tags _ tag key ne (drop_one k t index tag key ne h)

add_one :
    (k t : Text) (index : TagIndex) (tag key : Text)
    → keys_of tag (elim (lookup t index) [
      | none ↦ insert t (set_insert k []) index
      | some keys ↦ insert t (set_insert k keys) index
    ])
      ≡ ite (dec_text t tag) (set_insert k (keys_of tag index)) (keys_of tag index)
unfolding keys_of
add_one k t index tag key = elim (Option-cases (lookup t index)) [
  | inl e ↦ rw e (ground (arith, lookup-insert t tag (set_insert k []) index))
  | inr (keys, e) ↦ rw e (ground (arith, lookup-insert t tag (set_insert k keys) index))
]

pub add_key-Lists :
    (k : Text) (tags : List Text) (index : TagIndex) (tag key : Text)
    → Lists index tag key
    → Lists (add_key k tags index) tag key
unfolding add_key
add_key-Lists k [] index tag key h = h
add_key-Lists k (t ∷ tags) index tag key h =
    add_key-Lists k tags _ tag key
      (ground (arith, add_one k t index tag key, contains-set_insert k key (keys_of tag index)))

pub add_key-Lists_self :
    (k : Text) (tags : List Text) (index : TagIndex) (tag : Text)
    → contains tag tags ≡ true
    → Lists (add_key k tags index) tag k
unfolding add_key contains
add_key-Lists_self k [] index tag h = cc
add_key-Lists_self k (t ∷ tags) index tag h = elim (dec_text t tag) [
  | yes p ↦
      add_key-Lists k tags _ tag k
        (ground (arith, add_one k t index tag k, contains-set_insert k k (keys_of tag index)))
  | no p ↦ add_key-Lists_self k tags _ tag (ground arith)
]

-- Every pair names one of these keys.
abbrev pub Among : List Text → List (Text × Text) → Type 0
Among keys [] = Unit
Among keys (p ∷ ps) = (contains p.1 keys ≡ true) × Among keys ps

Among-append :
    (keys : List Text) (ps qs : List (Text × Text))
    → Among keys ps
    → Among keys qs
    → Among keys (ps ++ qs)
Among-append keys [] qs a b = b
Among-append keys (p ∷ ps) qs a b = (a.0, Among-append keys ps qs a.1 b)

Among-cons :
    (k : Text) (keys : List Text) (ps : List (Text × Text)) → Among keys ps → Among (k ∷ keys) ps
unfolding contains
Among-cons k keys [] a = tt
Among-cons k keys (p ∷ ps) a = (ground arith, Among-cons k keys ps a.1)

Among-other_tags : (tag k : Text) (keys tags : List Text) → Among (k ∷ keys) (other_tags tag k tags)
unfolding other_tags contains
Among-other_tags tag k keys [] = tt
Among-other_tags tag k keys (t ∷ tags) = elim (dec_text t tag) [
  | yes p ↦ rw (if_pos _ p) (Among-other_tags tag k keys tags)
  | no p ↦ rw (if_neg _ p) ((ground arith, Among-other_tags tag k keys tags))
]

pub remove_tagged-Among :
    (tag : Text) (keys : List Text) (entries : Entries)
    → Among keys (remove_tagged tag keys entries).1
unfolding remove_tagged
remove_tagged-Among tag [] entries = tt
remove_tagged-Among tag (k ∷ keys) entries =
    let rest = Among-cons k keys _ (remove_tagged-Among tag keys (remove k entries)) in
    elim (Option-cases (lookup k entries)) [
      | inl e ↦ rw (e, Among) rest
      | inr (entry, e) ↦
          rw (e, Among) (Among-append (k ∷ keys) _ _ (Among-other_tags tag k keys entry.tags) rest)
    ]

pub lookup-remove_tagged :
    (tag : Text) (keys : List Text) (entries : Entries) (q : Text)
    → lookup q (remove_tagged tag keys entries).0
      ≡ elim (contains q keys) [ true ↦ none | false ↦ lookup q entries ]
unfolding remove_tagged contains
lookup-remove_tagged tag [] entries q = refl
lookup-remove_tagged tag (k ∷ keys) entries q =
    ground (arith, lookup-remove_tagged tag keys (remove k entries) q, lookup-remove k q entries)

prune_one :
    (k t : Text) (index : TagIndex) (tag key : Text)
    → key ≢ k
    → Lists index tag key
    → Lists
        (elim (lookup t index) [
          | none ↦ index
          | some keys ↦
              let left = set_remove k keys in
              if is_empty left then remove t index else insert t left index
        ])
        tag
        key
unfolding keys_of contains
prune_one k t index tag key ne h = elim (Option-cases (lookup t index)) [
  | inl e ↦ rw e h
  | inr (keys, e) ↦ rw e (
      ground (
        arith,
        lookup-insert t tag (set_remove k keys) index,
        lookup-remove t tag index,
        contains-set_remove k key keys,
      ))
]

pub prune_tags-Lists :
    (keys : List Text) (others : List (Text × Text)) (index : TagIndex) (tag key : Text)
    → Among keys others
    → contains key keys ≡ false
    → Lists index tag key
    → Lists (prune_tags others index) tag key
unfolding prune_tags
prune_tags-Lists keys [] index tag key a ne h = h
prune_tags-Lists keys ((t, k) ∷ others) index tag key a ne h =
    prune_tags-Lists keys others _ tag key a.1 ne
      (prune_one k t index tag key (λ e. ground arith) h)
