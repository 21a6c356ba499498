-- ===== src/Compile/Json/Numbering.antt =====
-- The steps of Compile/Json keep the markers in step with the values (crates/runtime/src/compile.rs).
use ruprizzle_orm.Base.{
  ◌≡◌, refl, true, false, [], ◌∷◌, ◌++◌, Option, none, some, Text, str, arith, All, Bool-cases, inl,
  inr,
}
use ruprizzle_orm.Dialect.{Dialect}
use ruprizzle_orm.Compile.Value.{Foreign}
use ruprizzle_orm.Compile.Filter.{JsonPath, JsonPathSegment, key, index}
use ruprizzle_orm.Compile.Json.{
  escaped, needs_quote, push_json_path_key, push_json_array_key, path_array_segment,
  push_json_path_array, push_json_path_segments, push_extra_key,
  push_json_path_sqlite_mysql_with_key,
}
use ruprizzle_orm.Compile.Numbering.{
  Keeps, keeps_rules, IsName, is_name, is_plain, Keeps-push_str, Keeps-⨾, Keeps-skip,
}
use ruprizzle_orm.Compile.Numbering.After.{
  KeepsAfter, after_rules, KeepsAfter-separated, KeepsAfter-step, KeepsAfter-to_string,
}
use ruprizzle_orm.Compile.State.{push_str, separated}

abbrev pub IsSegment : JsonPathSegment → Type 0
IsSegment (key k) = IsName k
IsSegment (index n) = Unit

abbrev pub IsKey : Option Text → Type 0
IsKey none = Unit
IsKey (some k) = IsName k

pub is_name-escaped :
    (s t : Text) → is_name s ≡ true → is_name t ≡ true → is_name (escaped s ++ t) ≡ true
unfolding escaped
is_name-escaped [] t hs ht = ht
is_name-escaped (c ∷ s) t hs ht = ground (arith, is_name-escaped s t)

is_plain-quoted : (k : Text) → IsName k → is_plain (b'"' ∷ (escaped k ++ (b'"' ∷ []))) ≡ true
is_plain-quoted k h = ground (arith, is_name-escaped k (b'"' ∷ []) h refl)

is_plain-word : (k : Text) → needs_quote k ≡ false → IsName k → is_plain k ≡ true
is_plain-word [] e h = refl
is_plain-word (c ∷ k) e h = ground arith

module _ {F : Foreign} {d : Dialect} where
  Keeps-push_json_array_key : (k : Text) → IsName k → Keeps {F = F} d (push_json_array_key k)
  unfolding push_json_array_key
  Keeps-push_json_array_key k h = Keeps-push_str _ (is_plain-quoted k h)

  Keeps-push_json_path_key : (k : Text) → IsName k → Keeps {F = F} d (push_json_path_key k)
  unfolding push_json_path_key
  Keeps-push_json_path_key k h = elim (Bool-cases (needs_quote k)) [
    | inl e ↦ rw e (Keeps-push_str _ (is_plain-quoted k h))
    | inr e ↦ rw e (Keeps-push_str _ (is_plain-word k e h))
  ]

  KeepsAfter-segment :
      (seg : JsonPathSegment) → IsSegment seg → KeepsAfter {F = F} d (path_array_segment seg)
  unfolding path_array_segment
  KeepsAfter-segment (key k) h = KeepsAfter-step _ (Keeps-push_json_array_key k h)
  KeepsAfter-segment (index n) h = KeepsAfter-to_string n

  pub Keeps-push_json_path_array :
      (path : JsonPath) → All IsSegment path → Keeps {F = F} d (push_json_path_array path)
  unfolding push_json_path_array
  Keeps-push_json_path_array path h =
      let body : KeepsAfter {F = F} d (separated (str ",") path_array_segment path) =
        KeepsAfter-separated IsSegment (str ",") path_array_segment path refl h
          KeepsAfter-segment in
      search after_rules depth 8

  Keeps-push_json_path_segments :
      (path : JsonPath) → All IsSegment path → Keeps {F = F} d (push_json_path_segments path)
  unfolding push_json_path_segments
  Keeps-push_json_path_segments [] h = Keeps-skip
  Keeps-push_json_path_segments (key k ∷ path) h =
      let rest : Keeps {F = F} d (push_json_path_segments path) =
        Keeps-push_json_path_segments path h.1 in
      let name : IsName k = h.0 in search (keeps_rules, Keeps-push_json_path_key)
  Keeps-push_json_path_segments (index n ∷ path) h =
      let rest : Keeps {F = F} d (push_json_path_segments path) =
        Keeps-push_json_path_segments path h.1 in
      search after_rules depth 8

  Keeps-push_extra_key : (o : Option Text) → IsKey o → Keeps {F = F} d (push_extra_key o)
  unfolding push_extra_key
  Keeps-push_extra_key none h = Keeps-skip
  Keeps-push_extra_key (some k) h =
      let name : IsName k = h in search (keeps_rules, Keeps-push_json_path_key)

  -- The front of a path is a dollar sign, which is no marker outside Postgres.
  pub Keeps-push_json_path_with_key :
      (path : JsonPath) (o : Option Text)
      → Keeps {F = F} d (push_str (b'$' ∷ []))
      → All IsSegment path
      → IsKey o
      → Keeps {F = F} d (push_json_path_sqlite_mysql_with_key path o)
  unfolding push_json_path_sqlite_mysql_with_key
  Keeps-push_json_path_with_key path o front h k =
      Keeps-⨾ _ _ front
        (Keeps-⨾ _ _ (Keeps-push_json_path_segments path h) (Keeps-push_extra_key o k))
