-- ===== src/Compile/Json.antt =====
-- crates/runtime/src/compile.rs: the steps that write JSON expressions and predicates. A loop that
-- pushes the characters of a key, escaped, is one `push_str` of the escaped key.
pub mod Numbering
use ruprizzle_orm.Base.{
  ℕ, Bool, true, false, ◌||◌, ◌&&◌, not, List, [], ◌∷◌, ◌++◌, Option, none, some, Text, str, double,
  to_string, is_empty, all, is_digit, leb, ◌==◌, if◌then◌else◌,
}
use ruprizzle_orm.Dialect.{Dialect, postgres, sqlite, mysql}
use ruprizzle_orm.Compile.Value.{Foreign, Value, JsonView}
use ruprizzle_orm.Compile.Filter.{JsonPath, JsonPathSegment, key, index}
use ruprizzle_orm.Compile.State.{
  Compiler, Step, ◌⨾◌, skip, push_str, push_quoted, push_bind, push_column, each_after, separated,
}

abbrev pub is_alphabetic : ℕ → Bool
is_alphabetic c = (leb b'a' c && leb c b'z') || (leb b'A' c && leb c b'Z')

abbrev pub starts_word : Text → Bool
starts_word [] = false
starts_word (c ∷ s) = is_alphabetic c || c == b'_'

abbrev pub needs_quote : Text → Bool
needs_quote k =
    is_empty k
    || not (starts_word k)
    || not (all (λ c. is_alphabetic c || is_digit c || c == b'_') k)

-- A backslash before each backslash and double quote.
unfoldable pub escaped : Text → Text
escaped [] = []
escaped (c ∷ s) = if c == 92 || c == b'"' then 92 ∷ c ∷ escaped s else c ∷ escaped s

module _ {F : Foreign} where
  unfoldable pub push_json_array_key : Text → Step F
  push_json_array_key k = push_str (b'"' ∷ (escaped k ++ (b'"' ∷ [])))

  unfoldable pub push_json_path_key : Text → Step F
  push_json_path_key k =
      if needs_quote k then push_str (b'"' ∷ (escaped k ++ (b'"' ∷ []))) else push_str k

  unfoldable pub push_json_string_literal : Text → Step F
  push_json_string_literal s = push_str (double 39 s)

  unfoldable pub path_array_segment : JsonPathSegment → Step F
  path_array_segment (key k) = push_json_array_key k
  path_array_segment (index n) = push_str (to_string n)

  unfoldable pub push_json_path_array : JsonPath → Step F
  push_json_path_array path =
      push_str (str "'")
      ⨾ push_str (str "{")
      ⨾ separated (str ",") path_array_segment path
      ⨾ push_str (str "}")
      ⨾ push_str (str "'")

  unfoldable pub push_json_path_segments : JsonPath → Step F
  push_json_path_segments [] = skip
  push_json_path_segments (key k ∷ path) =
      push_str (str ".") ⨾ push_json_path_key k ⨾ push_json_path_segments path
  push_json_path_segments (index n ∷ path) =
      push_str (str "[")
      ⨾ push_str (to_string n)
      ⨾ push_str (str "]")
      ⨾ push_json_path_segments path

  unfoldable pub push_extra_key : Option Text → Step F
  push_extra_key none = skip
  push_extra_key (some k) = push_str (str ".") ⨾ push_json_path_key k

  unfoldable pub push_json_path_sqlite_mysql_with_key : JsonPath → Option Text → Step F
  push_json_path_sqlite_mysql_with_key path extra =
      push_str (str "$") ⨾ push_json_path_segments path ⨾ push_extra_key extra

  unfoldable pub push_json_path_sqlite_mysql : JsonPath → Step F
  push_json_path_sqlite_mysql path = push_json_path_sqlite_mysql_with_key path none
