-- ===== src/Examples/Migrations.antt =====
-- The theorems about the changes of a schema, on two small schemas (crates/migrate/src/diff.rs,
-- rename.rs).
use ruprizzle_orm.Base.{
  ◌≡◌, refl, false, List, [], ◌∷◌, none, some, arith, Text, str, All, to_string, dec_text, lookup,
}
use ruprizzle_orm.Ir.{Span, FieldKind, ScalarType, FieldAttrs, Field, Model, Schema}
use ruprizzle_orm.Migrate.Change.{Change, add_column, drop_column}
use ruprizzle_orm.Migrate.Diff.{hinted, diff, diff_columns}
use ruprizzle_orm.Migrate.Diff.Same.{IsPlain, IsOrder}
use ruprizzle_orm.Migrate.Diff.Unchanged.{diff_self}
use ruprizzle_orm.Migrate.Diff.Columns.{has_columns, columns_after}
use ruprizzle_orm.Migrate.Diff.Renaming.{IsRenaming}
use ruprizzle_orm.Migrate.Diff.Applied.{columns_after-diff_columns}
use ruprizzle_orm.Migrate.Rename.{
  RenameSuggestion, suggest_renames, suggest_each, added_columns, suggest_one, candidates,
  dropped_columns, find_column, candidate_score, name_similarity, levenshtein, update_rows,
  to_ascii_lowercase, update_row, chosen, candidates_are_unambiguous, common_prefix, contains_str,
  count_of, is_candidate, max_by_score, same_kind, starts_with, suggestion,
}
use ruprizzle_orm.Suggest.{len_bytes, len_utf8}
use ruprizzle_orm.Ir.Equality.{eq_default, dec_scalar_type, dec_bool}
use ruprizzle_orm.Ir.{has_column}
use ruprizzle_orm.Migrate.Rename.Suggested.{IsSuggested, suggest_renames-IsSuggested}

abbrev nowhere : Span
nowhere = record { start = 0; end = 0 }

abbrev plain_attrs : FieldAttrs
plain_attrs = record {
  is_id = false;
  is_unique = false;
  is_updated_at = false;
  is_created_at = false;
  is_deleted_at = false;
  ignore = false;
  native_type = none;
  renamed_from = none;
}

abbrev text_field : Text → Field
text_field name = record {
  name = name;
  column = name;
  kind = FieldKind.scalar ScalarType.string;
  optional = false;
  default = none;
  attrs = plain_attrs;
  generated = none;
  span = nowhere;
}

abbrev user_model : List (Text × Field) → Model
user_model fields = record {
  name = str "User";
  table = str "users";
  fields = fields;
  primary_key = record { fields = str "id" ∷ []; name = none; span = nowhere };
  indexes = [];
  uniques = [];
  span = nowhere;
}

abbrev before : Model
before = user_model ((str "name", text_field (str "name")) ∷ [])

-- `title @renamedFrom("name")`
abbrev renamed : Field
renamed = record (text_field (str "title")) {
  attrs = record plain_attrs { renamed_from = some (str "name") };
}

abbrev after : Model
after = user_model ((str "title", renamed) ∷ [])

abbrev schema : Model → Schema
schema m = record { enums = []; models = (str "User", m) ∷ []; relations = [] }

before-IsPlain : IsPlain (schema before)
unfolding lookup dec_text
before-IsPlain = record {
  enums = tt;
  variants = tt;
  models = (refl, tt);
  plain = (record { fields = (refl, tt); plain = ((tt, tt), tt) }, tt);
}

as_listed : IsOrder (λ m. m)
as_listed m h = h

diff_self_example : diff (λ m. m) (schema before) (schema before) ≡ []
diff_self_example = diff_self (λ m. m) as_listed (schema before) before-IsPlain

before-after-IsRenaming : IsRenaming before after
unfolding lookup hinted
before-after-IsRenaming = record {
  prev_fields = (ground arith, tt);
  next_fields = (ground arith, tt);
  distinct = λ n m p q a b hp hq e. ground arith;
  kinds = λ n p f a b. ground arith;
  taken = λ m old g p f a b d. ground arith;
}

columns_after-diff_columns_example :
    columns_after (has_columns before) (diff_columns (str "User") before after) (str "title")
    ≡ has_columns after (str "title")
columns_after-diff_columns_example =
    columns_after-diff_columns (str "User") before after before-after-IsRenaming (str "title")

abbrev changes : List Change
changes =
    add_column (str "User") (text_field (str "full_name"))
    ∷ drop_column (str "User") (str "name")
    ∷ []

-- `full_name` where `name` was.
abbrev with_full_name : Model
with_full_name = user_model ((str "full_name", text_field (str "full_name")) ∷ [])

-- There is one suggestion.
suggested :
    suggest_renames (schema before) (schema with_full_name) changes
    ≡ some (
        record {
          model = str "User";
          from = str "name";
          to = str "full_name";
          from_column = str "name";
          to_column = str "full_name";
          reason = str "same type and nullability; field similarity score 7/8";
        }
        ∷ [])
unfolding suggest_renames suggest_each added_columns suggest_one lookup dec_text candidates
    dropped_columns find_column has_column candidate_score name_similarity levenshtein update_rows
    to_ascii_lowercase update_row chosen to_string eq_default candidates_are_unambiguous
    common_prefix contains_str count_of is_candidate max_by_score same_kind starts_with suggestion
    len_bytes len_utf8 dec_scalar_type dec_bool
suggested = refl

suggest_renames-IsSuggested_example :
    (suggestions : List RenameSuggestion) × (suggest_renames
        (schema before)
        (schema with_full_name)
        changes
      ≡ some suggestions)
    × All (IsSuggested (schema before) changes) suggestions
suggest_renames-IsSuggested_example =
    suggest_renames-IsSuggested (schema before) (schema with_full_name) changes
