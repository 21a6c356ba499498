-- ===== src/Compile/State.antt =====
-- crates/runtime/src/compile.rs: the `Compiler`, its output buffers and its smallest steps. Its
-- dialect never changes and is a parameter. A run of statements `a; b` is `a ⨾ b`.
use ruprizzle_orm.Base.{List, [], ◌∷◌, ◌++◌, Text, str, length}
use ruprizzle_orm.Dialect.{Dialect, quote_ident, placeholder}
use ruprizzle_orm.Compile.Value.{Foreign, Value}
use ruprizzle_orm.Compile.Filter.{CompiledSql}

pub record Compiler (F : Foreign) : Type 0 where
  pub sql : Text
  pub binds : List (Value F)

abbrev pub Step : Foreign → Type 0
Step F = Compiler F → Compiler F

module _ {F : Foreign} where
  infixr 20 ◌⨾◌
  unfoldable pub ◌⨾◌ : Step F → Step F → Step F
  ◌⨾◌ f g c = g (f c)

  unfoldable pub skip : Step F
  skip c = c

  abbrev pub new : Compiler F
  new = record { sql = []; binds = [] }

  unfoldable pub finish : Compiler F → CompiledSql F
  finish c = record { sql = c.sql; binds = c.binds }

  -- `push_str` and `push`.
  unfoldable pub push_str : Text → Step F
  push_str s c = record c { sql = c.sql ++ s }

  unfoldable pub push_quoted : Dialect → Text → Step F
  push_quoted d s = push_str (quote_ident d s)

  -- The placeholder's index is the place of the value that has just been pushed.
  unfoldable pub push_bind : Dialect → Value F → Step F
  push_bind d value c = record {
    sql = c.sql ++ placeholder d (length c.binds);
    binds = c.binds ++ (value ∷ []);
  }

  -- `push_quoted(table); push('.'); push_quoted(column)`
  unfoldable pub push_column : Dialect → Text → Text → Step F
  push_column d table column = push_quoted d table ⨾ push_str (str ".") ⨾ push_quoted d column

  -- `for x in xs { push_str(sep); body(x) }`
  unfoldable pub each_after {κ} : {A : Type κ} → Text → (A → Step F) → List A → Step F
  each_after sep body [] = skip
  each_after sep body (x ∷ xs) = push_str sep ⨾ body x ⨾ each_after sep body xs

  -- `for (i, x) in xs.iter().enumerate() { if i > 0 { push_str(sep) } body(x) }`
  unfoldable pub separated {κ} : {A : Type κ} → Text → (A → Step F) → List A → Step F
  separated sep body [] = skip
  separated sep body (x ∷ xs) = body x ⨾ each_after sep body xs
