-- ===== src/Compile/Subquery.antt =====
-- crates/runtime/src/compile.rs: `CompiledSql::renumbered` and `Compiler::push_subquery`, which copy
-- a compiled statement byte by byte and renumber its `$n` placeholders. The numbers are taken below
-- 2^64, and `$0` behind no bind, on which the source underflows, gives `$0 + 1`.
pub mod Renumber
pub mod Embed
use ruprizzle_orm.Base.{
  ℕ, zero, suc, ◌+◌, ◌-◌, ◌/◌, ◌%◌, Bool, true, false, ◌||◌, not, List, [], ◌∷◌, ◌++◌, Text, length,
  is_empty, any, is_digit, number, to_string, ltb, ◌==◌, if◌then◌else◌,
}
use ruprizzle_orm.Dialect.{Dialect, postgres, sqlite, mysql, placeholder}
use ruprizzle_orm.Compile.Value.{Foreign, Value}
use ruprizzle_orm.Compile.Filter.{CompiledSql}
use ruprizzle_orm.Compile.State.{Compiler, Step}

-- `String::push(b as char)`: a byte is read as a Latin-1 character, which takes two bytes of UTF-8
-- from 128 on.
unfoldable pub push_as_char : ℕ → Text → Text
push_as_char b s = if ltb b 128 then b ∷ s else (192 + b / 64) ∷ (128 + b % 64) ∷ s

-- The digits at the front: the loop that moves `j`.
unfoldable pub digits_front : Text → Text
digits_front [] = []
digits_front (c ∷ t) = let more = c ∷ digits_front t in if is_digit c then more else []

unfoldable pub behind_digits : Text → Text
behind_digits [] = []
behind_digits (c ∷ t) = let more = behind_digits t in if is_digit c then more else c ∷ t

-- The copying loop, with the marker that replaces `$n`. One round for each byte is enough.
unfoldable pub splice : (ℕ → Text) → ℕ → Text → Text
unfolding push_as_char digits_front behind_digits
splice mark zero bytes = []
splice mark (suc f) [] = []
splice mark (suc f) (c ∷ t) =
    let copied = push_as_char c (splice mark f t) in
    let marked = mark (number 0 (digits_front t)) ++ splice mark f (behind_digits t) in
    if c == b'$' then (if is_empty (digits_front t) then copied else marked) else copied

starts_with_question : Text → Bool
starts_with_question [] = false
starts_with_question (c ∷ t) = c == b'?'

module _ {F : Foreign} where
  unfoldable pub renumbered : CompiledSql F → ℕ → CompiledSql F
  unfolding splice
  renumbered self offset =
      let moved : CompiledSql F = record {
        sql = splice (λ n. b'$' ∷ to_string (n + offset)) (length self.sql) self.sql;
        binds = self.binds;
      } in
      if offset == 0 || is_empty self.binds || not (any (λ c. c == b'$') self.sql)
      then self
      else moved

  unfoldable pub push_subquery : Dialect → CompiledSql F → Step F
  unfolding splice starts_with_question placeholder
  push_subquery d subquery c =
      let offset = length c.binds in
      let copied : Compiler F = record {
        sql = c.sql ++ subquery.sql;
        binds = c.binds ++ subquery.binds;
      } in
      let moved : Compiler F = record {
        sql =
            c.sql
            ++ splice (λ n. placeholder d (offset + n - 1)) (length subquery.sql) subquery.sql;
        binds = c.binds ++ subquery.binds;
      } in
      if starts_with_question (placeholder d 0) then copied else moved
