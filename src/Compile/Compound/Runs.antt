-- ===== src/Compile/Compound/Runs.antt =====
-- Runs of markers in texts that are joined, and in the operands of a set operation
-- (crates/runtime/src/compile.rs).
use ruprizzle_orm.Base.{
  ℕ, ◌+◌, ◌≡◌, refl, true, List, [], ◌∷◌, ◌++◌, Text, str, join, arith, append-nil,
}
use native.Mathlib.Nat.{zero-add}
use ruprizzle_orm.Dialect.{Dialect, postgres, sqlite, mysql}
use ruprizzle_orm.Compile.Filter.{SetOp}
use ruprizzle_orm.Compile.Markers.{stops}
use ruprizzle_orm.Compile.Subquery.Embed.{IsRun, IsRun-append, IsRun-chunk}
use ruprizzle_orm.Compile.Numbering.{is_plain, is_chunk-plain}
use ruprizzle_orm.Compile.Compound.{set_op_sql, combined}

pub is_plain-stops : (s : Text) → is_plain s ≡ true → stops s ≡ true
is_plain-stops s h = ground arith

pub stops-append : (s t : Text) → stops s ≡ true → stops t ≡ true → stops (s ++ t) ≡ true
stops-append [] t hs ht = ht
stops-append (c ∷ s) t hs ht = hs

pub IsRun-before :
    (d : Dialect) (a b : Text) (k n : ℕ)
    → is_plain a ≡ true
    → stops b ≡ true
    → IsRun d b k n
    → IsRun d (a ++ b) k n
IsRun-before d a b k n ha hb h =
    let e : k + 0 ≡ k = omega arith in
    IsRun-append d a b k 0 n n hb (IsRun-chunk d a k (is_chunk-plain d a ha)) (rw e h) (omega arith)

pub IsRun-behind :
    (d : Dialect) (a b : Text) (k n : ℕ) → is_plain b ≡ true → IsRun d a k n → IsRun d (a ++ b) k n
IsRun-behind d a b k n hb h =
    IsRun-append d a b k n 0 n (is_plain-stops b hb) h
      (IsRun-chunk d b (k + n) (is_chunk-plain d b hb)) (omega arith)

pub IsRun-join :
    (d : Dialect) (p : Text) (ps : List Text) (k m n : ℕ)
    → IsRun d p k m
    → IsRun d (join (str ", ") ps) (k + m) n
    → stops (join (str ", ") ps) ≡ true
    → IsRun d (join (str ", ") (p ∷ ps)) k (m + n)
unfolding join
IsRun-join d p [] k m n hp hs e =
    rw (append-nil p) at (IsRun-append d p [] k m n (m + n) refl hp hs refl)
IsRun-join d p (p' ∷ ps) k m n hp hs e =
    IsRun-append d p (str ", " ++ join (str ", ") (p' ∷ ps)) k m n (m + n) refl hp
      (IsRun-before d (str ", ") (join (str ", ") (p' ∷ ps)) (k + m) n refl e hs) refl

is_plain-set_op_sql : (op : SetOp) → is_plain (set_op_sql op) ≡ true
unfolding set_op_sql
is_plain-set_op_sql SetOp.union = refl
is_plain-set_op_sql SetOp.union_all = refl
is_plain-set_op_sql SetOp.intersect = refl
is_plain-set_op_sql SetOp.except = refl

-- Two operands between plain texts.
IsRun-operands :
    (d : Dialect) (op : SetOp) (a l b c r e : Text) (m n : ℕ)
    → is_plain a ≡ true
    → is_plain b ≡ true
    → is_plain c ≡ true
    → is_plain e ≡ true
    → stops l ≡ true
    → stops r ≡ true
    → IsRun d l 0 m
    → IsRun d r m n
    → IsRun d (a ++ (l ++ (b ++ (set_op_sql op ++ (c ++ (r ++ e)))))) 0 (m + n)
IsRun-operands d op a l b c r e m n ha hb hc he sl sr hl hr =
    let se = is_plain-stops e he in
    let sre = stops-append r e sr se in
    let right = IsRun-behind d r e m n he hr in
    let sc = stops-append c (r ++ e) (is_plain-stops c hc) sre in
    let after_op = IsRun-before d c (r ++ e) m n hc sre right in
    let so =
      stops-append (set_op_sql op) (c ++ (r ++ e))
        (is_plain-stops (set_op_sql op) (is_plain-set_op_sql op)) sc in
    let from_op =
      IsRun-before d (set_op_sql op) (c ++ (r ++ e)) m n (is_plain-set_op_sql op) sc after_op in
    let sb = stops-append b (set_op_sql op ++ (c ++ (r ++ e))) (is_plain-stops b hb) so in
    let behind = IsRun-before d b (set_op_sql op ++ (c ++ (r ++ e))) m n hb so from_op in
    IsRun-before d a (l ++ (b ++ (set_op_sql op ++ (c ++ (r ++ e))))) 0 (m + n) ha
      (stops-append l (b ++ (set_op_sql op ++ (c ++ (r ++ e)))) sl sb)
      (IsRun-append d l (b ++ (set_op_sql op ++ (c ++ (r ++ e)))) 0 m n (m + n) sb hl
        (rw zero-add behind) refl)

pub IsRun-combined :
    (d : Dialect) (op : SetOp) (l r : Text) (m n : ℕ)
    → stops l ≡ true
    → stops r ≡ true
    → IsRun d l 0 m
    → IsRun d r m n
    → IsRun d (combined d op l r) 0 (m + n)
unfolding combined
IsRun-combined sqlite op l r m n sl sr hl hr =
    IsRun-operands sqlite op (str "SELECT * FROM (") l (str ") AS __rz_l ") (str " SELECT * FROM (")
      r (str ") AS __rz_r") m n refl refl refl refl sl sr hl hr
IsRun-combined postgres op l r m n sl sr hl hr =
    IsRun-operands postgres op (str "(") l (str ") ") (str " (") r (str ")") m n refl refl refl refl
      sl sr hl hr
IsRun-combined mysql op l r m n sl sr hl hr =
    IsRun-operands mysql op (str "(") l (str ") ") (str " (") r (str ")") m n refl refl refl refl sl
      sr hl hr

pub stops-combined : (d : Dialect) (op : SetOp) (l r : Text) → stops (combined d op l r) ≡ true
unfolding combined
stops-combined postgres op l r = refl
stops-combined sqlite op l r = refl
stops-combined mysql op l r = refl
