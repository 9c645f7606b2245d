-- ===== src/Store/Dialect.antt =====
-- store/dialect.go: the choice of a dialect, the placeholders of PostgreSQL, the escaped LIKE
-- pattern of a prefix, and LIKE itself as `PrefixCondition` uses it.
pub mod Laws
use lite_settings.Base.{
  ℕ, zero, suc, ◌+◌, ◌/◌, ◌%◌, Bool, true, false, ◌||◌, List, [], ◌∷◌, ◌++◌, Option, none, some,
  ltb, ◌==◌, if◌then◌else◌, Result, ok, err,
}
use lite_settings.Base.Decimal.{itoa}
use lite_settings.Base.Text.{Text, text, text_eq}
use lite_settings.Store.Validate.{StoreError, unsupported_driver}
use lite_settings.Store.Tables.{Dialect, mysql, postgres}

unfoldable pub dialect_for : Text → Result StoreError Dialect
dialect_for driver =
    if text_eq driver (text "mysql")
    then ok mysql
    else if text_eq driver (text "postgres")
        || (text_eq driver (text "pgx") || text_eq driver (text "pgx/v5"))
    then ok postgres
    else err (unsupported_driver driver)

-- The loop of `rebindDollar`; `n` placeholders have been written.
unfoldable pub rebind_from : ℕ → Text → Text
rebind_from n [] = []
rebind_from n (c ∷ q) =
    let next = rebind_from (suc n) q in
    let same = rebind_from n q in if c == b'?' then b'$' ∷ (itoa (suc n) ++ next) else c ∷ same

unfoldable pub rebind_dollar : Text → Text
unfolding rebind_from
rebind_dollar q = rebind_from 0 q

-- `Rebind` of the two dialects.
unfoldable pub rebind : Dialect → Text → Text
unfolding rebind_dollar
rebind mysql q = q
rebind postgres q = rebind_dollar q

-- The bytes that LIKE reads in a special way.
abbrev pub is_special : ℕ → Bool
is_special c = if c == b'\\' then true else if c == b'%' then true else c == b'_'

-- `likePrefix`: each of `\`, `%` and `_` is escaped by `\`, and `%` is appended.
unfoldable pub escape : Text → Text
escape [] = []
escape (c ∷ s) = let rest = escape s in if is_special c then b'\\' ∷ c ∷ rest else c ∷ rest

unfoldable pub like_prefix : Text → Text
unfolding escape
like_prefix p = escape p ++ (b'%' ∷ [])

-- Some part of the text from a position to the end passes a test.
any_suffix : (Text → Bool) → Text → Bool
any_suffix f [] = f []
any_suffix f (c ∷ s) = f (c ∷ s) || any_suffix f s

literal : ℕ → (Text → Bool) → Text → Bool
literal d f [] = false
literal d f (c ∷ s) = let rest = f s in if c == d then rest else false

any_one : (Text → Bool) → Text → Bool
any_one f [] = false
any_one f (c ∷ s) = f s

is_empty : Text → Bool
is_empty [] = true
is_empty (c ∷ s) = false

-- `s LIKE pattern ESCAPE '\'`: `%` stands for any text, `_` for any one byte, and `\` makes what
-- follows it stand for itself.
unfoldable pub like : Text → Text → Bool
unfolding any_suffix literal any_one is_empty
like [] s = is_empty s
like (c ∷ []) s =
    if c == b'%'
    then true
    else if c == b'_'
    then any_one is_empty s
    else if c == b'\\'
    then false
    else literal c is_empty s
like (c ∷ d ∷ p) s =
    let after_escape = literal d (like p) s in
    let after_any = any_suffix (like (d ∷ p)) s in
    let after_one = any_one (like (d ∷ p)) s in
    let after_same = literal c (like (d ∷ p)) s in
    if c == b'\\'
    then after_escape
    else if c == b'%'
    then after_any
    else if c == b'_'
    then after_one
    else after_same
