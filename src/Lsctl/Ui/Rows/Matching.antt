-- ===== src/Lsctl/Ui/Rows/Matching.antt =====
-- Which keys `buildRows` shows: those of the configs that contain the filter, in their order.
use lite_settings.Base.{
  ◌≡◌, refl, sym, ap, Bool, true, false, List, [], ◌∷◌, ◌++◌, inl, inr, arith, if◌then◌else◌,
  Bool-cases,
}
use lite_settings.Base.Text.{
  Text, text_eq, text_eq_iff, has_prefix, has_prefix-append, contains_text, trim_prefix,
  trim_prefix-append,
}
use lite_settings.Server.Handlers.{ApiConfig}
use lite_settings.Lsctl.Ui.{KeyRow}
use lite_settings.Lsctl.Ui.Rows.{split_key, filtered_out, group_header, rows_after, build_rows}

-- The part stands somewhere in the text.
abbrev pub Contains : Text → Text → Type 0
Contains s part = (a : Text) × (b : Text) × (s ≡ a ++ (part ++ b))

-- The keys are, in order, those of the configs that contain the filter.
pub data Matches (filter : Text) : List ApiConfig → List Text → Type 0 where
  no_more : Matches filter [] []
  shown :
      {c : ApiConfig} {cs : List ApiConfig} {ks : List Text}
      → Contains c.key filter
      → Matches filter cs ks
      → Matches filter (c ∷ cs) (c.key ∷ ks)
  hidden :
      {c : ApiConfig} {cs : List ApiConfig} {ks : List Text}
      → (Contains c.key filter → ⊥)
      → Matches filter cs ks
      → Matches filter (c ∷ cs) ks

-- The keys of the rows that are no headers.
abbrev pub row_keys : List KeyRow → List Text
row_keys [] = []
row_keys (r ∷ rs) = if r.header then row_keys rs else r.key ∷ row_keys rs

contains_text-Contains : (s part : Text) → contains_text s part ≡ true → Contains s part
unfolding contains_text
contains_text-Contains [] part h = ([], trim_prefix [] part, sym (trim_prefix-append [] part h))
contains_text-Contains (c ∷ s) part h = elim (Bool-cases (has_prefix (c ∷ s) part)) [
  | inl e ↦ ([], trim_prefix (c ∷ s) part, sym (trim_prefix-append (c ∷ s) part e))
  | inr e ↦
      let (a, b, q) = contains_text-Contains s part (ground (arith, e)) in
      (c ∷ a, b, ap (λ t. c ∷ t) q)
]

contains_text-has_prefix : (s part : Text) → has_prefix s part ≡ true → contains_text s part ≡ true
unfolding contains_text
contains_text-has_prefix [] part h = h
contains_text-has_prefix (c ∷ s) part h = rw h refl

contains_text-append : (a part b : Text) → contains_text (a ++ (part ++ b)) part ≡ true
unfolding contains_text
contains_text-append [] part b =
    contains_text-has_prefix (part ++ b) part (has_prefix-append part b)
contains_text-append (c ∷ a) part b = ground (arith, contains_text-append a part b)

filtered_out-hides : (f k : Text) → filtered_out f k ≡ true → Contains k f → ⊥
unfolding filtered_out
filtered_out-hides f k h (a, b, q) =
    ground (arith, contains_text-append a f b, ap (λ s. contains_text s f) q)

filtered_out-shows : (f k : Text) → filtered_out f k ≡ false → Contains k f
unfolding filtered_out
filtered_out-shows f k h = elim (Bool-cases (text_eq f [])) [
  | inl e ↦ ([], k, ap (λ g. g ++ k) (sym ((text_eq_iff f []).0 e)))
  | inr e ↦ contains_text-Contains k f (ground (arith, e))
]

row_keys-group_header :
    (g : Text) (rs : List KeyRow) → row_keys (group_header g ++ rs) ≡ row_keys rs
row_keys-group_header [] rs = refl
row_keys-group_header (c ∷ g) rs = refl

row_keys-headers :
    (b : Bool) (g : Text) (rs : List KeyRow)
    → row_keys ((if b then [] else group_header g) ++ rs) ≡ row_keys rs
row_keys-headers true g rs = refl
row_keys-headers false g rs = row_keys-group_header g rs

rows_after-Matches :
    (f last : Text) (cs : List ApiConfig) → Matches f cs (row_keys (rows_after f last cs))
unfolding rows_after
rows_after-Matches f last [] = no_more
rows_after-Matches f last (c ∷ cs) = elim (Bool-cases (filtered_out f c.key)) [
  | inl e ↦ rw e (hidden (filtered_out-hides f c.key e) (rows_after-Matches f last cs))
  | inr e ↦
      rw (e, row_keys-headers (text_eq (split_key c.key).0 last) (split_key c.key).0)
        (shown (filtered_out-shows f c.key e) (rows_after-Matches f (split_key c.key).0 cs))
]

pub build_rows-Matches :
    (cs : List ApiConfig) (f : Text) → Matches f cs (row_keys (build_rows cs f))
unfolding build_rows
build_rows-Matches cs f = rows_after-Matches f (0 ∷ []) cs
