-- ===== src/Sync/Fetch.antt =====
-- A snapshot of the rows that ListPrefixes returns binds each requested key to its current row, and
-- no other key.
use lite_settings.Base.{
  ◌≡◌, refl, ◌∙◌, ap, sym, Bool, true, false, List, [], ◌∷◌, Option, none, some, arith,
  if◌then◌else◌, keep_if, map, ok, Bool-cases, inl, inr,
}
use lite_settings.Base.Dict.{contains, Distinct, lookup}
use lite_settings.Base.Sort.{sort_by, insert_by}
use lite_settings.Base.Text.{requested, Text, text_eq, text_eq_iff}
use lite_settings.Store.Tables
use lite_settings.Store.Tables.{Tables, Env, find_config}
use lite_settings.Store.Read.{list_prefixes, selects, by_key}
use lite_settings.Store.Read.Laws.{selects-requested}
use lite_settings.Store.Write.Invariant.{config_keys}
use lite_settings.Client.View.{Config, Snapshot, new_view}
use lite_settings.Client.View.Diff.{last_config, lookup-add_configs}
use lite_settings.Source.Db.{wire}

abbrev pub Row : Type 0
Row = Tables.Config

abbrev pub wire_row : Option Row → Option Config
wire_row none = none
wire_row (some c) = some (wire c)

contains-insert_by :
    (le : Row → Row → Bool) (k : Text) (x : Row) (cs : List Row)
    → contains k (config_keys (insert_by le x cs))
      ≡ (if text_eq x.key k then true else contains k (config_keys cs))
unfolding insert_by contains
contains-insert_by le k x [] = refl
contains-insert_by le k x (y ∷ ys) = ground (arith, contains-insert_by le k x ys)

contains-sort_by :
    (le : Row → Row → Bool) (k : Text) (cs : List Row)
    → contains k (config_keys (sort_by le cs)) ≡ contains k (config_keys cs)
unfolding sort_by contains
contains-sort_by le k [] = refl
contains-sort_by le k (c ∷ cs) =
    ground (arith, contains-insert_by le k c (sort_by le cs), contains-sort_by le k cs)

insert_by-Distinct :
    (le : Row → Row → Bool) (x : Row) (cs : List Row)
    → contains x.key (config_keys cs) ≡ false
    → Distinct (config_keys cs)
    → Distinct (config_keys (insert_by le x cs))
unfolding insert_by contains
insert_by-Distinct le x [] n h = (refl, tt)
insert_by-Distinct le x (y ∷ ys) n h = ground (
  arith,
  insert_by-Distinct le x ys,
  contains-insert_by le y.key x ys,
  text_eq_iff x.key y.key,
  text_eq_iff y.key x.key,
)

sort_by-Distinct :
    (le : Row → Row → Bool) (cs : List Row)
    → Distinct (config_keys cs)
    → Distinct (config_keys (sort_by le cs))
unfolding sort_by
sort_by-Distinct le [] h = tt
sort_by-Distinct le (c ∷ cs) h =
    insert_by-Distinct le c (sort_by le cs) (contains-sort_by le c.key cs ∙ h.0)
      (sort_by-Distinct le cs h.1)

find_config-insert_by :
    (le : Row → Row → Bool) (k : Text) (x : Row) (cs : List Row)
    → contains x.key (config_keys cs) ≡ false
    → find_config k (insert_by le x cs) ≡ (if text_eq x.key k then some x else find_config k cs)
unfolding insert_by find_config contains
find_config-insert_by le k x [] n = refl
find_config-insert_by le k x (y ∷ ys) n = ground (
  arith,
  find_config-insert_by le k x ys,
  text_eq_iff x.key k,
  text_eq_iff y.key k,
  text_eq_iff y.key x.key,
)

find_config-sort_by :
    (le : Row → Row → Bool) (k : Text) (cs : List Row)
    → Distinct (config_keys cs)
    → find_config k (sort_by le cs) ≡ find_config k cs
unfolding sort_by find_config
find_config-sort_by le k [] h = refl
find_config-sort_by le k (c ∷ cs) h = ground (
  arith,
  find_config-insert_by le k c (sort_by le cs) (contains-sort_by le c.key cs ∙ h.0),
  find_config-sort_by le k cs h.1,
)

not-contains-keep_if :
    (f : Row → Bool) (k : Text) (cs : List Row)
    → contains k (config_keys cs) ≡ false
    → contains k (config_keys (keep_if f cs)) ≡ false
unfolding contains
not-contains-keep_if f k [] h = refl
not-contains-keep_if f k (c ∷ cs) h = ground (arith, not-contains-keep_if f k cs)

keep_if-Distinct :
    (f : Row → Bool) (cs : List Row)
    → Distinct (config_keys cs)
    → Distinct (config_keys (keep_if f cs))
keep_if-Distinct f [] h = tt
keep_if-Distinct f (c ∷ cs) h =
    ground (arith, keep_if-Distinct f cs h.1, not-contains-keep_if f c.key cs h.0)

find_config-keep_if :
    (ps : List Text) (k : Text) (cs : List Row)
    → find_config k (keep_if (selects ps) cs) ≡ (if requested ps k then find_config k cs else none)
unfolding find_config
find_config-keep_if ps k [] = ground arith
find_config-keep_if ps k (c ∷ cs) = elim (Bool-cases (text_eq c.key k)) [
  | inl e ↦ ground (
    arith,
    find_config-keep_if ps k cs,
    selects-requested ps c,
    ap (requested ps) ((text_eq_iff c.key k).0 e),
  )
  | inr e ↦ ground (arith, find_config-keep_if ps k cs)
]

last_config-absent :
    (k : Text) (cs : List Row) (o : Option Config)
    → contains k (config_keys cs) ≡ false
    → last_config k (map wire cs) o ≡ o
unfolding contains
last_config-absent k [] o h = refl
last_config-absent k (c ∷ cs) o h = ground (arith, last_config-absent k cs o)

last_config-find_config :
    (k : Text) (cs : List Row)
    → Distinct (config_keys cs)
    → last_config k (map wire cs) none ≡ wire_row (find_config k cs)
unfolding find_config
last_config-find_config k [] h = refl
last_config-find_config k (c ∷ cs) h = elim (Bool-cases (text_eq c.key k)) [
  | inl e ↦
      ap (λ b. last_config k (map wire cs) (if b then some (wire c) else none)) e
      ∙ last_config-absent k cs (some (wire c))
          (ap (λ j. contains j (config_keys cs)) (sym ((text_eq_iff c.key k).0 e)) ∙ h.0)
      ∙ ap (λ b. wire_row (if b then some c else find_config k cs)) (sym e)
  | inr e ↦
      ap (λ b. last_config k (map wire cs) (if b then some (wire c) else none)) e
      ∙ last_config-find_config k cs h.1
      ∙ ap (λ b. wire_row (if b then some c else find_config k cs)) (sym e)
]

-- The view of the rows that ListPrefixes returns.
pub lookup-list_prefixes :
    (e : Env) (ps : List Text) (t : Tables) (cs : List Row) (s : Snapshot) (k : Text)
    → Distinct (config_keys t.configs)
    → list_prefixes e ps t ≡ ok cs
    → s.configs ≡ map wire cs
    → lookup k (new_view s).by_key
      ≡ (if requested ps k then wire_row (find_config k t.configs) else none)
unfolding new_view lookup
lookup-list_prefixes e ps t cs s k h q w =
    let listed : cs ≡ sort_by (by_key e) (keep_if (selects ps) t.configs) =
      unfold list_prefixes in ground arith in
    let kept = keep_if-Distinct (selects ps) t.configs h in
    lookup-add_configs k s.configs []
    ∙ ap (λ l. last_config k l none) w
    ∙ ap (λ l. last_config k (map wire l) none) listed
    ∙ last_config-find_config k _ (sort_by-Distinct (by_key e) _ kept)
    ∙ ap wire_row (find_config-sort_by (by_key e) k _ kept ∙ find_config-keep_if ps k t.configs)
    ∙ ground arith
