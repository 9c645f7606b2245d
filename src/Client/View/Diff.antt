-- ===== src/Client/View/Diff.antt =====
-- The difference of two views lists exactly the keys whose entry was added, removed or changed, in
-- order and each once; a view binds each key to its last entry in the snapshot.
use lite_settings.Base.{
  ◌≡◌, refl, ◌∙◌, ap, Bool, true, false, List, [], ◌∷◌, ◌++◌, Option, none, some, arith,
  if◌then◌else◌,
}
use lite_settings.Base.Dict.{
  contains, Distinct, lookup, put, keys, lookup-put, put-Distinct, contains-keys,
}
use lite_settings.Base.Sort.{Ascending, sort-Ascending, contains-sort, sort-Distinct}
use lite_settings.Base.Text.{Text, text_eq, text_eq_iff}
use lite_settings.Client.View.{
  Config, Snapshot, View, add_configs, new_view, differs, is_none, diff_new, diff_old, diff,
}

-- The last entry of a key in a snapshot.
abbrev pub last_config : Text → List Config → Option Config → Option Config
last_config k [] o = o
last_config k (c ∷ cs) o = last_config k cs (if text_eq c.key k then some c else o)

pub lookup-add_configs :
    (k : Text) (cs : List Config) (m : List (Text × Config))
    → lookup k (add_configs cs m) ≡ last_config k cs (lookup k m)
unfolding add_configs
lookup-add_configs k [] m = refl
lookup-add_configs k (c ∷ cs) m =
    lookup-add_configs k cs (put c.key c m) ∙ ap (last_config k cs) (lookup-put c.key k c m)

add_configs-Distinct :
    (cs : List Config) (m : List (Text × Config))
    → Distinct (keys m)
    → Distinct (keys (add_configs cs m))
unfolding add_configs
add_configs-Distinct [] m h = h
add_configs-Distinct (c ∷ cs) m h =
    add_configs-Distinct cs (put c.key c m) (put-Distinct c.key c m h)

pub new_view-Distinct : (s : Snapshot) → Distinct (keys (new_view s).by_key)
unfolding new_view keys
new_view-Distinct s = add_configs-Distinct s.configs [] tt

-- What `diff` compares of an entry before and after.
abbrev pub changed : Option Config → Option Config → Bool
changed none none = false
changed (some oc) none = true
changed o (some nc) = differs o nc

contains-append :
    (k : Text) (xs ys : List Text)
    → contains k (xs ++ ys) ≡ (if contains k xs then true else contains k ys)
unfolding contains
contains-append k [] ys = refl
contains-append k (x ∷ xs) ys = ground (arith, contains-append k xs ys)

abbrev new_differs : Option Config → Option Config → Bool
new_differs o none = false
new_differs o (some nc) = differs o nc

abbrev is_bound : Option Config → Bool
is_bound none = false
is_bound (some c) = true

contains-diff_new :
    (k : Text) (old m : List (Text × Config))
    → Distinct (keys m)
    → contains k (diff_new old m) ≡ new_differs (lookup k old) (lookup k m)
unfolding contains diff_new lookup keys
contains-diff_new k old [] h = refl
contains-diff_new k old ((j, nc) ∷ m) h =
    ground (arith, contains-diff_new k old m h.1, text_eq_iff j k, contains-keys j m, h.0)

contains-diff_old :
    (k : Text) (m new : List (Text × Config))
    → contains k (diff_old m new)
      ≡ (if is_bound (lookup k m) then is_none (lookup k new) else false)
unfolding contains diff_old lookup
contains-diff_old k [] new = refl
contains-diff_old k ((j, oc) ∷ m) new = ground (arith, contains-diff_old k m new, text_eq_iff j k)

-- A key is in the difference exactly when it was added, removed, or has another value or format,
-- where the new view binds each key once.
pub contains-diff :
    (k : Text) (old new : View)
    → Distinct (keys new.by_key)
    → contains k (diff old new) ≡ changed (lookup k old.by_key) (lookup k new.by_key)
unfolding diff
contains-diff k old new h = ground (
  arith,
  contains-sort k (diff_new old.by_key new.by_key ++ diff_old old.by_key new.by_key),
  contains-append k (diff_new old.by_key new.by_key) (diff_old old.by_key new.by_key),
  contains-diff_new k old.by_key new.by_key h,
  contains-diff_old k old.by_key new.by_key,
)

append-Distinct :
    (xs ys : List Text)
    → Distinct xs
    → Distinct ys
    → ((k : Text) → contains k xs ≡ true → contains k ys ≡ false)
    → Distinct (xs ++ ys)
unfolding contains
append-Distinct [] ys h g d = g
append-Distinct (x ∷ xs) ys h g d = (
  ground (arith, contains-append x xs ys, h.0, d x, text_eq_iff x x),
  append-Distinct xs ys h.1 g (λ k q. d k (ground arith)),
)

not-contains-diff_new :
    (k : Text) (old m : List (Text × Config))
    → contains k (keys m) ≡ false
    → contains k (diff_new old m) ≡ false
unfolding contains diff_new keys
not-contains-diff_new k old [] h = refl
not-contains-diff_new k old ((j, nc) ∷ m) h = ground (arith, not-contains-diff_new k old m)

diff_new-Distinct : (old m : List (Text × Config)) → Distinct (keys m) → Distinct (diff_new old m)
unfolding diff_new keys
diff_new-Distinct old [] h = tt
diff_new-Distinct old ((j, nc) ∷ m) h =
    ground (arith, diff_new-Distinct old m h.1, not-contains-diff_new j old m h.0)

not-contains-diff_old :
    (k : Text) (m new : List (Text × Config))
    → contains k (keys m) ≡ false
    → contains k (diff_old m new) ≡ false
unfolding contains diff_old keys
not-contains-diff_old k [] new h = refl
not-contains-diff_old k ((j, nc) ∷ m) new h = ground (arith, not-contains-diff_old k m new)

diff_old-Distinct : (m new : List (Text × Config)) → Distinct (keys m) → Distinct (diff_old m new)
unfolding diff_old keys
diff_old-Distinct [] new h = tt
diff_old-Distinct ((j, nc) ∷ m) new h =
    ground (arith, diff_old-Distinct m new h.1, not-contains-diff_old j m new h.0)

-- Of two views that bind each key once, the difference is in byte order and lists each key once.
pub diff_order :
    (old new : View)
    → Distinct (keys old.by_key)
    → Distinct (keys new.by_key)
    → Ascending (diff old new) × Distinct (diff old new)
unfolding diff
diff_order old new g h = (
  sort-Ascending _,
  sort-Distinct _ (
      append-Distinct (diff_new old.by_key new.by_key) (diff_old old.by_key new.by_key)
        (diff_new-Distinct old.by_key new.by_key h) (diff_old-Distinct old.by_key new.by_key g)
        (λ k q. ground (
          arith,
          contains-diff_new k old.by_key new.by_key h,
          contains-diff_old k old.by_key new.by_key,
        ))),
)
