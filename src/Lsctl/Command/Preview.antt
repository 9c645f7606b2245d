-- ===== src/Lsctl/Command/Preview.antt =====
-- What `lsctl set` does: a dry run writes nothing and says truly whether the config would change, and
-- what is set is what `lsctl get` prints.
use lite_settings.Base.{
  ◌≡◌, ◌≢◌, ap, refl, sym, ◌∙◌, ◌⊎◌, subst, Bool, true, false, not, ◌&&◌, ◌||◌, List, [], ◌∷◌, ◌++◌,
  Option, none, some, inl, inr, arith, if◌then◌else◌, ok, err, Result-cases, Bool-cases, by_if,
}
use lite_settings.Base.Int.{pos}
use lite_settings.Base.Text.{Text, text, text_eq, text_eq_iff, has_prefix, contains_text}
use lite_settings.Store.Validate.{Parsers, select_config, validate_key}
use lite_settings.Store.Tables.{Config, Tables, Env, find_config, get_config}
use lite_settings.Store.Read
use lite_settings.Store.Write.{WriteResult, Outcome, set_config}
use lite_settings.Store.Write.Wrote.{config_row}
use lite_settings.Server.Entries.{ConfigDetail, ApiWriteResult}
use lite_settings.Server.Entries.Laws.{set_config-row}
use lite_settings.Lsctl.Diff.{split_lines}
use lite_settings.Lsctl.Diff.Hunks.Patch.{split_lines-unified_diff}
use lite_settings.Lsctl.Backend.{BackendError, Backend, Written}
use lite_settings.Lsctl.Backend.Db
use lite_settings.Lsctl.Backend.Db.{db_backend}
use lite_settings.Lsctl.Command.{
  Root, Run, Print, out, out_json, json_dry_run, out_table_format, is_json, change, DryRunOutput,
  pick,
}
use lite_settings.Lsctl.Command.Format.{
  infer_format, infer_content, valid_format, lower_ext, trim_space,
}
use lite_settings.Lsctl.Command.Write.{
  Files, SetFlags, read_value, format_changes, preview_diff, preview, preview_set, chosen_format,
  set_read, set_value, set_run, reported, report_write, stored,
}
use lite_settings.Lsctl.Command.Read.{ends_line, get_run, write_value, show_detail}

-- Whether the report of a dry run says that the config would change.
abbrev pub changed : Text → Text → Text → Option ConfigDetail → Bool
changed key value format c = not (text_eq (preview_diff key value c) []) || format_changes format c

-- The value has the lines that are stored, under the same format; a config that is missing has none.
abbrev pub Unchanged : Text → Text → Option ConfigDetail → Type 0
Unchanged value format none = split_lines [] ≡ split_lines value
Unchanged value format (some c) = (split_lines c.value ≡ split_lines value) × (c.format ≡ format)

changed-Unchanged :
    (key value format : Text) (c : Option ConfigDetail)
    → changed key value format c ≡ false
    → Unchanged value format c
unfolding preview_diff
changed-Unchanged key value format none h =
    split_lines-unified_diff [] value (key ++ text "@(missing)") (key ++ text "@new") 3
      (ground (arith, h, text_eq_iff (preview_diff key value none) []))
changed-Unchanged key value format (some c) h = (
  split_lines-unified_diff c.value value (key ++ text "@current") (key ++ text "@new") 3
      (ground (arith, h, text_eq_iff (preview_diff key value (some c)) [])),
  ground (arith, h, text_eq_iff c.format format),
)

-- What a dry run of a value has done: nothing, and where it reports no change there is none.
abbrev pub Truthful : Backend → Tables → Text → Text → Text → Run → Type 0
Truthful be t key value format (u, ps, e) =
    (u ≡ t)
    × ((d : DryRunOutput)
        → ps ≡ out_json (json_dry_run d) ∷ []
        → d.changed ≡ false
        → (c : Option ConfigDetail) × (stored (be.get key t) ≡ ok c) × Unchanged value format c)

preview-changed :
    (r : Root) (key value format : Text) (c : Option ConfigDetail) (d : DryRunOutput)
    → preview r key value format c ≡ out_json (json_dry_run d) ∷ []
    → d.changed ≡ changed key value format c
unfolding preview
preview-changed r key value format c d h =
    by_if
      (λ (ps : List Print).
        ps ≡ out_json (json_dry_run d) ∷ [] → d.changed ≡ changed key value format c)
      (is_json r out_table_format) _ _ (λ e. ground (arith, e))
      (by_if
        (λ (ps : List Print).
          ps ≡ out_json (json_dry_run d) ∷ [] → d.changed ≡ changed key value format c)
        (text_eq (preview_diff key value c) []) _ _ (λ e. cc) (λ e. cc))
      h

preview_set-Truthful :
    (r : Root) (be : Backend) (key value format : Text) (t : Tables)
    → Truthful be t key value format (preview_set r be key value format t)
unfolding preview_set
preview_set-Truthful r be key value format t = by_stored (Result-cases (stored (be.get key t)))
  where
    by_stored :
        ((e : BackendError) × (stored (be.get key t) ≡ err e))
          ⊎ ((c : Option ConfigDetail) × (stored (be.get key t) ≡ ok c))
        → Truthful be t key value format (preview_set r be key value format t)
    by_stored (inl (e, q)) = rw q (refl, λ d h. cc)
    by_stored (inr (c, q)) = rw q (
      refl,
      λ d h same. (
        c,
        refl,
        changed-Unchanged key value format c
            (sym (preview-changed r key value format c d h) ∙ same),
      ),
    )

-- A dry run of set, whose value was read, leaves the tables as they are; and where its JSON says
-- that nothing would change, the stored value has the lines of the new one under the same
-- format, or the config is missing and the new value has the lines of the empty one.
pub set_run-dry_run :
    (files : Files) (r : Root) (f : SetFlags) (key value src : Text) (arg : Option Text)
    (be : Backend) (t : Tables)
    → f.dry_run ≡ true
    → read_value files f.file arg ≡ ok (value, src)
    → Truthful be t key value (chosen_format f.format src value) (set_run files r f key arg be t)
unfolding set_run set_value
set_run-dry_run files r f key value src arg be t dry reads =
    let format = chosen_format f.format src value in
    simp (reads, dry)
      (by_if (Truthful be t key value format) (not (valid_format format)) _ _ (refl, λ d h. cc)
        (preview_set-Truthful r be key value format t))

yaml : valid_format (text "yaml") ≡ true
unfolding valid_format text_eq
yaml = refl

json : valid_format (text "json") ≡ true
unfolding valid_format text_eq
json = refl

raw : valid_format (text "raw") ≡ true
unfolding valid_format text_eq
raw = refl

valid_if :
    (b : Bool) (s t : Text)
    → valid_format s ≡ true
    → valid_format t ≡ true
    → valid_format (if b then s else t) ≡ true
valid_if b s t = by_if (λ (f : Text). valid_format f ≡ true) b s t

-- The command line infers only formats that the store knows.
pub valid_format-infer_format : (src value : Text) → valid_format (infer_format src value) ≡ true
unfolding infer_format infer_content
valid_format-infer_format src value =
    let ext = lower_ext src in
    let t = trim_space value in
    valid_if (text_eq ext (text ".yaml") || text_eq ext (text ".yml")) _ _ yaml (
      valid_if (text_eq ext (text ".json")) _ _ json (
        valid_if (has_prefix t (text "{") || has_prefix t (text "[")) _ _ json
          (valid_if (contains_text t (text "\n") && contains_text t (text ":")) _ _ yaml raw)))

reported-ok :
    (w : Written) (report : ApiWriteResult → List Print) (u : Tables) (ps : List Print)
    → reported w report ≡ (u, ps, ok tt)
    → (res : ApiWriteResult) × (w ≡ (u, ok res))
reported-ok (t, err e) report u ps h = cc
reported-ok (t, ok res) report u ps h = (res, ground (arith, h))

write_result-ok :
    (key : Text) (o : Outcome) (u : Tables) (res : ApiWriteResult)
    → Db.write_result key o ≡ (u, ok res)
    → (w : WriteResult) × (o ≡ (u, ok w))
unfolding Db.write_result
write_result-ok key (t, err e) u res h = cc
write_result-ok key (t, ok w) u res h = (w, ground (arith, h))

valid_format-not_empty : (f : Text) → valid_format f ≡ true → text_eq f [] ≡ false
unfolding valid_format text_eq
valid_format-not_empty [] h = cc
valid_format-not_empty (c ∷ f) h = refl

-- A set that is no dry run and succeeds has written the value in a format that is known.
set_run-write :
    (files : Files) (r : Root) (f : SetFlags) (key value src : Text) (arg : Option Text)
    (be : Backend) (t u : Tables) (ps : List Print)
    → f.dry_run ≡ false
    → read_value files f.file arg ≡ ok (value, src)
    → set_run files r f key arg be t ≡ (u, ps, ok tt)
    → (valid_format (chosen_format f.format src value) ≡ true)
      × (reported
            (be.set key value (chosen_format f.format src value) (change r f.comment) t)
            (report_write r (text "wrote") key (chosen_format f.format src value))
          ≡ (u, ps, ok tt))
unfolding set_run set_value
set_run-write files r f key value src arg be t u ps wet reads wrote =
    let format = chosen_format f.format src value in
    let value_set : set_value r be f key value format t ≡ (u, ps, ok tt) =
      subst (λ o. set_read r be f key o t ≡ (u, ps, ok tt)) reads wrote in
    elim (Bool-cases (valid_format format)) [
      | inl v ↦ (v, simp (v, wet) at value_set)
      | inr v ↦ absurd (ground (arith, (simp (v, wet) at value_set)))
    ]

get_run-row :
    (r : Root) (key : Text) (t : Tables) (e : Env) (p : Parsers) (c : Config)
    → r.output ≡ []
    → validate_key key ≡ ok tt
    → e.refuses select_config ≡ false
    → find_config key t.configs ≡ some c
    → get_run r (pos 0) key (db_backend e p) t ≡ (t, write_value c.value ∷ [], ok tt)
unfolding get_run Db.get Read.get get_config show_detail pick text_eq
get_run-row r key t e p c plain valid accepts row = rw (plain, valid, accepts, row) refl

-- The value, with a newline at its end if it has none.
abbrev pub Terminated : Text → Text → Type 0
Terminated value printed =
    ((w : Text) × (value ≡ w ++ (10 ∷ [])) × (printed ≡ value))
    ⊎ (((w : Text) → value ≢ w ++ (10 ∷ [])) × (printed ≡ value ++ (10 ∷ [])))

ends_line-newline : (v : Text) → ends_line v ≡ true → (w : Text) × (v ≡ w ++ (10 ∷ []))
unfolding ends_line
ends_line-newline [] h = cc
ends_line-newline (c ∷ []) h = ([], ground arith)
ends_line-newline (c ∷ d ∷ v) h =
    let (w, e) = ends_line-newline (d ∷ v) h in (c ∷ w, ap (λ s. c ∷ s) e)

ends_line-append : (w : Text) → ends_line (w ++ (10 ∷ [])) ≡ true
unfolding ends_line
ends_line-append [] = refl
ends_line-append (c ∷ []) = refl
ends_line-append (c ∷ d ∷ w) = ends_line-append (d ∷ w)

write_value-Terminated : (v : Text) → (s : Text) × (write_value v ≡ out s) × Terminated v s
unfolding write_value
write_value-Terminated v = elim (Bool-cases (ends_line v)) [
  | inl e ↦ let (w, q) = ends_line-newline v e in (v, rw e refl, inl (w, q, refl))
  | inr e ↦
      (v ++ (10 ∷ []), rw e refl, inr (λ w q. cc (e, ends_line-append w, ap ends_line q), refl))
]

-- What a set that is no dry run reads and writes with success on the database, lsctl get then
-- prints, as the value with a newline at its end if it has none, if the engine does not refuse
-- its query and no output format was chosen.
pub get_run-set_run :
    (files : Files) (r : Root) (f : SetFlags) (key value src : Text) (arg : Option Text)
    (e reading : Env) (p : Parsers) (t u : Tables) (ps : List Print)
    → f.dry_run ≡ false
    → read_value files f.file arg ≡ ok (value, src)
    → set_run files r f key arg (db_backend e p) t ≡ (u, ps, ok tt)
    → r.output ≡ []
    → reading.refuses select_config ≡ false
    → (s : Text) × (get_run r (pos 0) key (db_backend reading p) u ≡ (u, out s ∷ [], ok tt))
      × Terminated value s
unfolding Db.set
get_run-set_run files r f key value src arg e reading p t u ps wet reads wrote plain accepts =
    let format = chosen_format f.format src value in
    let (known, answer) =
      set_run-write files r f key value src arg (db_backend e p) t u ps wet reads wrote in
    let (res, done) =
      reported-ok (Db.set e p key value format (change r f.comment) t)
        (report_write r (text "wrote") key format) u ps answer in
    let (w, stored) =
      write_result-ok key (set_config e p key value format (change r f.comment) t) u res done in
    let (valid, row) =
      set_config-row e p key value format (change r f.comment) t u w
        (valid_format-not_empty format known) stored in
    let (s, printed, ends) = write_value-Terminated value in
    (
      s,
      get_run-row r key u reading p (config_row e key (change r f.comment) (value, format)) plain
            valid accepts row
          ∙ ap (λ x. (u, x ∷ [], ok tt)) printed,
      ends,
    )
