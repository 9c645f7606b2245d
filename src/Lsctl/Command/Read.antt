-- ===== src/Lsctl/Command/Read.antt =====
-- cmd/lsctl/internal/command/read.go: get, list, history and diff.
use lite_settings.Base.{
  ℕ, zero, suc, Bool, true, false, List, [], ◌∷◌, ◌++◌, Option, none, some, ◌==◌, if◌then◌else◌,
  length, map, Result, ok, err, ◌>>=◌,
}
use lite_settings.Base.Int.{ℤ, pos, negsuc, minus_one, int_eq}
use lite_settings.Base.Decimal.{itoa}
use lite_settings.Base.Text.{Text, text, text_eq}
use lite_settings.Store.Tables.{Op, set, delete, rollback, Tables}
use lite_settings.Server.Handlers.{ApiConfig}
use lite_settings.Server.Entries.{ConfigDetail, Version}
use lite_settings.Lsctl.Diff.Hunks.{unified_diff}
use lite_settings.Lsctl.Backend.{BackendError, Backend}
use lite_settings.Lsctl.Command.{
  Root, Run, CommandError, failed, no_version, bad_version, Print, out, err_out, out_json,
  out_table, json_detail, json_version, json_list, json_history, json_diff, Cell, cell, size_cell,
  time_cell, number_cell, line_cell, out_raw, out_table_format, pick, is_json, fails, prints,
}
use lite_settings.Lsctl.Command.Write.{diff_context}

abbrev last_version : Version → List Version → ℕ
last_version h [] = h.version
last_version h (g ∷ hs) = last_version g hs

unfoldable pub version_range : List Version → Text
version_range [] = text "no history"
version_range (h ∷ hs) =
    let lo = last_version h hs in
    if h.version == lo
    then text "only " ++ itoa h.version
    else itoa lo ++ (text ".." ++ itoa h.version)

-- The loop of `findVersion`.
unfoldable pub pick_version : ℤ → List Version → Option Version
pick_version v [] = none
pick_version v (h ∷ hs) =
    let rest = pick_version v hs in if int_eq (pos h.version) v then some h else rest

abbrev pub found_version : Text → ℤ → List Version → Option Version → Result CommandError Version
found_version key v entries none = err (no_version key v (version_range entries))
found_version key v entries (some h) = ok h

abbrev pub searched : Text → ℤ → Result BackendError (List Version) → Result CommandError Version
searched key v (err e) = err (failed e)
searched key v (ok entries) = found_version key v entries (pick_version v entries)

unfoldable pub find_version : Backend → Text → ℤ → Tables → Result CommandError Version
unfolding version_range pick_version
find_version be key v t = searched key v (be.history key minus_one t)

-- `strings.HasSuffix(v, "\n")`.
unfoldable pub ends_line : Text → Bool
ends_line [] = false
ends_line (c ∷ []) = c == 10
ends_line (c ∷ d ∷ v) = ends_line (d ∷ v)

unfoldable pub write_value : Text → Print
unfolding ends_line
write_value v = out (if ends_line v then v else v ++ (10 ∷ []))

abbrev pub shown : {A : Type 0} → Tables → Result CommandError A → (A → List Print) → Run
shown t (err x) print = fails t x
shown t (ok a) print = prints t (print a)

abbrev pub of_backend : {A : Type 0} → Result BackendError A → Result CommandError A
of_backend (err e) = err (failed e)
of_backend (ok a) = ok a

unfoldable pub show_version : Root → Version → List Print
unfolding write_value
show_version r h =
    if is_json r out_raw then out_json (json_version h) ∷ [] else write_value h.value ∷ []

abbrev detail_table : ConfigDetail → List (List Cell)
detail_table c =
    (cell (text "KEY") ∷ cell c.key ∷ [])
    ∷ (cell (text "FORMAT") ∷ cell c.format ∷ [])
    ∷ (cell (text "SIZE") ∷ size_cell (length c.value) ∷ [])
    ∷ (cell (text "UPDATED") ∷ time_cell c.updated_at ∷ [])
    ∷ (cell (text "BY") ∷ cell c.updated_by ∷ [])
    ∷ []

unfoldable pub show_detail : Root → ConfigDetail → List Print
unfolding write_value
show_detail r c =
    if is_json r out_raw
    then out_json (json_detail c) ∷ []
    else if text_eq (pick r out_raw) out_table_format
    then out_table (detail_table c) ∷ []
    else write_value c.value ∷ []

abbrev pub is_positive : ℤ → Bool
is_positive (pos zero) = false
is_positive (pos (suc n)) = true
is_positive (negsuc n) = false

unfoldable pub get_run : Root → ℤ → Text → Backend → Tables → Run
unfolding show_version show_detail find_version
get_run r version key be t =
    if is_positive version
    then shown t (find_version be key version t) (show_version r)
    else shown t (of_backend (be.get key t)) (show_detail r)

abbrev config_row : ApiConfig → List Cell
config_row c = cell c.key ∷ cell c.format ∷ size_cell (length c.value) ∷ line_cell c.value 48 ∷ []

abbrev list_table : List ApiConfig → List Print
list_table [] = err_out (text "no matching configurations\n") ∷ []
list_table (c ∷ cs) =
    out_table (
      (cell (text "KEY") ∷ cell (text "FORMAT") ∷ cell (text "SIZE") ∷ cell (text "VALUE") ∷ [])
      ∷ map config_row (c ∷ cs))
    ∷ []

unfoldable pub show_list : Root → List ApiConfig → List Print
show_list r cs =
    if is_json r out_table_format
    then out_json (json_list cs (length cs)) ∷ []
    else if text_eq (pick r out_table_format) out_raw
    then map (λ (c : ApiConfig). out (c.key ++ (10 ∷ []))) cs
    else list_table cs

unfoldable pub list_run : Root → List Text → Backend → Tables → Run
unfolding show_list
list_run r prefixes be t = shown t (of_backend (be.list prefixes t)) (show_list r)

abbrev op_text : Op → Text
op_text set = text "set"
op_text delete = text "delete"
op_text rollback = text "rollback"

abbrev version_row : Version → List Cell
version_row h =
    number_cell h.version
    ∷ cell (op_text h.op)
    ∷ time_cell h.created_at
    ∷ cell h.created_by
    ∷ size_cell (length h.value)
    ∷ line_cell h.comment 40
    ∷ []

unfoldable pub show_history : Root → Text → List Version → List Print
show_history r key entries =
    if is_json r out_table_format
    then out_json (json_history key entries) ∷ []
    else if text_eq (pick r out_table_format) out_raw
    then map (λ (h : Version). out (itoa h.version ++ (10 ∷ []))) entries
    else out_table (
        (cell (text "VERSION")
          ∷ cell (text "OP")
          ∷ cell (text "WHEN")
          ∷ cell (text "BY")
          ∷ cell (text "SIZE")
          ∷ cell (text "COMMENT")
          ∷ [])
        ∷ map version_row entries)
      ∷ err_out (text "\nRollback: lsctl rollback " ++ (key ++ text " --to <VERSION>\n"))
      ∷ []

-- A limit that is not positive asks for all.
abbrev pub cli_limit : ℤ → ℤ
cli_limit limit = if is_positive limit then limit else minus_one

unfoldable pub history_run : Root → ℤ → Text → Backend → Tables → Run
unfolding show_history
history_run r limit key be t =
    shown t (of_backend (be.history key (cli_limit limit) t)) (show_history r key)

-- `parseVersion`, of what `strconv.ParseInt` reads.
unfoldable pub parse_version : Option ℤ → Result CommandError ℤ
parse_version none = err bad_version
parse_version (some n) = if is_positive n then ok n else err bad_version

abbrev version_label : Text → ℤ → Text
version_label key (pos n) = key ++ (text "@v" ++ itoa n)
version_label key (negsuc n) = key ++ (text "@v-" ++ itoa (suc n))

-- The right side of a diff, with its label: a version, or the current value.
unfoldable pub right_side :
    Backend → Text → Option (Option ℤ) → Tables → Result CommandError (Text × Text)
unfolding find_version parse_version
right_side be key none t = do c ← of_backend (be.get key t); ok (c.value, key ++ text "@current")
right_side be key (some arg) t = do
  v ← parse_version arg
  h ← find_version be key v t
  ok (h.value, version_label key v)

unfoldable pub show_diff : Root → Text → Text → Text → Text → Text → List Print
show_diff r key left right from to =
    let d = unified_diff left right from to diff_context in
    if is_json r out_table_format
    then out_json
        (json_diff (record { key = key; from = from; to = to; identical = text_eq d []; diff = d }))
      ∷ []
    else if text_eq d []
    then err_out (from ++ (text " and " ++ (to ++ text " are identical\n"))) ∷ []
    else out d ∷ []

-- Both sides of a diff, with their labels.
unfoldable pub diff_sides :
    Backend
    → Text
    → Option ℤ
    → Option (Option ℤ)
    → Tables
    → Result CommandError ((Text × Text) × (Text × Text))
unfolding right_side find_version parse_version
diff_sides be key arg₁ arg₂ t = do
  v₁ ← parse_version arg₁
  left ← find_version be key v₁ t
  right ← right_side be key arg₂ t
  ok ((left.value, version_label key v₁), right)

unfoldable pub diff_run : Root → Text → Option ℤ → Option (Option ℤ) → Backend → Tables → Run
unfolding diff_sides show_diff
diff_run r key arg₁ arg₂ be t =
    shown t (diff_sides be key arg₁ arg₂ t) (λ s. show_diff r key s.0.0 s.1.0 s.0.1 s.1.1)
