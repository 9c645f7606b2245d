-- ===== src/Lsctl/Diff/Hunks.antt =====
-- `hunks`, `span` and `UnifiedDiff` of cmd/lsctl/internal/render/diff.go.
pub mod Kept
pub mod Patch
use lite_settings.Base.{
  ℕ, suc, ◌+◌, ◌-◌, min, Bool, true, false, ◌&&◌, List, [], ◌∷◌, ◌++◌, Option, none, some, leb,
  ◌==◌, if◌then◌else◌, length,
}
use lite_settings.Base.Decimal.{itoa}
use lite_settings.Base.Text.{Text, text}
use lite_settings.Lsctl.Diff.{Kind, same, removed, added, Line, split_lines, diff_lines}

abbrev pub is_same : Kind → Bool
is_same same = true
is_same _ = false

-- `keep[k] = true` for the positions from `lo` to `hi`; `at` is the position of the list's head.
unfoldable pub keep_range : ℕ → ℕ → ℕ → List Bool → List Bool
keep_range lo hi at [] = []
keep_range lo hi at (k ∷ ks) =
    (if leb lo at && leb at hi then true else k) ∷ keep_range lo hi (suc at) ks

abbrev pub none_kept : List Line → List Bool
none_kept [] = []
none_kept (o ∷ os) = false ∷ none_kept os

-- The loop over the operations, the i-th of `total` being next: a changed line keeps the lines
-- around it. `i - ctx` of the natural numbers is `max(0, i-ctxLines)`.
unfoldable pub mark_kept : ℕ → ℕ → ℕ → List Line → List Bool → List Bool
unfolding keep_range
mark_kept ctx total i [] keep = keep
mark_kept ctx total i (o ∷ os) keep =
    mark_kept ctx total (suc i) os
      (if is_same o.kind then keep else keep_range (i - ctx) (min (total - 1) (i + ctx)) 0 keep)

-- One hunk: where it starts on each side, how many lines of each it covers, and its lines.
pub record Hunk : Type 0 where
  pub a_start : ℕ
  pub b_start : ℕ
  pub a_count : ℕ
  pub b_count : ℕ
  pub lines : List Line

-- How far a line moves each side.
abbrev pub old_step : Kind → ℕ
old_step added = 0
old_step _ = 1

abbrev pub new_step : Kind → ℕ
new_step removed = 0
new_step _ = 1

abbrev pub opened : ℕ → ℕ → Option Hunk → Hunk
opened a b none = record { a_start = a; b_start = b; a_count = 0; b_count = 0; lines = [] }
opened a b (some h) = h

abbrev pub extended : Hunk → Line → Hunk
extended h o = record h {
  a_count = h.a_count + old_step o.kind;
  b_count = h.b_count + new_step o.kind;
  lines = h.lines ++ (o ∷ []);
}

abbrev pub closed : Option Hunk → List Hunk
closed none = []
closed (some h) = h ∷ []

-- The scan for runs of kept lines: `a` and `b` are the numbers of the next line of each side, and
-- `cur` is the hunk whose run is being read. The two nested loops of the code are one here.
unfoldable pub scan : ℕ → ℕ → Option Hunk → List Line → List Bool → List Hunk
scan a b cur [] keep = closed cur
scan a b cur (o ∷ os) [] = closed cur
scan a b cur (o ∷ os) (k ∷ ks) =
    let inside =
      scan (a + old_step o.kind) (b + new_step o.kind) (some (extended (opened a b cur) o)) os ks in
    let outside = closed cur ++ scan (a + old_step o.kind) (b + new_step o.kind) none os ks in
    if k then inside else outside

unfoldable pub hunks : List Line → ℕ → List Hunk
unfolding mark_kept scan
hunks ops ctx = scan 1 1 none ops (mark_kept ctx (length ops) 0 ops (none_kept ops))

unfoldable pub span : ℕ → ℕ → Text
span start count =
    if count == 0
    then itoa (start - 1) ++ text ",0"
    else if count == 1
    then itoa start
    else itoa start ++ (text "," ++ itoa count)

abbrev pub kind_byte : Kind → ℕ
kind_byte same = b' '
kind_byte removed = b'-'
kind_byte added = b'+'

unfoldable pub show_lines : List Line → Text
show_lines [] = []
show_lines (o ∷ os) = kind_byte o.kind ∷ (o.text ++ (10 ∷ show_lines os))

unfoldable pub show_hunk : Hunk → Text
unfolding show_lines span
show_hunk h =
    text "@@ -"
    ++ (span h.a_start h.a_count
        ++ (text " +" ++ (span h.b_start h.b_count ++ (text " @@" ++ (10 ∷ show_lines h.lines)))))

unfoldable pub show_hunks : List Hunk → Text
unfolding show_hunk
show_hunks [] = []
show_hunks (h ∷ hs) = show_hunk h ++ show_hunks hs

abbrev pub with_labels : Text → Text → List Hunk → Text
with_labels old new [] = []
with_labels old new (h ∷ hs) =
    text "--- " ++ (old ++ (10 ∷ (text "+++ " ++ (new ++ (10 ∷ show_hunks (h ∷ hs))))))

unfoldable pub unified_diff : Text → Text → Text → Text → ℕ → Text
unfolding hunks show_hunks
unified_diff old_text new_text old_label new_label ctx =
    with_labels old_label new_label
      (hunks (diff_lines (split_lines old_text) (split_lines new_text)) ctx)
