-- ===== src/Lsctl/Backend/Tests.antt =====
-- The back ends at concrete inputs, and their theorems applied there.
use lite_settings.Base.{Bool, not, ◌||◌, err, ◌≡◌, refl, false, List, [], ◌∷◌, some, ok, arith}
use lite_settings.Base.Int.{pos, minus_one}
use lite_settings.Base.Text.{Text, text, text_eq, text_eq_iff, has_prefix}
use lite_settings.Store.Tests.{working, any_value, ann, once, twice, runs}
use lite_settings.Server.Watcher.{new_watcher, health}
use lite_settings.Server.Handlers.{
  ApiConfig, handle_list, observed_revision, prefixes, distinct_prefixes, snapshot,
}
use lite_settings.Server.Entries.{parse_format}
use lite_settings.Lsctl.Backend.{bad_status}
use lite_settings.Lsctl.Backend.Db
use lite_settings.Lsctl.Backend.Http
use lite_settings.Lsctl.Backend.Http.{Wire, received}
use lite_settings.Lsctl.Backend.Agree.{IsSegment, Routes, Same, SameWrite}
use lite_settings.Lsctl.Backend.Agree.Writes.{Carries, writes-SameWrite}
use lite_settings.Lsctl.Backend.Agree.Reads.{reads-Same, list-agrees}
use lite_settings.Base.Dict.{contains}
use lite_settings.Store.Read

-- Neither empty nor a dot or two.
abbrev is_segment : Text → Bool
is_segment k = not (text_eq k [] || text_eq k (text ".") || text_eq k (text ".."))

-- A wire that carries the version 1.
abbrev pub wire : Wire
wire = record {
  cancelled = false;
  watcher = new_watcher;
  encode_version = λ v. text "{\"version\":1}";
  decode_version = λ b. some (pos 1);
  routed = is_segment;
  stray_detail = λ k. err (bad_status 405);
  stray_versions = λ k. err (bad_status 404);
  stray_result = λ k. err (bad_status 405);
}

pub wire-Routes : Routes wire
wire-Routes key h =
    ground (arith, h, text_eq_iff key [], text_eq_iff key (text "."), text_eq_iff key (text ".."))

pub app-IsSegment : IsSegment (text "app:a")
app-IsSegment = (λ h. cc, λ h. cc, λ h. cc)

wire-Carries : Carries wire (pos 1)
wire-Carries = record { round_trip = refl; fits = omega arith }

writes-SameWrite_example :
    SameWrite
      (Http.set wire working any_value (text "app:a") (text "2") [] ann once)
      (Db.set working any_value (text "app:a") (text "2") [] ann once)
    × SameWrite
        (Http.delete wire working any_value (text "app:a") ann once)
        (Db.delete working any_value (text "app:a") ann once)
    × SameWrite
        (Http.rollback wire working any_value (text "app:a") (pos 1) ann once)
        (Db.rollback working any_value (text "app:a") (pos 1) ann once)
unfolding parse_format text_eq
writes-SameWrite_example =
    writes-SameWrite wire working any_value (text "app:a") (text "2") [] (text "raw") 0 ann once
      wire-Routes app-IsSegment wire-Carries (λ h. cc) refl (omega arith)

reads-Same_example :
    Same (Http.get wire working (text "app:a") twice) (Db.get working (text "app:a") twice)
    × Same
        (Http.history wire working (text "app:a") minus_one twice)
        (Db.history working (text "app:a") minus_one twice)
reads-Same_example =
    reads-Same wire working (text "app:a") minus_one twice wire-Routes app-IsSegment (λ h. cc)

abbrev listed : List ApiConfig
listed = record { key = text "app:a"; value = text "1"; format = text "raw" } ∷ []

http_listed : Http.list wire working (text "app:" ∷ text "app:" ∷ []) once ≡ ok listed
unfolding Http.list received handle_list observed_revision health new_watcher prefixes
    distinct_prefixes snapshot runs Read.revision has_prefix contains
http_listed = refl

list-agrees_example : Db.list working (text "app:" ∷ text "app:" ∷ []) once ≡ ok listed
list-agrees_example =
    list-agrees wire working (text "app:" ∷ text "app:" ∷ []) once listed http_listed
