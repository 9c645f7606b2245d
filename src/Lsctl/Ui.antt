-- ===== src/Lsctl/Ui.antt =====
-- cmd/lsctl/internal/ui/model.go: the state of the terminal interface, the keys and messages that it
-- is sent, and the commands that it hands to the runtime of Bubble Tea.
mod Tests
pub mod Rows
pub mod Lines
pub mod Scroll
pub mod Edit
pub mod Overlay
pub mod Keys
pub mod Update
pub mod Safety
pub mod Commands
pub mod View
use lite_settings.Base.{ℕ, Bool, false, List, [], ◌∷◌, ◌++◌, Option, none, Result}
use lite_settings.Base.Text.{Text, text}
use lite_settings.Server.Handlers.{ApiConfig}
use lite_settings.Server.Entries.{ConfigDetail, Version, ApiWriteResult}

-- The Lip Gloss styles of view.go, from no style to `uiWarn`.
pub data Style : Type 0 where
  no_style dim_style focus_style selected_style mark_style error_style add_style delete_style
        warn_style :
      Style

pub record UiLine : Type 0 where
  pub text : Text
  pub style : Style

abbrev pub plain : Text → UiLine
plain s = record { text = s; style = no_style }

pub data UiMode : Type 0 where
  mode_browse mode_filter mode_overlay : UiMode

pub data Pane : Type 0 where
  pane_keys pane_value pane_history : Pane

-- `pending`; each kind has the fields that it uses.
pub data PendKind : Type 0 where
  pend_set : Text → Text → PendKind
  pend_rollback : ℕ → PendKind

pub record Pending : Type 0 where
  pub kind : PendKind
  pub key : Text
  pub action : Text
  pub comment : Text
  pub equiv : Text

pub record KeyRow : Type 0 where
  pub header : Bool
  pub label : Text
  pub key : Text

-- The filter is kept as its runes, each as the text that encodes it. The offsets are not negative:
-- the code clamps each to zero before anything reads it.
pub record Model : Type 0 where
  pub author : Text
  pub prefixes : List Text
  pub w : ℕ
  pub h : ℕ
  pub configs : List ApiConfig
  pub rows : List KeyRow
  pub cur : ℕ
  pub filter : List Text
  pub detail : ConfigDetail
  pub has_detail : Bool
  pub history : List Version
  pub hcur : ℕ
  pub voff : ℕ
  pub focus : Pane
  pub mode : UiMode
  pub keys_seq : ℕ
  pub detail_seq : ℕ
  pub detail_key : Text
  pub loading_keys : Bool
  pub loading_detail : Bool
  pub overlay_title : Text
  pub overlay_lines : List UiLine
  pub ooff : ℕ
  pub pend : Option Pending
  pub status : Text
  pub err_msg : Text
  pub writes : List Text

abbrev pub no_detail : ConfigDetail
no_detail = record { key = []; value = []; format = []; updated_at = 0; updated_by = [] }

abbrev pub loading : Text
loading = text "Loading…"

abbrev pub refreshing : Text
refreshing = text "Refreshing…"

unfoldable pub new : Text → List Text → Model
new author prefixes = record {
  author = author;
  prefixes = prefixes;
  w = 100;
  h = 30;
  configs = [];
  rows = [];
  cur = 0;
  filter = [];
  detail = no_detail;
  has_detail = false;
  history = [];
  hcur = 0;
  voff = 0;
  focus = pane_keys;
  mode = mode_browse;
  keys_seq = 0;
  detail_seq = 0;
  detail_key = [];
  loading_keys = false;
  loading_detail = false;
  overlay_title = [];
  overlay_lines = [];
  ooff = 0;
  pend = none;
  status = loading;
  err_msg = [];
  writes = [];
}

-- `tea.KeyMsg`: the types that the code tests, the name that `String` returns, and the runes.
pub data KeyType : Type 0 where
  key_ctrl_c key_esc key_enter key_backspace key_space key_runes key_other : KeyType

pub record KeyMsg : Type 0 where
  pub type : KeyType
  pub name : Text
  pub runes : List Text

-- What a message carries is read only where its error is nil; an error is its text. The detail comes
-- with the history and the error of the history.
abbrev pub Loaded : Type 0
Loaded = ConfigDetail × List Version × Option Text

pub data Msg : Type 0 where
  window_size_msg : ℕ → ℕ → Msg
  keys_msg : ℕ → Result Text (List ApiConfig) → Msg
  detail_msg : ℕ → Text → Result Text Loaded → Msg
  write_msg : Text → Text → Result Text ApiWriteResult → Msg
  edited_msg : Text → Result Text (Text × Text) → Msg
  key_msg : KeyMsg → Msg

-- `tea.Cmd`: a request carries its sequence number; `edit_file` starts the editor on a file.
pub data Cmd : Type 0 where
  nothing quit : Cmd
  load_keys_cmd : ℕ → Cmd
  load_detail_cmd : ℕ → Text → Cmd
  write_cmd : Pending → Cmd
  edit_cmd : List Text → Text → Text → Cmd
  batch : Cmd → Cmd → Cmd

abbrev pub Next : Type 0
Next = Model × Cmd
