-- ===== src/Sync/Label.antt =====
-- A snapshot is never labelled above its data, so a reader whose label is the current revision holds
-- the current configuration: no change is skipped.
use lite_settings.Base.{
  ℕ, ◌≤◌, ◌≡◌, refl, sym, ◌∙◌, ap, List, [], ◌∷◌, Option, none, some, arith, if◌then◌else◌, length,
  map, ok,
}
use lite_settings.Base.Int.{ℤ, pos, ◌≤ℤ◌, int_min}
use lite_settings.Base.Dict.{lookup}
use lite_settings.Base.Text.{requested, Text}
use lite_settings.Store.Tables.{Tables, Env, find_config, of_key}
use lite_settings.Store.Read.{revision, list_prefixes}
use lite_settings.Store.Write.Invariant.{IsConsistent, current_row, latest}
use lite_settings.Client.View.{Config, Snapshot, new_view}
use lite_settings.Server.Handlers.{Query, snapshot, ApiConfig, ApiSnapshot, api_config}
use lite_settings.Source.Db.{wire}
use lite_settings.Sync.{Writes, Writes-IsConsistent, Writes-length, Writes-same}
use lite_settings.Sync.Fetch.{Row, wire_row, lookup-list_prefixes}

-- What a client reads of a row: the value and the format.
abbrev pub read_config : Option Config → Option (Text × Text)
read_config none = none
read_config (some c) = some (c.value, c.format)

abbrev pub read_row : Option Row → Option (Text × Text)
read_row none = none
read_row (some c) = some (c.value, c.format)

read_config-wire_row : (o : Option Row) → read_config (wire_row o) ≡ read_row o
read_config-wire_row none = refl
read_config-wire_row (some c) = refl

-- A view shows the requested part of the tables: each requested key as it is there, and no other.
abbrev pub Shows : List Text → Snapshot → Tables → Type 0
Shows ps s t =
    (k : Text)
    → read_config (lookup k (new_view s).by_key)
      ≡ (if requested ps k then read_row (find_config k t.configs) else none)

same_rows : (o o' : Option Row) → current_row o ≡ current_row o' → read_row o ≡ read_row o'
same_rows o o' h = ground arith

-- The same history gives the same current values.
history-rows :
    (t u : Tables)
    → IsConsistent t
    → IsConsistent u
    → u.history ≡ t.history
    → (k : Text) → read_row (find_config k t.configs) ≡ read_row (find_config k u.configs)
history-rows t u vt vu h k =
    same_rows _ _ (vt.current k ∙ ap (λ hs. latest (of_key k hs)) (sym h) ∙ sym (vu.current k))

pub revision_ok :
    (e : Env) (t : Tables) (r : ℕ) → revision e t ≡ ok r → IsConsistent t → r ≡ length t.history
revision_ok e t r h v = unfold revision in ground (arith, v.revision)

-- If the revision was read at `t₁` and the data at a later `t₂`, and the label is not above the
-- revision that was read, then at any later `t₃` whose revision is the label the view is current.
pub label-current :
    (t₁ t₂ t₃ : Tables) (e : Env) (ps : List Text) (cs : List Row) (s : Snapshot) (label : ℕ)
    → IsConsistent t₁
    → Writes t₁ t₂
    → Writes t₂ t₃
    → list_prefixes e ps t₂ ≡ ok cs
    → s.configs ≡ map wire cs
    → label ≤ length t₁.history
    → label ≡ length t₃.history
    → Shows ps s t₃
label-current t₁ t₂ t₃ e ps cs s label v w₁ w₂ q c l h k =
    let v₂ = Writes-IsConsistent w₁ v in
    let v₃ = Writes-IsConsistent w₂ v₂ in
    let same = Writes-same w₂ (omega (arith, Writes-length w₁, Writes-length w₂)) in
    ap read_config (lookup-list_prefixes e ps t₂ cs s k v₂.distinct q c)
    ∙ ground
        (arith, read_config-wire_row (find_config k t₂.configs), history-rows t₂ t₃ v₂ v₃ same k)

-- The client's reading of a response: the JSON of api.Snapshot and of lite.Snapshot has the same
-- fields.
abbrev pub decoded : ApiSnapshot → Snapshot
decoded s = record {
  revision = s.revision;
  configs =
      map (λ (c : ApiConfig). record { key = c.key; value = c.value; format = c.format }) s.configs;
}

decoded_configs :
    (cs : List Row)
    → map
        (λ (c : ApiConfig).
          let d : Config = record { key = c.key; value = c.value; format = c.format } in d)
        (map api_config cs)
      ≡ map wire cs
decoded_configs [] = refl
decoded_configs (c ∷ cs) = ap (λ l. wire c ∷ l) (decoded_configs cs)

snapshot-parts :
    (q₁ q₂ : Query) (rev : ℤ) (ps : List Text) (s : ApiSnapshot)
    → snapshot q₁ q₂ rev ps ≡ ok s
    → (r : ℕ) × (cs : List Row) × (revision q₁.env q₁.tables ≡ ok r)
      × (list_prefixes q₂.env ps q₂.tables ≡ ok cs)
      × (s ≡ record { revision = int_min rev (pos r); configs = map api_config cs })
unfolding snapshot
snapshot-parts q₁ q₂ rev ps s h = ground arith

-- A snapshot that the server sends is labelled neither above the watermark that the watcher
-- observed nor above the revision that the database had before the data were read.
pub snapshot-label :
    (q₁ q₂ : Query) (rev : ℤ) (ps : List Text) (s : ApiSnapshot)
    → IsConsistent q₁.tables
    → Writes q₁.tables q₂.tables
    → snapshot q₁ q₂ rev ps ≡ ok s
    → (s.revision ≤ℤ rev)
      × (s.revision ≤ℤ pos (length q₁.tables.history))
      × (s.revision ≤ℤ pos (length q₂.tables.history))
snapshot-label q₁ q₂ rev ps s v w h =
    let (r, cs, hr, hc, e) = snapshot-parts q₁ q₂ rev ps s h in
    let n = revision_ok q₁.env q₁.tables r hr v in
    let grown = Writes-length w in (ground arith, ground arith, ground arith)

-- No change is skipped over HTTP. The server reads the revision of the database, writes happen, it
-- reads the data, and more writes happen. If then the database's revision is the label of the
-- snapshot, so that the next poll may be told "unchanged", the client's view of the snapshot shows
-- every requested key as it now is and no other key, whatever the watcher had observed.
pub snapshot-no_skip :
    (q₁ q₂ : Query) (rev : ℤ) (ps : List Text) (s : ApiSnapshot) (e : Env) (t : Tables) (r : ℕ)
    → IsConsistent q₁.tables
    → Writes q₁.tables q₂.tables
    → Writes q₂.tables t
    → snapshot q₁ q₂ rev ps ≡ ok s
    → revision e t ≡ ok r
    → s.revision ≡ pos r
    → Shows ps (decoded s) t
snapshot-no_skip q₁ q₂ rev ps s e t r v w₁ w₂ h hr l =
    let (r₁, cs, h₁, hc, q) = snapshot-parts q₁ q₂ rev ps s h in
    let n = revision_ok q₁.env q₁.tables r₁ h₁ v in
    let v₂ = Writes-IsConsistent w₁ v in
    let n₃ = revision_ok e t r hr (Writes-IsConsistent w₂ v₂) in
    label-current q₁.tables q₂.tables t q₂.env ps cs (decoded s) r v w₁ w₂ hc
      (ap (λ (u : ApiSnapshot). (decoded u).configs) q ∙ decoded_configs cs) (ground arith) n₃
