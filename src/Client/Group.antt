-- ===== src/Client/Group.antt =====
-- client/group.go: the configs under one prefix, of one view.
pub mod Laws
use lite_settings.Base.{ℕ, ◌-◌, Bool, List, ◌++◌, Option, none, some, map, Result, ok, err}
use lite_settings.Base.Int.{ℤ}
use lite_settings.Base.Dict.{lookup}
use lite_settings.Base.Text.{Text, trim_prefix}
use lite_settings.Client.View.{Config, View, prefix_range, slice}
use lite_settings.Client.Refresh.{Client}
use lite_settings.Client.Decode.{Decoders, DecodeError, Cache, cached_decode}

pub record Group : Type 0 where
  pub prefix : Text
  pub snap : View
  pub strict : Bool

-- `Client.Group`.
unfoldable pub group : Text → Client → Group
group p c = record { prefix = p; snap = c.snap; strict = c.options.strict }

unfoldable pub group_keys : Group → List Text
group_keys g =
    let (lo, hi) = prefix_range g.snap g.prefix in
    map (λ k. trim_prefix k g.prefix) (slice g.snap.keys lo hi)

unfoldable pub len : Group → ℕ
len g = let (lo, hi) = prefix_range g.snap g.prefix in hi - lo

abbrev pub value_of : Option Config → Option Text
value_of none = none
value_of (some c) = some c.value

unfoldable pub raw : Text → Group → Option Text
raw key g = value_of (lookup (g.prefix ++ key) g.snap.by_key)

pub data GetError : Type 0 where
  missing : GetError
  undecodable : DecodeError → GetError

module _ {V : Type 0} (d : Decoders V) where
  abbrev got : Cache d × Result DecodeError V → Cache d × Result GetError V
  got (cache, ok v) = (cache, ok v)
  got (cache, err e) = (cache, err (undecodable e))

  -- `Get`, at a type, with the view's cache before and while the value is decoded.
  unfoldable pub get : Cache d → Cache d → Text → Text → Group → Cache d × Result GetError V
  get cache cache' t key g = elim (lookup (g.prefix ++ key) g.snap.by_key) [
    | none ↦ (cache, err missing)
    | some c ↦ got (cached_decode d cache cache' (g.prefix ++ key) t c g.strict)
  ]

  abbrev or_default : V → Result GetError V → V
  or_default def (ok v) = v
  or_default def (err e) = def

  unfoldable pub get_or : Cache d → Cache d → Text → Text → V → Group → V
  unfolding get
  get_or cache cache' t key def g = or_default def (get cache cache' t key g).1
