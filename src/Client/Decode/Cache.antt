-- ===== src/Client/Decode/Cache.antt =====
-- The cache of a view does not change what is decoded.
use lite_settings.Base.{◌≡◌, refl, Bool, ◌∷◌, Option, none, some, arith, Result}
use lite_settings.Base.Dict.{lookup}
use lite_settings.Base.Text.{Text, text_eq_iff}
use lite_settings.Client.View.{Config, View}
use lite_settings.Client.Decode.{
  Decoders, DecodeError, decode, Cache, load, load_or_store, cached_decode,
}

module _ {V : Type 0} (d : Decoders V) (v : View) (strict : Bool) where
  -- What the cache holds of a key and a type is what the view's value decodes to.
  abbrev pub IsFaithful : Cache d → Type 0
  IsFaithful cache =
      (key t : Text) (c : Config) (r : Result DecodeError V)
      → lookup key v.by_key ≡ some c
      → load d key t cache ≡ some r
      → r ≡ decode d t c.value c.format strict

  stored :
      (cache : Cache d) (key t : Text) (c : Config)
      → lookup key v.by_key ≡ some c
      → IsFaithful cache
      → IsFaithful ((key, t, decode d t c.value c.format strict) ∷ cache)
  unfolding load
  stored cache key t c b f key' t' c' r b' q =
      ground (arith, text_eq_iff key key', text_eq_iff t t', f key' t' c' r b')

  -- With a client's fixed strictness, a read of a bound key through a faithful cache gives what
  -- decoding gives, whatever faithful cache other readers have made of it meanwhile, and leaves the
  -- cache faithful.
  pub cached_decode-decode :
      (cache cache' : Cache d) (key t : Text) (c : Config)
      → lookup key v.by_key ≡ some c
      → IsFaithful cache
      → IsFaithful cache'
      → ((cached_decode d cache cache' key t c strict).1 ≡ decode d t c.value c.format strict)
        × IsFaithful (cached_decode d cache cache' key t c strict).0
  unfolding cached_decode
  cached_decode-decode cache cache' key t c b f f' =
      go (load d key t cache) (load d key t cache') refl refl
    where
      outcome :
          Option (Result DecodeError V)
          → Option (Result DecodeError V)
          → Cache d × Result DecodeError V
      outcome o o' = elim o [
        | some hit ↦ (cache, hit)
        | none ↦ load_or_store d key t cache' (decode d t c.value c.format strict) o'
      ]

      go :
          (o o' : Option (Result DecodeError V))
          → load d key t cache ≡ o
          → load d key t cache' ≡ o'
          → ((outcome o o').1 ≡ decode d t c.value c.format strict) × IsFaithful (outcome o o').0
      go (some r) o' e e' = (f key t c r b e, f)
      go none (some r) e e' = (f' key t c r b e', f')
      go none none e e' = (refl, stored cache' key t c b f')
