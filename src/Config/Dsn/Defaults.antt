-- ===== src/Config/Dsn/Defaults.antt =====
-- dsn.go: what holds of every Config that ParseDSN returns.
use go_hsql.Base.{
  ◌<◌, ◌≡◌, refl, sym, ap, ◌⊎◌, inl, inr, Bool, true, false, Option, none, some, List, [], ◌∷◌,
  arith, length, codes, subst,
}
use go_hsql.Base.Int.{ℤ, pos, negsuc, is_neg}
use mathlib.Core.Sum.{inr-injective}
use go_hsql.Proto.Utf8.{Text}
use go_hsql.Config.Properties.{lookup_tls_config}
use go_hsql.Config.Dsn.{
  Url, Config, DsnError, invalid_dsn, ◌>>=◌, or_default, or_error, atoi, to_lower, scheme_tls,
  port_of, user_of, without_slash, database_of, offset_of, not_negative, fetch_size_of, registered,
  tls_of, config_of_url, parse_dsn,
}

chained :
    {A B : Type 0}
    → (m : DsnError ⊎ A) → (f : A → DsnError ⊎ B) → (b : B) → (m >>= f) ≡ inr b
    → (a : A) × (m ≡ inr a) × (f a ≡ inr b)
unfolding ◌>>=◌
chained (inl e) f b h = ground arith
chained (inr a) f b h = (a, refl, h)

or_default-filled :
    {A : Type 0} → (default s : List A) → 0 < length default → 0 < length (or_default default s)
unfolding or_default
or_default-filled default [] filled = filled
or_default-filled default (c ∷ s) filled = omega arith

database_of-filled : (s t : Text) → database_of s ≡ inr t → 0 < length t
unfolding database_of
database_of-filled [] t h = ground arith
database_of-filled (c ∷ s) t h = subst (λ d. 0 < length d) (inr-injective _ _ h) (omega arith)

not_negative-is_neg : (n : Option ℤ) → (k : ℤ) → not_negative n ≡ inr k → is_neg k ≡ false
unfolding not_negative
not_negative-is_neg none k h = ground arith
not_negative-is_neg (some (pos n)) k h = ap is_neg (sym (inr-injective _ _ h))
not_negative-is_neg (some (negsuc n)) k h = ground arith

fetch_size_of-is_neg : (s : Text) → (k : ℤ) → fetch_size_of s ≡ inr k → is_neg k ≡ false
unfolding fetch_size_of
fetch_size_of-is_neg [] k h = ap is_neg (sym (inr-injective _ _ h))
fetch_size_of-is_neg (c ∷ s) k h = not_negative-is_neg (atoi (c ∷ s)) k h

registered_lem :
    {A : Type 0}
    → (tls : Bool) → (found t : Option A) → registered tls found ≡ inr t
    → (tls ≡ true) × (found ≡ t)
unfolding registered
registered_lem false found t h = ground arith
registered_lem true none t h = ground arith
registered_lem true (some cfg) t h = (refl, inr-injective _ _ h)

-- What ParseDSN promises of a Config, for the configurations that are registered.
pub record IsConfig {A : Type 0} (registry : List (Text × A)) (cfg : Config A) : Type 0 where
  pub host_filled : 0 < length cfg.host
  pub user_filled : 0 < length cfg.user
  pub zone_filled : 0 < length cfg.zone
  pub database_filled : 0 < length cfg.database
  pub fetch_size_valid : is_neg cfg.fetch_size ≡ false
  pub tls_registered :
      (cfg.tls_config ≡ none)
      ⊎ ((cfg.tls ≡ true) × (lookup_tls_config cfg.tls_config_name registry ≡ cfg.tls_config))

module _ {A : Type 0} (registry : List (Text × A)) where
  tls_of_lem :
      (tls : Bool)
      → (s : Text) → (t : Option A) → tls_of registry tls s ≡ inr t
      → (t ≡ none) ⊎ ((tls ≡ true) × (lookup_tls_config s registry ≡ t))
  unfolding tls_of
  tls_of_lem tls [] t h = inl (sym (inr-injective _ _ h))
  tls_of_lem tls (c ∷ s) t h = inr (registered_lem tls (lookup_tls_config (c ∷ s) registry) t h)

  config_of_url-IsConfig :
      (u : Url) → (cfg : Config A) → config_of_url registry u ≡ inr cfg → IsConfig registry cfg
  unfolding config_of_url
  config_of_url-IsConfig u cfg h =
      let (tls, is_tls, h1) = chained (scheme_tls (to_lower u.scheme)) _ cfg h in
      let (port, is_port, h2) = chained (port_of u.port) _ cfg h1 in
      let (database, is_database, h3) = chained (database_of (without_slash u.path)) _ cfg h2 in
      let (offset, is_offset, h4) = chained (offset_of (u.query (codes "tzoffset"))) _ cfg h3 in
      let (fetch_size, is_fetch_size, h5) =
        chained (fetch_size_of (u.query (codes "fetchsize"))) _ cfg h4 in
      let (tls_config, is_tls_config, h6) =
        chained (tls_of registry tls (u.query (codes "tlsconfig"))) _ cfg h5 in
      subst (IsConfig registry) (inr-injective _ cfg h6) (record {
        host_filled = or_default-filled (codes "localhost") u.hostname (omega arith);
        user_filled = or_default-filled (codes "SA") (user_of u.user).0 (omega arith);
        zone_filled = or_default-filled (codes "UTC") (u.query (codes "zone")) (omega arith);
        database_filled = database_of-filled (without_slash u.path) database is_database;
        fetch_size_valid =
            fetch_size_of-is_neg (u.query (codes "fetchsize")) fetch_size is_fetch_size;
        tls_registered = tls_of_lem tls (u.query (codes "tlsconfig")) tls_config is_tls_config;
      })

  -- A Config that ParseDSN returns: its host, its user, its zone and its database alias are not
  -- empty, its fetch size is not negative, and its TLS configuration, if it has one, is the one that
  -- is registered under its name, and then it asks for TLS.
  pub parse_dsn-IsConfig :
      (parse_url : Text → Option Url)
      → (dsn : Text) → (cfg : Config A) → parse_dsn registry parse_url dsn ≡ inr cfg
      → IsConfig registry cfg
  unfolding parse_dsn
  parse_dsn-IsConfig parse_url dsn cfg h =
      let (u, parsed, rest) = chained (or_error invalid_dsn (parse_url dsn)) _ cfg h in
      config_of_url-IsConfig u cfg rest
