-- ===== src/Config/Dsn.antt =====
-- dsn.go: ParseDSN. What net/url makes of the connection string is a parameter, none for an error.
pub mod Defaults
use go_hsql.Base.{
  ◌+◌, ◌^◌, ◌⊎◌, inl, inr, Bool, true, false, ◌&&◌, Option, none, some, List, [], ◌∷◌, ltb, leb,
  ◌==◌, if◌then◌else◌, codes, eqb_text,
}
use go_hsql.Base.Int.{ℤ, pos, negsuc}
use go_hsql.Proto.Const.{default_port}
use go_hsql.Proto.Utf8.{Text}
use go_hsql.Proto.Types.Decimal.{set_string}
use go_hsql.Config.Properties.{lookup_tls_config}

-- A url.URL: the user with the password if there is one, and Query().Get.
pub record Url : Type 0 where
  pub scheme : Text
  pub hostname : Text
  pub port : Text
  pub user : Option (Text × Option Text)
  pub path : Text
  pub query : Text → Text

-- A is the type of the TLS configurations.
pub record Config (A : Type 0) : Type 0 where
  pub host : Text
  pub port : ℤ
  pub user : Text
  pub password : Text
  pub database : Text
  pub tls : Bool
  pub tls_config : Option A
  pub tls_config_name : Text
  pub zone : Text
  pub time_zone_seconds : ℤ
  pub fetch_size : ℤ

pub data DsnError : Type 0 where
  invalid_dsn unsupported_scheme invalid_port missing_database invalid_tzoffset invalid_fetchsize :
      DsnError
  tlsconfig_without_tls unknown_tls_config : DsnError

infixl 5 ◌>>=◌
unfoldable pub ◌>>=◌ : {A B : Type 0} → DsnError ⊎ A → (A → DsnError ⊎ B) → DsnError ⊎ B
inl e >>= f = inl e
inr a >>= f = f a

unfoldable pub or_default : {A : Type 0} → List A → List A → List A
or_default default [] = default
or_default default (c ∷ s) = c ∷ s

unfoldable pub is_int64 : ℤ → Bool
is_int64 (pos n) = ltb n (2 ^ 63)
is_int64 (negsuc n) = ltb n (2 ^ 63)

unfoldable pub in_range : Option ℤ → Option ℤ
in_range none = none
in_range (some n) = if is_int64 n then some n else none

-- strconv.Atoi.
unfoldable pub atoi : Text → Option ℤ
unfolding in_range
atoi s = in_range (set_string s)

unfoldable pub or_error : {A : Type 0} → DsnError → Option A → DsnError ⊎ A
or_error e none = inl e
or_error e (some a) = inr a

-- strings.ToLower, as far as it bears on a comparison with an ASCII word.
unfoldable pub to_lower : Text → Text
to_lower [] = []
to_lower (c ∷ s) = (if leb 65 c && leb c 90 then c + 32 else c) ∷ to_lower s

-- cfg.TLS.
unfoldable pub scheme_tls : Text → DsnError ⊎ Bool
scheme_tls scheme =
    if eqb_text scheme (codes "hsql")
    then inr false
    else if eqb_text scheme (codes "hsqls")
    then inr true
    else inl unsupported_scheme

unfoldable pub port_of : Text → DsnError ⊎ ℤ
unfolding or_error atoi
port_of [] = inr default_port
port_of (c ∷ s) = or_error invalid_port (atoi (c ∷ s))

unfoldable pub user_of : Option (Text × Option Text) → Text × Text
user_of none = ([], [])
user_of (some (name, none)) = (name, [])
user_of (some (name, some password)) = (name, password)

-- strings.TrimPrefix(path, "/").
unfoldable pub without_slash : Text → Text
without_slash [] = []
without_slash (c ∷ s) = if c == 47 then s else c ∷ s

unfoldable pub database_of : Text → DsnError ⊎ Text
database_of [] = inl missing_database
database_of (c ∷ s) = inr (c ∷ s)

unfoldable pub offset_of : Text → DsnError ⊎ ℤ
unfolding or_error atoi
offset_of [] = inr (pos 0)
offset_of (c ∷ s) = or_error invalid_tzoffset (atoi (c ∷ s))

unfoldable pub not_negative : Option ℤ → DsnError ⊎ ℤ
not_negative none = inl invalid_fetchsize
not_negative (some (pos n)) = inr (pos n)
not_negative (some (negsuc n)) = inl invalid_fetchsize

unfoldable pub fetch_size_of : Text → DsnError ⊎ ℤ
unfolding not_negative atoi
fetch_size_of [] = inr (pos 0)
fetch_size_of (c ∷ s) = not_negative (atoi (c ∷ s))

unfoldable pub registered : {A : Type 0} → Bool → Option A → DsnError ⊎ Option A
registered false found = inl tlsconfig_without_tls
registered true none = inl unknown_tls_config
registered true (some cfg) = inr (some cfg)

module _ {A : Type 0} (registry : List (Text × A)) where
  -- The registered configuration that a tlsconfig names, if one is given.
  unfoldable pub tls_of : Bool → Text → DsnError ⊎ Option A
  unfolding registered
  tls_of tls [] = inr none
  tls_of tls (c ∷ s) = registered tls (lookup_tls_config (c ∷ s) registry)

  unfoldable pub config_of_url : Url → DsnError ⊎ Config A
  config_of_url u = scheme_tls (to_lower u.scheme) >>= λ tls. port_of u.port >>= λ port.
      database_of (without_slash u.path) >>= λ database.
      offset_of (u.query (codes "tzoffset")) >>= λ offset.
      fetch_size_of (u.query (codes "fetchsize")) >>= λ fetch_size.
      tls_of tls (u.query (codes "tlsconfig")) >>= λ tls_config. inr (record {
        host = or_default (codes "localhost") u.hostname;
        port = port;
        user = or_default (codes "SA") (user_of u.user).0;
        password = (user_of u.user).1;
        database = database;
        tls = tls;
        tls_config = tls_config;
        tls_config_name = u.query (codes "tlsconfig");
        zone = or_default (codes "UTC") (u.query (codes "zone"));
        time_zone_seconds = offset;
        fetch_size = fetch_size;
      })

  unfoldable pub parse_dsn : (Text → Option Url) → Text → DsnError ⊎ Config A
  unfolding or_error
  parse_dsn parse_url dsn = or_error invalid_dsn (parse_url dsn) >>= config_of_url
