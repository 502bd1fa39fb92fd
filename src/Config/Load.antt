-- ===== src/Config/Load.antt =====
-- The settings and their checks (internal/config/config.go). `os.Getenv` is a function from keys to
-- values, and `time.ParseDuration`, with a result in nanoseconds, a parameter.
use study_ticket_reservation.Base.{
  ℕ, Bool, false, Option, none, some, [], ◌∷◌, map, length, ◌==◌, if◌then◌else◌, ◌*◌,
}
use study_ticket_reservation.Base.Int.{ℤ, pos, leb_ℤ}
use study_ticket_reservation.Base.Text.{Text, text, text_eq}
use study_ticket_reservation.Config.Parse.{atoi, parse_bool, int32}

pub data Refusal : Type 0 where
  not_a_duration not_an_integer not_a_boolean : (key : Text) → Refusal
  batch_size_not_positive database_url_required redis_addr_required : Refusal

-- A value, or the error of `Load`.
pub data Setting (A : Type 0) : Type 0 where
  loaded : A → Setting A
  refused : Refusal → Setting A

infixl 55 ◌>>=◌
unfoldable pub ◌>>=◌ : {A B : Type 0} → Setting A → (A → Setting B) → Setting B
(loaded a) >>= f = f a
(refused e) >>= f = refused e

pub record Config : Type 0 where
  pub app_env : Text
  pub http_addr : Text
  pub log_level : Text
  pub database_url : Text
  pub redis_addr : Text
  pub redis_password : Text
  pub redis_db : ℤ
  pub cookie_secure : Bool
  pub visitor_session_ttl : ℤ
  pub reservation_ttl : ℤ
  pub expiration_worker_interval : ℤ
  pub expiration_worker_batch_size : ℤ
  pub startup_timeout : ℤ
  pub readiness_timeout : ℤ
  pub shutdown_timeout : ℤ

abbrev pub seconds : ℕ → ℤ
seconds n = pos (n * 1000000000)

abbrev pub or_refused : {A : Type 0} → Refusal → Option A → Setting A
or_refused e none = refused e
or_refused e (some a) = loaded a

-- The value of a setting, or the fallback where it is not set.
unfoldable pub setting :
    {A : Type 0} → (parse : Text → Option A) (e : Refusal) (value : Text) (fallback : A) → Setting A
setting parse e [] fallback = loaded fallback
setting parse e (c ∷ cs) fallback = or_refused e (parse (c ∷ cs))

-- Stops where a check of `Load` fails.
abbrev pub unless : {A : Type 0} → Bool → Refusal → Setting A → Setting A
unless bad e next = if bad then refused e else next

module _ (environ : Text → Text) (parse_duration : Text → Option ℤ) where
  unfoldable pub getenv : (key fallback : Text) → Text
  getenv key fallback = if length (environ key) == 0 then fallback else environ key

  abbrev pub getenv_duration : (key : Text) (fallback : ℤ) → Setting ℤ
  getenv_duration key fallback = setting parse_duration (not_a_duration key) (environ key) fallback

  abbrev pub getenv_int : (key : Text) (fallback : ℤ) → Setting ℤ
  getenv_int key fallback = setting atoi (not_an_integer key) (environ key) fallback

  abbrev pub getenv_bool : (key : Text) (fallback : Bool) → Setting Bool
  getenv_bool key fallback = setting parse_bool (not_a_boolean key) (environ key) fallback

  -- The checks after the struct is filled in.
  unfoldable pub checked : Config → Setting Config
  checked cfg =
      unless (length cfg.database_url == 0) database_url_required
        (unless (length cfg.redis_addr == 0) redis_addr_required (loaded cfg))

  unfoldable pub load : Setting Config
  load = do
    redis_db ← getenv_int (text "REDIS_DB") (pos 0)
    startup_timeout ← getenv_duration (text "STARTUP_TIMEOUT") (seconds 10)
    readiness_timeout ← getenv_duration (text "READINESS_TIMEOUT") (seconds 2)
    shutdown_timeout ← getenv_duration (text "SHUTDOWN_TIMEOUT") (seconds 10)
    visitor_session_ttl ← getenv_duration (text "VISITOR_SESSION_TTL") (seconds (30 * 24 * 3600))
    cookie_secure ← getenv_bool (text "COOKIE_SECURE") false
    reservation_ttl ← getenv_duration (text "RESERVATION_TTL") (seconds (15 * 60))
    interval ← getenv_duration (text "EXPIRATION_WORKER_INTERVAL") (seconds 5)
    batch_size ← getenv_int (text "EXPIRATION_WORKER_BATCH_SIZE") (pos 100)
    unless (leb_ℤ batch_size (pos 0)) batch_size_not_positive (
        checked (record {
          app_env = getenv (text "APP_ENV") (text "development");
          http_addr = getenv (text "HTTP_ADDR") (text ":8080");
          log_level = getenv (text "LOG_LEVEL") (text "INFO");
          database_url = environ (text "DATABASE_URL");
          redis_addr = environ (text "REDIS_ADDR");
          redis_password = environ (text "REDIS_PASSWORD");
          redis_db = redis_db;
          cookie_secure = cookie_secure;
          visitor_session_ttl = visitor_session_ttl;
          reservation_ttl = reservation_ttl;
          expiration_worker_interval = interval;
          expiration_worker_batch_size = int32 batch_size;
          startup_timeout = startup_timeout;
          readiness_timeout = readiness_timeout;
          shutdown_timeout = shutdown_timeout;
        }))

pub data Level : Type 0 where
  level_debug level_info level_warn level_error : Level

-- The level of ConfigureLogger; `upper` is `unicode.ToUpper`.
unfoldable pub slog_level : (upper : ℕ → ℕ) (level : Text) → Level
slog_level upper level =
    let name = map upper level in
    if text_eq name (text "DEBUG")
    then level_debug
    else if text_eq name (text "WARN")
    then level_warn
    else if text_eq name (text "ERROR")
    then level_error
    else level_info
