-- ===== src/Config/Accepted.antt =====
-- The configurations that `Load` gives, and why it gives none (internal/config/config.go).
use study_ticket_reservation.Base.{
  ℕ, ◌%◌, ◌<◌, ◌≡◌, ◌≢◌, ◌↔◌, refl, sym, ◌∙◌, true, false, Option, [], ◌∷◌, inl, inr, Bool-cases,
  length, ◌==◌, arith,
}
use study_ticket_reservation.Base.Int.{ℤ, pos, negsuc, ◌≤ℤ◌, leb_ℤ}
use study_ticket_reservation.Base.Text.{Text, text}
use study_ticket_reservation.Config.Parse.{atoi, parse_bool, int32}
use study_ticket_reservation.Config.Load.{
  Refusal, not_a_duration, not_an_integer, not_a_boolean, batch_size_not_positive,
  database_url_required, redis_addr_required, Setting, loaded, refused, ◌>>=◌, Config, setting,
  unless, getenv, getenv_int, checked, load,
}
use study_ticket_reservation.Config.Checks.{
  Loads, Unread, IsInt32, Loading, Loading-bind, Loading-unless, setting-Loads, setting-fits,
  int32-IsInt32, int32_positive,
}

abbrev pub batch_size_key : Text
batch_size_key = text "EXPIRATION_WORKER_BATCH_SIZE"

loaded_injective : (a b : ℤ) → loaded a ≡ loaded b → a ≡ b
loaded_injective a b h = cc

int32_multiple : (n : ℕ) → n % 0x100000000 ≡ 0 → int32 (pos n) ≡ pos 0
unfolding int32
int32_multiple n h = ground arith

module _ (environ : Text → Text) (parse_duration : Text → Option ℤ) where
  -- Why `Load` gives no configuration.
  abbrev pub IsReason : Refusal → Type 0
  IsReason (not_a_duration key) = Unread parse_duration (environ key)
  IsReason (not_an_integer key) = Unread atoi (environ key)
  IsReason (not_a_boolean key) = Unread parse_bool (environ key)
  IsReason batch_size_not_positive =
      (n : ℤ) × (getenv_int environ parse_duration batch_size_key (pos 100) ≡ loaded n)
      × (n ≤ℤ pos 0)
  IsReason database_url_required = environ (text "DATABASE_URL") ≡ []
  IsReason redis_addr_required = environ (text "REDIS_ADDR") ≡ []

  -- What a configuration that `Load` gives has: the two required settings, no empty text where there is
  -- a fallback, and a batch size that is the int32 of a positive int.
  pub record Accepts (cfg : Config) : Type 0 where
    pub database_url : (cfg.database_url ≡ environ (text "DATABASE_URL")) × (cfg.database_url ≢ [])
    pub redis_addr : (cfg.redis_addr ≡ environ (text "REDIS_ADDR")) × (cfg.redis_addr ≢ [])
    pub with_fallback : (cfg.app_env ≢ []) × (cfg.http_addr ≢ []) × (cfg.log_level ≢ [])
    pub batch_size : ℕ
    pub read : getenv_int environ parse_duration batch_size_key (pos 100) ≡ loaded (pos batch_size)
    pub positive : 0 < batch_size
    pub fits : batch_size < 0x8000000000000000
    pub converted : cfg.expiration_worker_batch_size ≡ int32 (pos batch_size)
    pub in_column : IsInt32 cfg.expiration_worker_batch_size
    pub still_positive :
        (pos 1 ≤ℤ cfg.expiration_worker_batch_size)
        ↔ ((0 < batch_size % 0x100000000) × (batch_size % 0x100000000 < 0x80000000))

  empty_of_length : (s : Text) → length s == 0 ≡ true → s ≡ []
  empty_of_length [] h = refl
  empty_of_length (c ∷ cs) h = absurd (ground arith)

  full_of_length : (s : Text) → length s == 0 ≡ false → s ≢ []
  full_of_length [] h = absurd (ground arith)
  full_of_length (c ∷ cs) h = cc

  getenv-IsFull : (key : Text) (c : ℕ) (cs : Text) → getenv environ parse_duration key (c ∷ cs) ≢ []
  unfolding getenv
  getenv-IsFull key c cs = elim (Bool-cases (length (environ key) == 0)) [
    | inl e ↦ rw e cc
    | inr e ↦ rw e (full_of_length (environ key) e)
  ]

  reads :
      {A : Type 0}
      → (parse : Text → Option A) (e : Refusal) (value : Text) (fallback : A)
        (f : A → Setting Config)
      → (Unread parse value → IsReason e)
      → ((a : A) → setting parse e value fallback ≡ loaded a → Loading Accepts IsReason (f a))
      → Loading Accepts IsReason (setting parse e value fallback >>= f)
  reads parse e value fallback f h k =
      Loading-bind (λ a. setting parse e value fallback ≡ loaded a) _ f
        (setting-Loads IsReason parse e value fallback h) k

  -- The checks that follow the settings.
  module _ (cfg : Config) (database_url : cfg.database_url ≡ environ (text "DATABASE_URL"))
      (redis_addr : cfg.redis_addr ≡ environ (text "REDIS_ADDR"))
      (with_fallback : (cfg.app_env ≢ []) × (cfg.http_addr ≢ []) × (cfg.log_level ≢ [])) where
    checked-Loads :
        (n : ℤ)
        → getenv_int environ parse_duration batch_size_key (pos 100) ≡ loaded n
        → cfg.expiration_worker_batch_size ≡ int32 n
        → Loading Accepts IsReason
            (unless (leb_ℤ n (pos 0)) batch_size_not_positive (checked environ parse_duration cfg))
    unfolding checked
    checked-Loads (negsuc n) read converted =
        let low : leb_ℤ (negsuc n) (pos 0) ≡ true = ground arith in
        rw low (record { at = (negsuc n, read, omega arith) })
    checked-Loads (pos n) read converted =
        Loading-unless (leb_ℤ (pos n) (pos 0)) _ _ (λ low. (pos n, read, ground arith))
          λ high.
            Loading-unless (length cfg.database_url == 0) _ _
              (λ e. sym database_url ∙ empty_of_length _ e)
              λ named.
                Loading-unless (length cfg.redis_addr == 0) _ _
                  (λ e. sym redis_addr ∙ empty_of_length _ e)
                  λ addressed. record {
                    at = record {
                      database_url = (database_url, full_of_length _ named);
                      redis_addr = (redis_addr, full_of_length _ addressed);
                      with_fallback = with_fallback;
                      batch_size = n;
                      read = read;
                      positive = ground arith;
                      fits = setting-fits _ _ n read;
                      converted = converted;
                      in_column = rw converted (int32-IsInt32 n);
                      still_positive = rw converted (int32_positive n);
                    };
                  }

  load-Loading : Loading Accepts IsReason (load environ parse_duration)
  unfolding load
  load-Loading =
      reads atoi _ _ _ _ (λ h. h)
        λ redis_db _.
          reads parse_duration _ _ _ _ (λ h. h)
            λ startup _.
              reads parse_duration _ _ _ _ (λ h. h)
                λ readiness _.
                  reads parse_duration _ _ _ _ (λ h. h)
                    λ shutdown _.
                      reads parse_duration _ _ _ _ (λ h. h)
                        λ visitor _.
                          reads parse_bool _ _ _ _ (λ h. h)
                            λ secure _.
                              reads parse_duration _ _ _ _ (λ h. h)
                                λ reservation _.
                                  reads parse_duration _ _ _ _ (λ h. h)
                                    λ interval _.
                                      reads atoi _ _ _ _ (λ h. h)
                                        λ n read.
                                          checked-Loads _ refl refl
                                            (
                                              getenv-IsFull (text "APP_ENV") b'd'
                                                  (text "evelopment"),
                                              getenv-IsFull (text "HTTP_ADDR") b':' (text "8080"),
                                              getenv-IsFull (text "LOG_LEVEL") b'I' (text "NFO"),
                                            )
                                            n read refl

  -- `Load` either gives a configuration or refuses a setting. If it gives one, the two required settings
  -- are there and not empty, no text that has a fallback is empty, and the batch size is the int32 of a
  -- positive int, so that it is positive exactly if the low 32 bits of that int are from 1 to 2 ^ 31 - 1.
  -- If it refuses one, this setting is there and does not parse, or it is the batch size and not
  -- positive, or it is required and empty.
  pub load_lem : Loads Accepts IsReason (load environ parse_duration)
  load_lem = load-Loading.at

  -- Where the batch size is set to a positive multiple of 2 ^ 32 that an int holds, `Load` does not refuse
  -- it, and the batch size of any configuration that it gives is zero.
  pub load-accepts_zero :
      (n : ℕ)
      → getenv_int environ parse_duration batch_size_key (pos 100) ≡ loaded (pos n)
      → 0 < n
      → n % 0x100000000 ≡ 0
      → Loads
          (λ cfg. cfg.expiration_worker_batch_size ≡ pos 0)
          (λ e. e ≢ batch_size_not_positive)
          (load environ parse_duration)
  load-accepts_zero n set positive multiple = by_result (load environ parse_duration) load_lem
    where
      same :
          (m : ℤ)
          → getenv_int environ parse_duration batch_size_key (pos 100) ≡ loaded m
          → m ≡ pos n
      same m read = loaded_injective m (pos n) (sym read ∙ set)

      by_result :
          (r : Setting Config)
          → Loads Accepts IsReason r
          → Loads
              (λ cfg. cfg.expiration_worker_batch_size ≡ pos 0)
              (λ e. e ≢ batch_size_not_positive)
              r
      by_result (loaded cfg) h =
          h.converted ∙ (rw (same (pos h.batch_size) h.read) (int32_multiple n multiple))
      by_result (refused batch_size_not_positive) (m, read, low) =
          let set_low : pos n ≤ℤ pos 0 = rw (same m read) at low in
          absurd (omega (arith, positive, set_low))
      by_result (refused database_url_required) h = cc
      by_result (refused redis_addr_required) h = cc
      by_result (refused (not_a_duration key)) h = cc
      by_result (refused (not_an_integer key)) h = cc
      by_result (refused (not_a_boolean key)) h = cc
