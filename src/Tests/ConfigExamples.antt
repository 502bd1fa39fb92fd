-- ===== src/Tests/ConfigExamples.antt =====
-- The configuration, with the required settings and a batch size of 2 ^ 32.
use study_ticket_reservation.Base.{
  ◌≡◌, ◌≢◌, refl, ◌||◌, Option, none, some, [], arith, if◌then◌else◌,
}
use study_ticket_reservation.Base.Int.{ℤ, pos, negsuc}
use study_ticket_reservation.Base.Text.{Text, text, text_eq}
use study_ticket_reservation.Config.Parse.{atoi, int32}
use study_ticket_reservation.Config.Load.{
  batch_size_not_positive, Setting, loaded, refused, ◌>>=◌, Config, setting, getenv, checked, load,
}
use study_ticket_reservation.Config.Checks.{Loads}
use study_ticket_reservation.Config.Accepted.{
  batch_size_key, IsReason, Accepts, load_lem, load-accepts_zero,
}

abbrev environ : Text → Text
environ key =
    if text_eq key batch_size_key
    then text "4294967296"
    else if text_eq key (text "DATABASE_URL") || text_eq key (text "REDIS_ADDR")
    then text "set"
    else []

abbrev no_durations : Text → Option ℤ
no_durations s = none

abbrev batch_size_of : Setting Config → Option ℤ
batch_size_of (loaded cfg) = some cfg.expiration_worker_batch_size
batch_size_of (refused e) = none

atoi_reads : atoi (text "-120") ≡ some (negsuc 119)
unfolding atoi
atoi_reads = refl

int32_wraps : int32 (pos 0x180000001) ≡ negsuc 0x7ffffffe
unfolding int32
int32_wraps = refl

load_gives_zero : batch_size_of (load environ no_durations) ≡ some (pos 0)
unfolding load setting ◌>>=◌ getenv checked int32 atoi text_eq
load_gives_zero = refl

load_lem_example :
    Loads (Accepts environ no_durations) (IsReason environ no_durations) (load environ no_durations)
load_lem_example = load_lem environ no_durations

load-accepts_zero_example :
    Loads
      (λ cfg. cfg.expiration_worker_batch_size ≡ pos 0)
      (λ e. e ≢ batch_size_not_positive)
      (load environ no_durations)
unfolding setting atoi text_eq
load-accepts_zero_example =
    load-accepts_zero environ no_durations 4294967296 refl (omega arith) refl
