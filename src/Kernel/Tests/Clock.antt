-- ===== src/Kernel/Tests/Clock.antt =====
-- Dates.
use linux.Prelude.{◌+◌, ◌*◌, ◌≡◌, refl, arith, some}
use linux.Kernel.Clock.{Tm, kernel_mktime}
use linux.Kernel.Clock.Calendar.{kernel_mktime_lem, days_before_year, days_before_month, leap}

-- 1991-09-17 12:30:15.
abbrev release : Tm
release = record { sec = 15; min = 30; hour = 12; mday = 17; mon = 8; year = 91 }

release_seconds : kernel_mktime release ≡ some 685110615
unfolding kernel_mktime
release_seconds = refl

kernel_mktime_lem_example :
    kernel_mktime release
    ≡ some (
        86400 * (days_before_year 21 + days_before_month (leap 1991) 8 + 16)
        + 3600 * 12
        + 60 * 30
        + 15)
kernel_mktime_lem_example = kernel_mktime_lem release (omega arith)
