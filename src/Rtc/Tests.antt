-- ===== src/Rtc/Tests.antt =====
-- Runs of the driver on the chip of Rtc/Chip.antt.
use pyrinas_zephyr.Common.{◌≡◌, refl, true, false, pos}
use pyrinas_zephyr.Rtc.{
  timer_mode, timer_value, mode_en, pcf85063a_set_alarm, pcf85063a_cancel_alarm, pcf85063a_start,
  pcf85063a_stop, pcf85063a_get_pending_int,
}
use pyrinas_zephyr.Rtc.Chip.{bus, blank}
use pyrinas_zephyr.Rtc.Alarm.{settled, cancel_alarm-set_alarm}

-- Ten seconds; the timer runs.
set_runs : (pcf85063a_set_alarm bus 10 blank).0 timer_mode mode_en ≡ true
unfolding pcf85063a_set_alarm
set_runs = refl

stop_runs : (pcf85063a_start bus (pcf85063a_stop bus blank).0).0 0 5 ≡ false
unfolding pcf85063a_start pcf85063a_stop
stop_runs = refl

pending_runs : pcf85063a_get_pending_int bus blank ≡ 0
unfolding pcf85063a_get_pending_int
pending_runs = refl

set_ok : (pcf85063a_set_alarm bus 10 blank).1 ≡ pos 0
unfolding pcf85063a_set_alarm
set_ok = refl

cancel_ok : (pcf85063a_cancel_alarm bus (pcf85063a_set_alarm bus 10 blank).0).1 ≡ pos 0
unfolding pcf85063a_cancel_alarm
cancel_ok = refl

cancel_alarm-set_alarm_example :
    (pcf85063a_cancel_alarm bus (pcf85063a_set_alarm bus 10 blank).0).0 timer_value 1
    ≡ settled bus 10 blank timer_value 1
cancel_alarm-set_alarm_example = cancel_alarm-set_alarm bus 10 blank timer_value 1 set_ok cancel_ok
