-- ===== src/Heater/Tests.antt =====
-- The theorem on verifying a heater at two checks.
use klipper_go.Common.{◌≡◌, refl, true, [], ◌∷◌, arith}
use klipper_go.Common.Int.{ℤ, pos}
use klipper_go.Heater.Verify.{VerifyHeater, new_verify_heater, at_fault, check_heater}
use klipper_go.Heater.Verify.Cold.{cold_found_out}

-- 60 degrees are wanted with a hysteresis of 5, and a heater that was warm cools down.
abbrev was_warm : VerifyHeater
was_warm =
    (check_heater (pos 1_000) (pos 60_000) (pos 60_000)
      (new_verify_heater (pos 5_000) (pos 10_000) (pos 2_000) (pos 20_000))).heater

abbrev second : ℤ × ℤ
second = (pos 3_000, pos 48_000)

cold_found_out_example :
    at_fault (pos 60_000) ((pos 2_000, pos 50_000) ∷ second ∷ []) was_warm ≡ true
unfolding check_heater new_verify_heater
cold_found_out_example =
    cold_found_out 5_000 (pos 60_000) (pos 2_000, pos 50_000) (second ∷ []) was_warm (omega arith)
      (omega arith) refl refl (omega arith, (omega arith, tt)) (omega arith)
