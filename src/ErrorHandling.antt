-- ===== src/ErrorHandling.antt =====
-- include/oqpi/error_handling.hpp, built with OQPI_ENABLE_CHECKS: what a failed check does. What is
-- printed is left out, and the answer of a message box is given.
use oqpi.Base.{Bool, true, false, not, ◌≡◌, refl, if◌then◌else◌}
use oqpi.Scheduling.Scheduler.{checked, ensure}

-- eAssertResult
pub data AssertResult : Type 0 where
  abort retry ignore always_ignore : AssertResult

-- The buttons of the message box, and whether shift is held.
pub data Button : Type 0 where
  abort_button retry_button ignore_button shift_ignore_button : Button

-- The program goes on, is stopped by `exit(1)`, or meets a breakpoint first.
pub data Check : Type 0 where
  goes_on exits breaks : Check

-- What the platform answers: a button on Windows; elsewhere the answer is always the same.
pub data Platform : Type 0 where
  windows : Button → Platform
  elsewhere : Platform

unfoldable pub assert_function : Platform → AssertResult
assert_function (windows abort_button) = abort
assert_function (windows retry_button) = retry
assert_function (windows ignore_button) = ignore
assert_function (windows shift_ignore_button) = always_ignore
assert_function elsewhere = retry

unfoldable pub after_answer : AssertResult → Check
after_answer abort = exits
after_answer retry = breaks
after_answer ignore = goes_on
after_answer always_ignore = goes_on

unfoldable pub ignores_always : AssertResult → Bool
ignores_always always_ignore = true
ignores_always answer = false

module _ {W : Type 0} where
  -- oqpi_check and oqpi_verify at one place of the code, whose static variable is `ignored`: the
  -- world with the effects of the condition, the variable, and how the program goes on.
  unfoldable pub check_condition : Platform → (W → W × Bool) → W → Bool → W × Bool × Check
  unfolding assert_function after_answer ignores_always
  check_condition platform condition w ignored =
      let (w', holds) = condition w in
      let answer = assert_function platform in
      if ignored
      then (w, ignored, goes_on)
      else if holds
      then (w', ignored, goes_on)
      else (w', ignores_always answer, after_answer answer)

-- oqpi_ensure and oqpi_failed: the value of the expression, and how the program goes on.
unfoldable pub assert_and_return : Platform → Bool → Bool × Check
unfolding assert_function after_answer
assert_and_return platform value = (value, after_answer (assert_function platform))

unfoldable pub ensure_condition : Platform → Bool → Bool × Check
unfolding assert_and_return
ensure_condition platform holds =
    if holds then (true, goes_on) else assert_and_return platform false

unfoldable pub failed_condition : Platform → Bool → Bool × Check
unfolding assert_and_return
failed_condition platform holds =
    if holds then (false, goes_on) else assert_and_return platform true

-- The value is that of the macro in the other modules; a failure elsewhere than on Windows meets the
-- breakpoint before it has one.
ensure_condition-ensure :
    (platform : Platform) (holds : Bool)
    → ((ensure_condition platform holds).0 ≡ ensure checked holds)
      × ((failed_condition platform holds).0 ≡ not (ensure checked holds))
unfolding ensure_condition failed_condition assert_and_return
ensure_condition-ensure platform true = (refl, refl)
ensure_condition-ensure platform false = (refl, refl)

elsewhere_breaks : (ensure_condition elsewhere false).1 ≡ breaks
unfolding ensure_condition assert_and_return after_answer assert_function
elsewhere_breaks = refl
