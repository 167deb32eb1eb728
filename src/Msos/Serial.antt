-- ===== src/Msos/Serial.antt =====
-- The serial number that the device tells over USB.
use riceprobe.Base.{
  ℕ, zero, suc, ◌-◌, ◌≤◌, ◌<◌, ◌≡◌, refl, ap, ◌∙◌, arith, List, [], ◌∷◌, ◌++◌, set, replicate,
}
use riceprobe.Errno.{Result, ok, err}
use riceprobe.Nvs.{Nvs, strlen, chars, get_serial_number}
use riceprobe.Nvs.Text.{get_serial_number_lem, chars-end, chars-IsText}
use riceprobe.Msos.{update_sn_string_descriptor}

chars-set : (before : List ℕ) → chars (set before 0 0) ≡ []
unfolding chars
chars-set [] = refl
chars-set (x ∷ xs) = refl

chars-filled :
    (serial : List ℕ) (k : ℕ) → 0 < k → chars (chars serial ++ replicate k 0) ≡ chars serial
chars-filled serial zero h = ground arith
chars-filled serial (suc k) h = chars-end (chars serial) (replicate k 0) (chars-IsText serial)

updated :
    (nvs : Nvs) (size : ℕ) (before : List ℕ) (r : Result (List ℕ))
    → get_serial_number nvs size ≡ r
    → update_sn_string_descriptor nvs size before
      ≡ (elim r [ ok serial ↦ serial | err e ↦ set before 0 0 ])
unfolding update_sn_string_descriptor
updated nvs size before r h =
    ap {B = List ℕ} (elim [ ok serial ↦ serial | err e ↦ set before 0 0 ]) h

-- The array that the firmware hands to Zephyr for the descriptor of the serial number holds the stored number, where
-- that has room with its end, and otherwise the empty text, whatever the array held before: never a number that is
-- cut, nor a part of an old one. What Zephyr copies of the array to its descriptor is not part of it.
pub update_sn_string_descriptor_lem :
    (nvs : Nvs) (size : ℕ) (before : List ℕ)
    → (strlen nvs.serial_number < size
        → chars (update_sn_string_descriptor nvs size before) ≡ chars nvs.serial_number)
      × (size ≤ strlen nvs.serial_number → chars (update_sn_string_descriptor nvs size before) ≡ [])
update_sn_string_descriptor_lem nvs size before = (
  λ fits.
      ap chars (updated nvs size before _ ((get_serial_number_lem nvs size).1 fits))
      ∙ chars-filled nvs.serial_number (size - strlen nvs.serial_number) (omega (arith, fits)),
  λ short.
      ap chars (updated nvs size before _ ((get_serial_number_lem nvs size).0 short))
      ∙ chars-set before,
)
