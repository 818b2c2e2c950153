-- ===== src/Ffsd/Capture/Line.antt =====
-- The text that `capture_publish` sends (recipes-apps/kbm-mapper-ff/files/main.c).
use meta_dualsense.Prelude.{
  ℕ, suc, ◌≤◌, ◌<◌, Bool, true, false, ◌++◌, arith, if◌then◌else◌, length, length-append,
}
use meta_dualsense.Prelude.Int.{ℤ, pos, negsuc}
use meta_dualsense.Prelude.Text.{Bytes, codes}
use meta_dualsense.Prelude.Text.Decimal.{unsigned, decimal, length-digits}
use meta_dualsense.Input.{InputEvent}

abbrev pub source : Bool → Bytes
source from_mouse = if from_mouse then codes "mouse" else codes "keyboard"

-- What `snprintf` formats, a `"` being 34.
unfoldable pub capture_line : InputEvent → Bool → Bytes
capture_line e from_mouse =
    codes "{\"type\":"
    ++ (unsigned e.type
        ++ (codes ",\"code\":"
            ++ (unsigned e.code
                ++ (codes ",\"value\":"
                    ++ (decimal e.value
                        ++ (codes ",\"source\":\"" ++ (source from_mouse ++ codes "\"}\n")))))))

length-unsigned : (n : ℕ) → length (unsigned n) ≤ 10
unfolding unsigned
length-unsigned n = length-digits 10 n

length-decimal : (v : ℤ) → length (decimal v) ≤ 11
unfolding decimal unsigned
length-decimal (pos n) = omega (arith, length-digits 10 n)
length-decimal (negsuc n) = omega (arith, length-digits 10 (suc n))

length-source : (from_mouse : Bool) → length (source from_mouse) ≤ 8
length-source true = omega arith
length-source false = omega arith

-- The line and the 0 behind it always fit the buffer of 128 bytes, and the line is not empty: it is
-- never cut, and as many bytes as it has are written from the buffer.
pub capture_line_fits :
    (e : InputEvent) (from_mouse : Bool)
    → (0 < length (capture_line e from_mouse)) × (length (capture_line e from_mouse) < 128)
unfolding capture_line
capture_line_fits e from_mouse =
    let closing : Bytes = codes "\"}\n" in
    let after_value : Bytes = codes ",\"source\":\"" ++ (source from_mouse ++ closing) in
    let after_code : Bytes = codes ",\"value\":" ++ (decimal e.value ++ after_value) in
    let after_type : Bytes = codes ",\"code\":" ++ (unsigned e.code ++ after_code) in
    let lengths : length (unsigned e.type ++ after_type) ≤ 110 = omega (
      arith,
      length-append (unsigned e.type) after_type,
      length-append (unsigned e.code) after_code,
      length-append (decimal e.value) after_value,
      length-append (source from_mouse) closing,
      length-unsigned e.type,
      length-unsigned e.code,
      length-decimal e.value,
      length-source from_mouse,
    ) in
    (omega arith, omega arith)
