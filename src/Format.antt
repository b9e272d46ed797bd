-- ===== src/Format.antt =====
-- frontend/src/utils/format.ts: the texts that the components show. Sizes are whole byte counts
-- below 2^53, which a JavaScript number holds exactly, so the quotient by a power of 1024 and its
-- rounding by `toFixed` are exact too.
pub mod Bytes
pub mod Range
mod Tests
use vps_dashboard.Common.{
  ℕ, zero, suc, ◌+◌, ◌-◌, ◌*◌, ◌/◌, ◌%◌, ◌^◌, min, String, Bool, true, false, ◌&&◌, ◌||◌, Option,
  none, some, List, [], ◌∷◌, ◌++◌, map, Text, codes, decimal, ltb, leb, ◌==◌, if◌then◌else◌, length,
  get_elem?, take,
}
use vps_dashboard.Common.Number.{Number}

abbrev pub units : List Text
units = codes "B" ∷ codes "KB" ∷ codes "MB" ∷ codes "GB" ∷ codes "TB" ∷ []

-- `Math.floor(Math.log(n) / Math.log(1024))` for a positive whole `n`.
unfoldable pub floor_log : ℕ → ℕ → ℕ
floor_log zero n = 0
floor_log (suc f) n = let rest = floor_log f (n / 1024) in if ltb n 1024 then 0 else suc rest

-- The index of the unit; four divisions decide it, so five rounds are enough.
unfoldable pub unit_index : ℕ → ℕ
unfolding floor_log
unit_index bytes = min (floor_log 5 bytes) (length units - 1)

-- `x.toFixed(d)` at `x = a / b`: the nearest multiple of 10^-d, halves upwards, in units of 10^-d.
unfoldable pub rounded : ℕ → ℕ → ℕ → ℕ
rounded a b d = (2 * (a * 10 ^ d) + b) / (2 * b)

-- The last `d` decimal digits of a number, padded by zeros.
unfoldable pub last_digits : ℕ → ℕ → Text
last_digits zero n = []
last_digits (suc d) n = last_digits d (n / 10) ++ (n % 10 + b'0') ∷ []

-- A number of units of 10^-d, with its decimal point.
unfoldable pub fixed : ℕ → ℕ → Text
unfolding last_digits
fixed n d = if d == 0 then decimal n else decimal (n / 10 ^ d) ++ b'.' ∷ last_digits d n

-- `UNITS[i]` in a template literal.
abbrev pub unit_text : Option Text → Text
unit_text none = codes "undefined"
unit_text (some u) = u

-- The digits after the point: none for plain bytes.
abbrev pub shown_decimals : ℕ → ℕ → ℕ
shown_decimals i decimals = if i == 0 then 0 else decimals

unfoldable pub format_bytes : ℕ → ℕ → Text
format_bytes bytes decimals =
    if bytes == 0
    then codes "0 B"
    else (let i = unit_index bytes in
        let d = shown_decimals i decimals in
        fixed (rounded bytes (1024 ^ i) d) d ++ b' ' ∷ unit_text (get_elem? units i))

unfoldable pub format_bytes_per_sec : ℕ → Text
format_bytes_per_sec bytes = format_bytes bytes 1 ++ codes "/s"

-- `toLowerCase` on the letters of ASCII. No other letter has a lower case within ASCII that the
-- compared words hold.
abbrev lower : ℕ → ℕ
lower c = if leb b'A' c && leb c b'Z' then c + 32 else c

abbrev pub text_eq : Text → Text → Bool
text_eq [] [] = true
text_eq (c ∷ s) (d ∷ t) = c == d && text_eq s t
text_eq [] (d ∷ t) = false
text_eq (c ∷ s) [] = false

unfoldable pub status_color : Text → Text
status_color state =
    let s = map lower state in
    if text_eq s (codes "running")
    then codes "var(--color-ok)"
    else if text_eq s (codes "paused") || text_eq s (codes "restarting")
    then codes "var(--color-warn)"
    else codes "var(--color-muted)"

-- `name.slice(0, max - 1)`: for `max = 0` the end counts from the right.
slice_to : Text → ℕ → Text
slice_to name max = if max == 0 then take (length name - 1) name else take (max - 1) name

unfoldable pub short_name : Text → ℕ → Text
unfolding slice_to
short_name name max = if leb (length name) max then name else slice_to name max ++ 0x2026 ∷ []

module _ (num : Number) where
  open num use {N, le, to_fixed}

  unfoldable pub format_percent : N → ℕ → Text
  format_percent value decimals = to_fixed value decimals ++ codes "%"

  -- `Math.min` and `Math.max`; equal arguments are one value in a total order.
  abbrev math_min : N → N → N
  math_min a b = if le a b then a else b

  abbrev pub math_max : N → N → N
  math_max a b = if le a b then b else a

  unfoldable pub clamp : N → N → N → N
  clamp value lo hi = math_min hi (math_max lo value)

-- `new URL(url).hostname`, which is a parameter, or the text itself where it throws.
abbrev pub host_from_url : (String → Option String) → String → String
host_from_url hostname url = url_or (hostname url) url
  where
    url_or : Option String → String → String
    url_or none u = u
    url_or (some host) u = host
