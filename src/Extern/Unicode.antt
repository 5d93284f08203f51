-- ===== src/Extern/Unicode.antt =====
-- The case mappings of `std`, which stand on the tables of the Unicode database. The program relies
-- on what they do to ASCII text; on other characters they are whatever those tables say.
use xray_bridge.Prelude.{◌<◌, ◌≡◌, ℕ, map, All}
use xray_bridge.Text.{Str, ascii_lower, ascii_upper}

abbrev pub IsAscii : ℕ → Type 0
IsAscii b = b < 0x80

pub record Unicode : Type 0 where
  pub to_lowercase : Str → Str
  pub to_uppercase : Str → Str
  pub lower-ascii : (s : Str) → All IsAscii s → to_lowercase s ≡ map ascii_lower s
  pub upper-ascii : (s : Str) → All IsAscii s → to_uppercase s ≡ map ascii_upper s
