-- ===== src/Base/Text.antt =====
-- Go's operations on strings: `+`, and those of the package strings that the program calls.
use Prim.Native.Nat.{◌-◌}
use Prim.Native.String.{String, ◌++◌, len, slice}
use mathlib.Core.Path.{◌≡◌, refl}
use mathlib.Core.Bool.{Bool, true, false, ◌&&◌}
use text.Mathlib.Text.{◌==◌, starts_with}
use manteion_go.Base.Tests.{leb, if◌then◌else◌}

-- `s + t`
abbrev pub concat : String → String → String
concat s t = s ++ t

abbrev pub has_prefix : String → String → Bool
has_prefix s t = starts_with s t

abbrev pub has_suffix : String → String → Bool
has_suffix s t = leb (len t) (len s) && slice s (len s - len t) (len s) == t

abbrev pub trim_suffix : String → String → String
trim_suffix s t = if has_suffix s t then slice s 0 (len s - len t) else s

suffix_found : has_suffix "network:*" ":*" ≡ true
suffix_found = refl

suffix_missing : has_suffix "*" ":*" ≡ false
suffix_missing = refl

suffix_trimmed : trim_suffix "network:*" ":*" ≡ "network"
suffix_trimmed = refl
