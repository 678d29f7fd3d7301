-- ===== src/Text/Suffix.antt =====
-- strings.HasSuffix and strings.TrimSuffix.
use gochoreo.Common.{◌-◌, Bool, ◌&&◌, length, leb, take, drop, if◌then◌else◌}
use gochoreo.Text.{Text, text_eq}

unfoldable pub has_suffix : Text → Text → Bool
unfolding text_eq
has_suffix s p = leb (length p) (length s) && text_eq (drop (length s - length p) s) p

unfoldable pub trim_suffix : Text → Text → Text
unfolding has_suffix
trim_suffix s p = if has_suffix s p then take (length s - length p) s else s
