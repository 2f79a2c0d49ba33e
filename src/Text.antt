-- ===== src/Text.antt =====
-- The operations of `str` that the proxy uses, on texts held as UTF-8 bytes.
mod Case
mod Affix
mod Split
mod Trim
mod Number
mod Utf8
unfoldable pub use Case.*
unfoldable pub use Affix.*
unfoldable pub use Split.*
unfoldable pub use Trim.*
unfoldable pub use Number.*
unfoldable pub use Utf8.*
use Prim.Native.Char.{code}
use Prim.Native.String.{String}
use pertisk_proxy.Base.{Bytes, [], ◌∷◌}

-- The bytes of an ASCII literal.
abbrev pub codes : String → Bytes
codes String.[] = []
codes (String.◌∷◌ c s) = code c ∷ codes s
