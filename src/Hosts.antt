-- ===== src/Hosts.antt =====
-- Host names: `normalize_host` of src/router.rs and src/tls/store.rs, and
-- `wildcard_covers_host` of src/proxy_config.rs.
pub mod Wildcards
use pertisk_proxy.Base.{
  ℕ, ◌-◌, Bool, true, false, not, ◌&&◌, ◌||◌, List, [], ◌∷◌, ◌==◌, leb, if◌then◌else◌, Bytes, take,
  length, is_empty, Option, none, some,
}
use pertisk_proxy.Text.{
  to_lower, eq_ignore_case, trim, starts_with, strip_prefix, ends_with, has_byte, before, codes,
}

-- What stands before the first colon, in lower case.
unfoldable pub normalize_host : Bytes → Bytes
normalize_host host = to_lower (before b':' host)

-- The part of the host that the `*` stands for is one label.
unfoldable pub is_label : Bytes → Bool
is_label prefix = not (is_empty prefix) && not (has_byte b'.' prefix)

-- On the trimmed pattern and the trimmed, lower-case host.
unfoldable pub pattern_covers : Bytes → Bytes → Bool
unfolding is_label
pattern_covers w h = elim (strip_prefix (codes "*") w) [
  | none ↦ eq_ignore_case w h
  | some suffix ↦
      if not (ends_with suffix h) || leb (length h) (length suffix)
      then false
      else is_label (take (length h - length suffix) h)
]

unfoldable pub wildcard_covers_host : Bytes → Bytes → Bool
unfolding pattern_covers
wildcard_covers_host wildcard host =
    let w = trim wildcard in
    let h = to_lower (trim host) in if is_empty w || is_empty h then false else pattern_covers w h
