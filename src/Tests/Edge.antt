-- ===== src/Tests/Edge.antt =====
-- Runs of src/edge/mod.rs.
use pertisk_proxy.Base.{
  All, is_empty, false, ◌-◌, ◌≤◌, ◌≡◌, ◌↔◌, refl, true, [], ◌∷◌, none, some, Bytes, Map, List,
  Option, arith, lookup, min, leb, if◌then◌else◌, bytes_eq, has_key, bytes_eq_iff,
}
use pertisk_proxy.Text.{before, split, has_byte, codes}
use pertisk_proxy.Edge.Cache.Rounds.{goes_round, evict-goes_round}
use pertisk_proxy.Edge.Cache.{
  evict, CachedResponse, CacheEntry, CacheInner, cache_put, cache_get, entry_size, one_mib,
}
use pertisk_proxy.Edge.Cache.Sizes.{total}
use pertisk_proxy.Edge.Cache.Laws.{IsValid, YieldsKey, cache_put-IsValid, cache_get-put}
use pertisk_proxy.Edge.Limits.{x4xx_blocked, x4xx_key, window_at}
use pertisk_proxy.Edge.Limits.Laws.{
  admitted, requests, rate_limited-admitted, run_notes, x4xx_blocked_iff,
}
use pertisk_proxy.Edge.Files.{safe_file, push_parts, IsEntry, safe_file-AreEntries}
use pertisk_proxy.Edge.Base64.{b64url_encode, b64url_decode}
use pertisk_proxy.Edge.Base64.RoundTrip.{b64url_decode-encode}

abbrev first_key : Map CacheEntry → Option Bytes
first_key [] = none
first_key ((k, e) ∷ m) = some k

first_key-YieldsKey : YieldsKey first_key
unfolding has_key bytes_eq
first_key-YieldsKey [] = (λ e. refl, λ k e. cc)
first_key-YieldsKey ((k, e) ∷ m) =
    (λ e. cc, λ j e. rw (has_key, (bytes_eq_iff k j).1 (ground arith)) refl)

abbrev page : CachedResponse
page = record { status = 200; headers = (codes "a", codes "b") ∷ []; body = codes "hello" }

abbrev nothing : CacheInner
nothing = record { entries = []; bytes = 0 }

nothing-IsValid : IsValid nothing
unfolding total
nothing-IsValid = record { distinct = tt; counted = refl }

cache_put-IsValid_example :
    IsValid (cache_put first_key 10 (codes "/x") page 60 100 nothing)
    × ((cache_put first_key 10 (codes "/x") page 60 100 nothing).bytes ≤ 100)
cache_put-IsValid_example =
    cache_put-IsValid first_key first_key-YieldsKey 10 (codes "/x") page 60 100 nothing
      nothing-IsValid (omega arith) (omega arith)

page_small : entry_size (codes "/x") page ≤ 100
unfolding entry_size
page_small = omega arith

page_small_mib : entry_size (codes "/x") page ≤ one_mib
unfolding entry_size
page_small_mib = omega arith

cache_get-put_example :
    (cache_get 50 (codes "/x") (cache_put first_key 10 (codes "/x") page 60 100 nothing)).1
    ≡ (if leb 70 50 then none else some page)
cache_get-put_example =
    cache_get-put first_key first_key-YieldsKey 10 (codes "/x") page 60 100 nothing 50
      nothing-IsValid (omega arith) (omega arith) (omega arith) page_small page_small_mib

abbrev asked : List Bytes
asked = codes "a" ∷ codes "b" ∷ codes "a" ∷ codes "a" ∷ []

rate_limited-admitted_example :
    admitted 9 2 (codes "a") asked []
    ≡ min (2 - (window_at 9 (lookup (codes "a") [])).count) (requests 9 2 (codes "a") asked)
rate_limited-admitted_example =
    rate_limited-admitted 9 2 (codes "a") asked [] (omega arith) (omega arith)

no_notes : (window_at 9 (lookup (x4xx_key (codes "1.1.1.1") (codes "h")) [])).count ≡ 0
unfolding lookup
no_notes = refl

x4xx_blocked_iff_example :
    (x4xx_blocked 9 (codes "1.1.1.1") (codes "h") 3 (run_notes 9 (codes "1.1.1.1") (codes "h") 4 [])
      ≡ true)
    ↔ (3 ≤ 4)
x4xx_blocked_iff_example =
    x4xx_blocked_iff 9 3 4 (codes "1.1.1.1") (codes "h") [] (omega arith) (omega arith) no_notes

b64url_decode-encode_example : b64url_decode (b64url_encode (codes "hi?>!")) ≡ some (codes "hi?>!")
b64url_decode-encode_example = b64url_decode-encode (codes "hi?>!") (omega arith)

abbrev app_js : List Bytes
app_js = codes "js" ∷ codes "app.js" ∷ []

app_js_served : safe_file (codes "//js/./app.js?v=2") ≡ some app_js
unfolding safe_file push_parts before split has_byte bytes_eq
app_js_served = refl

safe_file-AreEntries_example : (is_empty app_js ≡ false) × All IsEntry app_js
safe_file-AreEntries_example = safe_file-AreEntries (codes "//js/./app.js?v=2") app_js app_js_served

climb_refused : safe_file (codes "/../etc/passwd") ≡ none
unfolding safe_file push_parts before split has_byte bytes_eq
climb_refused = refl

abbrev two_pages : CacheInner
two_pages = record {
  entries =
      (codes "/a", record { response = page; expires = 5; bytes = 9 })
      ∷ ((codes "/b", record { response = page; expires = 7; bytes = 9 }) ∷ []);
  bytes = 18;
}

evict-goes_round_example :
    (goes_round 10 20 (evict first_key 2 10 20 two_pages) ≡ false)
    × (evict first_key 3 10 20 two_pages ≡ evict first_key 2 10 20 two_pages)
evict-goes_round_example =
    evict-goes_round first_key first_key-YieldsKey 2 10 20 two_pages (omega arith)
