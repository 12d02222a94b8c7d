-- ===== src/Mobile/Base64.antt =====
-- apps/mobile/src/polyfills/base64.ts: `btoa` and `atob` where the engine has none. A string is its
-- code units; `<<` and `>>` are a product and a quotient by a power of two, and `|` joins bits that
-- do not overlap, so it is a sum.
pub mod Roundtrip
mod Tests
use chat_crdt.Prelude.{
  ℕ, zero, suc, ◌+◌, ◌*◌, ◌/◌, ◌%◌, Bool, true, false, not, ◌&&◌, ◌||◌, Option, none, some, List,
  [], ◌∷◌, ◌++◌, Text, codes, filter, leb, ltb, nat_eq, if◌then◌else◌,
}

abbrev pub base64_chars : Text
base64_chars = codes "ABCDEFGHIJKLMNOPQRSTUVWXYZabcdefghijklmnopqrstuvwxyz0123456789+/"

-- `CHARS[i]`; every index that the code uses is below 64.
unfoldable pub char_at : ℕ → Text → ℕ
char_at i [] = 0
char_at zero (c ∷ s) = c
char_at (suc i) (c ∷ s) = char_at i s

-- The loop that fills LOOKUP: the index of a character, from `i` on.
unfoldable pub index_of : ℕ → ℕ → Text → Option ℕ
index_of c i [] = none
index_of c i (d ∷ s) = if nat_eq d c then some i else index_of c (suc i) s

unfoldable pub digit : ℕ → ℕ
unfolding char_at
digit i = char_at i base64_chars

-- `LOOKUP[c]`
unfoldable pub lookup : ℕ → Option ℕ
unfolding index_of
lookup c = index_of c 0 base64_chars

abbrev pub pad : ℕ
pad = b'='

-- The four characters of a triplet.
unfoldable pub digits : ℕ → Text
unfolding digit
digits t =
    digit (t / 262_144 % 64) ∷ digit (t / 4_096 % 64) ∷ digit (t / 64 % 64) ∷ digit (t % 64) ∷ []

abbrev pub is_latin1 : ℕ → Bool
is_latin1 c = leb c 255

abbrev pub put_before : Text → Option Text → Option Text
put_before s none = none
put_before s (some rest) = some (s ++ rest)

-- `polyBtoa`; it throws at a code unit above 255.
unfoldable pub poly_btoa : Text → Option Text
unfolding digits digit
poly_btoa [] = some []
poly_btoa (c0 ∷ []) =
    let t = c0 * 65_536 in
    if is_latin1 c0
    then some (digit (t / 262_144 % 64) ∷ digit (t / 4_096 % 64) ∷ pad ∷ pad ∷ [])
    else none
poly_btoa (c0 ∷ c1 ∷ []) =
    let t = c0 * 65_536 + c1 * 256 in
    if is_latin1 c0 && is_latin1 c1
    then some (digit (t / 262_144 % 64) ∷ digit (t / 4_096 % 64) ∷ digit (t / 64 % 64) ∷ pad ∷ [])
    else none
poly_btoa (c0 ∷ c1 ∷ c2 ∷ rest) =
    let more = poly_btoa rest in
    if is_latin1 c0 && (is_latin1 c1 && is_latin1 c2)
    then put_before (digits (c0 * 65_536 + c1 * 256 + c2)) more
    else none

-- What the replacement `/[^A-Za-z0-9+/]/g` keeps.
unfoldable pub is_base64 : ℕ → Bool
is_base64 c =
    (leb b'A' c && leb c b'Z')
    || ((leb b'a' c && leb c b'z')
        || ((leb b'0' c && leb c b'9') || (nat_eq c b'+' || nat_eq c b'/')))

-- A missing digit counts as 0 in the triplet.
abbrev pub or_zero : Option ℕ → ℕ
or_zero none = 0
or_zero (some e) = e

abbrev pub if_digit : Option ℕ → ℕ → Text
if_digit none c = []
if_digit (some e) c = c ∷ []

-- The loop of `polyAtob`, four characters at a time; past the end `LOOKUP[undefined]` is undefined.
unfoldable pub decode_group : Option ℕ → Option ℕ → Option ℕ → Option ℕ → Text
decode_group e0 e1 e2 e3 =
    let t = or_zero e0 * 262_144 + or_zero e1 * 4_096 + or_zero e2 * 64 + or_zero e3 in
    (t / 65_536 % 256) ∷ if_digit e2 (t / 256 % 256) ++ if_digit e3 (t % 256)

unfoldable pub decode_loop : Text → Text
unfolding decode_group lookup
decode_loop [] = []
decode_loop (a ∷ []) = decode_group (lookup a) none none none
decode_loop (a ∷ b ∷ []) = decode_group (lookup a) (lookup b) none none
decode_loop (a ∷ b ∷ c ∷ []) = decode_group (lookup a) (lookup b) (lookup c) none
decode_loop (a ∷ b ∷ c ∷ d ∷ rest) =
    decode_group (lookup a) (lookup b) (lookup c) (lookup d) ++ decode_loop rest

-- `polyAtob`
unfoldable pub poly_atob : Text → Text
unfolding is_base64 decode_loop
poly_atob s = decode_loop (filter is_base64 s)
