-- ===== src/Strings/SearchTests.antt =====
-- Runs of the searches, and the theorems on them at concrete strings.
use wp_lambdamoo.Utf.{put_utf, get_utf, strlen_utf}
use wp_lambdamoo.Utf.Text.{utf8, encode}
use wp_lambdamoo.Strings.{mystrncasecmp}
use wp_lambdamoo.Prelude.{ℕ, ◌≡◌, refl, true, false, List, [], ◌∷◌, arith, pos, ◌+ℤ◌, ◌-ℤ◌}
use wp_lambdamoo.Db.Outcomes.{ok}
use wp_lambdamoo.Strings.Search.{strsub, strindex, strrindex}
use wp_lambdamoo.Strings.Replaced.{strindex_first, Answers}
use wp_lambdamoo.Strings.Parts.{strsub_parts, Parted}
use wp_lambdamoo.Strings.Missed.{strrindex_missed}
use wp_lambdamoo.Strings.Literals.{ascii}

swapped : strsub (ascii "a-b-c") (ascii "-") (ascii "+-") true ≡ ok (ascii "a+-b+-c")
unfolding strsub ◌-ℤ◌
swapped = refl

last_one : strrindex (ascii "abcab") (ascii "AB") false ≡ ok (pos 4)
unfolding strrindex mystrncasecmp strlen_utf get_utf ◌-ℤ◌ ◌+ℤ◌
last_one = refl

strsub_parts_example :
    Parted
      (ascii "a-b-c")
      (ascii "-")
      (ascii "+-")
      (strsub (ascii "a-b-c") (ascii "-") (ascii "+-") true)
strsub_parts_example = strsub_parts (ascii "a-b-c") (ascii "-") (ascii "+-") (omega arith) (λ e. cc)

-- "a", the euro sign, "b"
abbrev price : List ℕ
price = 0x61 ∷ 0x20ac ∷ 0x62 ∷ []

price_found : strindex (encode price) (encode (0x20ac ∷ [])) true ≡ ok 2
unfolding strindex encode utf8 put_utf get_utf ◌-ℤ◌
price_found = refl

strindex_first_example :
    (n : ℕ) × (strindex (encode price) (encode (0x20ac ∷ [])) true ≡ ok n)
    × Answers true (encode (0x20ac ∷ [])) price n
strindex_first_example = strindex_first true (encode (0x20ac ∷ [])) price (omega arith)

-- "é ab"
strrindex_missed_example :
    (strindex (0xc3 ∷ 0xa9 ∷ 0x20 ∷ 0x61 ∷ 0x62 ∷ []) (0xc3 ∷ 0xa9 ∷ []) true ≡ ok 1)
    × (strrindex (0xc3 ∷ 0xa9 ∷ 0x20 ∷ 0x61 ∷ 0x62 ∷ []) (0xc3 ∷ 0xa9 ∷ []) true ≡ ok (pos 0))
strrindex_missed_example =
    strrindex_missed 0xc3 0xa9 (omega arith) (omega arith) 0x20 0x61 (0x62 ∷ []) (omega arith)
