-- ===== src/Utf/Tests.antt =====
-- Runs of the UTF-8 routines, and the theorems at concrete strings.
use mathlib.Core.Option
use wp_lambdamoo.Prelude.{ℕ, ◌+◌, ◌-◌, ◌*◌, ◌≡◌, refl, ◌≢◌, some, List, [], ◌∷◌, ◌++◌, arith, pos}
use wp_lambdamoo.Utf.{get_utf, put_utf, invalid_rune}
use wp_lambdamoo.Utf.Client.{eof, get_utf_call}
use wp_lambdamoo.Utf.RoundTrip.{get_utf-put_utf}
use wp_lambdamoo.Utf.Canonical.{put_utf-get_utf}
use wp_lambdamoo.Utf.Overrun.{get_utf_call_swallows}

euro : put_utf 0x20ac ≡ some (0xe2 ∷ 0x82 ∷ 0xac ∷ [])
unfolding put_utf
euro = refl

-- The sequence of the comment above `get_utf_call`.
too_short : get_utf (0xe3 ∷ 0x80 ∷ 0x41 ∷ []) ≡ (invalid_rune, 0x41 ∷ [])
unfolding get_utf
too_short = refl

too_short_call :
    get_utf_call (0xe3 ∷ 0x80 ∷ 0x41 ∷ []) eof
    ≡ record { value = pos 0x2fc1; state = eof; rest = [] }
unfolding get_utf_call
too_short_call = refl

get_utf-put_utf_example : get_utf (0xe2 ∷ 0x82 ∷ 0xac ∷ 0x41 ∷ []) ≡ (0x20ac, 0x41 ∷ [])
get_utf-put_utf_example = get_utf-put_utf 0x20ac (0xe2 ∷ 0x82 ∷ 0xac ∷ []) (0x41 ∷ []) euro

read_euro : get_utf (0xe2 ∷ 0x82 ∷ 0xac ∷ 0x41 ∷ []) ≡ (0x20ac, 0x41 ∷ [])
unfolding get_utf
read_euro = refl

put_utf-get_utf_example :
    Option.map (λ bs. bs ++ 0x41 ∷ []) (put_utf 0x20ac) ≡ some (0xe2 ∷ 0x82 ∷ 0xac ∷ 0x41 ∷ [])
put_utf-get_utf_example =
    put_utf-get_utf (0xe2 ∷ 0x82 ∷ 0xac ∷ 0x41 ∷ []) (0x41 ∷ []) 0x20ac (omega arith) (cc) read_euro
      (omega arith)

-- "a", the euro sign, "b"
abbrev price : List ℕ
price = 0x61 ∷ 0x20ac ∷ 0x62 ∷ []

get_utf_call_swallows_example :
    (get_utf (0xc9 ∷ 0x41 ∷ []) ≡ (invalid_rune, 0x41 ∷ []))
    × (get_utf_call (0xc9 ∷ 0x41 ∷ []) eof
        ≡ record { value = pos ((0xc9 - 0xc0) * 64 + 0x41 - 0x80); state = eof; rest = [] })
    × ((0xc9 - 0xc0) * 64 + 0x41 - 0x80 ≢ invalid_rune)
get_utf_call_swallows_example =
    get_utf_call_swallows 0xc9 0x41 [] (omega arith) (omega arith) (omega arith)
