-- ===== src/Utf/Client.antt =====
-- `get_utf_call` of utf.c, the reader of the parser's lexer: bytes come from a client, and a byte
-- that was read too far waits in `state`. Its bytes are ints, and it subtracts without wrapping.
use wp_lambdamoo.Prelude.{
  ℕ, Bool, ◌&&◌, ◌||◌, List, [], ◌∷◌, leb, if◌then◌else◌, ℤ, pos, negsuc, ◌+ℤ◌, ◌-ℤ◌, ◌*ℤ◌, leb_ℤ,
  ltb_ℤ, ◌==ℤ◌,
}
use wp_lambdamoo.Utf.{invalid_rune, low_bits}

-- EOF, which is also the empty `state`
abbrev pub eof : ℤ
eof = negsuc 0

-- `c_getch(c_data)`: the next byte of what the client has left, or EOF.
abbrev pub getch : List ℕ → ℤ × List ℕ
getch [] = (eof, [])
getch (c ∷ p) = (pos c, p)

-- What GET_CONT leaves: the value so far, or the byte `cc` that made it jump to `bad_cont`.
pub data CallScan : Type 0 where
  cont : ℤ → List ℕ → CallScan
  bad_cont : ℤ → List ℕ → CallScan

-- GET_CONT of `get_utf_call`: `c` is an int, so `c - 0x80` may be negative and then passes the test.
abbrev pub get_cont_of : ℤ → ℤ × List ℕ → CallScan
get_cont_of v (cc, p) =
    let c = cc -ℤ pos 0x80 in
    if ltb_ℤ (pos 0x3f) c then bad_cont cc p else cont (v *ℤ pos 64 +ℤ c) p

unfoldable pub get_cont : ℤ → List ℕ → CallScan
unfolding ◌-ℤ◌ ◌+ℤ◌ ◌*ℤ◌
get_cont v p = get_cont_of v (getch p)

abbrev pub then_scan : CallScan → (ℤ → List ℕ → CallScan) → CallScan
then_scan (cont v p) k = k v p
then_scan (bad_cont cc p) k = bad_cont cc p

-- The value read, the new `state` and what the client has left.
pub record Call : Type 0 where
  pub value : ℤ
  pub state : ℤ
  pub rest : List ℕ

abbrev pub finish : (ℤ → Bool) → CallScan → Call
finish bad (cont v p) = record {
  value = if bad v then pos invalid_rune else v;
  state = eof;
  rest = p;
}
finish bad (bad_cont cc p) = record { value = pos invalid_rune; state = cc; rest = p }

abbrev pub bad2 : ℤ → Bool
bad2 v = leb_ℤ v (pos 0x7f)

abbrev pub bad3 : ℤ → Bool
bad3 v = leb_ℤ v (pos 0x7ff) || (leb_ℤ (pos 0xd800) v && leb_ℤ v (pos 0xdfff))

abbrev pub bad4 : ℤ → Bool
bad4 v = leb_ℤ v (pos 0xffff) || ltb_ℤ (pos 0x10ffff) v

-- The ladder on the first byte, which is not EOF.
abbrev pub dispatch : ℕ → List ℕ → Call
dispatch c p =
    if leb c 0x7f
    then record { value = pos c; state = eof; rest = p }
    else if leb c 0xbf
    then record { value = pos invalid_rune; state = eof; rest = p }
    else if leb c 0xdf
    then finish bad2 (get_cont (pos (low_bits c 5)) p)
    else if leb c 0xef
    then finish bad3 (then_scan (get_cont (pos (low_bits c 4)) p) get_cont)
    else if leb c 0xf7
    then finish bad4 (then_scan (then_scan (get_cont (pos (low_bits c 3)) p) get_cont) get_cont)
    else record { value = pos invalid_rune; state = eof; rest = p }

-- The first byte, from `state` or from the client. A negative `c` that is not EOF does not occur:
-- `state` is EOF or a byte that was read.
abbrev start_with : ℤ × List ℕ → Call
start_with (pos c, p) = dispatch c p
start_with (negsuc n, p) = record { value = eof; state = eof; rest = p }

unfoldable pub get_utf_call : List ℕ → ℤ → Call
unfolding get_cont
get_utf_call p state = if state ==ℤ eof then start_with (getch p) else start_with (state, p)
